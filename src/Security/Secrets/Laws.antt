-- ===== src/Security/Secrets/Laws.antt =====
-- A secret that was stored is read back, and what is stored is never stored in clear.
use Prim.Native.Char.{Char}
use text.Mathlib.TextLemmas.{nil-append, cons-append, append_assoc}
use text.Mathlib.TextPositions.{starts_with-append}
use text.Mathlib.Text.{starts_with}
use stackaura_checkout_api.Base.{
  String, true, false, Option, none, some, [], ◌∷◌, ◌≡◌, refl, sym, ap, ◌∙◌, string_eq, Bool-cases,
  Option-cases, inl, inr,
}
use stackaura_checkout_api.Base.Split.{
  split, is_char, Avoids, split_of_Avoids, split-append, append-Avoids,
}
use stackaura_checkout_api.Base.Text.{
  trim, truthy, trim_to_null, non_blank, trim_to_null_idem, ◌<>◌, is_blank, trim_of_Avoids,
}
use stackaura_checkout_api.Base.Result.{ok, >>=-eq-ok, of_ok}
use stackaura_checkout_api.Domain.{Env}
use stackaura_checkout_api.Security.Secrets.{
  is_marked, encrypt_trimmed, decrypt_trimmed, Sealed, Cipher, separator, stored_form,
  is_encrypted_secret, cipher_key, encrypt_stored_secret, decrypt_parts, decrypt_stored_secret,
}

-- A text of base64url that is not empty: no white space and no colon.
abbrev pub IsWord : String → Type 0
IsWord s = Avoids is_blank s × Avoids (is_char separator) s × (truthy s ≡ true)

-- A piece of a text is ended by a colon.
split_colon :
    (s t : String)
    → Avoids (is_char separator) s
    → split (is_char separator) (s <> (":" <> t)) ≡ s ∷ split (is_char separator) t
split_colon s t h =
    let colon : Char = ":" in
    let cut : ":" <> t ≡ String.◌∷◌ colon t =
      cons-append colon "" t ∙ ap (λ u. String.◌∷◌ colon u) (nil-append t) in
    ap (λ u. split (is_char separator) (s <> u)) cut
    ∙ split-append (is_char separator) s colon t h refl

stored_form-Avoids :
    (iv : String) (sealed : Sealed)
    → IsWord iv
    → IsWord sealed.tag
    → IsWord sealed.payload
    → Avoids is_blank (stored_form iv sealed)
unfolding is_blank
stored_form-Avoids iv sealed (i, _, _) (t, _, _) (p, _, _) =
    let colon : (s : String) → Avoids is_blank s → Avoids is_blank (":" <> s) =
      λ s h. append-Avoids is_blank ":" s (refl, tt) h in
    append-Avoids is_blank "enc:v1" _ (refl, (refl, (refl, (refl, (refl, (refl, tt))))))
      (colon _ (
        append-Avoids is_blank iv _ i
          (colon _ (append-Avoids is_blank sealed.tag _ t (colon _ p)))))

stored_form-starts :
    (iv : String) (sealed : Sealed) → starts_with (stored_form iv sealed) "enc:v1:" ≡ true
stored_form-starts iv sealed =
    let rest = iv <> (":" <> (sealed.tag <> (":" <> sealed.payload))) in
    let whole : "enc:v1:" <> rest ≡ stored_form iv sealed = append_assoc "enc:v1" ":" rest in
    ap (λ s. starts_with s "enc:v1:") (sym whole) ∙ starts_with-append "enc:v1:" rest

stored_form-split :
    (iv : String) (sealed : Sealed)
    → IsWord iv
    → IsWord sealed.tag
    → IsWord sealed.payload
    → split (is_char separator) (stored_form iv sealed)
      ≡ "enc" ∷ "v1" ∷ iv ∷ sealed.tag ∷ sealed.payload ∷ []
stored_form-split iv sealed (_, i, _) (_, t, _) (_, p, _) =
    let rest = iv <> (":" <> (sealed.tag <> (":" <> sealed.payload))) in
    let whole : stored_form iv sealed ≡ "enc" <> (":" <> ("v1" <> (":" <> rest))) =
      append_assoc "enc" ":v1" (":" <> rest)
      ∙ ap (λ s. "enc" <> s) (append_assoc ":" "v1" (":" <> rest)) in
    ap (split (is_char separator)) whole
    ∙ split_colon "enc" ("v1" <> (":" <> rest)) (refl, (refl, (refl, tt)))
    ∙ ap (λ ws. "enc" ∷ ws)
        (split_colon "v1" rest (refl, (refl, tt))
          ∙ ap (λ ws. "v1" ∷ ws)
              (split_colon iv (sealed.tag <> (":" <> sealed.payload)) i
                ∙ ap (λ ws. iv ∷ ws)
                    (split_colon sealed.tag sealed.payload t
                      ∙ ap (λ ws. sealed.tag ∷ ws) (split_of_Avoids _ sealed.payload p))))

stored_form-trim_to_null :
    (iv : String) (sealed : Sealed)
    → IsWord iv
    → IsWord sealed.tag
    → IsWord sealed.payload
    → trim_to_null (some (stored_form iv sealed)) ≡ some (stored_form iv sealed)
unfolding trim_to_null non_blank
stored_form-trim_to_null iv sealed i t p =
    let same = trim_of_Avoids (stored_form iv sealed) (stored_form-Avoids iv sealed i t p) in
    let first : truthy (stored_form iv sealed) ≡ true =
      ap truthy (
        cons-append "e" "nc:v1"
          (":" <> (iv <> (":" <> (sealed.tag <> (":" <> sealed.payload)))))) in
    rw (same, first) refl

stored_form-is_encrypted_secret :
    (iv : String) (sealed : Sealed)
    → IsWord iv
    → IsWord sealed.tag
    → IsWord sealed.payload
    → is_encrypted_secret (some (stored_form iv sealed)) ≡ true
unfolding is_encrypted_secret
stored_form-is_encrypted_secret iv sealed i t p =
    ap is_marked (stored_form-trim_to_null iv sealed i t p) ∙ stored_form-starts iv sealed

-- A text without white space around it, as `trimToNull` gives it.
trim_to_null-some :
    (value : Option String) (t : String)
    → trim_to_null value ≡ some t
    → (trim_to_null (some t) ≡ some t) × (truthy t ≡ true)
unfolding trim_to_null non_blank
trim_to_null-some value t e =
    let again : trim_to_null (some t) ≡ some t =
      ap trim_to_null (sym e) ∙ trim_to_null_idem value ∙ e in
    (
      again,
      elim (Bool-cases (truthy (trim t))) [
        | inl h ↦
            let e' : some (trim t) ≡ some t = rw h at again in
            let same : trim t ≡ t = cc in ap truthy (sym same) ∙ h
        | inr h ↦ let e' : none ≡ some t = rw h at again in absurd (cc)
      ],
    )

is_encrypted_secret-trimmed :
    (value : Option String) (t : String)
    → trim_to_null value ≡ some t
    → is_encrypted_secret (some t) ≡ is_encrypted_secret value
unfolding is_encrypted_secret
is_encrypted_secret-trimmed value t e = ap is_marked ((trim_to_null-some value t e).0 ∙ sym e)

module _ (env : Env) (cipher : Cipher) where
  -- What is relied on of the cipher, for the text of a value and the key of the environment: its two
  -- parts are words, and it is undone with the same key and vector.
  abbrev pub IsSound : String → Option String → Type 0
  IsSound iv value =
      (key t : String)
      → cipher_key env cipher ≡ ok key
      → trim_to_null value ≡ some t
      → let sealed = cipher.seal key iv t in
        IsWord sealed.tag × IsWord sealed.payload × (cipher.unseal key iv sealed ≡ some t)

  -- What is stored of a text that is not encrypted yet.
  encrypt_inv :
      (iv : String) (value : Option String) (t : String) (stored : Option String)
      → trim_to_null value ≡ some t
      → is_encrypted_secret value ≡ false
      → encrypt_stored_secret env cipher iv value ≡ ok stored
      → (key : String) × (cipher_key env cipher ≡ ok key)
        × (stored ≡ some (stored_form iv (cipher.seal key iv t)))
  unfolding encrypt_stored_secret
  encrypt_inv iv value t stored given clear e =
      let fresh = is_encrypted_secret-trimmed value t given ∙ clear in
      let (key, known, e') =
        >>=-eq-ok (cipher_key env cipher) _
          (rw fresh at (sym (ap (encrypt_trimmed env cipher iv) given) ∙ e)) in
      (key, known, sym (of_ok e'))

  -- The parts of a stored form are decrypted.
  decrypt-stored_form :
      (key iv t : String) (sealed : Sealed)
      → IsWord iv
      → IsWord sealed.tag
      → IsWord sealed.payload
      → cipher_key env cipher ≡ ok key
      → cipher.unseal key iv sealed ≡ some t
      → decrypt_trimmed env cipher (some (stored_form iv sealed)) ≡ ok (trim_to_null (some t))
  decrypt-stored_form key iv t sealed word tag payload known back =
      rw (stored_form-is_encrypted_secret iv sealed word tag payload) (
        ap (decrypt_parts env cipher) (stored_form-split iv sealed word tag payload)
        ∙ rw (word.2, tag.2, payload.2) (rw (known, back) refl))

  -- A secret that does not itself start with the mark of what is encrypted (`enc:v1:`) is read back
  -- from what is stored as it was given, but for the white space around it, if the cipher is sound
  -- for its text and the random vector is a word of base64url.
  pub decrypt-encrypt :
      (iv : String) (value : Option String) (stored : Option String)
      → IsSound iv value
      → IsWord iv
      → is_encrypted_secret value ≡ false
      → encrypt_stored_secret env cipher iv value ≡ ok stored
      → decrypt_stored_secret env cipher stored ≡ ok (trim_to_null value)
  unfolding decrypt_stored_secret encrypt_stored_secret trim_to_null
  decrypt-encrypt iv value stored sound word clear e = elim (Option-cases (trim_to_null value)) [
    | inl given ↦
        let nothing : none ≡ stored = of_ok (sym (ap (encrypt_trimmed env cipher iv) given) ∙ e) in
        ap (decrypt_stored_secret env cipher) (sym nothing) ∙ ap ok (sym given)
    | inr (t, given) ↦
        let (key, known, whole) = encrypt_inv iv value t stored given clear e in
        let same = (trim_to_null-some value t given).0 in
        let sealed = cipher.seal key iv t in
        let (tag, payload, back) = sound key t known given in
        ap (decrypt_stored_secret env cipher) whole
        ∙ ap (decrypt_trimmed env cipher) (stored_form-trim_to_null iv sealed word tag payload)
        ∙ decrypt-stored_form key iv t sealed word tag payload known back
        ∙ ap ok (same ∙ sym given)
  ]

  -- What is stored is marked as encrypted and has no white space around it.
  pub encrypt-is_encrypted_secret :
      (iv : String) (value : Option String) (stored : String)
      → IsSound iv value
      → IsWord iv
      → encrypt_stored_secret env cipher iv value ≡ ok (some stored)
      → (is_encrypted_secret (some stored) ≡ true) × (trim_to_null (some stored) ≡ some stored)
  unfolding encrypt_stored_secret
  encrypt-is_encrypted_secret iv value stored sound word e =
      elim (Option-cases (trim_to_null value)) [
        | inl given ↦
            let bad : none ≡ some stored =
              of_ok (sym (ap (encrypt_trimmed env cipher iv) given) ∙ e) in
            absurd (cc)
        | inr (t, given) ↦ elim (Bool-cases (is_encrypted_secret (some t))) [
          | inl marked ↦
              let e' : ok (some t) ≡ ok (some stored) =
                rw marked at (sym (ap (encrypt_trimmed env cipher iv) given) ∙ e) in
              let same : t ≡ stored = cc in
              rw (← same) (marked, (trim_to_null-some value t given).0)
          | inr clear ↦
              let (key, known, whole) =
                encrypt_inv iv value t (some stored) given
                  (sym (is_encrypted_secret-trimmed value t given) ∙ clear) e in
              let sealed = cipher.seal key iv t in
              let (tag, payload, _) = sound key t known given in
              let same : stored ≡ stored_form iv sealed = cc in
              rw same (
                stored_form-is_encrypted_secret iv sealed word tag payload,
                stored_form-trim_to_null iv sealed word tag payload,
              )
        ]
      ]

  -- Storing again what is stored changes nothing, whatever vector is drawn: no secret is encrypted
  -- twice.
  pub encrypt-encrypt :
      (iv again : String) (value : Option String) (stored : String)
      → IsSound iv value
      → IsWord iv
      → encrypt_stored_secret env cipher iv value ≡ ok (some stored)
      → encrypt_stored_secret env cipher again (some stored) ≡ ok (some stored)
  unfolding encrypt_stored_secret
  encrypt-encrypt iv again value stored sound word e =
      let (marked, same) = encrypt-is_encrypted_secret iv value stored sound word e in
      ap (encrypt_trimmed env cipher again) same ∙ rw marked refl
