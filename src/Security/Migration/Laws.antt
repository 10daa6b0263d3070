-- ===== src/Security/Migration/Laws.antt =====
-- The migration leaves no secret in clear, and readers see the secrets that they saw before.
use mathlib.Core.Path.{subst}
use stackaura_checkout_api.Base.{
  String, Bool, true, false, not, Option, none, some, List, [], ◌∷◌, ◌==◌, ◌&&◌, ◌≡◌, ◌⊎◌, refl,
  sym, ap, ◌∙◌, find?, contains, inl, inr, Bool-cases, Option-cases, arith,
}
use stackaura_checkout_api.Base.Text.{truthy, trim_to_null, trim_to_null_idem}
use stackaura_checkout_api.Base.Result.{ok, of_ok, >>=-eq-ok}
use stackaura_checkout_api.Domain.{Env}
use stackaura_checkout_api.Security.Secrets.{
  Cipher, is_encrypted_secret, encrypt_stored_secret, decrypt_stored_secret, decrypt_trimmed,
}
use stackaura_checkout_api.Security.Secrets.Laws.{
  IsSound, IsWord, decrypt-encrypt, encrypt-is_encrypted_secret,
}
use stackaura_checkout_api.Security.Migration.{
  MerchantSecretField, field_eq, field_beq_iff, merchant_secret_fields, MerchantSecretRecord,
  FieldValue, MerchantSecretUpdate, is_plaintext, plaintext_of,
  get_plaintext_merchant_secret_fields, backup_of, build_merchant_secret_backup_entry,
  encrypt_fields, update_of, backup_entry, build_encrypted_merchant_secret_update, write_fields,
}

pub all_listed : (f : MerchantSecretField) → contains merchant_secret_fields f ≡ true
all_listed f = ground arith

both : (a b : Bool) → (a && not b) ≡ true → (a ≡ true) × (b ≡ false)
both a b h = ground arith

-- A text in clear, without the white space around it.
plaintext_inv :
    (value : Option String)
    → is_plaintext value ≡ true
    → (t : String) × (trim_to_null value ≡ some t) × (is_encrypted_secret (some t) ≡ false)
plaintext_inv value h = elim (Option-cases (trim_to_null value)) [
  | inl n ↦ let h' : false ≡ true = rw n at h in absurd (cc)
  | inr (t, given) ↦
      let h' : (truthy t && not (is_encrypted_secret (some t))) ≡ true = rw given at h in
      (t, given, (both (truthy t) (is_encrypted_secret (some t)) h').1)
]

none_clear : is_plaintext none ≡ false
unfolding trim_to_null
none_clear = refl

and_not : (a b : Bool) → b ≡ true → (a && not b) ≡ false
and_not a b h = ground arith

marked_clear :
    (s : String)
    → trim_to_null (some s) ≡ some s
    → is_encrypted_secret (some s) ≡ true
    → is_plaintext (some s) ≡ false
marked_clear s same marked = rw same (and_not (truthy s) (is_encrypted_secret (some s)) marked)

module _ (env : Env) (cipher : Cipher) (iv : MerchantSecretField → String) where
  decrypt_plaintext :
      (value : Option String)
      → is_plaintext value ≡ true
      → decrypt_stored_secret env cipher value ≡ ok (trim_to_null value)
  unfolding decrypt_stored_secret
  decrypt_plaintext value h =
      let (t, given, clear) = plaintext_inv value h in
      ap (decrypt_trimmed env cipher) given ∙ rw clear (ap ok (sym given))

  -- What the update has for a field: its encrypted secret, or nothing, if it was not in clear.
  abbrev IsStored :
      MerchantSecretRecord
      → List MerchantSecretField
      → List FieldValue
      → MerchantSecretField
      → Type 0
  IsStored merchant fs stored f =
      ((entry : FieldValue) × (find? (λ (e : FieldValue). e.field == f) stored ≡ some entry)
        × (is_plaintext (merchant.secret f) ≡ true)
        × (encrypt_stored_secret env cipher (iv f) (trim_to_null (merchant.secret f))
            ≡ ok entry.value))
      ⊎ ((find? (λ (e : FieldValue). e.field == f) stored ≡ none)
          × (contains fs f ≡ true → is_plaintext (merchant.secret f) ≡ false))

  IsStored-head :
      (merchant : MerchantSecretRecord) (g f : MerchantSecretField) (fs : List MerchantSecretField)
      (v : Option String) (rest : List FieldValue)
      → is_plaintext (merchant.secret g) ≡ true
      → encrypt_stored_secret env cipher (iv g) (trim_to_null (merchant.secret g)) ≡ ok v
      → (g == f) ≡ true
      → IsStored merchant (g ∷ fs) (record { field = g; value = v } ∷ rest) f
  IsStored-head merchant g f fs v rest plain enc same =
      let g-f : g ≡ f = (field_beq_iff g f).0 same in
      inl (
        record { field = g; value = v },
        rw same refl,
        subst (λ h. is_plaintext (merchant.secret h) ≡ true) g-f plain,
        subst
            (λ h. encrypt_stored_secret env cipher (iv h) (trim_to_null (merchant.secret h)) ≡ ok v)
            g-f enc,
      )

  IsStored-cons :
      (merchant : MerchantSecretRecord) (g f : MerchantSecretField) (fs : List MerchantSecretField)
      (v : Option String) (rest : List FieldValue)
      → is_plaintext (merchant.secret g) ≡ true
      → encrypt_stored_secret env cipher (iv g) (trim_to_null (merchant.secret g)) ≡ ok v
      → IsStored merchant fs rest f
      → IsStored merchant (g ∷ fs) (record { field = g; value = v } ∷ rest) f
  IsStored-cons merchant g f fs v rest plain enc there = elim (Bool-cases (g == f)) [
    | inl same ↦ IsStored-head merchant g f fs v rest plain enc same
    | inr other ↦ elim there [
      | inl (entry, found, its, stored) ↦ inl (entry, rw other found, its, stored)
      | inr (missing, clear) ↦ inr (rw other missing, λ h. clear (rw other at h))
    ]
  ]

  IsStored-skip :
      (merchant : MerchantSecretRecord) (g f : MerchantSecretField) (fs : List MerchantSecretField)
      (stored : List FieldValue)
      → is_plaintext (merchant.secret g) ≡ false
      → IsStored merchant fs stored f
      → IsStored merchant (g ∷ fs) stored f
  IsStored-skip merchant g f fs stored not_plain (inl there) = inl there
  IsStored-skip merchant g f fs stored not_plain (inr (missing, clear)) = inr (
    missing,
    λ h. elim (Bool-cases (g == f)) [
      | inl same ↦
          subst (λ k. is_plaintext (merchant.secret k) ≡ false) ((field_beq_iff g f).0 same)
            not_plain
      | inr other ↦ clear (rw other at h)
    ],
  )

  encrypt_fields-IsStored :
      (merchant : MerchantSecretRecord) (fs : List MerchantSecretField) (stored : List FieldValue)
      (f : MerchantSecretField)
      → encrypt_fields env cipher iv (backup_of merchant (plaintext_of merchant fs)) ≡ ok stored
      → IsStored merchant fs stored f
  encrypt_fields-IsStored merchant [] stored f e =
      let same : [] ≡ stored = of_ok e in
      subst (λ s. IsStored merchant [] s f) same (inr (refl, λ h. cc))
  encrypt_fields-IsStored merchant (g ∷ fs) stored f e =
      elim (Bool-cases (is_plaintext (merchant.secret g))) [
        | inl plain ↦
            let e0 = rw plain at e in
            let (v, enc, e1) =
              >>=-eq-ok (encrypt_stored_secret env cipher (iv g) (trim_to_null (merchant.secret g)))
                _ e0 in
            let (rest, later, e2) =
              >>=-eq-ok
                (encrypt_fields env cipher iv (backup_of merchant (plaintext_of merchant fs))) _
                e1 in
            subst (λ s. IsStored merchant (g ∷ fs) s f) (of_ok e2)
              (IsStored-cons merchant g f fs v rest plain enc
                (encrypt_fields-IsStored merchant fs rest f later))
        | inr not_plain ↦
            IsStored-skip merchant g f fs stored not_plain
              (encrypt_fields-IsStored merchant fs stored f (rw not_plain at e))
      ]

  -- A secret in clear that has been encrypted.
  encrypted_lem :
      (value : Option String) (vector : String) (stored : Option String)
      → IsSound env cipher vector (trim_to_null value)
      → IsWord vector
      → is_plaintext value ≡ true
      → encrypt_stored_secret env cipher vector (trim_to_null value) ≡ ok stored
      → (is_plaintext stored ≡ false)
        × (decrypt_stored_secret env cipher stored ≡ decrypt_stored_secret env cipher value)
  encrypted_lem value vector stored sound word plain enc =
      let (t, given, clear) = plaintext_inv value plain in
      (
        elim (Option-cases stored) [
          | inl n ↦ ap is_plaintext n ∙ none_clear
          | inr (s, given_s) ↦
              let (marked, same) =
                encrypt-is_encrypted_secret env cipher vector (trim_to_null value) s sound word
                  (enc ∙ ap ok given_s) in
              ap is_plaintext given_s ∙ marked_clear s same marked
        ],
        decrypt-encrypt env cipher vector (trim_to_null value) stored sound word
              (ap is_encrypted_secret given ∙ clear) enc
            ∙ ap ok (trim_to_null_idem value)
            ∙ sym (decrypt_plaintext value plain),
      )

  -- The value of a field after the update.
  abbrev pub written :
      MerchantSecretRecord → MerchantSecretUpdate → MerchantSecretField → Option String
  written merchant update f = (write_fields update.stored_fields merchant).secret f

  abbrev stored_of : Option MerchantSecretUpdate → List FieldValue
  stored_of none = []
  stored_of (some update) = update.stored_fields

  update_of_inv :
      (merchant : MerchantSecretRecord) (fs : List MerchantSecretField)
      (update : MerchantSecretUpdate)
      → update_of env cipher iv merchant (backup_entry merchant fs) ≡ ok (some update)
      → encrypt_fields env cipher iv (backup_of merchant fs) ≡ ok update.stored_fields
  update_of_inv merchant [] update e = let bad : none ≡ some update = of_ok e in absurd (cc)
  update_of_inv merchant (f ∷ fs) update e =
      let (stored, done, e') =
        >>=-eq-ok (encrypt_fields env cipher iv (backup_of merchant (f ∷ fs))) _ e in
      done ∙ ap ok (ap stored_of (of_ok e'))

  build_inv :
      (merchant : MerchantSecretRecord) (update : MerchantSecretUpdate)
      → build_encrypted_merchant_secret_update env cipher iv merchant ≡ ok (some update)
      → encrypt_fields env cipher iv
          (backup_of merchant (plaintext_of merchant merchant_secret_fields))
        ≡ ok update.stored_fields
  unfolding build_encrypted_merchant_secret_update build_merchant_secret_backup_entry
      get_plaintext_merchant_secret_fields
  build_inv merchant update e =
      update_of_inv merchant (plaintext_of merchant merchant_secret_fields) update e

  -- A merchant's update leaves no secret in clear, and every secret is read as it was before, if the
  -- cipher is sound for its text and its random vector is a word of base64url.
  pub migrate_lem :
      (merchant : MerchantSecretRecord) (update : MerchantSecretUpdate) (f : MerchantSecretField)
      → IsSound env cipher (iv f) (trim_to_null (merchant.secret f))
      → IsWord (iv f)
      → build_encrypted_merchant_secret_update env cipher iv merchant ≡ ok (some update)
      → (is_plaintext (written merchant update f) ≡ false)
        × (decrypt_stored_secret env cipher (written merchant update f)
            ≡ decrypt_stored_secret env cipher (merchant.secret f))
  migrate_lem merchant update f sound word e =
      elim (encrypt_fields-IsStored merchant merchant_secret_fields update.stored_fields f
        (build_inv merchant update e)) [
          | inl (entry, found, plain, enc) ↦
              rw found (encrypted_lem (merchant.secret f) (iv f) entry.value sound word plain enc)
          | inr (missing, clear) ↦ rw missing (clear (all_listed f), refl)
        ]
