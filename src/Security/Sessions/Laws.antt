-- ===== src/Security/Sessions/Laws.antt =====
-- A session that was signed is recognised until it expires, and no other one is.
use Prim.Native.Char.{Char}
use Prim.Native.String.{[], ◌∷◌}
use mathlib.Core.Path.{subst}
use text.Mathlib.TextLemmas.{nil-append, cons-append, append_assoc}
use text.Mathlib.TextPositions.{eq_refl}
use text.Mathlib.TextEquality.{eq_iff}
use stackaura_checkout_api.Base.{
  ℕ, String, Bool, true, false, Option, none, some, List, [], ◌∷◌, ◌≡◌, refl, sym, ap, ◌∙◌, ◌==◌,
  ◌&&◌, ◌||◌, not, ◌+◌, ◌≤◌, ◌<◌, ltb, nat_eq, string_eq, find?, All, Bool-cases, Option-cases, inl,
  inr, arith,
}
use stackaura_checkout_api.Base.Split.{split, is_char, Avoids, split_of_Avoids, split-append}
use stackaura_checkout_api.Base.Text.{trim, to_lower, truthy, ◌<>◌}
use stackaura_checkout_api.Base.Result.{
  bad_request, unauthorized, Result, ok, >>=-eq-ok, >>-eq-ok, require, require_inv, of_ok,
}
use stackaura_checkout_api.Domain.{Env}
use stackaura_checkout_api.Store.Keys.{All-find}
use stackaura_checkout_api.Security.Sessions.{
  User, Session, Login, Primitives, dot, resolve_session_secret, payload_of, sign_session,
  check_signature, check_time, check_parts, verify_session, with_password, login, resolve_session,
  session_guard,
}

-- A text without a dot.
abbrev pub IsPart : String → Type 0
IsPart s = Avoids (is_char dot) s

-- What is relied on of Node: numbers are read as they are written, without a dot, and base64url has
-- no dot.
abbrev pub IsFaithful : Primitives → Type 0
IsFaithful node =
    ((n : ℕ) → IsPart (node.show_number n) × (node.number (node.show_number n) ≡ some n))
    × ((secret text : String) → IsPart (node.hmac secret text))

split-dot :
    (s t : String) → IsPart s → split (is_char dot) (s <> ("." <> t)) ≡ s ∷ split (is_char dot) t
split-dot s t h =
    let point : Char = "." in
    let cut : "." <> t ≡ String.◌∷◌ point t =
      cons-append point "" t ∙ ap (λ u. String.◌∷◌ point u) (nil-append t) in
    ap (λ u. split (is_char dot) (s <> u)) cut ∙ split-append (is_char dot) s point t h refl

truthy-append : (s t : String) → truthy s ≡ true → truthy (s <> t) ≡ true
truthy-append [] t h = absurd (cc)
truthy-append (c ∷ s) t h = ap truthy (cons-append c s t)

All-found :
    (p : User → Bool) (users : List User) {u : User}
    → All (λ (v : User). IsPart v.id × (truthy v.id ≡ true)) users
    → find? p users ≡ some u
    → IsPart u.id × (truthy u.id ≡ true)
All-found p users ids found =
    All-find (λ (u : User). u.id) (λ v. IsPart v.id × (truthy v.id ≡ true)) p users ids found

-- A condition that holds of a row that was found finds a row too.
found_too :
    (p q : User → Bool) (users : List User) {u : User}
    → find? p users ≡ some u
    → q u ≡ true
    → (v : User) × (find? q users ≡ some v) × (q v ≡ true)
found_too p q [] e h = absurd (cc)
found_too p q (v ∷ users) {u} e h = elim (Bool-cases (q v)) [
  | inl t ↦ (v, rw t refl, t)
  | inr f ↦ elim (Bool-cases (p v)) [
    | inl t ↦
        let e' : some v ≡ some u = rw t at e in
        let same : v ≡ u = cc in let bad : true ≡ false = sym h ∙ ap q (sym same) ∙ f in absurd (cc)
    | inr n ↦ let (w, found, holds) = found_too p q users (rw n at e) h in (w, rw f found, holds)
  ]
]

module _ (env : Env) (node : Primitives) where
  -- A token that was signed is verified until it expires, as the session that it was signed for.
  pub verify-sign :
      (user_id : String) (expires_at now : ℕ) (token : String)
      → IsFaithful node
      → IsPart user_id
      → truthy user_id ≡ true
      → 0 < expires_at
      → now ≤ expires_at
      → sign_session env node user_id expires_at ≡ ok token
      → verify_session env node now (some token)
        ≡ ok (some (record { user_id = user_id; expires_at = expires_at }))
  unfolding sign_session verify_session
  verify-sign user_id expires_at now token (numbers, macs) part named positive live e =
      let (secret, known, e') = >>=-eq-ok (resolve_session_secret env) _ e in
      let payload = payload_of env node user_id expires_at in
      let signature = node.hmac secret payload in
      let (digits, read) = numbers expires_at in
      let whole : payload <> ("." <> signature) ≡ token = of_ok e' in
      let parts : split (is_char dot) (payload <> ("." <> signature))
          ≡ user_id ∷ node.show_number expires_at ∷ signature ∷ [] =
        ap (split (is_char dot))
          (append_assoc user_id ("." <> node.show_number expires_at) ("." <> signature))
        ∙ ap (λ u. split (is_char dot) (user_id <> u))
            (append_assoc "." (node.show_number expires_at) ("." <> signature))
        ∙ split-dot user_id _ part
        ∙ ap (λ ws. user_id ∷ ws)
            (split-dot (node.show_number expires_at) signature digits
              ∙ ap (λ ws. node.show_number expires_at ∷ ws)
                  (split_of_Avoids _ signature (macs secret payload))) in
      let there : truthy (payload <> ("." <> signature)) ≡ true =
        truthy-append payload _ (truthy-append user_id _ named) in
      let later : (expires_at == 0 || ltb expires_at now) ≡ false =
        ground (arith, positive, live) in
      ap (λ t. verify_session env node now (some t)) (sym whole)
      ∙ rw there (
          ap (check_parts env node now) parts
          ∙ ap (λ o. check_time env node now user_id o signature) read
          ∙ rw (named, later, known, eq_refl) refl)

  abbrev pub IsSigned : ℕ → List String → Session → Type 0
  IsSigned now parts s =
      (secret raw : String) × (resolve_session_secret env ≡ ok secret)
      × (node.number raw ≡ some s.expires_at)
      × (parts
          ≡ s.user_id ∷ raw ∷ node.hmac secret (payload_of env node s.user_id s.expires_at) ∷ [])
      × (now ≤ s.expires_at)

  no_session : (s : Session) → ¬ (◌≡◌ {A = Result (Option Session)} (ok none) (ok (some s)))
  no_session s h = let bad : none ≡ some s = of_ok h in absurd (cc)

  check_signature_inv :
      (user_id signature : String) (expires_at : ℕ) (s : Session)
      → check_signature env node user_id expires_at signature ≡ ok (some s)
      → (secret : String) × (resolve_session_secret env ≡ ok secret)
        × (signature ≡ node.hmac secret (payload_of env node user_id expires_at))
        × (record { user_id = user_id; expires_at = expires_at } ≡ s)
  check_signature_inv user_id signature expires_at s e =
      let (secret, known, e') = >>=-eq-ok (resolve_session_secret env) _ e in
      let mac = node.hmac secret (payload_of env node user_id expires_at) in
      elim (Bool-cases (signature == mac)) [
        | inl t ↦
            let own : some (record { user_id = user_id; expires_at = expires_at }) ≡ some s =
              of_ok (rw t at e') in
            (secret, known, (eq_iff signature mac).0 t, cc)
        | inr f ↦ absurd (no_session s (rw f at e'))
      ]

  check_parts_inv :
      (now : ℕ) (parts : List String) (s : Session)
      → check_parts env node now parts ≡ ok (some s)
      → IsSigned now parts s
  check_parts_inv now [] s e = absurd (no_session s e)
  check_parts_inv now (a ∷ []) s e = absurd (no_session s e)
  check_parts_inv now (a ∷ b ∷ []) s e = absurd (no_session s e)
  check_parts_inv now (a ∷ b ∷ c ∷ d ∷ rest) s e = absurd (no_session s e)
  check_parts_inv now (a ∷ b ∷ c ∷ []) s e = elim (Option-cases (node.number b)) [
    | inl none_read ↦
        absurd (no_session s (sym (ap (λ o. check_time env node now a o c) none_read) ∙ e))
    | inr (n, read) ↦
        let e' = sym (ap (λ o. check_time env node now a o c) read) ∙ e in
        elim (Bool-cases (not (truthy a) || n == 0 || ltb n now)) [
          | inl t ↦ absurd (no_session s (rw t at e'))
          | inr f ↦
              let (secret, known, mac, own) = check_signature_inv a c n s (rw f at e') in
              let live : now ≤ n = ground (arith, f) in
              subst (IsSigned now (a ∷ b ∷ c ∷ [])) own
                (secret, b, known, read, ap (λ m. a ∷ b ∷ m ∷ []) mac, live)
        ]
  ]

  -- A token that is verified has three parts: the user, the time, which has not passed, and the
  -- signature of the two by the secret of the environment.
  pub verify_session_inv :
      (now : ℕ) (token : String) (s : Session)
      → verify_session env node now (some token) ≡ ok (some s)
      → IsSigned now (split (is_char dot) token) s
  unfolding verify_session
  verify_session_inv now token s e = elim (Bool-cases (truthy token)) [
    | inl t ↦ check_parts_inv now _ s (rw t at e)
    | inr f ↦ absurd (no_session s (rw f at e))
  ]

  with_password_inv :
      (password : String) (o : Option User) (user : User)
      → with_password env node password o ≡ ok user
      → o ≡ some user
  with_password_inv password none user e = absurd (cc)
  with_password_inv password (some u) user e =
      let (_, e') = require_inv _ _ _ e in ap some (of_ok e')

  -- The session of a login is admitted by the guard of a route that is not public until it expires,
  -- as a user with the id that logged in, if the ids of users are not empty and have no dot in them.
  pub login-session_guard :
      (ttl now instant : ℕ) (email password : String) (users : List User) (l : Login)
      → IsFaithful node
      → All (λ (u : User). IsPart u.id × (truthy u.id ≡ true)) users
      → 0 < now
      → instant ≤ l.expires_at
      → login env node ttl now email password users ≡ ok l
      → (u : User) × (session_guard env node false instant (some l.session_token) users
          ≡ ok (some u))
        × (u.id ≡ l.user_id)
  unfolding login session_guard resolve_session
  login-session_guard ttl now instant email_raw password users l faithful ids positive live e =
      let email = to_lower (trim email_raw) in
      let (_, e0) =
        >>-eq-ok
          (require (truthy email && truthy password)
            (bad_request "email and password are required"))
          _ e in
      let (user, checked, e1) =
        >>=-eq-ok (with_password env node password (find? (λ (u : User). u.email == email) users)) _
          e0 in
      let (_, e2) =
        >>-eq-ok
          (require user.is_active (unauthorized "Account not active. Complete signup to continue."))
          _ e1 in
      let (token, signed, e3) = >>=-eq-ok (sign_session env node user.id (now + ttl)) _ e2 in
      let whole = of_ok e3 in
      let found = with_password_inv password _ user checked in
      let (part, named) = All-found (λ (u : User). u.email == email) users ids found in
      let until : now + ttl ≡ l.expires_at = ap (λ (o : Login). o.expires_at) whole in
      let verified =
        verify-sign user.id (now + ttl) instant token faithful part named (omega (arith, positive))
          (omega (arith, live, until)) signed in
      let (u, there, same) =
        found_too (λ (u : User). u.email == email) (λ (u : User). u.id == user.id) users found
          (eq_refl user.id) in
      let token_of : token ≡ l.session_token = ap (λ (o : Login). o.session_token) whole in
      let id_of : user.id ≡ l.user_id = ap (λ (o : Login). o.user_id) whole in
      (
        u,
        ap (λ t. session_guard env node false instant (some t) users) (sym token_of)
            ∙ rw (verified, there) refl,
        (eq_iff u.id user.id).0 same ∙ id_of,
      )
