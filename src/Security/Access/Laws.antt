-- ===== src/Security/Access/Laws.antt =====
-- Which keys the guard of the API lets in.
use text.Mathlib.Text.{starts_with}
use text.Mathlib.TextEquality.{eq_iff}
use stackaura_checkout_api.Base.{
  String, Bool, true, false, not, Option, none, some, List, ◌≡◌, refl, sym, ap, ◌∙◌, ◌==◌, ◌&&◌,
  ◌||◌, string_eq, find?, ◌⊎◌, find?-sound, Bool-cases, Option-cases, inl, inr,
}
use stackaura_checkout_api.Base.Text.{truthy, to_lower}
use stackaura_checkout_api.Base.Result.{Error, ok, >>=-eq-ok, >>-eq-ok, of_ok, require, ◌>>◌}
use stackaura_checkout_api.Domain.{Env}
use stackaura_checkout_api.Security.Access.{
  auth_of, check_mode, check_configured, ApiKey, Header, ApiKeyAuth, resolve_api_key,
  assert_api_key_environment, find_api_key, is_unset, api_key_guard,
}

-- A key with a hash that was not revoked, of the merchant that the call is made for.
abbrev pub IsValid : String → List ApiKey → ApiKeyAuth → Type 0
IsValid hash keys auth =
    (row : ApiKey) × (find? (λ (k : ApiKey). k.key_hash == hash && is_unset k.revoked_at) keys
      ≡ some row)
    × (row.key_hash ≡ hash)
    × (row.revoked_at ≡ none)
    × (row.merchant_id ≡ auth.merchant_id)

is_live :
    (k : ApiKey) (hash : String)
    → (k.key_hash == hash && is_unset k.revoked_at) ≡ true
    → (k.key_hash ≡ hash) × (k.revoked_at ≡ none)
is_live k hash h = elim (Bool-cases (k.key_hash == hash)) [
  | inl t ↦ elim (Option-cases k.revoked_at) [
    | inl open_ended ↦ ((eq_iff k.key_hash hash).0 t, open_ended)
    | inr (time, revoked) ↦ let bad : false ≡ true = rw (t, revoked) at h in absurd (cc)
  ]
  | inr f ↦ let bad : false ≡ true = rw f at h in absurd (cc)
]

find_api_key_inv :
    (hash : String) (keys : List ApiKey) (auth : ApiKeyAuth)
    → find_api_key hash keys ≡ ok auth
    → IsValid hash keys auth
unfolding find_api_key
find_api_key_inv hash keys auth e =
    let test : ApiKey → Bool = λ k. k.key_hash == hash && is_unset k.revoked_at in
    elim (Option-cases (find? test keys)) [
      | inl missing ↦ let bad = sym (ap (auth_of hash) missing) ∙ e in absurd (cc)
      | inr (row, found) ↦
          let whole = of_ok (sym (ap (auth_of hash) found) ∙ e) in
          let (same, unset) = is_live row hash (find?-sound test keys found) in
          (row, found, same, unset, ap (λ (a : ApiKeyAuth). a.merchant_id) whole)
    ]

-- In a mode of the environment, keys of that mode only.
abbrev pub IsOfMode : Env → String → Type 0
IsOfMode env key =
    (mode : String)
    → env.var "API_KEY_ENV" ≡ some mode
    → truthy mode ≡ true
    → ((to_lower mode ≡ "live") × (starts_with key "ck_live_" ≡ true))
      ⊎ ((to_lower mode ≡ "test") × (starts_with key "ck_test_" ≡ true))

-- The three tests on the mode: whether it is the one mode or the other, and whether the key is of it.
tests_of_mode :
    (test live live_key test_key : Bool) (e e' e'' : Error)
    → (require (test || live) e
        >> (require (not live || live_key) e' >> require (not test || test_key) e''))
      ≡ ok tt
    → ((live ≡ true) × (live_key ≡ true)) ⊎ ((test ≡ true) × (test_key ≡ true))
tests_of_mode true live live_key true e e' e'' h = inr (refl, refl)
tests_of_mode true true true false e e' e'' h = absurd (cc)
tests_of_mode true true false false e e' e'' h = absurd (cc)
tests_of_mode true false live_key false e e' e'' h = absurd (cc)
tests_of_mode false true true test_key e e' e'' h = inl (refl, refl)
tests_of_mode false true false test_key e e' e'' h = absurd (cc)
tests_of_mode false false live_key test_key e e' e'' h = absurd (cc)

assert_api_key_environment_inv :
    (env : Env) (key : String) → assert_api_key_environment env key ≡ ok tt → IsOfMode env key
unfolding assert_api_key_environment
assert_api_key_environment_inv env key e mode set there =
    let e' : check_mode (to_lower mode) key ≡ ok tt =
      rw there at (sym (ap (λ o. check_configured o key) set) ∙ e) in
    elim (tests_of_mode _ (to_lower mode == "live") _ _ _ _ _ e') [
      | inl (live, starts) ↦ inl ((eq_iff (to_lower mode) "live").0 live, starts)
      | inr (test, starts) ↦ inr ((eq_iff (to_lower mode) "test").0 test, starts)
    ]

-- A call that is let in is on a route that is public or exempt, and then no key is read; or it has
-- sent a key that is stored, was not revoked, and is of the environment's mode where it sets one,
-- and it is made for the merchant of that key.
pub api_key_guard_inv :
    (is_public skip_api_key_guard : Bool) (env : Env) (sha256 : String → String)
    (authorization api_key : Header) (keys : List ApiKey) (admitted : Option ApiKeyAuth)
    → api_key_guard is_public skip_api_key_guard env sha256 authorization api_key keys ≡ ok admitted
    → (((is_public || skip_api_key_guard) ≡ true) × (admitted ≡ none))
      ⊎ (((is_public || skip_api_key_guard) ≡ false)
          × ((auth : ApiKeyAuth) × (admitted ≡ some auth)
              × ((key : String) × (resolve_api_key authorization api_key ≡ ok key)
                  × IsOfMode env key
                  × IsValid (sha256 key) keys auth)))
unfolding api_key_guard
api_key_guard_inv is_public skip env sha256 authorization api_key keys admitted e =
    elim (Bool-cases (is_public || skip)) [
      | inl t ↦ let e0 : ok none ≡ ok admitted = rw t at e in inl (t, sym (of_ok e0))
      | inr f ↦
          let (key, sent, e1) = >>=-eq-ok (resolve_api_key authorization api_key) _ (rw f at e) in
          let (mode, e2) = >>-eq-ok (assert_api_key_environment env key) _ e1 in
          let (auth, found, e3) = >>=-eq-ok (find_api_key (sha256 key) keys) _ e2 in
          inr (
            f,
            (
              auth,
              sym (of_ok e3),
              (
                key,
                sent,
                assert_api_key_environment_inv env key mode,
                find_api_key_inv (sha256 key) keys auth found,
              ),
            ),
          )
    ]
