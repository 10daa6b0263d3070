-- ===== src/Tests/Access.antt =====
-- A stored secret, a session, and a call with an API key.
use Prim.Native.Nat.{zero, suc}
use Prim.Native.String.{[], ◌∷◌}
use stackaura_checkout_api.Base.{
  ◌⊎◌, false, ℕ, String, true, false, Option, none, some, List, [], ◌∷◌, ◌==◌, ◌≡◌, refl, ap,
  string_eq, if◌then◌else◌, arith,
}
use stackaura_checkout_api.Base.Split.{split, is_char, Avoids}
use stackaura_checkout_api.Base.Text.{trim, trim_to_null, non_blank, to_lower, is_blank}
use stackaura_checkout_api.Base.Result.{ok}
use stackaura_checkout_api.Domain.{Env}
use stackaura_checkout_api.Security.Migration.{
  MerchantSecretRecord, MerchantSecretUpdate, yoco_secret_key, field_eq, is_plaintext,
  get_plaintext_merchant_secret_fields, build_merchant_secret_backup_entry,
  build_encrypted_merchant_secret_update,
}
use stackaura_checkout_api.Security.Migration.Laws.{written, migrate_lem}
use stackaura_checkout_api.Security.Secrets.{
  Cipher, is_encrypted_secret, resolve_credential_encryption_secret, encrypt_stored_secret,
  decrypt_stored_secret,
}
use stackaura_checkout_api.Security.Sessions.{
  User, Login, Primitives, dot, resolve_session_secret, sign_session, verify_session, login,
  session_guard,
}
use stackaura_checkout_api.Security.Sessions.Laws.{
  IsFaithful, IsSigned, login-session_guard, verify_session_inv,
}
use stackaura_checkout_api.Security.Access.{
  ApiKey, ApiKeyAuth, single, missing, resolve_api_key, assert_api_key_environment, find_api_key,
  api_key_guard,
}
use stackaura_checkout_api.Security.Access.Laws.{IsOfMode, IsValid, api_key_guard_inv}
use stackaura_checkout_api.Security.Secrets.Laws.{IsSound, IsWord, decrypt-encrypt}

abbrev env : Env
env = record {
  var = λ name.
      if name == "SESSION_SECRET"
      then some "s"
      else if name == "API_KEY_ENV"
      then some "Test"
      else none;
  number = λ text. none;
}

abbrev cipher : Cipher
cipher = record {
  sha256 = λ text. "K";
  seal = λ key iv text. record { tag = "T"; payload = "P" };
  unseal = λ key iv sealed. some "sk_1";
}

abbrev secret : Option String
secret = some " sk_1 "

abbrev stored : String
stored = "enc:v1:I:T:P"

word : IsWord "I"
unfolding is_blank
word = ((refl, tt), (refl, tt), refl)

sound : IsSound env cipher "I" secret
unfolding is_blank trim_to_null non_blank trim
sound key t known given =
    let same : "sk_1" ≡ t = cc in
    (((refl, tt), (refl, tt), refl), ((refl, tt), (refl, tt), refl), ap some same)

clear : is_encrypted_secret secret ≡ false
unfolding is_encrypted_secret trim_to_null non_blank trim
clear = refl

encrypted : encrypt_stored_secret env cipher "I" secret ≡ ok (some stored)
unfolding encrypt_stored_secret resolve_credential_encryption_secret is_encrypted_secret
    trim_to_null non_blank trim
encrypted = refl

decrypt-encrypt_example : decrypt_stored_secret env cipher (some stored) ≡ ok (trim_to_null secret)
decrypt-encrypt_example =
    decrypt-encrypt env cipher "I" secret (some stored) sound word clear encrypted

abbrev merchant : MerchantSecretRecord
merchant = record { id = "m1"; secret = λ f. if f == yoco_secret_key then secret else none }

abbrev update : MerchantSecretUpdate
update = record {
  merchant_id = "m1";
  fields = yoco_secret_key ∷ [];
  stored_fields = record { field = yoco_secret_key; value = some stored } ∷ [];
  backup = record {
    merchant_id = "m1";
    fields = record { field = yoco_secret_key; value = some "sk_1" } ∷ [];
  };
}

built : build_encrypted_merchant_secret_update env cipher (λ f. "I") merchant ≡ ok (some update)
unfolding build_encrypted_merchant_secret_update build_merchant_secret_backup_entry
    get_plaintext_merchant_secret_fields encrypt_stored_secret resolve_credential_encryption_secret
    is_encrypted_secret trim_to_null non_blank trim
built = refl

trimmed-IsSound : IsSound env cipher "I" (trim_to_null secret)
unfolding is_blank trim_to_null non_blank trim
trimmed-IsSound key t known given =
    let same : "sk_1" ≡ t = cc in
    (((refl, tt), (refl, tt), refl), ((refl, tt), (refl, tt), refl), ap some same)

migrate_lem_example :
    let after = written env cipher (λ f. "I") merchant update yoco_secret_key in
    (is_plaintext after ≡ false)
    × (decrypt_stored_secret env cipher after ≡ decrypt_stored_secret env cipher secret)
migrate_lem_example =
    migrate_lem env cipher (λ f. "I") merchant update yoco_secret_key trimmed-IsSound word built

-- Numbers written in unary, and back.
digits : ℕ → String
digits zero = []
digits (suc n) = "x" ∷ digits n

characters : String → ℕ
characters [] = 0
characters (c ∷ s) = suc (characters s)

digits-Avoids : (n : ℕ) → Avoids (is_char dot) (digits n)
unfolding digits
digits-Avoids zero = tt
digits-Avoids (suc n) = (refl, digits-Avoids n)

characters-digits : (n : ℕ) → characters (digits n) ≡ n
unfolding digits characters
characters-digits zero = refl
characters-digits (suc n) = ap suc (characters-digits n)

abbrev node : Primitives
node = record {
  show_number = digits;
  number = λ s. some (characters s);
  hmac = λ key text. "mac";
  verify_password = λ hash password. hash == password;
}

faithful : IsFaithful node
faithful = (
  (λ n. (digits-Avoids n, ap some (characters-digits n))),
  (λ key text. (refl, (refl, (refl, tt)))),
)

abbrev users : List User
users = record { id = "u1"; email = "a@b"; password_hash = "pw"; is_active = true } ∷ []

abbrev logged_in : Login
logged_in = record { user_id = "u1"; session_token = "u1.xxx.mac"; expires_at = 3 }

login_now : login env node 2 1 " A@b" "pw" users ≡ ok logged_in
unfolding login sign_session resolve_session_secret trim trim_to_null non_blank to_lower digits
login_now = refl

login-session_guard_example :
    (u : User) × (session_guard env node false 3 (some "u1.xxx.mac") users ≡ ok (some u))
    × (u.id ≡ "u1")
login-session_guard_example =
    login-session_guard env node 2 1 3 " A@b" "pw" users logged_in faithful
      ((((refl, (refl, tt)), refl)), tt) (omega arith) (omega arith) login_now

verified :
    verify_session env node 3 (some "u1.xxx.mac")
    ≡ ok (some (record { user_id = "u1"; expires_at = 3 }))
unfolding verify_session resolve_session_secret trim trim_to_null non_blank digits characters
verified = refl

verify_session_inv_example :
    IsSigned env node 3
      (split (is_char dot) "u1.xxx.mac")
      (record { user_id = "u1"; expires_at = 3 })
verify_session_inv_example =
    verify_session_inv env node 3 "u1.xxx.mac" (record { user_id = "u1"; expires_at = 3 }) verified

abbrev api_keys : List ApiKey
api_keys =
    record { id = "k0"; merchant_id = "m0"; key_hash = "#"; revoked_at = some 7 }
    ∷ record { id = "k1"; merchant_id = "m1"; key_hash = "#"; revoked_at = none }
    ∷ []

abbrev auth : ApiKeyAuth
auth = record { api_key_id = "k1"; merchant_id = "m1"; key_hash = "#" }

admitted :
    api_key_guard false false env (λ key. "#") (single "bearer  ck_test_9") missing api_keys
    ≡ ok (some auth)
unfolding api_key_guard resolve_api_key assert_api_key_environment find_api_key trim to_lower
    is_blank
admitted = refl

api_key_guard_inv_example :
    ((false ≡ true) × (some auth ≡ none))
    ⊎ ((false ≡ false)
        × ((a : ApiKeyAuth) × (some auth ≡ some a)
            × ((key : String) × (resolve_api_key (single "bearer  ck_test_9") missing ≡ ok key)
                × IsOfMode env key
                × IsValid "#" api_keys a)))
api_key_guard_inv_example =
    api_key_guard_inv false false env (λ key. "#") (single "bearer  ck_test_9") missing api_keys
      (some auth) admitted
