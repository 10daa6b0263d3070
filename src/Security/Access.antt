-- ===== src/Security/Access.antt =====
-- src/payouts/api-key.guard.ts and src/admin/admin-access.ts with its guard: which calls are let in.
pub mod Laws
use Prim.Native.Char.{Char, code}
use Prim.Native.String.{[], ◌∷◌}
use text.Mathlib.Text.{starts_with}
use stackaura_checkout_api.Base.{
  ℕ, String, Bool, true, false, not, Option, none, some, List, [], ◌∷◌, ◌++◌, map, ◌==◌, ◌&&◌, ◌||◌,
  nat_eq, string_eq, filter, find?, head?, contains, if◌then◌else◌, ◌otherwise◌,
}
use stackaura_checkout_api.Base.Split.{split}
use stackaura_checkout_api.Base.Text.{trim, truthy, to_lower, is_blank}
use stackaura_checkout_api.Base.Result.{
  Error, bad_request, unauthorized, forbidden, Result, ok, err, ◌>>=◌, require, ◌>>◌,
}
use stackaura_checkout_api.Domain.{Env}

-- A row of `model ApiKey`.
pub record ApiKey : Type 0 where
  pub id : String
  pub merchant_id : String
  pub key_hash : String
  pub revoked_at : Option ℕ

-- A header that may be sent more than once.
pub data Header : Type 0 where
  missing : Header
  single : String → Header
  repeated : List String → Header

abbrev pub header_value : Header → Option String
header_value missing = none
header_value (single value) = some value
header_value (repeated values) = head? values

-- `ApiKeyAuthContext`
pub record ApiKeyAuth : Type 0 where
  pub api_key_id : String
  pub merchant_id : String
  pub key_hash : String

-- What follows a word of small letters, in whatever case the text writes it.
abbrev after_word : String → String → Option String
after_word [] s = some s
after_word (c ∷ word) [] = none
after_word (c ∷ word) (d ∷ s) = if to_lower (d ∷ []) == c ∷ [] then after_word word s else none

-- The group of `/^Bearer\s+(.+)$/i`, with white space before it; a header has no line terminators.
abbrev token_part : Option String → Option String
token_part none = none
token_part (some []) = none
token_part (some (c ∷ [])) = none
token_part (some (c ∷ d ∷ s)) = if is_blank c then some (d ∷ s) else none

abbrev bearer_token : String → Result String
bearer_token value = elim (token_part (after_word "bearer" value)) [
  | none ↦ err (unauthorized "Invalid Authorization header")
  | some token ↦ if truthy (trim token) then ok (trim token) else err (unauthorized "Empty API key")
]

abbrev fallback_key : Option String → Result String
fallback_key none = err (unauthorized "Missing Authorization header")
fallback_key (some key) =
    if truthy (trim key) then ok (trim key) else err (unauthorized "Missing Authorization header")

-- The authorization header is used where it is not blank, and else the other one.
abbrev choose_header : Option String → Option String → Result String
choose_header none key = fallback_key key
choose_header (some value) key =
    if truthy (trim value) then bearer_token value else fallback_key key

unfoldable pub resolve_api_key : Header → Header → Result String
resolve_api_key authorization api_key =
    choose_header (header_value authorization) (header_value api_key)

-- The test on a mode of the environment in lower case.
abbrev pub check_mode : String → String → Result (Unit {0})
check_mode mode key =
    require (mode == "test" || mode == "live") (bad_request "API_KEY_ENV must be test or live")
    >> (require (not (mode == "live") || starts_with key "ck_live_")
          (unauthorized "API key not allowed in live mode")
        >> require (not (mode == "test") || starts_with key "ck_test_")
            (unauthorized "API key not allowed in test mode"))

abbrev pub check_configured : Option String → String → Result (Unit {0})
check_configured none key = ok tt
check_configured (some mode) key = if truthy mode then check_mode (to_lower mode) key else ok tt

unfoldable pub assert_api_key_environment : Env → String → Result (Unit {0})
assert_api_key_environment env key = check_configured (env.var "API_KEY_ENV") key

abbrev pub is_unset : Option ℕ → Bool
is_unset none = true
is_unset (some time) = false

abbrev pub auth_of : String → Option ApiKey → Result ApiKeyAuth
auth_of key_hash none = err (unauthorized "Invalid API key")
auth_of key_hash (some k) =
    ok (record { api_key_id = k.id; merchant_id = k.merchant_id; key_hash = key_hash })

-- `apiKey.findFirst({ where: { keyHash, revokedAt: null } })`
unfoldable pub find_api_key : String → List ApiKey → Result ApiKeyAuth
find_api_key key_hash keys =
    auth_of key_hash (find? (λ (k : ApiKey). k.key_hash == key_hash && is_unset k.revoked_at) keys)

-- `ApiKeyGuard.canActivate`; the first two arguments are the marks of the route, and `sha256` is
-- `hashApiKey`. A call that passes by the marks has no key. Errors of the database
-- itself, which become the same refusal as an unknown key, are left out.
unfoldable pub api_key_guard :
    Bool
    → Bool
    → Env
    → (String → String)
    → Header
    → Header
    → List ApiKey
    → Result (Option ApiKeyAuth)
api_key_guard is_public skip_api_key_guard env sha256 authorization api_key keys =
    if is_public || skip_api_key_guard
    then ok none
    else (resolve_api_key authorization api_key >>= λ key.
        assert_api_key_environment env key
        >> (find_api_key (sha256 key) keys >>= λ auth. ok (some auth)))

-- `[,\n;]`
abbrev is_list_separator : Char → Bool
is_list_separator c = code c == b',' || code c == b'\n' || code c == b';'

-- `splitAdminEmails`; an empty run of separators gives an empty item, which is dropped.
unfoldable pub split_admin_emails : Option String → List String
split_admin_emails value =
    filter truthy
      (map (λ item. to_lower (trim item)) (split is_list_separator (value otherwise "")))

-- `resolvePlatformAdminEmails`, with repeated items left in.
unfoldable pub resolve_platform_admin_emails : Env → List String
resolve_platform_admin_emails env =
    split_admin_emails (env.var "STACKAURA_ADMIN_EMAILS")
    ++ split_admin_emails (env.var "ADMIN_EMAILS")
    ++ split_admin_emails (env.var "STACKAURA_ADMIN_EMAIL")
    ++ split_admin_emails (env.var "ADMIN_EMAIL")

unfoldable pub is_platform_admin_email : Env → Option String → Bool
is_platform_admin_email env none = false
is_platform_admin_email env (some email) =
    let normalized = to_lower (trim email) in
    truthy normalized && contains (resolve_platform_admin_emails env) normalized

-- `AdminAccessGuard.canActivate`, by the e-mail of the session's user.
unfoldable pub admin_access_guard : Env → Option String → Result (Unit {0})
admin_access_guard env none = err (unauthorized "Not authenticated")
admin_access_guard env (some email) =
    require (truthy email) (unauthorized "Not authenticated")
    >> require (is_platform_admin_email env (some email)) (forbidden "Admin access denied")
