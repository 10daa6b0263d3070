-- ===== src/Security/Sessions.antt =====
-- src/auth/auth.service.ts: sessions, which are tokens signed with a secret of the environment.
pub mod Laws
use stackaura_checkout_api.Base.{
  ℕ, String, Bool, true, false, Option, none, some, List, [], ◌∷◌, ◌==◌, ◌&&◌, ◌||◌, ◌+◌, not, ltb,
  leb, nat_eq, string_eq, find?, if◌then◌else◌,
}
use stackaura_checkout_api.Base.Split.{split, is_char}
use stackaura_checkout_api.Base.Text.{trim, truthy, to_lower, trim_to_null, ◌<>◌}
use stackaura_checkout_api.Base.Result.{
  Error, bad_request, unauthorized, plain, Result, ok, err, ◌>>=◌, require, ◌>>◌,
}
use stackaura_checkout_api.Domain.{Env}

-- A row of `model User`.
pub record User : Type 0 where
  pub id : String
  pub email : String
  pub password_hash : String
  pub is_active : Bool

-- What a token says: whose session it is, and until which time in milliseconds.
pub record Session : Type 0 where
  pub user_id : String
  pub expires_at : ℕ

-- What `login` returns.
pub record Login : Type 0 where
  pub user_id : String
  pub session_token : String
  pub expires_at : ℕ

-- The text of a whole number and the number of a text, `none` where it is not a whole one; HMAC by
-- SHA-256 of a text by a secret, in base64url; `argon2.verify`.
pub record Primitives : Type 0 where
  pub show_number : ℕ → String
  pub number : String → Option ℕ
  pub hmac : String → String → String
  pub verify_password : String → String → Bool

abbrev secret_of : Option String → Result String
secret_of none = err (plain "SESSION_SECRET is required")
secret_of (some secret) = ok secret

unfoldable pub resolve_session_secret : Env → Result String
resolve_session_secret env = secret_of (trim_to_null (env.var "SESSION_SECRET"))

abbrev pub dot : ℕ
dot = b'.'

module _ (env : Env) (node : Primitives) where
  abbrev pub payload_of : String → ℕ → String
  payload_of user_id expires_at = user_id <> ("." <> node.show_number expires_at)

  unfoldable pub sign_session : String → ℕ → Result String
  sign_session user_id expires_at = resolve_session_secret env >>= λ secret.
      let payload = payload_of user_id expires_at in
      ok (payload <> ("." <> node.hmac secret payload))

  -- The signature of a token that is not expired.
  abbrev pub check_signature : String → ℕ → String → Result (Option Session)
  check_signature user_id expires_at signature = resolve_session_secret env >>= λ secret.
      if signature == node.hmac secret (payload_of user_id expires_at)
      then ok (some (record { user_id = user_id; expires_at = expires_at }))
      else ok none

  abbrev pub check_time : ℕ → String → Option ℕ → String → Result (Option Session)
  check_time now user_id none signature = ok none
  check_time now user_id (some expires_at) signature =
      if not (truthy user_id) || expires_at == 0 || ltb expires_at now
      then ok none
      else check_signature user_id expires_at signature

  abbrev pub check_parts : ℕ → List String → Result (Option Session)
  check_parts now (user_id ∷ expires_at_raw ∷ signature ∷ []) =
      check_time now user_id (node.number expires_at_raw) signature
  check_parts now _ = ok none

  unfoldable pub verify_session : ℕ → Option String → Result (Option Session)
  verify_session now none = ok none
  verify_session now (some token) =
      if truthy token then check_parts now (split (is_char dot) token) else ok none

  abbrev pub with_password : String → Option User → Result User
  with_password password none = err (unauthorized "Invalid credentials")
  with_password password (some user) =
      require (truthy user.password_hash && node.verify_password user.password_hash password)
        (unauthorized "Invalid credentials")
      >> ok user

  -- `ttl` are the milliseconds that a session lasts, of `SESSION_TTL_DAYS`.
  unfoldable pub login : ℕ → ℕ → String → String → List User → Result Login
  login ttl now email_raw password users =
      let email = to_lower (trim email_raw) in
      require (truthy email && truthy password) (bad_request "email and password are required")
      >> (with_password password (find? (λ (u : User). u.email == email) users) >>= λ user.
          require user.is_active (unauthorized "Account not active. Complete signup to continue.")
          >> (sign_session user.id (now + ttl) >>= λ token.
              ok (record { user_id = user.id; session_token = token; expires_at = now + ttl })))

  abbrev user_of : List User → Option Session → Option User
  user_of users none = none
  user_of users (some session) = find? (λ (u : User). u.id == session.user_id) users

  -- `resolveSession`, without the memberships of the user.
  unfoldable pub resolve_session : ℕ → Option String → List User → Result (Option User)
  resolve_session now token users =
      verify_session now token >>= λ session. ok (user_of users session)

  abbrev signed_in : Option User → Result User
  signed_in none = err (unauthorized "Not authenticated")
  signed_in (some user) = ok user

  -- `SessionAuthGuard.canActivate`; the first argument is the mark of the route. A call that passes
  -- by it has no session.
  unfoldable pub session_guard : Bool → ℕ → Option String → List User → Result (Option User)
  session_guard is_public now token users =
      if is_public
      then ok none
      else (resolve_session now token users >>= signed_in >>= λ user. ok (some user))
