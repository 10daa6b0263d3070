-- ===== src/Security/Secrets.antt =====
-- src/security/secrets.ts: the merchants' secrets as they are stored, encrypted by AES-256-GCM.
pub mod Laws
use text.Mathlib.Text.{starts_with}
use stackaura_checkout_api.Base.{
  ℕ, String, Bool, true, false, Option, none, some, List, [], ◌∷◌, ◌==◌, ◌&&◌, ◌/=◌, not, string_eq,
  if◌then◌else◌,
}
use stackaura_checkout_api.Base.Split.{split, is_char}
use stackaura_checkout_api.Base.Text.{trim, truthy, trim_to_null, ◌<>◌}
use stackaura_checkout_api.Base.Result.{Error, plain, Result, ok, err, ◌>>=◌, require, ◌>>◌}
use stackaura_checkout_api.Domain.{Env}

-- What an encryption gives: the authentication tag and the encrypted text, in base64url.
pub record Sealed : Type 0 where
  pub tag : String
  pub payload : String

-- Node's SHA-256 and AES-256-GCM, on texts: the key of a text; the encryption of a text by a key and
-- an initialization vector; and the decryption, which throws where the tag does not fit.
pub record Cipher : Type 0 where
  pub sha256 : String → String
  pub seal : String → String → String → Sealed
  pub unseal : String → String → Sealed → Option String

abbrev pub separator : ℕ
separator = b':'

-- The prefix of what is encrypted, on a text without white space around it.
abbrev pub is_marked : Option String → Bool
is_marked none = false
is_marked (some trimmed) = starts_with trimmed "enc:v1:"

unfoldable pub is_encrypted_secret : Option String → Bool
is_encrypted_secret value = is_marked (trim_to_null value)

abbrev explicit_or_default : Env → Option String → Result String
explicit_or_default env (some explicit) = ok explicit
explicit_or_default env none = elim (env.var "NODE_ENV") [
  | none ↦ ok "stackaura-dev-credentials-secret"
  | some mode ↦
      if mode == "production"
      then err (plain "CREDENTIALS_ENCRYPTION_SECRET is required in production")
      else ok "stackaura-dev-credentials-secret"
]

unfoldable pub resolve_credential_encryption_secret : Env → Result String
resolve_credential_encryption_secret env =
    explicit_or_default env (trim_to_null (env.var "CREDENTIALS_ENCRYPTION_SECRET"))

-- The stored form of an encryption, with its initialization vector in base64url.
abbrev pub stored_form : String → Sealed → String
stored_form iv sealed =
    "enc:v1" <> (":" <> (iv <> (":" <> (sealed.tag <> (":" <> sealed.payload)))))

abbrev malformed : Error
malformed = plain "Stored secret is malformed"

module _ (env : Env) (cipher : Cipher) where
  abbrev pub cipher_key : Result String
  cipher_key = resolve_credential_encryption_secret env >>= λ secret. ok (cipher.sha256 secret)

  abbrev pub encrypt_trimmed : String → Option String → Result (Option String)
  encrypt_trimmed iv none = ok none
  encrypt_trimmed iv (some trimmed) =
      if is_encrypted_secret (some trimmed)
      then ok (some trimmed)
      else (cipher_key >>= λ key. ok (some (stored_form iv (cipher.seal key iv trimmed))))

  -- `iv` are the twelve random bytes of the call, in base64url.
  unfoldable pub encrypt_stored_secret : String → Option String → Result (Option String)
  encrypt_stored_secret iv value = encrypt_trimmed iv (trim_to_null value)

  abbrev unsealed : Option String → Result (Option String)
  unsealed none = err (plain "Unsupported state or unable to authenticate data")
  unsealed (some text) = ok (trim_to_null (some text))

  -- The five parts of a stored secret.
  abbrev pub decrypt_parts : List String → Result (Option String)
  decrypt_parts (prefix_root ∷ prefix_version ∷ iv_raw ∷ tag_raw ∷ payload_raw ∷ []) =
      require
        (prefix_root <> (":" <> prefix_version) == "enc:v1"
          && truthy iv_raw
          && truthy tag_raw
          && truthy payload_raw)
        malformed
      >> (cipher_key >>= λ key.
          unsealed (cipher.unseal key iv_raw (record { tag = tag_raw; payload = payload_raw })))
  decrypt_parts _ = err malformed

  abbrev pub decrypt_trimmed : Option String → Result (Option String)
  decrypt_trimmed none = ok none
  decrypt_trimmed (some trimmed) =
      if is_encrypted_secret (some trimmed)
      then decrypt_parts (split (is_char separator) trimmed)
      else ok (some trimmed)

  unfoldable pub decrypt_stored_secret : Option String → Result (Option String)
  decrypt_stored_secret value = decrypt_trimmed (trim_to_null value)

-- `assertCredentialEncryptionPolicy`
unfoldable pub assert_credential_encryption_policy : Env → Result (Unit {0})
assert_credential_encryption_policy env = elim (env.var "NODE_ENV") [
  | none ↦ ok tt
  | some mode ↦
      if mode == "production"
      then (resolve_credential_encryption_secret env >>= λ secret. ok tt)
      else ok tt
]
