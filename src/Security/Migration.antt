-- ===== src/Security/Migration.antt =====
-- src/security/merchant-secret-migration.ts: the secrets that merchants' rows still hold in clear,
-- their backup, and the update that encrypts them.
pub mod Laws
use stackaura_checkout_api.Base.{
  ℕ, String, Bool, true, false, not, Option, none, some, List, [], ◌∷◌, ◌==◌, ◌&&◌, ◌≡◌, ◌↔◌, map,
  filter, find?, if◌then◌else◌, Eq, nat_beq, arith,
}
use stackaura_checkout_api.Base.Text.{truthy, trim_to_null}
use stackaura_checkout_api.Base.Result.{Result, ok, err, ◌>>=◌}
use stackaura_checkout_api.Domain.{Env}
use stackaura_checkout_api.Security.Secrets.{Cipher, is_encrypted_secret, encrypt_stored_secret}

pub data MerchantSecretField : Type 0 where
  payfast_merchant_key payfast_passphrase ozow_private_key ozow_api_key : MerchantSecretField
  yoco_secret_key yoco_webhook_secret paystack_secret_key : MerchantSecretField

abbrev field_index : MerchantSecretField → ℕ
field_index payfast_merchant_key = 0
field_index payfast_passphrase = 1
field_index ozow_private_key = 2
field_index ozow_api_key = 3
field_index yoco_secret_key = 4
field_index yoco_webhook_secret = 5
field_index paystack_secret_key = 6

abbrev field_beq : MerchantSecretField → MerchantSecretField → Bool
field_beq f g = nat_beq (field_index f) (field_index g)

pub field_beq_iff : (f g : MerchantSecretField) → (field_beq f g ≡ true) ↔ (f ≡ g)
field_beq_iff f g = ground arith

instance abbrev pub field_eq : Eq MerchantSecretField
field_eq = record { beq = field_beq; beq_iff = field_beq_iff }

abbrev pub merchant_secret_fields : List MerchantSecretField
merchant_secret_fields =
    payfast_merchant_key ∷ payfast_passphrase ∷ ozow_private_key ∷ ozow_api_key ∷ yoco_secret_key
    ∷ yoco_webhook_secret ∷ paystack_secret_key ∷ []

pub record MerchantSecretRecord : Type 0 where
  pub id : String
  pub secret : MerchantSecretField → Option String

-- A field with its value: an entry of an object whose keys are fields.
pub record FieldValue : Type 0 where
  pub field : MerchantSecretField
  pub value : Option String

pub record MerchantSecretBackupEntry : Type 0 where
  pub merchant_id : String
  pub fields : List FieldValue

pub record MerchantSecretUpdate : Type 0 where
  pub merchant_id : String
  pub fields : List MerchantSecretField
  pub stored_fields : List FieldValue
  pub backup : MerchantSecretBackupEntry

abbrev is_given : Option String → Bool
is_given none = false
is_given (some text) = truthy text

abbrev pub is_plaintext : Option String → Bool
is_plaintext value = is_given (trim_to_null value) && not (is_encrypted_secret (trim_to_null value))

abbrev pub plaintext_of : MerchantSecretRecord → List MerchantSecretField → List MerchantSecretField
plaintext_of merchant fields =
    filter (λ (f : MerchantSecretField). is_plaintext (merchant.secret f)) fields

unfoldable pub get_plaintext_merchant_secret_fields :
    MerchantSecretRecord → List MerchantSecretField
get_plaintext_merchant_secret_fields merchant = plaintext_of merchant merchant_secret_fields

abbrev pub backup_of : MerchantSecretRecord → List MerchantSecretField → List FieldValue
backup_of merchant [] = []
backup_of merchant (f ∷ fs) =
    record { field = f; value = trim_to_null (merchant.secret f) } ∷ backup_of merchant fs

abbrev pub backup_entry :
    MerchantSecretRecord → List MerchantSecretField → Option MerchantSecretBackupEntry
backup_entry merchant [] = none
backup_entry merchant (f ∷ fs) =
    some (record { merchant_id = merchant.id; fields = backup_of merchant (f ∷ fs) })

unfoldable pub build_merchant_secret_backup_entry :
    MerchantSecretRecord → Option MerchantSecretBackupEntry
build_merchant_secret_backup_entry merchant =
    backup_entry merchant (get_plaintext_merchant_secret_fields merchant)

-- `iv` gives the random bytes that the encryption of a field draws.
module _ (env : Env) (cipher : Cipher) (iv : MerchantSecretField → String) where
  abbrev pub encrypt_fields : List FieldValue → Result (List FieldValue)
  encrypt_fields [] = ok []
  encrypt_fields (entry ∷ entries) =
      encrypt_stored_secret env cipher (iv entry.field) entry.value >>= λ stored.
      encrypt_fields entries >>= λ rest. ok (record { field = entry.field; value = stored } ∷ rest)

  abbrev pub update_of :
      MerchantSecretRecord → Option MerchantSecretBackupEntry → Result (Option MerchantSecretUpdate)
  update_of merchant none = ok none
  update_of merchant (some backup) = encrypt_fields backup.fields >>= λ stored_fields. ok (
      some (record {
        merchant_id = merchant.id;
        fields = map (λ (entry : FieldValue). entry.field) backup.fields;
        stored_fields = stored_fields;
        backup = backup;
      }))

  unfoldable pub build_encrypted_merchant_secret_update :
      MerchantSecretRecord → Result (Option MerchantSecretUpdate)
  build_encrypted_merchant_secret_update merchant =
      update_of merchant (build_merchant_secret_backup_entry merchant)

abbrev entered : Option FieldValue → Option String → Option String
entered none value = value
entered (some entry) value = entry.value

-- The row after `prisma.merchant.update` with the data of an update, or with those of a backup.
abbrev pub write_fields : List FieldValue → MerchantSecretRecord → MerchantSecretRecord
write_fields fields merchant = record {
  id = merchant.id;
  secret =
      λ f. entered (find? (λ (entry : FieldValue). entry.field == f) fields) (merchant.secret f);
}
