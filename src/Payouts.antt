-- ===== src/Payouts.antt =====
-- src/payouts/payouts.service.ts: payouts created under an idempotency key, and read by their id.
pub mod Laws
pub mod Race
use stackaura_checkout_api.Base.{
  ℕ, String, Bool, true, false, not, Option, none, some, List, [], ◌∷◌, ◌==◌, ◌&&◌, string_eq,
  find?, any, if◌then◌else◌,
}
use stackaura_checkout_api.Base.Text.{trim, truthy, trim_to_null}
use stackaura_checkout_api.Base.Result.{
  Error, bad_request, not_found, conflict, plain, Result, ok, err, ◌>>=◌, ◌>>◌, require,
}
use stackaura_checkout_api.Domain.{PayoutStatus}
use stackaura_checkout_api.Store.{Payout}

-- `CreatePayoutDto`
pub record CreatePayoutDto : Type 0 where
  pub amount_cents : ℕ
  pub currency : String
  pub reference : String
  pub rail : String
  pub deriv_account_id : String
  pub beneficiary_name : Option String

-- A request that passed the checks, its texts trimmed.
pub record Request : Type 0 where
  pub merchant_id : String
  pub idempotency_key : String
  pub dto : CreatePayoutDto

unfoldable pub check_request : String → String → CreatePayoutDto → Result Request
check_request merchant_id_plain idempotency_key_plain dto =
    require (truthy (trim merchant_id_plain)) (bad_request "merchantId is required")
    >> require (truthy (trim idempotency_key_plain)) (bad_request "idempotencyKey is required")
    >> require (dto.currency == "ZAR") (bad_request "Only ZAR supported for now")
    >> require (dto.rail == "DERIV") (bad_request "Only DERIV rail supported for now")
    >> require (truthy (trim dto.reference)) (bad_request "reference is required")
    >> require (truthy (trim dto.deriv_account_id)) (bad_request "derivAccountId is required")
    >> ok (record {
      merchant_id = trim merchant_id_plain;
      idempotency_key = trim idempotency_key_plain;
      dto = dto;
    })

abbrev has_key : String → Option String → Bool
has_key key none = false
has_key key (some k) = k == key

-- The rows with a merchant and an idempotency key, and those with a reference.
abbrev pub is_replay : String → String → Payout → Bool
is_replay merchant_id key p = p.merchant_id == merchant_id && has_key key p.idempotency_key

abbrev pub has_reference : String → Payout → Bool
has_reference reference p = p.reference == reference

-- The row to be created, with the id that the database gives it.
abbrev pub new_payout : String → Request → Payout
new_payout id request = record {
  id = id;
  merchant_id = request.merchant_id;
  reference = trim request.dto.reference;
  idempotency_key = some request.idempotency_key;
  currency = request.dto.currency;
  amount_cents = request.dto.amount_cents;
  status = PayoutStatus.created;
  deriv_account_id = some (trim request.dto.deriv_account_id);
  beneficiary_name = trim_to_null request.dto.beneficiary_name;
  provider_ref = none;
  failure_code = none;
  failure_message = none;
  raw_provider = none;
}

-- The outcome of `payout.create`: the rows, or the unique index that refuses the row.
pub data Write : Type 0 where
  stored : List Payout → Write
  key_taken : Write
  reference_taken : Write

-- `reference_first` is which index the database reports when both refuse the row.
unfoldable pub write_payout : Bool → Request → Payout → List Payout → Write
write_payout reference_first request p rows =
    let key_clash = any (is_replay request.merchant_id request.idempotency_key) rows in
    let reference_clash = any (has_reference p.reference) rows in
    if reference_clash && reference_first
    then reference_taken
    else if key_clash
    then key_taken
    else if reference_clash
    then reference_taken
    else stored (p ∷ rows)

abbrev find_replay : Request → List Payout → Option Payout
find_replay request rows = find? (is_replay request.merchant_id request.idempotency_key) rows

abbrev replay_or_throw : Option Payout → Result Payout
replay_or_throw (some existing) = ok existing
replay_or_throw none = err (plain "P2002")

-- The `catch` of `createPayout`, where the lookup sees what is stored by then.
abbrev after_write : Request → Payout → List Payout → Write → List Payout × Result Payout
after_write request p rows (stored rows') = (rows', ok p)
after_write request p rows key_taken = (rows, replay_or_throw (find_replay request rows))
after_write request p rows reference_taken =
    (rows, err (conflict "Payout reference already exists"))

abbrev create_or_replay :
    Bool → String → Request → List Payout → Option Payout → List Payout × Result Payout
create_or_replay reference_first id request rows (some existing) = (rows, ok existing)
create_or_replay reference_first id request rows none =
    let p = new_payout id request in
    after_write request p rows (write_payout reference_first request p rows)

-- The transaction; `snapshot` are the rows that its lookup sees, `rows` those that its write meets.
unfoldable pub run_request :
    Bool → String → List Payout → Request → List Payout → List Payout × Result Payout
run_request reference_first id snapshot request rows =
    create_or_replay reference_first id request rows (find_replay request snapshot)

abbrev on_checked :
    Bool → String → List Payout → Result Request → List Payout → List Payout × Result Payout
on_checked reference_first id snapshot (err e) rows = (rows, err e)
on_checked reference_first id snapshot (ok request) rows =
    run_request reference_first id snapshot request rows

unfoldable pub create_payout :
    Bool
    → String
    → List Payout
    → String
    → String
    → CreatePayoutDto
    → List Payout
    → List Payout × Result Payout
create_payout reference_first id snapshot merchant_id_plain idempotency_key_plain dto rows =
    on_checked reference_first id snapshot
      (check_request merchant_id_plain idempotency_key_plain dto) rows

abbrev found_or_missing : Option Payout → Result Payout
found_or_missing none = err (not_found "Payout not found")
found_or_missing (some p) = ok p

unfoldable pub get_payout_by_id : String → String → List Payout → Result Payout
get_payout_by_id merchant_id_plain payout_id rows =
    require (truthy (trim merchant_id_plain)) (bad_request "merchantId is required")
    >> require (truthy (trim payout_id)) (bad_request "id is required")
    >> found_or_missing (
        find? (λ (p : Payout). p.merchant_id == trim merchant_id_plain && p.id == trim payout_id)
          rows)
