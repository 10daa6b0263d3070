-- ===== src/Gateways/Lifecycle.antt =====
-- src/gateways/yoco.lifecycle.ts and src/gateways/paystack.lifecycle.ts
use stackaura_checkout_api.Base.{
  String, Bool, true, false, Option, none, some, List, [], ◌∷◌, ◌≡◌, ◌↔◌, ◌⊎◌, ◌==◌, ◌&&◌, ◌||◌,
  contains, string_eq, if◌then◌else◌, arith, ◌≢◌,
}
use text.Mathlib.TextEquality.{eq_iff}
use stackaura_checkout_api.Base.Text.{trim, truthy, to_lower}
use stackaura_checkout_api.Domain.{PaymentStatus, paid, cancelled, Value, str}

-- `GatewayStatusResult['status']`
pub data LookupStatus : Type 0 where
  pending succeeded failed : LookupStatus

-- `normalizeYocoState` and `normalizePaystackState`
unfoldable pub normalize_state : Value → Option String
normalize_state (str s) = if truthy (trim s) then some (to_lower (trim s)) else none
normalize_state _ = none

-- `state === word`
abbrev pub is_word : Option String → String → Bool
is_word none w = false
is_word (some s) w = s == w

abbrev pub is_one_of : Option String → List String → Bool
is_one_of none ws = false
is_one_of (some s) ws = contains ws s

unfoldable pub has_value : Value → Bool
has_value (str s) = truthy (trim s)
has_value Value.undefined = false
has_value Value.null = false
has_value Value.other = true

unfoldable pub map_yoco_checkout_status_to_payment_status : Value → Value → Bool → PaymentStatus
map_yoco_checkout_status_to_payment_status checkout_status payment_id expired =
    let state = normalize_state checkout_status in
    if is_word state "completed" && has_value payment_id
    then paid
    else if expired
    then cancelled
    else if is_word state "created"
    then PaymentStatus.created
    else PaymentStatus.pending

-- The coarse status of a lookup, by the payment status.
abbrev pub lookup_of : PaymentStatus → LookupStatus
lookup_of paid = succeeded
lookup_of PaymentStatus.failed = LookupStatus.failed
lookup_of cancelled = LookupStatus.failed
lookup_of _ = LookupStatus.pending

unfoldable pub map_yoco_checkout_status_to_gateway_status : Value → Value → Bool → LookupStatus
unfolding map_yoco_checkout_status_to_payment_status
map_yoco_checkout_status_to_gateway_status checkout_status payment_id expired =
    lookup_of (map_yoco_checkout_status_to_payment_status checkout_status payment_id expired)

unfoldable pub map_yoco_event_to_payment_status : Value → Value → Option PaymentStatus
map_yoco_event_to_payment_status event_type payment_status =
    let event = normalize_state event_type in
    let status = normalize_state payment_status in
    if is_word event "payment.succeeded" || is_word status "succeeded"
    then some paid
    else if is_word event "payment.failed" || is_word status "failed"
    then some PaymentStatus.failed
    else if is_word event "payment.cancelled" || is_word status "cancelled"
    then some cancelled
    else none

unfoldable pub map_paystack_transaction_status_to_payment_status : Value → PaymentStatus
map_paystack_transaction_status_to_payment_status status =
    let normalized = normalize_state status in
    if is_word normalized "success"
    then paid
    else if is_word normalized "failed"
    then PaymentStatus.failed
    else if is_one_of normalized ("abandoned" ∷ "cancelled" ∷ "canceled" ∷ "reversed" ∷ [])
    then cancelled
    else PaymentStatus.pending

unfoldable pub map_paystack_transaction_status_to_gateway_status : Value → LookupStatus
unfolding map_paystack_transaction_status_to_payment_status
map_paystack_transaction_status_to_gateway_status status =
    lookup_of (map_paystack_transaction_status_to_payment_status status)

unfoldable pub map_paystack_event_to_payment_status : Value → Value → PaymentStatus
unfolding map_paystack_transaction_status_to_payment_status
map_paystack_event_to_payment_status event_type transaction_status =
    let event = normalize_state event_type in
    let by_status = map_paystack_transaction_status_to_payment_status transaction_status in
    if is_word event "charge.success"
    then paid
    else if is_word event "charge.failed"
    then PaymentStatus.failed
    else by_status

is_word_iff : (o : Option String) (w : String) → (is_word o w ≡ true) ↔ (o ≡ some w)
is_word_iff none w = ground arith
is_word_iff (some s) w = ground (arith, eq_iff s w)

-- A Yoco checkout counts as succeeded exactly when its normalised status is "completed" and it
-- carries a payment id, and as failed exactly when it has expired and does not count as succeeded.
pub yoco_lookup_exact :
    (checkout_status payment_id : Value) (expired : Bool)
    → ((map_yoco_checkout_status_to_gateway_status checkout_status payment_id expired ≡ succeeded)
        ↔ ((normalize_state checkout_status ≡ some "completed") × (has_value payment_id ≡ true)))
      × ((map_yoco_checkout_status_to_gateway_status checkout_status payment_id expired
            ≡ LookupStatus.failed)
          ↔ ((expired ≡ true)
              × ((normalize_state checkout_status ≢ some "completed")
                  ⊎ (has_value payment_id ≡ false))))
unfolding map_yoco_checkout_status_to_gateway_status
yoco_lookup_exact checkout_status payment_id expired =
    let state = normalize_state checkout_status in
    (ground (arith, is_word_iff state "completed"), ground (arith, is_word_iff state "completed"))

-- A Paystack event makes a payment PAID exactly when it is "charge.success", or it is not
-- "charge.failed" and the transaction's status is "success".
pub paystack_paid_iff :
    (event_type transaction_status : Value)
    → (map_paystack_event_to_payment_status event_type transaction_status ≡ paid) ↔ (
        (normalize_state event_type ≡ some "charge.success")
        ⊎ ((normalize_state event_type ≢ some "charge.failed")
            × (normalize_state transaction_status ≡ some "success")))
unfolding map_paystack_event_to_payment_status
paystack_paid_iff event_type transaction_status =
    let event = normalize_state event_type in
    ground (
      arith,
      is_word_iff event "charge.success",
      is_word_iff event "charge.failed",
      is_word_iff (normalize_state transaction_status) "success",
    )
