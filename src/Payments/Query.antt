-- ===== src/Payments/Query.antt =====
-- src/payments/payments.service.ts: the query of a listing and its parsers.
use Prim.Native.Char.{Char, code}
use Prim.Native.String.{[], ◌∷◌}
use stackaura_checkout_api.Base.{
  ℕ, String, Bool, true, false, not, Option, none, some, List, [], ◌∷◌, ◌==◌, ◌&&◌, ◌||◌, min, ltb,
  leb, nat_eq, string_eq, head?, if◌then◌else◌,
}
use stackaura_checkout_api.Base.Int.{ℤ, pos_part, ltb_ℤ, pos}
use stackaura_checkout_api.Base.Text.{trim, truthy, to_upper, ◌<>◌}
use stackaura_checkout_api.Base.Result.{bad_request, Result, ok, err, ◌>>=◌, ◌>>◌, require}
use stackaura_checkout_api.Domain.{PaymentStatus, GatewayProvider, payment_status_eq, gateway_eq}
use stackaura_checkout_api.Payments.CreateRequest.{gateway_word}

-- A value of the query string.
pub data QueryValue : Type 0 where
  absent : QueryValue
  one : String → QueryValue
  many : List String → QueryValue

-- `ListPaymentsQuery`
pub record ListPaymentsQuery : Type 0 where
  pub status : QueryValue
  pub gateway : QueryValue
  pub q : QueryValue
  pub from : QueryValue
  pub to : QueryValue
  pub limit : QueryValue
  pub cursor : QueryValue

pub record Cursor : Type 0 where
  pub id : String
  pub created_at : ℕ

-- A finite number: the integer below it, and whether it is that integer.
pub record Number : Type 0 where
  pub floor : ℤ
  pub is_integer : Bool

-- A `Date`: its time, and `none` for an invalid one.
abbrev pub Date : Type 0
Date = Option ℕ

-- JavaScript's and Node's functions on texts: `Number`, `new Date`, and the two directions of the
-- cursor's text (JSON in base64url), the one of which may throw; and the database's order of ids
-- and its case-insensitive search.
pub record Functions : Type 0 where
  pub number : String → Option Number
  pub date : String → Date
  pub encode_cursor : Cursor → String
  pub decode_cursor : String → Option Cursor
  pub id_lt : String → String → Bool
  pub contains_text : String → String → Bool

-- `firstQueryValue`
abbrev pub first_query_value : QueryValue → Option String
first_query_value absent = none
first_query_value (one s) = some s
first_query_value (many values) = head? values

-- `firstQueryValue(value)?.trim()`, and `none` where that is not there or empty.
abbrev pub trimmed : QueryValue → Option String
trimmed value = elim (first_query_value value) [
  | none ↦ none
  | some raw ↦ if truthy (trim raw) then some (trim raw) else none
]

-- The status with a name in upper case.
abbrev pub status_word : String → Option PaymentStatus
status_word s =
    if s == "CREATED"
    then some PaymentStatus.created
    else if s == "PENDING"
    then some PaymentStatus.pending
    else if s == "PAID"
    then some PaymentStatus.paid
    else if s == "FAILED"
    then some PaymentStatus.failed
    else if s == "CANCELLED"
    then some PaymentStatus.cancelled
    else if s == "REFUNDED"
    then some PaymentStatus.refunded
    else none

-- A value that is left out, or else must be a word of an enumeration.
abbrev one_of : {A : Type 0} → (String → Option A) → String → Option String → Result (Option A)
one_of word complaint none = ok none
one_of word complaint (some raw) = elim (word (to_upper raw)) [
  | none ↦ err (bad_request complaint)
  | some a ↦ ok (some a)
]

unfoldable pub parse_status_filter : QueryValue → Result (Option PaymentStatus)
parse_status_filter value =
    one_of status_word "status must be one of CREATED, PENDING, PAID, FAILED, CANCELLED"
      (trimmed value)

unfoldable pub parse_gateway_filter : QueryValue → Result (Option GatewayProvider)
parse_gateway_filter value =
    one_of gateway_word "gateway must be one of PAYFAST, OZOW, YOCO, PAYSTACK, PEACH"
      (trimmed value)

abbrev is_digit : Char → Bool
is_digit c = leb b'0' (code c) && leb (code c) b'9'

-- A text against a pattern in which `d` stands for a digit and any other character for itself.
abbrev matches : String → String → Bool
matches [] [] = true
matches (p ∷ ps) (c ∷ s) = (if code p == b'd' then is_digit c else code p == code c) && matches ps s
matches _ _ = false

-- The edge of a day.
pub data Edge : Type 0 where
  start end : Edge

abbrev edge_of_day : Edge → String
edge_of_day start = "T00:00:00.000Z"
edge_of_day end = "T23:59:59.999Z"

-- The bounds on the time of a row, where there are any.
pub record Period : Type 0 where
  pub gte : Option Date
  pub lte : Option Date

-- Of two dates, the first is later; an invalid date is not later than any, nor any than it.
abbrev is_later : Option Date → Option Date → Bool
is_later (some (some a)) (some (some b)) = ltb b a
is_later _ _ = false

-- The database refuses an invalid date.
abbrev pub is_valid : Option Date → Bool
is_valid (some none) = false
is_valid _ = true

module _ (js : Functions) where
  -- `new Date(value)` of a text that is given, checked only where it is no bare date.
  parse_given : String → Edge → String → Result (Option Date)
  parse_given field_name edge value =
      if matches "dddd-dd-dd" value
      then ok (some (js.date (value <> edge_of_day edge)))
      else elim (js.date value) [
        | none ↦ err (bad_request (field_name <> " must be an ISO date-time or date (YYYY-MM-DD)"))
        | some time ↦ ok (some (some time))
      ]

  unfoldable pub parse_date_or_date_time : QueryValue → String → Edge → Result (Option Date)
  unfolding parse_given
  parse_date_or_date_time value field_name edge = elim (trimmed value) [
    | none ↦ ok none
    | some text ↦ parse_given field_name edge text
  ]

  unfoldable pub parse_created_at_filter : QueryValue → QueryValue → Result Period
  parse_created_at_filter from_value to_value =
      parse_date_or_date_time from_value "from" start >>= λ gte.
      parse_date_or_date_time to_value "to" end >>= λ lte.
      require (not (is_later gte lte)) (bad_request "from must be less than or equal to to")
      >> ok (record { gte = gte; lte = lte })

  abbrev pub limit_of : Option Number → Result ℕ
  limit_of none = err (bad_request "limit must be a positive integer")
  limit_of (some n) =
      if ltb_ℤ n.floor (pos 0) || not (ltb_ℤ (pos 0) n.floor) && n.is_integer
      then err (bad_request "limit must be a positive integer")
      else ok (min 100 (pos_part n.floor))

  abbrev pub limit_of_text : Option String → Result ℕ
  limit_of_text none = ok 25
  limit_of_text (some raw) = if truthy (trim raw) then limit_of (js.number raw) else ok 25

  unfoldable pub parse_list_limit : QueryValue → Result ℕ
  parse_list_limit value = limit_of_text (first_query_value value)

  abbrev pub cursor_of_text : Option String → Result (Option Cursor)
  cursor_of_text none = ok none
  cursor_of_text (some raw) = elim (js.decode_cursor raw) [
    | none ↦ err (bad_request "Invalid cursor")
    | some cursor ↦ ok (some cursor)
  ]

  unfoldable pub parse_cursor : QueryValue → Result (Option Cursor)
  parse_cursor value = cursor_of_text (trimmed value)
