-- ===== src/Payments/Listing.antt =====
-- src/payments/payments.service.ts: a merchant's payments, filtered and in pages (listPayments with
-- its parsers), up to the form in which a row is shown.
pub mod Pages
pub mod Walk
pub mod Limits
use Prim.Native.Char.{Char, code}
use Prim.Native.String.{[], ◌∷◌}
use stackaura_checkout_api.Base.{
  ℕ, suc, String, Bool, true, false, not, Option, none, some, List, [], ◌∷◌, ◌==◌, ◌&&◌, ◌||◌, ◌+◌,
  ◌-◌, min, length, ltb, leb, nat_eq, string_eq, head?, filter, take, last?, if◌then◌else◌,
  ◌otherwise◌,
}
use stackaura_checkout_api.Base.Int.{ℤ, pos_part, ltb_ℤ, pos}
use stackaura_checkout_api.Base.Text.{trim, truthy, to_upper, ◌<>◌}
use stackaura_checkout_api.Base.Result.{
  Error, bad_request, unauthorized, plain, Result, ok, err, ◌>>=◌, ◌>>◌, require,
}
use stackaura_checkout_api.Domain.{PaymentStatus, GatewayProvider, payment_status_eq, gateway_eq}
use stackaura_checkout_api.Store.{Payment}
use stackaura_checkout_api.Payments.CreateRequest.{gateway_word}
use stackaura_checkout_api.Payments.Query.{
  QueryValue, absent, one, many, ListPaymentsQuery, Cursor, Number, Date, Functions,
  first_query_value, trimmed, status_word, parse_status_filter, parse_gateway_filter, Edge, start,
  end, Period, is_valid, parse_date_or_date_time, parse_created_at_filter, limit_of, limit_of_text,
  parse_list_limit, cursor_of_text, parse_cursor,
}

-- A row as the listing reads it; times are in milliseconds.
pub record ListRow : Type 0 where
  pub payment : Payment
  pub customer_email : Option String
  pub created_at : ℕ

-- The condition on the rows but for the cursor.
pub record Filters : Type 0 where
  pub merchant_id : String
  pub status : Option PaymentStatus
  pub gateway : Option GatewayProvider
  pub period : Period
  pub search : Option String

-- What the query asks for.
pub record Request : Type 0 where
  pub filters : Filters
  pub limit : ℕ
  pub cursor : Option Cursor

-- A page: its rows, and the cursor of the next one, where there are more rows.
pub record Page : Type 0 where
  pub rows : List ListRow
  pub next : Option String

abbrev pub cursor_of : ListRow → Cursor
cursor_of r = record { id = r.payment.id; created_at = r.created_at }

abbrev at_gateway : GatewayProvider → Option GatewayProvider → Bool
at_gateway g none = false
at_gateway g (some h) = h == g

module _ (js : Functions) where
  -- The rows that the filters ask for, and those behind the cursor.
  abbrev has_text : String → Option String → Bool
  has_text search none = false
  has_text search (some s) = js.contains_text s search

  abbrev pub wants : Filters → ListRow → Bool
  wants f r =
      r.payment.merchant_id == f.merchant_id
      && elim f.status [ none ↦ true | some s ↦ r.payment.status == s ]
      && elim f.gateway [ none ↦ true | some g ↦ at_gateway g r.payment.gateway ]
      && elim f.period.gte [
        | none ↦ true
        | some d ↦ elim d [ none ↦ true | some t ↦ leb t r.created_at ]
      ]
      && elim f.period.lte [
        | none ↦ true
        | some d ↦ elim d [ none ↦ true | some t ↦ leb r.created_at t ]
      ]
      && elim f.search [
        | none ↦ true
        | some s ↦ js.contains_text r.payment.reference s || has_text s r.customer_email
      ]

  abbrev pub after_cursor : Option Cursor → ListRow → Bool
  after_cursor none r = true
  after_cursor (some c) r =
      ltb r.created_at c.created_at || r.created_at == c.created_at && js.id_lt r.payment.id c.id

  -- The part of the call that reads the query, in the order of its checks.
  unfoldable pub parse_query : String → ListPaymentsQuery → Result Request
  parse_query merchant_id_plain query =
      require (truthy (trim merchant_id_plain)) (unauthorized "Invalid API key")
      >> (parse_status_filter query.status >>= λ status.
          parse_gateway_filter query.gateway >>= λ gateway.
          parse_created_at_filter js query.from query.to >>= λ period.
          parse_list_limit js query.limit >>= λ limit. parse_cursor js query.cursor >>= λ cursor.
          ok (record {
            filters = record {
              merchant_id = trim merchant_id_plain;
              status = status;
              gateway = gateway;
              period = period;
              search = trimmed query.q;
            };
            limit = limit;
            cursor = cursor;
          }))

  abbrev pub next_cursor : List ListRow → Option String
  next_cursor page = elim (last? page) [
    | none ↦ none
    | some last ↦ some (js.encode_cursor (cursor_of last))
  ]

  -- The rows that `findMany` gives, `take` of them, made a page.
  abbrev pub page_of : ℕ → List ListRow → Page
  page_of limit rows =
      if ltb limit (length rows)
      then record { rows = take limit rows; next = next_cursor (take limit rows) }
      else record { rows = rows; next = none }

  unfoldable pub find_page : Request → List ListRow → Result Page
  find_page request rows =
      require (is_valid request.filters.period.gte && is_valid request.filters.period.lte)
        (plain "Invalid value for argument: Provided Date object is invalid")
      >> ok (
          page_of request.limit (
            take (suc request.limit)
              (filter (λ r. wants request.filters r && after_cursor request.cursor r) rows)))

  -- `rows` are those of the database in the order of the call, newest first.
  unfoldable pub list_payments : String → ListPaymentsQuery → List ListRow → Result Page
  list_payments merchant_id_plain query rows =
      parse_query merchant_id_plain query >>= λ request. find_page request rows
