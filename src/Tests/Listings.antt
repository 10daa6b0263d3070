-- ===== src/Tests/Listings.antt =====
-- Three payments of a merchant, listed in pages of two.
use text.Mathlib.TextPositions.{compare_refl}
use text.Mathlib.Text.{is_lt}
use Prim.Native.String.{compare}
use stackaura_checkout_api.Base.{
  ℕ, String, true, false, none, some, List, [], ◌∷◌, ◌==◌, ◌≡◌, ◌≤◌, refl, ap, string_eq,
  if◌then◌else◌, length, arith,
}
use stackaura_checkout_api.Base.Int.{pos}
use stackaura_checkout_api.Base.Text.{trim, to_upper}
use stackaura_checkout_api.Base.Result.{ok}
use stackaura_checkout_api.Domain.{PaymentStatus, yoco}
use stackaura_checkout_api.Payments.Query.{
  Functions, absent, one, ListPaymentsQuery, Cursor, parse_status_filter, parse_gateway_filter,
  parse_created_at_filter, parse_date_or_date_time, parse_list_limit, parse_cursor,
}
use stackaura_checkout_api.Payments.Listing.{
  ListRow, Request, Page, parse_query, list_payments, find_page,
}
use stackaura_checkout_api.Payments.Listing.Walk.{HasCursors, walk, walk_lem, wanted}
use stackaura_checkout_api.Payments.Listing.Limits.{length-list_payments}

abbrev cursor_at : String → ℕ → Cursor
cursor_at id time = record { id = id; created_at = time }

abbrev js : Functions
js = record {
  number = λ text. some (record { floor = pos 2; is_integer = true });
  date = λ text. none;
  encode_cursor = λ c. c.id;
  decode_cursor = λ text.
      if text == "p3"
      then some (cursor_at "p3" 9)
      else if text == "p2"
      then some (cursor_at "p2" 9)
      else if text == "p1"
      then some (cursor_at "p1" 5)
      else none;
  id_lt = λ a b. is_lt (compare a b);
  contains_text = λ text part. true;
}

abbrev row : String → ℕ → ListRow
row id time = record {
  payment = record {
    id = id;
    merchant_id = "m1";
    reference = id;
    currency = "ZAR";
    amount_cents = 100;
    platform_fee_cents = 0;
    merchant_net_cents = 100;
    status = PaymentStatus.paid;
    gateway = some yoco;
    gateway_ref = none;
    raw_gateway = none;
    description = none;
  };
  customer_email = none;
  created_at = time;
}

abbrev rows : List ListRow
rows = row "p3" 9 ∷ row "p2" 9 ∷ row "p1" 5 ∷ []

abbrev query : ListPaymentsQuery
query = record {
  status = one "paid";
  gateway = absent;
  q = absent;
  from = absent;
  to = absent;
  limit = one "2";
  cursor = absent;
}

abbrev request : Request
request = record {
  filters = record {
    merchant_id = "m1";
    status = some PaymentStatus.paid;
    gateway = none;
    period = record { gte = none; lte = none };
    search = none;
  };
  limit = 2;
  cursor = none;
}

parsed : parse_query js "m1" query ≡ ok request
unfolding parse_query parse_status_filter parse_gateway_filter parse_created_at_filter
    parse_date_or_date_time parse_list_limit parse_cursor trim to_upper
parsed = refl

irreflexive : (id : String) → js.id_lt id id ≡ false
irreflexive id = ap is_lt (compare_refl id)

read_back : HasCursors js rows
unfolding trim
read_back = ((refl, refl), ((refl, refl), ((refl, refl), tt)))

walk_lem_example : walk js 4 "m1" query rows ≡ ok (wanted js request rows)
walk_lem_example =
    walk_lem js "m1" query request rows 4 irreflexive
      (((refl, refl), ((refl, refl), tt)), (((refl, refl), tt), (tt, tt))) read_back refl parsed
      refl (omega arith) (omega arith)

abbrev first_page : Page
first_page = record { rows = row "p3" 9 ∷ row "p2" 9 ∷ []; next = some "p2" }

shown : list_payments js "m1" query rows ≡ ok first_page
unfolding list_payments find_page parse_query parse_status_filter parse_gateway_filter
    parse_created_at_filter parse_date_or_date_time parse_list_limit parse_cursor trim to_upper
shown = refl

length-list_payments_example : length first_page.rows ≤ 100
length-list_payments_example = length-list_payments js "m1" query rows first_page shown
