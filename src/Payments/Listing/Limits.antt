-- ===== src/Payments/Listing/Limits.antt =====
-- How many rows a page of a listing has.
use mathlib.Core.Path.{subst}
use stackaura_checkout_api.Base.{
  ℕ, String, not, Option, none, some, List, ◌≡◌, ap, ◌&&◌, ◌||◌, ◌≤◌, min, ltb, length, Bool-cases,
  inl, inr, arith,
}
use stackaura_checkout_api.Base.Int.{ltb_ℤ, pos, pos_part}
use stackaura_checkout_api.Base.Text.{trim, truthy}
use stackaura_checkout_api.Base.Result.{
  unauthorized, require, of_ok, ok, >>=-eq-ok, >>-eq-ok, require_inv,
}
use stackaura_checkout_api.Payments.Query.{
  Functions, Number, ListPaymentsQuery, first_query_value, limit_of, limit_of_text,
  parse_status_filter, parse_gateway_filter, parse_created_at_filter, parse_list_limit,
  parse_cursor,
}
use stackaura_checkout_api.Payments.Listing.{
  ListRow, Request, Page, page_of, parse_query, find_page, list_payments,
}
use stackaura_checkout_api.Payments.Listing.Pages.{length-take}

module _ (js : Functions) where
  limit_of_bound : (n : Option Number) (limit : ℕ) → limit_of js n ≡ ok limit → limit ≤ 100
  limit_of_bound none limit e = absurd (cc)
  limit_of_bound (some n) limit e =
      elim (Bool-cases (ltb_ℤ n.floor (pos 0) || not (ltb_ℤ (pos 0) n.floor) && n.is_integer)) [
        | inl t ↦ let e' = rw t at e in absurd (cc)
        | inr f ↦
            let e' : ok (min 100 (pos_part n.floor)) ≡ ok limit = rw f at e in
            let same : min 100 (pos_part n.floor) ≡ limit = of_ok e' in omega (arith, same)
      ]

  limit_of_text_bound :
      (o : Option String) (limit : ℕ) → limit_of_text js o ≡ ok limit → limit ≤ 100
  limit_of_text_bound none limit e = let same : 25 ≡ limit = of_ok e in omega (arith, same)
  limit_of_text_bound (some raw) limit e = elim (Bool-cases (truthy (trim raw))) [
    | inl t ↦ limit_of_bound (js.number raw) limit (rw t at e)
    | inr f ↦ let same : 25 ≡ limit = of_ok (rw f at e) in omega (arith, same)
  ]

  length-page_of : (limit : ℕ) (rows : List ListRow) → length (page_of js limit rows).rows ≤ limit
  length-page_of limit rows = elim (Bool-cases (ltb limit (length rows))) [
    | inl t ↦ rw t (length-take limit rows)
    | inr f ↦ rw f (ground (arith, f))
  ]

  -- A page has 100 rows at most, whatever limit the query asks for.
  pub length-list_payments :
      (m : String) (query : ListPaymentsQuery) (rows : List ListRow) (page : Page)
      → list_payments js m query rows ≡ ok page
      → length page.rows ≤ 100
  unfolding list_payments parse_query parse_list_limit find_page
  length-list_payments m query rows page e =
      let (request, parsed, found) = >>=-eq-ok (parse_query js m query) _ e in
      let (_, shown) = require_inv _ _ _ found in
      let (_, e0) =
        >>-eq-ok (require (truthy (trim m)) (unauthorized "Invalid API key")) _ parsed in
      let (_, _, f1) = >>=-eq-ok (parse_status_filter query.status) _ e0 in
      let (_, _, f2) = >>=-eq-ok (parse_gateway_filter query.gateway) _ f1 in
      let (_, _, f3) = >>=-eq-ok (parse_created_at_filter js query.from query.to) _ f2 in
      let (limit, e4, f4) = >>=-eq-ok (parse_list_limit js query.limit) _ f3 in
      let (_, _, f5) = >>=-eq-ok (parse_cursor js query.cursor) _ f4 in
      let same : limit ≡ request.limit = ap (λ (r : Request). r.limit) (of_ok f5) in
      let small = limit_of_text_bound (first_query_value query.limit) limit e4 in
      let fits : length page.rows ≤ request.limit =
        subst (λ (p : Page). length p.rows ≤ request.limit) (of_ok shown)
          (length-page_of request.limit _) in
      omega (arith, same, small, fits)
