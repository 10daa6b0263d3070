-- ===== src/Payments/Listing/Walk.antt =====
-- A client that follows the cursors of a listing from page to page.
use Prim.Native.Nat.{zero, suc}
use mathlib.Core.Path.{subst}
use stackaura_checkout_api.Base.{
  ℕ, String, true, false, Option, none, some, List, [], ◌∷◌, ◌++◌, ◌≡◌, refl, sym, ap, ◌∙◌, ◌&&◌,
  ◌≤◌, ◌<◌, ltb, length, filter, take, drop, last?, All, Bool-cases, inl, inr, arith,
}
use stackaura_checkout_api.Base.Text.{trim, truthy}
use stackaura_checkout_api.Base.Result.{
  plain, unauthorized, require, of_ok, Result, ok, err, ◌>>=◌, >>=-eq-ok, >>-eq-ok,
}
use stackaura_checkout_api.Payments.Query.{
  Functions, one, ListPaymentsQuery, Cursor, parse_status_filter, parse_gateway_filter,
  parse_created_at_filter, parse_list_limit, parse_cursor, is_valid,
}
use stackaura_checkout_api.Payments.Listing.{
  ListRow, Request, cursor_of, wants, after_cursor, parse_query, find_page, page_of, next_cursor,
  list_payments,
}
use stackaura_checkout_api.Payments.Listing.Pages.{
  append_assoc, take-drop, take_all, take-take, length-take_more, length-drop, last-take,
  filter-filter, filter-All, filter-after_cursor, filter-IsListed, All-filter, All-append, IsListed,
}

-- The query for the page behind a cursor.
abbrev at_cursor : ListPaymentsQuery → String → ListPaymentsQuery
at_cursor query text = record query { cursor = one text }

module _ (js : Functions) where
  -- The rows of a page and of the `n` pages behind it at most.
  unfoldable pub walk : ℕ → String → ListPaymentsQuery → List ListRow → Result (List ListRow)
  walk zero merchant_id query rows = err (plain "there are more pages")
  walk (suc n) merchant_id query rows = list_payments js merchant_id query rows >>= λ page.
      elim page.next [
        | none ↦ ok page.rows
        | some text ↦
            walk n merchant_id (at_cursor query text) rows >>= λ others. ok (page.rows ++ others)
      ]

  -- The text of a cursor is read back: JSON and base64url do so for a cursor whose id is not empty
  -- and whose time is one of JavaScript's dates.
  abbrev pub IsReadBack : Cursor → Type 0
  IsReadBack c =
      (truthy (trim (js.encode_cursor c)) ≡ true)
      × (js.decode_cursor (trim (js.encode_cursor c)) ≡ some c)

  parse_cursor-encode_cursor :
      (c : Cursor) → IsReadBack c → parse_cursor js (one (js.encode_cursor c)) ≡ ok (some c)
  unfolding parse_cursor
  parse_cursor-encode_cursor c (shown, back) = rw (shown, back) refl

  -- The query for the next page asks for the same rows, behind the cursor.
  parse_query-at_cursor :
      (m : String) (query : ListPaymentsQuery) (request : Request) (c : Cursor)
      → IsReadBack c
      → parse_query js m query ≡ ok request
      → parse_query js m (at_cursor query (js.encode_cursor c))
        ≡ ok (record request { cursor = some c })
  unfolding parse_query
  parse_query-at_cursor m query request c good e =
      let (signed_in, e0) =
        >>-eq-ok (require (truthy (trim m)) (unauthorized "Invalid API key")) _ e in
      let (status, e1, f1) = >>=-eq-ok (parse_status_filter query.status) _ e0 in
      let (gateway, e2, f2) = >>=-eq-ok (parse_gateway_filter query.gateway) _ f1 in
      let (period, e3, f3) = >>=-eq-ok (parse_created_at_filter js query.from query.to) _ f2 in
      let (limit, e4, f4) = >>=-eq-ok (parse_list_limit js query.limit) _ f3 in
      let (old, e5, f5) = >>=-eq-ok (parse_cursor js query.cursor) _ f4 in
      let r : Request = record {
        filters = record {
          merchant_id = trim m;
          status = status;
          gateway = gateway;
          period = period;
          search = _;
        };
        limit = limit;
        cursor = old;
      } in
      let same : r ≡ request = of_ok f5 in
      rw (signed_in, e1, e2, e3, e4, parse_cursor-encode_cursor c good)
        (ap (λ (q : Request). ok (record q { cursor = some c })) same)

  -- The rows that a request asks for, on all its pages.
  abbrev pub wanted : Request → List ListRow → List ListRow
  wanted request rows = filter (wants js request.filters) rows

  abbrev pub HasDates : Request → Type 0
  HasDates request =
      (is_valid request.filters.period.gte && is_valid request.filters.period.lte) ≡ true

  list_payments-page_of :
      (m : String) (query : ListPaymentsQuery) (request : Request) (rows : List ListRow)
      → parse_query js m query ≡ ok request
      → HasDates request
      → list_payments js m query rows
        ≡ ok (
            page_of js request.limit (
              take
                (suc request.limit)
                (filter (after_cursor js request.cursor) (wanted request rows))))
  unfolding list_payments find_page
  list_payments-page_of m query request rows e dates =
      rw (e, dates, filter-filter (wants js request.filters) (after_cursor js request.cursor) rows)
        refl

  -- A last page, and one that is not the last.
  page_of_last :
      (limit : ℕ) (rows : List ListRow)
      → length rows ≤ limit
      → page_of js limit (take (suc limit) rows) ≡ record { rows = rows; next = none }
  page_of_last limit rows h =
      let few : ltb limit (length rows) ≡ false = ground (arith, h) in
      rw (take_all (suc limit) rows (omega (arith, h)), few) refl

  page_of_more :
      (limit : ℕ) (rows : List ListRow) (last : ListRow)
      → limit < length rows
      → last? (take limit rows) ≡ some last
      → page_of js limit (take (suc limit) rows)
        ≡ record { rows = take limit rows; next = some (js.encode_cursor (cursor_of last)) }
  page_of_more limit rows last h e =
      let more : ltb limit (length (take (suc limit) rows)) ≡ true =
        ground (arith, length-take_more limit rows h) in
      rw (more, take-take limit rows, next_cursor) (rw e refl)

  -- The cursors of the rows are read back.
  abbrev pub HasCursors : List ListRow → Type 0
  HasCursors rows = All (λ r. IsReadBack (cursor_of r)) rows

  walk_from :
      (n : ℕ) (m : String) (query : ListPaymentsQuery) (request : Request) (rows : List ListRow)
      (pre rest : List ListRow)
      → ((id : String) → js.id_lt id id ≡ false)
      → IsListed js rows
      → HasCursors rows
      → HasDates request
      → 0 < request.limit
      → parse_query js m query ≡ ok request
      → wanted request rows ≡ pre ++ rest
      → filter (after_cursor js request.cursor) (wanted request rows) ≡ rest
      → length rest < n
      → walk n m query rows ≡ ok rest
  unfolding walk
  walk_from zero m query request rows pre rest _ _ _ _ _ _ _ _ h = absurd (omega (arith, h))
  walk_from (suc n) m query request rows pre rest irreflexive listed cursors dates positive e split
        behind h =
      let page =
        list_payments-page_of m query request rows e dates
        ∙ ap (λ l. ok (page_of js request.limit (take (suc request.limit) l))) behind in
      elim (Bool-cases (ltb request.limit (length rest))) [
        | inr f ↦ rw (page, page_of_last request.limit rest (ground (arith, f))) refl
        | inl t ↦
            let many : request.limit < length rest = ground (arith, t) in
            let (before, (last, whole, end)) = last-take request.limit rest many positive in
            let others = drop request.limit rest in
            let front = append_assoc pre (take request.limit rest) others in
            let cut : wanted request rows ≡ (pre ++ take request.limit rest) ++ others =
              split ∙ ap (λ l. pre ++ l) (sym (take-drop request.limit rest)) ∙ front in
            let at_last : wanted request rows ≡ (pre ++ before) ++ last ∷ others =
              cut
              ∙ ap (λ l. l ++ others)
                  (ap (λ l. pre ++ l) whole ∙ append_assoc pre before (last ∷ []))
              ∙ sym (append_assoc (pre ++ before) (last ∷ []) others) in
            let fits =
              All-append _ (pre ++ before) (last ∷ others)
                (subst HasCursors at_last (All-filter _ (wants js request.filters) rows cursors)) in
            let next_rows =
              ap (filter (after_cursor js (some (cursor_of last)))) at_last
              ∙ filter-after_cursor js (pre ++ before) last others irreflexive (
                  subst (IsListed js) at_last
                    (filter-IsListed js (wants js request.filters) rows listed)) in
            let again =
              walk_from n m (at_cursor query (js.encode_cursor (cursor_of last)))
                (record request { cursor = some (cursor_of last) }) rows
                (pre ++ take request.limit rest) others irreflexive listed cursors dates positive
                (parse_query-at_cursor m query request (cursor_of last) fits.0 e) cut next_rows
                (omega (arith, h, length-drop request.limit rest many, positive)) in
            rw (page, page_of_more request.limit rest last many end)
              (rw again (ap ok (take-drop request.limit rest)))
      ]

  everything : (rows : List ListRow) → All (λ r. after_cursor js none r ≡ true) rows
  everything [] = tt
  everything (r ∷ rs) = (refl, everything rs)

  -- For a query that is accepted, starts without a cursor, and has a limit of at least 1 and bounds on
  -- the time, if any, that are valid dates: its pages, one after the other, are exactly the rows that
  -- it asks for, in their order and each of them once, if the rows are listed in the query's order,
  -- cursors are read back as they were written, no id comes before itself, and the client asks for
  -- more pages than there are such rows.
  pub walk_lem :
      (m : String) (query : ListPaymentsQuery) (request : Request) (rows : List ListRow) (n : ℕ)
      → ((id : String) → js.id_lt id id ≡ false)
      → IsListed js rows
      → HasCursors rows
      → HasDates request
      → parse_query js m query ≡ ok request
      → request.cursor ≡ none
      → 0 < request.limit
      → length (wanted request rows) < n
      → walk n m query rows ≡ ok (wanted request rows)
  walk_lem m query request rows n irreflexive listed cursors dates e first positive enough =
      walk_from n m query request rows [] (wanted request rows) irreflexive listed cursors dates
        positive e refl
        (ap (λ (c : Option Cursor). filter (after_cursor js c) (wanted request rows)) first
          ∙ filter-All (after_cursor js none) (wanted request rows)
              (everything (wanted request rows)))
        enough
