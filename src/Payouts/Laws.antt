-- ===== src/Payouts/Laws.antt =====
-- Requests for payouts, repeated and in any order.
use text.Mathlib.TextPositions.{eq_refl}
use stackaura_checkout_api.Base.{
  String, Bool, false, some, List, ◌∷◌, ◌≡◌, refl, sym, ap, ◌∙◌, string_eq, find?, any,
  Option-cases, inl, inr, arith, ◌⊎◌,
}
use stackaura_checkout_api.Base.Text.{trim}
use stackaura_checkout_api.Base.Result.{Error, conflict, plain, Result, ok, err}
use stackaura_checkout_api.Store.{Payout}
use stackaura_checkout_api.Payouts.{
  CreatePayoutDto, Request, check_request, is_replay, has_reference, new_payout, Write, stored,
  key_taken, reference_taken, write_payout, find_replay, after_write, run_request, on_checked,
  create_payout,
}

write-stored :
    (reference_first : Bool) (request : Request) (p : Payout) (rows rows' : List Payout)
    → write_payout reference_first request p rows ≡ stored rows'
    → (any (is_replay request.merchant_id request.idempotency_key) rows ≡ false)
      × (any (has_reference p.reference) rows ≡ false)
      × (rows' ≡ p ∷ rows)
unfolding write_payout
write-stored reference_first request p rows rows' h = ground arith

-- The three ways in which a request may end.
data Ending (request : Request) (id : String) (snapshot rows : List Payout)
    : List Payout × Result Payout → Type 0 where
  replayed :
      (p : Payout)
      → (find_replay request snapshot ≡ some p) ⊎ (find_replay request rows ≡ some p)
      → Ending request id snapshot rows (rows, ok p)
  created :
      any (is_replay request.merchant_id request.idempotency_key) rows ≡ false
      → any (has_reference (trim request.dto.reference)) rows ≡ false
      → Ending request id snapshot rows (new_payout id request ∷ rows, ok (new_payout id request))
  refused : (e : Error) → Ending request id snapshot rows (rows, err e)

after_write-Ending :
    (request : Request) (id : String) (snapshot rows : List Payout) (reference_first : Bool)
    (w : Write)
    → write_payout reference_first request (new_payout id request) rows ≡ w
    → Ending request id snapshot rows (after_write request (new_payout id request) rows w)
after_write-Ending request id snapshot rows reference_first (stored rows') h =
    let (k, r, same) = write-stored reference_first request (new_payout id request) rows rows' h in
    rw same (created k r)
after_write-Ending request id snapshot rows reference_first key_taken h =
    elim (Option-cases (find_replay request rows)) [
      | inl n ↦ rw n (refused (plain "P2002"))
      | inr (p, found) ↦ rw found (replayed p (inr found))
    ]
after_write-Ending request id snapshot rows reference_first reference_taken h =
    refused (conflict "Payout reference already exists")

run-Ending :
    (reference_first : Bool) (id : String) (snapshot : List Payout) (request : Request)
    (rows : List Payout)
    → Ending request id snapshot rows (run_request reference_first id snapshot request rows)
unfolding run_request
run-Ending reference_first id snapshot request rows =
    elim (Option-cases (find_replay request snapshot)) [
      | inl n ↦ rw n (
          after_write-Ending request id snapshot rows reference_first
            (write_payout reference_first request (new_payout id request) rows) refl)
      | inr (p, found) ↦ rw found (replayed p (inl found))
    ]

pub check_request_inv :
    (merchant key : String) (dto : CreatePayoutDto) (request : Request)
    → check_request merchant key dto ≡ ok request
    → request ≡ record { merchant_id = trim merchant; idempotency_key = trim key; dto = dto }
unfolding check_request
check_request_inv merchant key dto request h = ground arith

-- After a request was answered with a payout, its merchant and key find that payout.
Ending-found :
    (request : Request) (id : String) (snapshot rows : List Payout)
    (o : List Payout × Result Payout) (p : Payout)
    → Ending request id snapshot rows o
    → o.1 ≡ ok p
    → ((q : Payout) → find_replay request snapshot ≡ some q → find_replay request rows ≡ some q)
    → find_replay request o.0 ≡ some p
Ending-found request id snapshot rows o p (replayed q (inl found)) h kept =
    let same : q ≡ p = cc in kept q found ∙ ap (λ (x : Payout). some x) same
Ending-found request id snapshot rows o p (replayed q (inr found)) h kept =
    let same : q ≡ p = cc in found ∙ ap (λ (x : Payout). some x) same
Ending-found request id snapshot rows o p (refused e) h kept = absurd (cc)
Ending-found request id snapshot rows o p (created k r) h kept =
    let same : new_payout id request ≡ p = cc in simp eq_refl (ap (λ (x : Payout). some x) same)

run_again :
    (reference_first : Bool) (id : String) (request : Request) (rows : List Payout) (p : Payout)
    → find_replay request rows ≡ some p
    → run_request reference_first id rows request rows ≡ (rows, ok p)
unfolding run_request
run_again reference_first id request rows p found = rw found

checked_again :
    (first again : Bool) (id id' : String) (snapshot rows : List Payout)
    (request request' : Request) (p : Payout)
    → request'.merchant_id ≡ request.merchant_id
    → request'.idempotency_key ≡ request.idempotency_key
    → ((q : Payout) → find_replay request snapshot ≡ some q → find_replay request rows ≡ some q)
    → (run_request first id snapshot request rows).1 ≡ ok p
    → let rows' = (run_request first id snapshot request rows).0 in
      run_request again id' rows' request' rows' ≡ (rows', ok p)
checked_again first again id id' snapshot rows request request' p m k kept h =
    let rows' = (run_request first id snapshot request rows).0 in
    let found =
      Ending-found request id snapshot rows (run_request first id snapshot request rows) p
        (run-Ending first id snapshot request rows) h kept in
    run_again again id' request' rows' p (rw (m, k) found)

pub create_checked :
    (reference_first : Bool) (id : String) (snapshot : List Payout) (merchant key : String)
    (dto : CreatePayoutDto) (rows : List Payout) (request : Request)
    → check_request merchant key dto ≡ ok request
    → create_payout reference_first id snapshot merchant key dto rows
      ≡ run_request reference_first id snapshot request rows
unfolding create_payout
create_checked reference_first id snapshot merchant key dto rows request h = rw h

checked_of_answer :
    (reference_first : Bool) (id : String) (snapshot : List Payout) (merchant key : String)
    (dto : CreatePayoutDto) (rows : List Payout) (p : Payout)
    → (create_payout reference_first id snapshot merchant key dto rows).1 ≡ ok p
    → (request : Request) × (check_request merchant key dto ≡ ok request)
unfolding create_payout
checked_of_answer reference_first id snapshot merchant key dto rows p h =
    go (check_request merchant key dto) refl h
  where
    go :
        (r : Result Request)
        → check_request merchant key dto ≡ r
        → (on_checked reference_first id snapshot r rows).1 ≡ ok p
        → (request : Request) × (check_request merchant key dto ≡ ok request)
    go (ok request) e k = (request, e)
    go (err x) e k = absurd (cc)

-- A request that passes the checks and repeats the merchant and the idempotency key of one that was
-- answered with a payout is answered with the same payout and stores nothing, whatever else it asks
-- for. The first request may have raced with others, provided that the payout its lookup found, if
-- any, is the one that the stored rows have under the merchant and the key.
pub create_payout_idempotent :
    (first again : Bool) (id id' : String) (snapshot rows : List Payout) (merchant key : String)
    (dto dto' : CreatePayoutDto) (p : Payout) (request' : Request)
    → ((q : Payout)
        → find? (is_replay (trim merchant) (trim key)) snapshot ≡ some q
        → find? (is_replay (trim merchant) (trim key)) rows ≡ some q)
    → (create_payout first id snapshot merchant key dto rows).1 ≡ ok p
    → check_request merchant key dto' ≡ ok request'
    → let rows' = (create_payout first id snapshot merchant key dto rows).0 in
      create_payout again id' rows' merchant key dto' rows' ≡ (rows', ok p)
create_payout_idempotent first again id id' snapshot rows merchant key dto dto' p request' kept h
      c' =
    let (request, c) = checked_of_answer first id snapshot merchant key dto rows p h in
    let e = create_checked first id snapshot merchant key dto rows request c in
    let r = check_request_inv merchant key dto request c in
    let r' = check_request_inv merchant key dto' request' c' in
    let m : request.merchant_id ≡ trim merchant = ap (λ (x : Request). x.merchant_id) r in
    let k : request.idempotency_key ≡ trim key = ap (λ (x : Request). x.idempotency_key) r in
    let m' : request'.merchant_id ≡ trim merchant = ap (λ (x : Request). x.merchant_id) r' in
    let k' : request'.idempotency_key ≡ trim key = ap (λ (x : Request). x.idempotency_key) r' in
    let rows' = (run_request first id snapshot request rows).0 in
    rw e (
      create_checked again id' rows' merchant key dto' rows' request' c'
      ∙ checked_again first again id id' snapshot rows request request' p (m' ∙ sym m) (k' ∙ sym k)
          (rw (m, k) kept) (ap (λ (o : List Payout × Result Payout). o.1) (sym e) ∙ h))
