-- ===== src/Payouts/Race.antt =====
-- Two equal requests at the same time.
use text.Mathlib.TextPositions.{eq_refl}
use stackaura_checkout_api.Base.{
  String, Bool, true, false, none, List, [], ◌∷◌, ◌≡◌, refl, ap, ◌∙◌, string_eq, find?, any,
  if◌then◌else◌, Bool-cases, inl, inr,
}
use stackaura_checkout_api.Base.Text.{trim}
use stackaura_checkout_api.Base.Result.{conflict, ok, err}
use stackaura_checkout_api.Store.{Payout}
use stackaura_checkout_api.Payouts.{
  CreatePayoutDto, Request, check_request, is_replay, has_reference, new_payout, write_payout,
  run_request, create_payout,
}
use stackaura_checkout_api.Payouts.Laws.{create_checked, check_request_inv}

find-none :
    (test : Payout → Bool) (rows : List Payout) → any test rows ≡ false → find? test rows ≡ none
find-none test [] h = refl
find-none test (x ∷ xs) h = elim (Bool-cases (test x)) [
  | inl t ↦ let bad : true ≡ false = rw t at h in absurd (cc)
  | inr f ↦ rw f (find-none test xs (rw f at h))
]

first_run :
    (first : Bool) (id : String) (rows : List Payout) (request : Request)
    → any (is_replay request.merchant_id request.idempotency_key) rows ≡ false
    → any (has_reference (trim request.dto.reference)) rows ≡ false
    → run_request first id rows request rows
      ≡ (new_payout id request ∷ rows, ok (new_payout id request))
unfolding run_request write_payout
first_run first id rows request k r =
    rw (find-none (is_replay request.merchant_id request.idempotency_key) rows k) (rw (k, r) refl)

second_run :
    (second : Bool) (id id' : String) (rows : List Payout) (request : Request)
    → any (is_replay request.merchant_id request.idempotency_key) rows ≡ false
    → run_request second id' rows request (new_payout id request ∷ rows) ≡ (
      new_payout id request ∷ rows,
      if second
          then err (conflict "Payout reference already exists")
          else ok (new_payout id request),
    )
unfolding run_request write_payout
second_run true id id' rows request k =
    rw (find-none (is_replay request.merchant_id request.idempotency_key) rows k) (simp eq_refl)
second_run false id id' rows request k =
    rw (find-none (is_replay request.merchant_id request.idempotency_key) rows k) (simp eq_refl)

-- Two equal requests that both look up before either has written: the second to write is answered
-- with the first one's payout if the database reports the index of merchant and key, and with a
-- conflict if it reports that of the reference; it stores nothing either way.
pub create_payout_raced :
    (first second : Bool) (id id' : String) (rows : List Payout) (merchant key : String)
    (dto : CreatePayoutDto) (request : Request)
    → check_request merchant key dto ≡ ok request
    → any (is_replay (trim merchant) (trim key)) rows ≡ false
    → any (has_reference (trim dto.reference)) rows ≡ false
    → let (rows', answer) = create_payout first id rows merchant key dto rows in
      (answer ≡ ok (new_payout id request))
      × (create_payout second id' rows merchant key dto rows'
          ≡ (rows', if second then err (conflict "Payout reference already exists") else answer))
create_payout_raced first second id id' rows merchant key dto request c fresh_key fresh_reference =
    let r = check_request_inv merchant key dto request c in
    let m : request.merchant_id ≡ trim merchant = ap (λ (x : Request). x.merchant_id) r in
    let k : request.idempotency_key ≡ trim key = ap (λ (x : Request). x.idempotency_key) r in
    let d : request.dto ≡ dto = ap (λ (x : Request). x.dto) r in
    let fresh : any (is_replay request.merchant_id request.idempotency_key) rows ≡ false =
      rw (m, k) fresh_key in
    let one =
      create_checked first id rows merchant key dto rows request c
      ∙ first_run first id rows request fresh (rw d fresh_reference) in
    rw one (
      refl,
      create_checked second id' rows merchant key dto (new_payout id request ∷ rows) request c
          ∙ second_run second id id' rows request fresh,
    )
