-- ===== src/Tests/PayoutRequests.antt =====
-- A payout that is asked for twice.
use stackaura_checkout_api.Base.{String, true, none, List, [], ◌∷◌, ◌≡◌, refl, ap}
use stackaura_checkout_api.Base.Text.{trim, trim_to_null}
use stackaura_checkout_api.Base.Result.{Result, ok, err, conflict}
use stackaura_checkout_api.Store.{Payout}
use stackaura_checkout_api.Payouts.{
  CreatePayoutDto, Request, check_request, new_payout, run_request, write_payout, create_payout,
}
use stackaura_checkout_api.Payouts.Race.{create_payout_raced}
use stackaura_checkout_api.Payouts.Laws.{create_payout_idempotent}

abbrev dto : String → CreatePayoutDto
dto reference = record {
  amount_cents = 700;
  currency = "ZAR";
  reference = reference;
  rail = "DERIV";
  deriv_account_id = "CR1";
  beneficiary_name = none;
}

abbrev request : String → Request
request reference = record { merchant_id = "m1"; idempotency_key = "k1"; dto = dto reference }

abbrev row : Payout
row = new_payout "o1" (request " out1")

accepted : check_request "m1 " "k1" (dto " out1") ≡ ok (request " out1")
unfolding check_request trim
accepted = refl

accepted_again : check_request "m1 " "k1" (dto "out2") ≡ ok (request "out2")
unfolding check_request trim
accepted_again = refl

made : create_payout true "o1" [] "m1 " "k1" (dto " out1") [] ≡ (row ∷ [], ok row)
unfolding create_payout check_request run_request write_payout trim trim_to_null
made = refl

create_payout_idempotent_example :
    let rows' = (create_payout true "o1" [] "m1 " "k1" (dto " out1") []).0 in
    create_payout true "o2" rows' "m1 " "k1" (dto "out2") rows' ≡ (rows', ok row)
create_payout_idempotent_example =
    create_payout_idempotent true true "o1" "o2" [] [] "m1 " "k1" (dto " out1") (dto "out2") row
      (request "out2") (λ q h. h) (ap (λ (o : List Payout × Result Payout). o.1) made)
      accepted_again

create_payout_raced_example :
    let (rows', answer) = create_payout true "o1" [] "m1 " "k1" (dto " out1") [] in
    (answer ≡ ok (new_payout "o1" (request " out1")))
    × (create_payout true "o2" [] "m1 " "k1" (dto " out1") rows'
        ≡ (rows', err (conflict "Payout reference already exists")))
create_payout_raced_example =
    create_payout_raced true true "o1" "o2" [] "m1 " "k1" (dto " out1") (request " out1") accepted
      refl refl
