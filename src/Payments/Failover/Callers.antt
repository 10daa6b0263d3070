-- ===== src/Payments/Failover/Callers.antt =====
-- src/payments/payments.service.ts: the two calls of createFailoverAttempt, a merchant's own
-- (failoverPayment) and the one that follows a failed notification (autoFailoverByReference).
use stackaura_checkout_api.Base.{String, true, false, Option, none, some, if◌then◌else◌}
use stackaura_checkout_api.Base.Text.{trim, truthy}
use stackaura_checkout_api.Base.Result.{unauthorized, bad_request, Result, ok, err}
use stackaura_checkout_api.Domain.{Env, GatewayProvider}
use stackaura_checkout_api.Store.{Attempt, Db}
use stackaura_checkout_api.Payments.Failover.{
  MerchantRow, StoredState, Session, create_failover_attempt,
}

-- `if (!result) throw`, on what the call left behind.
abbrev pub demanded : Db × Result (Option Attempt) → Db × Result Attempt
demanded (db, err e) = (db, err e)
demanded (db, ok none) = (db, err (bad_request "No failover gateway available"))
demanded (db, ok (some attempt)) = (db, ok attempt)

-- `catch { return null; }`
abbrev pub caught : Db × Result (Option Attempt) → Db × Option Attempt
caught (db, err e) = (db, none)
caught (db, ok result) = (db, result)

-- `redirect` is `createGatewayRedirect`, `id` the id that the database gives the attempt, `raw` the
-- new value of the JSON column.
module _ (env : Env) (redirect : GatewayProvider → Result Session) (id raw : String)
    (row : MerchantRow) (stored : StoredState) where
  unfoldable pub failover_payment : String → String → Db → Db × Result Attempt
  failover_payment merchant_id_plain reference_plain db =
      let merchant_id = trim merchant_id_plain in
      if truthy merchant_id
      then demanded (
          create_failover_attempt env redirect id raw false row stored reference_plain
            (some merchant_id) db)
      else (db, err (unauthorized "Invalid API key"))

  unfoldable pub auto_failover_by_reference : String → Db → Db × Option Attempt
  auto_failover_by_reference reference_plain db =
      caught (create_failover_attempt env redirect id raw true row stored reference_plain none db)
