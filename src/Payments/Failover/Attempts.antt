-- ===== src/Payments/Failover/Attempts.antt =====
-- The transaction of a failover: the attempts and the payment that it leaves.
use stackaura_checkout_api.Base.{
  ℕ, String, Bool, true, false, Option, some, List, [], ◌∷◌, ◌++◌, map, ◌==◌, ◌&&◌, ◌≡◌, refl, sym,
  ap, ◌∙◌, string_eq, find?, count_if, contains, Bool-cases, inl, inr, arith,
}
use text.Mathlib.TextPositions.{eq_refl}
use text.Mathlib.TextEquality.{eq_iff}
use stackaura_checkout_api.Domain.{PaymentStatus, GatewayProvider, payment_status_eq, gateway_eq}
use stackaura_checkout_api.Store.{Payment, Attempt, Db}
use stackaura_checkout_api.Store.Keys.{update_row}
use stackaura_checkout_api.Payments.Failover.{
  Failover, attempts_of, attempted, find_for_failover, is_open, cancel_superseded_open_attempts,
  new_attempt, commit_failover,
}

-- The open attempts of a payment.
abbrev pub open_attempts : String → List Attempt → ℕ
open_attempts payment_id attempts =
    count_if (λ (a : Attempt). a.payment_id == payment_id && is_open a.status) attempts

contains-append :
    (xs ys : List GatewayProvider) (g : GatewayProvider)
    → contains (xs ++ ys) g ≡ false
    → contains xs g ≡ false
contains-append [] ys g h = refl
contains-append (x ∷ xs) ys g h = elim (Bool-cases (x == g)) [
  | inl t ↦ let bad : true ≡ false = rw t at h in absurd (cc)
  | inr f ↦ rw f (contains-append xs ys g (rw f at h))
]

-- An attempt's test, by whether it is of the payment.
none_open :
    (payment : Payment) (next : GatewayProvider) (attempts : List Attempt)
    → contains (map (λ (a : Attempt). a.gateway) (attempts_of payment attempts)) next ≡ false
    → open_attempts payment.id (cancel_superseded_open_attempts payment.id next attempts) ≡ 0
unfolding cancel_superseded_open_attempts
none_open payment next [] h = refl
none_open payment next (a ∷ as') h = elim (Bool-cases (a.payment_id == payment.id)) [
  | inl t ↦ elim (Bool-cases (a.gateway == next)) [
    | inl u ↦ let bad : true ≡ false = rw (t, u) at h in absurd (cc)
    | inr u ↦
        let rest = none_open payment next as' (rw (t, u) at h) in
        elim (Bool-cases (is_open a.status)) [
          | inl o ↦ simp (t, u, o) (omega (arith, rest))
          | inr o ↦ simp (t, u, o) (omega (arith, rest))
        ]
  ]
  | inr f ↦ let rest = none_open payment next as' (rw f at h) in simp f (omega (arith, rest))
]

-- The row that an update by its key leaves, for a row that was found.
find-update :
    (test : Payment → Bool) (f : Payment → Payment) (xs : List Payment) {found : Payment}
    → ((y : Payment) → (f y).id ≡ y.id)
    → find? test xs ≡ some found
    → (y : Payment) × (find?
          (λ (p : Payment). p.id == found.id)
          (update_row (λ (p : Payment). p.id) found.id f xs)
        ≡ some (f y))
find-update test f [] same e = absurd (cc)
find-update test f (y ∷ ys) {found = x} same e = elim (Bool-cases (y.id == x.id)) [
  | inl t ↦
      let u : ((f y).id == x.id) ≡ true = ap (λ (s : String). s == x.id) (same y) ∙ t in
      simp t (rw u (y, refl))
  | inr n ↦ elim (Bool-cases (test y)) [
    | inl u ↦
        let e' : some y ≡ some x = rw u at e in
        let whole : y ≡ x = cc in
        let i : y.id ≡ x.id = ap (λ (p : Payment). p.id) whole in
        let bad : true ≡ false = sym ((eq_iff y.id x.id).1 i) ∙ n in absurd (cc)
    | inr u ↦
        let v : ((f y).id == x.id) ≡ false = ap (λ (s : String). s == x.id) (same y) ∙ n in
        simp n (find-update test f ys {found = x} same (rw u at e))
  ]
]

commit-open_attempts :
    (id raw : String) (f : Failover) (db : Db)
    → contains (attempted f.payment db.attempts) f.gateway ≡ false
    → open_attempts f.payment.id (commit_failover id raw f db).attempts ≡ 1
unfolding commit_failover
commit-open_attempts id raw f db h =
    let rest = none_open f.payment f.gateway db.attempts (contains-append _ _ f.gateway h) in
    simp eq_refl (omega (arith, rest))

-- The attempt is at a gateway that was not tried before, it is the only open attempt of the payment
-- after the failover, and the payment is PENDING at the gateway.
abbrev pub IsMoved : Db → Payment → Attempt → Db → Type 0
IsMoved before payment a after =
    (contains (attempted payment before.attempts) a.gateway ≡ false)
    × (open_attempts payment.id after.attempts ≡ 1)
    × ((q : Payment) × (find? (λ (p : Payment). p.id == payment.id) after.payments ≡ some q)
        × (q.status ≡ PaymentStatus.pending)
        × (q.gateway ≡ some a.gateway))

pub commit-IsMoved :
    (id raw reference : String) (merchant_id : Option String) (f : Failover) (db : Db)
    → find_for_failover reference merchant_id db ≡ some f.payment
    → contains (attempted f.payment db.attempts) f.gateway ≡ false
    → IsMoved db f.payment (new_attempt id f) (commit_failover id raw f db)
unfolding commit_failover
commit-IsMoved id raw reference merchant_id f db found fresh =
    let change : Payment → Payment = λ (p : Payment). record p {
      gateway = some f.gateway;
      gateway_ref = f.session.external_reference;
      status = PaymentStatus.pending;
      raw_gateway = some raw;
    } in
    let (y, e) = find-update _ change db.payments (λ p. refl) found in
    (fresh, commit-open_attempts id raw f db fresh, (change y, e, refl, refl))
