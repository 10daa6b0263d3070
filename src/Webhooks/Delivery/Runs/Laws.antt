-- ===== src/Webhooks/Delivery/Runs/Laws.antt =====
-- Runs of the worker: each attempts what is due, up to its limit, and retrying ends.
use mathlib.Core.Path.{subst}
use stackaura_checkout_api.Base.{
  sym, ℕ, String, Bool, true, false, Option, List, [], ◌∷◌, ◌≡◌, refl, ap, ◌-◌, ◌&&◌, ltb, arith,
  Bool-cases, inl, inr, All, count_if,
}
use stackaura_checkout_api.Webhooks.Delivery.{WebhookDelivery, Settings, is_due, batch_size}
use stackaura_checkout_api.Webhooks.Delivery.Runs.{
  Run, in_order, insert, order_rows, attempt, attempt_batch, process_pending_deliveries,
}

pub insert_here :
    (d e : WebhookDelivery) (es : List WebhookDelivery)
    → in_order d e ≡ true
    → insert d (e ∷ es) ≡ d ∷ e ∷ es
insert_here d e es t = rw t refl

pub insert_later :
    (d e : WebhookDelivery) (es : List WebhookDelivery)
    → in_order d e ≡ false
    → insert d (e ∷ es) ≡ e ∷ insert d es
insert_later d e es f = rw f refl

module _ {κ} (P : WebhookDelivery → Type κ) where
  insert-All :
      (d : WebhookDelivery) (ds : List WebhookDelivery) → P d → All P ds → All P (insert d ds)
  insert-All d [] h hs = (h, tt)
  insert-All d (e ∷ es) h (g, gs) = elim (Bool-cases (in_order d e)) [
    | inl t ↦ subst (All P) (sym (insert_here d e es t)) (h, (g, gs))
    | inr f ↦ subst (All P) (sym (insert_later d e es f)) (g, insert-All d es h gs)
  ]

  pub order_rows-All : (ds : List WebhookDelivery) → All P ds → All P (order_rows ds)
  order_rows-All [] h = tt
  order_rows-All (d ∷ ds) (h, hs) = insert-All d (order_rows ds) h (order_rows-All ds hs)

insert-count :
    (p : WebhookDelivery → Bool) (d : WebhookDelivery) (ds : List WebhookDelivery)
    → count_if p (insert d ds) ≡ count_if p (d ∷ ds)
insert-count p d [] = refl
insert-count p d (e ∷ es) = elim (Bool-cases (in_order d e)) [
  | inl t ↦ rw t refl
  | inr f ↦ rw f (omega (arith, insert-count p d es))
]

pub order_rows-count :
    (p : WebhookDelivery → Bool) (ds : List WebhookDelivery)
    → count_if p (order_rows ds) ≡ count_if p ds
order_rows-count p [] = refl
order_rows-count p (d ∷ ds) = omega (arith, insert-count p d (order_rows ds), order_rows-count p ds)

pub both_true : (a b : Bool) → (a && b) ≡ true → (a ≡ true) × (b ≡ true)
both_true a b h = ground arith

module _ (jitter : ℕ → ℕ) (format : ℕ → Option String → String) (settings : Settings) where
  pub attempt_batch_taken :
      (run : Run) (take : ℕ) (d : WebhookDelivery) (ds : List WebhookDelivery)
      → (is_due run.now d && ltb 0 take) ≡ true
      → attempt_batch jitter format settings run take (d ∷ ds)
        ≡ attempt jitter format settings run d
          ∷ attempt_batch jitter format settings run (take - 1) ds
  attempt_batch_taken run take d ds t =
      ap
        (λ (b : Bool). elim b as (λ b. List WebhookDelivery) [
          | true ↦
              attempt jitter format settings run d
              ∷ attempt_batch jitter format settings run (take - 1) ds
          | false ↦ d ∷ attempt_batch jitter format settings run take ds
        ])
        t

  pub attempt_batch_passed :
      (run : Run) (take : ℕ) (d : WebhookDelivery) (ds : List WebhookDelivery)
      → (is_due run.now d && ltb 0 take) ≡ false
      → attempt_batch jitter format settings run take (d ∷ ds)
        ≡ d ∷ attempt_batch jitter format settings run take ds
  attempt_batch_passed run take d ds f =
      ap
        (λ (b : Bool). elim b as (λ b. List WebhookDelivery) [
          | true ↦
              attempt jitter format settings run d
              ∷ attempt_batch jitter format settings run (take - 1) ds
          | false ↦ d ∷ attempt_batch jitter format settings run take ds
        ])
        f

  -- What an attempt keeps of the deliveries that are due, a run keeps of all.
  attempt_batch-All :
      {P : WebhookDelivery → Type 0} (run : Run) (take : ℕ) (ds : List WebhookDelivery)
      → ((d : WebhookDelivery)
          → is_due run.now d ≡ true
          → P d
          → P (attempt jitter format settings run d))
      → All P ds
      → All P (attempt_batch jitter format settings run take ds)
  attempt_batch-All {P} run take [] keeps h = tt
  attempt_batch-All {P} run take (d ∷ ds) keeps (h, hs) =
      elim (Bool-cases (is_due run.now d && ltb 0 take)) [
        | inl t ↦ subst (All P) (sym (attempt_batch_taken run take d ds t)) (
          keeps d (both_true (is_due run.now d) (ltb 0 take) t).0 h,
          attempt_batch-All run (take - 1) ds keeps hs,
        )
        | inr f ↦
            subst (All P) (sym (attempt_batch_passed run take d ds f))
              (h, attempt_batch-All run take ds keeps hs)
      ]

  pub process-All :
      {P : WebhookDelivery → Type 0} (run : Run) (rows : List WebhookDelivery)
      → ((d : WebhookDelivery)
          → is_due run.now d ≡ true
          → P d
          → P (attempt jitter format settings run d))
      → All P rows
      → All P (process_pending_deliveries jitter format settings run rows)
  unfolding process_pending_deliveries
  process-All run rows keeps h = elim (Bool-cases run.delivery_worker_running) [
    | inl t ↦ rw t h
    | inr f ↦ rw f (
        attempt_batch-All run (batch_size settings run.limit) (order_rows rows) keeps
          (order_rows-All _ rows h))
  ]

  abbrev pub process_all : List Run → List WebhookDelivery → List WebhookDelivery
  process_all [] rows = rows
  process_all (run ∷ runs) rows =
      process_all runs (process_pending_deliveries jitter format settings run rows)
