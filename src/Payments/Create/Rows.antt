-- ===== src/Payments/Create/Rows.antt =====
-- The rows of idempotency keys and payments, looked up after they were written.
use text.Mathlib.TextPositions.{eq_refl}
use stackaura_checkout_api.Base.{
  String, Bool, true, some, List, [], ◌∷◌, ◌≡◌, refl, ap, ◌∙◌, ◌==◌, ◌&&◌, string_eq, find?, any,
  update_where, Bool-cases, inl, inr,
}
use stackaura_checkout_api.Store.{Payment}
use stackaura_checkout_api.Payments.Initialize.Laws.{row_of}
use stackaura_checkout_api.Payments.Create.{IdempotencyKey, known, is_key, look_up_key, store_key}

-- The first row of a condition, where the rows of the condition are rewritten and still satisfy it.
find-update_where :
    {A : Type 0} (p : A → Bool) (f : A → A) (xs : List A)
    → ((x : A) → p (f x) ≡ p x)
    → any p xs ≡ true
    → (x : A) × (find? p (update_where p f xs) ≡ some (f x))
find-update_where p f [] same h = absurd (cc)
find-update_where p f (x ∷ xs) same h = elim (Bool-cases (p x)) [
  | inl t ↦ let u : p (f x) ≡ true = same x ∙ t in (x, rw t (rw u refl))
  | inr n ↦ let (y, e) = find-update_where p f xs same (rw n at h) in (y, rw n (rw n e))
]

-- A key that was stored is found, with the payment that it was stored for.
pub look_up_key-store_key :
    (m key hash id : String) (keys : List IdempotencyKey)
    → look_up_key m (some key) hash (store_key m (some key) hash id keys) ≡ known id
look_up_key-store_key m key hash id keys = elim (Bool-cases (any (is_key m key) keys)) [
  | inl t ↦
      let (row, e) =
        find-update_where (is_key m key)
          (λ row. record row { request_hash = hash; payment_id = some id }) keys (λ row. refl) t in
      rw t (rw e (simp eq_refl))
  | inr f ↦ rw f (simp eq_refl)
]

-- The row of a payment, looked up together with its merchant.
pub find_of_row :
    (id m : String) (payments : List Payment) {q : Payment}
    → row_of id payments ≡ some q
    → q.merchant_id ≡ m
    → find? (λ (p : Payment). p.id == id && p.merchant_id == m) payments ≡ some q
find_of_row id m [] e h = absurd (cc)
find_of_row id m (p ∷ ps) {q} e h = elim (Bool-cases (p.id == id)) [
  | inl t ↦
      let e' : some p ≡ some q = rw t at e in
      let same : p ≡ q = cc in
      let its : (p.merchant_id == m) ≡ true = rw (same, h, eq_refl) in simp (t, its) (ap some same)
  | inr f ↦ simp f (find_of_row id m ps (rw f at e) h)
]

-- The reference of a row that is found is taken.
pub row_of-any :
    (id : String) (payments : List Payment) {q : Payment}
    → row_of id payments ≡ some q
    → any (λ (p : Payment). p.reference == q.reference) payments ≡ true
row_of-any id [] e = absurd (cc)
row_of-any id (p ∷ ps) {q} e = elim (Bool-cases (p.id == id)) [
  | inl t ↦
      let e' : some p ≡ some q = rw t at e in
      let same : p ≡ q = cc in
      let its : (p.reference == q.reference) ≡ true = rw (same, eq_refl) in rw (its)
  | inr f ↦
      let rest = row_of-any id ps (rw f at e) in
      elim (Bool-cases (p.reference == q.reference)) [ inl t ↦ rw t | inr n ↦ rw n rest ]
]
