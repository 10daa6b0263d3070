-- ===== src/Store/Keys.antt =====
-- Tables with a primary key: rows found by a condition, rows updated by their key, and what that
-- leaves alone.
use text.Mathlib.TextEquality.{eq_iff}
use stackaura_checkout_api.Base.{
  String, Bool, some, List, [], ◌∷◌, ◌==◌, ◌≡◌, ◌≢◌, sym, ap, ◌∙◌, string_eq, find?, update_where,
  All, Bool-cases, inl, inr,
}

-- Two lists of the same length whose elements are related one by one.
abbrev pub Pointwise : {A : Type 0} → (A → A → Type 0) → List A → List A → Type 0
Pointwise R [] [] = Unit
Pointwise R (x ∷ xs) (y ∷ ys) = R x y × Pointwise R xs ys
Pointwise R _ _ = ⊥

pub Pointwise-refl :
    {A : Type 0} (R : A → A → Type 0) (xs : List A) → ((x : A) → R x x) → Pointwise R xs xs
Pointwise-refl R [] h = tt
Pointwise-refl R (x ∷ xs) h = (h x, Pointwise-refl R xs h)

module _ {A : Type 0} (key : A → String) where
  -- No two rows have the same key.
  abbrev pub HasKeys : List A → Type 0
  HasKeys [] = Unit
  HasKeys (x ∷ xs) = All (λ y. key y ≢ key x) xs × HasKeys xs

  pub All-find :
      (P : A → Type 0) (p : A → Bool) (xs : List A) {x : A} → All P xs → find? p xs ≡ some x → P x
  All-find P p (y ∷ xs) {x} (h, hs) e = elim (Bool-cases (p y)) [
    | inl t ↦ let e' : some y ≡ some x = rw t at e in let same : y ≡ x = cc in rw (← same) h
    | inr f ↦ All-find P p xs hs (rw f at e)
  ]
  All-find P p [] h e = absurd (cc)

  All-everywhere : (P : A → Type 0) (xs : List A) → ((x : A) → P x) → All P xs
  All-everywhere P [] h = tt
  All-everywhere P (x ∷ xs) h = (h x, All-everywhere P xs h)

  All-map : (P Q : A → Type 0) (xs : List A) → ((x : A) → P x → Q x) → All P xs → All Q xs
  All-map P Q [] f h = tt
  All-map P Q (x ∷ xs) f (h, hs) = (f x h, All-map P Q xs f hs)

  -- The only row with the key of the row that was found is that row.
  pub found_only :
      (p : A → Bool) (xs : List A) {x : A}
      → HasKeys xs
      → find? p xs ≡ some x
      → All (λ y. key y ≡ key x → y ≡ x) xs
  found_only p (y ∷ xs) {x} (fresh, k) e = elim (Bool-cases (p y)) [
    | inl t ↦
        let e' : some y ≡ some x = rw t at e in
        let same : y ≡ x = cc in
        (
          (λ h. same),
          All-map (λ z. key z ≢ key y) (λ z. key z ≡ key x → z ≡ x) xs
              (λ z n h. absurd (n (h ∙ sym (ap key same)))) fresh,
        )
    | inr f ↦
        let e' = rw f at e in
        ((λ h. absurd (All-find (λ z. key z ≢ key y) p xs fresh e' (sym h))), found_only p xs k e')
  ]
  found_only p [] k e = tt

  -- `update({ where: { id }, data })`
  abbrev pub update_row : String → (A → A) → List A → List A
  update_row id f xs = update_where (λ x. key x == id) f xs

  -- Updating a row that was found relates old and new rows one by one, if the new row is related to
  -- the one found and every row to itself.
  pub update_row-Pointwise :
      (R : A → A → Type 0) (f : A → A) (x : A) (xs : List A)
      → ((y : A) → R y y)
      → R x (f x)
      → All (λ y. key y ≡ key x → y ≡ x) xs
      → Pointwise R xs (update_row (key x) f xs)
  update_row-Pointwise R f x [] r h only = tt
  update_row-Pointwise R f x (y ∷ xs) r h (o, os) = elim (Bool-cases (key y == key x)) [
    | inl t ↦
        let same = o ((eq_iff (key y) (key x)).0 t) in
        rw t (rw same h, update_row-Pointwise R f x xs r h os)
    | inr n ↦ rw n (r y, update_row-Pointwise R f x xs r h os)
  ]

  -- An update that keeps the keys keeps them unique.
  update_row-All :
      (id k : String) (f : A → A) (xs : List A)
      → ((x : A) → key (f x) ≡ key x)
      → All (λ y. key y ≢ k) xs
      → All (λ y. key y ≢ k) (update_row id f xs)
  update_row-All id k f [] h a = tt
  update_row-All id k f (y ∷ xs) h (a, as') = elim (Bool-cases (key y == id)) [
    | inl t ↦ rw t ((λ e. a (sym (h y) ∙ e)), update_row-All id k f xs h as')
    | inr n ↦ rw n (a, update_row-All id k f xs h as')
  ]

  pub update_row-HasKeys :
      (id : String) (f : A → A) (xs : List A)
      → ((x : A) → key (f x) ≡ key x)
      → HasKeys xs
      → HasKeys (update_row id f xs)
  update_row-HasKeys id f [] h k = tt
  update_row-HasKeys id f (y ∷ xs) h (a, k) = elim (Bool-cases (key y == id)) [
    | inl t ↦ rw t (rw (h y) (update_row-All id (key y) f xs h a), update_row-HasKeys id f xs h k)
    | inr n ↦ rw n (update_row-All id (key y) f xs h a, update_row-HasKeys id f xs h k)
  ]

-- Related lists one after the other, for a transitive relation.
pub Pointwise-trans :
    {A : Type 0} (R : A → A → Type 0) (xs ys zs : List A)
    → ((x y z : A) → R x y → R y z → R x z)
    → Pointwise R xs ys
    → Pointwise R ys zs
    → Pointwise R xs zs
Pointwise-trans R [] [] [] t h k = tt
Pointwise-trans R (x ∷ xs) (y ∷ ys) (z ∷ zs) t (h, hs) (k, ks) =
    (t x y z h k, Pointwise-trans R xs ys zs t hs ks)
Pointwise-trans R [] (y ∷ ys) zs t h k = absurd h
Pointwise-trans R (x ∷ xs) [] zs t h k = absurd h
Pointwise-trans R [] [] (z ∷ zs) t h k = absurd k
Pointwise-trans R (x ∷ xs) (y ∷ ys) [] t h k = absurd k
