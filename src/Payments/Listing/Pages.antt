-- ===== src/Payments/Listing/Pages.antt =====
-- Pages of an ordered list of rows: what a page holds, and what is behind its cursor.
use Prim.Native.Nat.{zero, suc}
use stackaura_checkout_api.Base.{
  ◌==◌, ◌&&◌, ◌||◌, nat_eq, ltb, ℕ, String, Bool, true, false, some, List, [], ◌∷◌, ◌++◌, ◌≡◌, refl,
  ap, ◌+◌, ◌≤◌, ◌<◌, string_eq, length, filter, take, drop, last?, All, Bool-cases, inl, inr, arith,
}
use stackaura_checkout_api.Payments.Query.{Functions}
use stackaura_checkout_api.Payments.Listing.{ListRow, cursor_of, after_cursor}

module _ {A : Type 0} where
  pub take-drop : (n : ℕ) (xs : List A) → take n xs ++ drop n xs ≡ xs
  take-drop zero xs = refl
  take-drop (suc n) [] = refl
  take-drop (suc n) (x ∷ xs) = ap (λ ys. x ∷ ys) (take-drop n xs)

  pub take_all : (n : ℕ) (xs : List A) → length xs ≤ n → take n xs ≡ xs
  take_all zero [] h = refl
  take_all zero (x ∷ xs) h = absurd (omega (arith, h))
  take_all (suc n) [] h = refl
  take_all (suc n) (x ∷ xs) h = ap (λ ys. x ∷ ys) (take_all n xs (omega (arith, h)))

  pub take-take : (n : ℕ) (xs : List A) → take n (take (suc n) xs) ≡ take n xs
  take-take zero xs = refl
  take-take (suc n) [] = refl
  take-take (suc n) (x ∷ xs) = ap (λ ys. x ∷ ys) (take-take n xs)

  pub length-take : (n : ℕ) (xs : List A) → length (take n xs) ≤ n
  length-take zero xs = omega arith
  length-take (suc n) [] = omega arith
  length-take (suc n) (x ∷ xs) = omega (arith, length-take n xs)

  -- Where there are more than `n` elements, `n + 1` of them are more than `n`.
  pub length-take_more : (n : ℕ) (xs : List A) → n < length xs → n < length (take (suc n) xs)
  length-take_more n [] h = absurd (omega (arith, h))
  length-take_more zero (x ∷ xs) h = omega arith
  length-take_more (suc n) (x ∷ xs) h = omega (arith, length-take_more n xs (omega (arith, h)))

  pub length-drop : (n : ℕ) (xs : List A) → n < length xs → length (drop n xs) + n ≡ length xs
  length-drop zero xs h = omega arith
  length-drop (suc n) [] h = absurd (omega (arith, h))
  length-drop (suc n) (x ∷ xs) h = omega (arith, length-drop n xs (omega (arith, h)))

  -- The last element of a page that is not empty.
  pub last-take :
      (n : ℕ) (xs : List A)
      → n < length xs
      → 0 < n
      → (pre : List A) × ((last : A) × (take n xs ≡ pre ++ last ∷ [])
          × (last? (take n xs) ≡ some last))
  last-take zero xs h k = absurd (omega (arith, k))
  last-take (suc n) [] h k = absurd (omega (arith, h))
  last-take (suc zero) (x ∷ xs) h k = ([], (x, refl, refl))
  last-take (suc (suc n)) (x ∷ []) h k = absurd (omega (arith, h))
  last-take (suc (suc n)) (x ∷ y ∷ ys) h k =
      let (pre, (last, whole, end)) = last-take (suc n) (y ∷ ys) (omega (arith, h)) (omega arith) in
      (x ∷ pre, (last, ap (λ zs. x ∷ zs) whole, end))

  pub filter-filter :
      (p q : A → Bool) (xs : List A) → filter (λ x. p x && q x) xs ≡ filter q (filter p xs)
  filter-filter p q [] = refl
  filter-filter p q (x ∷ xs) = elim (Bool-cases (p x)) [
    | inl t ↦ elim (Bool-cases (q x)) [
      | inl u ↦ rw (t, u) (ap (λ ys. x ∷ ys) (filter-filter p q xs))
      | inr u ↦ rw (t, u) (filter-filter p q xs)
    ]
    | inr f ↦ rw f (filter-filter p q xs)
  ]

  pub filter-All : (p : A → Bool) (xs : List A) → All (λ x. p x ≡ true) xs → filter p xs ≡ xs
  filter-All p [] h = refl
  filter-All p (x ∷ xs) (h, hs) = rw h (ap (λ ys. x ∷ ys) (filter-All p xs hs))

  pub All-filter : (P : A → Type 0) (p : A → Bool) (xs : List A) → All P xs → All P (filter p xs)
  All-filter P p [] h = tt
  All-filter P p (x ∷ xs) (h, hs) = elim (Bool-cases (p x)) [
    | inl t ↦ rw t (h, All-filter P p xs hs)
    | inr f ↦ rw f (All-filter P p xs hs)
  ]

  pub All-append : (P : A → Type 0) (xs ys : List A) → All P (xs ++ ys) → All P ys
  All-append P [] ys h = h
  All-append P (x ∷ xs) ys (h, hs) = All-append P xs ys hs

  pub All-map : (P Q : A → Type 0) (xs : List A) → ((x : A) → P x → Q x) → All P xs → All Q xs
  All-map P Q [] f h = tt
  All-map P Q (x ∷ xs) f (h, hs) = (f x h, All-map P Q xs f hs)

  pub append_assoc : (xs ys zs : List A) → xs ++ (ys ++ zs) ≡ (xs ++ ys) ++ zs
  append_assoc [] ys zs = refl
  append_assoc (x ∷ xs) ys zs = ap (λ l. x ∷ l) (append_assoc xs ys zs)

module _ (js : Functions) where
  -- The database's order of the listing, by time and then by id, both descending: the second row is
  -- behind the first.
  abbrev pub is_behind : ListRow → ListRow → Bool
  is_behind r s =
      ltb s.created_at r.created_at
      || s.created_at == r.created_at && js.id_lt s.payment.id r.payment.id

  -- Rows in the order of the listing, newest first: each is behind those before it, which are not
  -- behind it.
  abbrev pub IsListed : List ListRow → Type 0
  IsListed [] = Unit
  IsListed (r ∷ rs) = All (λ s. (is_behind r s ≡ true) × (is_behind s r ≡ false)) rs × IsListed rs

  pub filter-IsListed :
      (p : ListRow → Bool) (rs : List ListRow) → IsListed rs → IsListed (filter p rs)
  filter-IsListed p [] h = tt
  filter-IsListed p (r ∷ rs) (h, hs) = elim (Bool-cases (p r)) [
    | inl t ↦ rw t (All-filter _ p rs h, filter-IsListed p rs hs)
    | inr f ↦ rw f (filter-IsListed p rs hs)
  ]

  not_behind_itself :
      (r : ListRow) → js.id_lt r.payment.id r.payment.id ≡ false → is_behind r r ≡ false
  not_behind_itself r irreflexive = rw irreflexive (ground arith)

  -- The rows behind the cursor of a row are those that follow it.
  pub filter-after_cursor :
      (pre : List ListRow) (last : ListRow) (post : List ListRow)
      → ((id : String) → js.id_lt id id ≡ false)
      → IsListed (pre ++ last ∷ post)
      → filter (after_cursor js (some (cursor_of last))) (pre ++ last ∷ post) ≡ post
  filter-after_cursor [] last post irreflexive (h, hs) =
      rw (not_behind_itself last (irreflexive last.payment.id))
        (filter-All (is_behind last) post (All-map _ _ post (λ s k. k.0) h))
  filter-after_cursor (r ∷ pre) last post irreflexive (h, hs) =
      let later = All-append _ pre (last ∷ post) h in
      rw (later.0.1) (filter-after_cursor pre last post irreflexive hs)
