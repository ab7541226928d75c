-- ===== src/Pages/Order.antt =====
-- The order of a list of the public API (src/lib/server/services/api-read.service.ts).
use uppity.Base.{
  ℕ, ◌≡◌, ◌≢◌, refl, Bool, true, false, some, List, [], ◌∷◌, ◌++◌, arith, All, All-insert_by,
  All-order_by, All-rows_where, Bool-cases, inl, inr, ◌==◌, ==_refl, sym, ap, first_where,
  rows_where, insert_by, order_by,
}
use uppity.Pages.{precedes, listed}

module _ {ℓ} {A : Type ℓ} (time id : A → ℕ) where
  -- No two rows share a key.
  abbrev pub IsKeyed : List A → Type 0
  IsKeyed [] = Unit
  IsKeyed (x ∷ xs) = All (λ y. id y ≢ id x) xs × IsKeyed xs

  -- It comes first, and has another key.
  abbrev pub IsAhead : A → A → Type 0
  IsAhead x y = (precedes time id x y ≡ true) × (id y ≢ id x)

  -- Each row comes ahead of those after it.
  abbrev pub IsOrdered : List A → Type 0
  IsOrdered [] = Unit
  IsOrdered (x ∷ xs) = All (IsAhead x) xs × IsOrdered xs

  insert-IsOrdered :
      (x : A) (ys : List A)
      → All (λ y. id y ≢ id x) ys
      → IsOrdered ys
      → IsOrdered (insert_by (precedes time id) x ys)
  unfolding insert_by
  insert-IsOrdered x [] k h = (tt, tt)
  insert-IsOrdered x (y ∷ ys) k h = elim (Bool-cases (precedes time id x y)) [
    | inl e ↦ rw e (((e, k.0), further x y ys e k.1 h.0), h)
    | inr e ↦ rw e (
      All-insert_by (IsAhead y) (precedes time id) x ys (turned x y e k.0) h.0,
      insert-IsOrdered x ys k.1 h.1,
    )
  ]
    where
      further :
          (x y : A) (zs : List A)
          → precedes time id x y ≡ true
          → All (λ z. id z ≢ id x) zs
          → All (IsAhead y) zs
          → All (IsAhead x) zs
      further x y [] e k h = tt
      further x y (z ∷ zs) e k h = ((ground (arith, h.0.0), k.0), further x y zs e k.1 h.1)

      turned : (x y : A) → precedes time id x y ≡ false → id y ≢ id x → IsAhead y x
      turned x y e d = (ground arith, λ same. d (sym same))

  order_by-IsOrdered : (xs : List A) → IsKeyed xs → IsOrdered (order_by (precedes time id) xs)
  unfolding order_by
  order_by-IsOrdered [] k = tt
  order_by-IsOrdered (x ∷ xs) k =
      insert-IsOrdered x (order_by (precedes time id) xs)
        (All-order_by (λ y. id y ≢ id x) (precedes time id) xs k.0) (order_by-IsOrdered xs k.1)

  rows_where-IsOrdered : (p : A → Bool) (xs : List A) → IsOrdered xs → IsOrdered (rows_where p xs)
  unfolding rows_where
  rows_where-IsOrdered p [] h = tt
  rows_where-IsOrdered p (x ∷ xs) h = elim (Bool-cases (p x)) [
    | inl e ↦ rw e (All-rows_where (IsAhead x) p xs h.0, rows_where-IsOrdered p xs h.1)
    | inr e ↦ rw e (rows_where-IsOrdered p xs h.1)
  ]

  pub listed-IsOrdered : (p : A → Bool) (xs : List A) → IsKeyed xs → IsOrdered (listed time id p xs)
  unfolding listed
  listed-IsOrdered p xs k = rows_where-IsOrdered p _ (order_by-IsOrdered xs k)

  -- The rows after one of an ordered list are those that it precedes, and its key finds it.
  all_after : (a : A) (ys : List A) → All (IsAhead a) ys → rows_where (precedes time id a) ys ≡ ys
  unfolding rows_where
  all_after a [] h = refl
  all_after a (y ∷ ys) h = rw h.0.0 (ap (λ zs. y ∷ zs) (all_after a ys h.1))

  All-middle : (P : A → Type 0) (a : A) (xs ys : List A) → All P (xs ++ a ∷ ys) → P a
  All-middle P a [] ys h = h.0
  All-middle P a (x ∷ xs) ys h = All-middle P a xs ys h.1

  pub rows_where-after :
      (a : A) (xs ys : List A)
      → IsOrdered (xs ++ a ∷ ys)
      → rows_where (precedes time id a) (xs ++ a ∷ ys) ≡ ys
  unfolding rows_where
  rows_where-after a [] ys h =
      let never : precedes time id a a ≡ false = ground arith in rw never (all_after a ys h.0)
  rows_where-after a (x ∷ xs) ys h =
      let ahead = All-middle (IsAhead x) a xs ys h.0 in
      let never : precedes time id a x ≡ false = ground (arith, ahead.0) in
      rw never (rows_where-after a xs ys h.1)

  pub first_where-key :
      (a : A) (xs ys : List A)
      → IsOrdered (xs ++ a ∷ ys)
      → first_where (λ x. id x == id a) (xs ++ a ∷ ys) ≡ some a
  unfolding first_where
  first_where-key a [] ys h = simp (==_refl (id a)) refl
  first_where-key a (x ∷ xs) ys h =
      let ahead = All-middle (IsAhead x) a xs ys h.0 in
      let other : (id x == id a) ≡ false = ground (arith, ahead.1) in
      rw other (first_where-key a xs ys h.1)
