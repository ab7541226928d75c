-- ===== src/Base/RowLaws.antt =====
-- What the queries keep and count.
use Prim.Native.Nat.{ℕ, zero, suc, ◌≤◌}
use mathlib.Core.Path.{◌≡◌, refl, ap}
use mathlib.Core.Bool.{Bool, true, false}
use mathlib.Core.Logic.{◌⊎◌, inl, inr}
use mathlib.Core.Option
use mathlib.Core.Option.{Option, none, some}
use mathlib.Core.List.{List, [], ◌∷◌}
use native.Mathlib.Omega.{arith}
use uppity.Base.Rows.{length, take, rows_where, count_where, first_where, update_where, newest, All}
use uppity.Base.Tests.{Bool-cases, Option-cases}

module _ {ℓ} {A : Type ℓ} where
  pub length-take-le : (n : ℕ) (xs : List A) → length (take n xs) ≤ n
  length-take-le zero xs = omega arith
  length-take-le (suc n) [] = omega arith
  length-take-le (suc n) (x ∷ xs) = omega (arith, length-take-le n xs)

  pub count_where-le : (p : A → Bool) (xs : List A) → count_where p xs ≤ length xs
  unfolding count_where
  count_where-le p [] = omega arith
  count_where-le p (x ∷ xs) = ground (arith, count_where-le p xs)

  pub length-rows_where : (p : A → Bool) (xs : List A) → length (rows_where p xs) ≡ count_where p xs
  unfolding rows_where count_where
  length-rows_where p [] = refl
  length-rows_where p (x ∷ xs) = ground (arith, length-rows_where p xs)

  pub length-update_where :
      (p : A → Bool) (f : A → A) (xs : List A) → length (update_where p f xs) ≡ length xs
  unfolding update_where
  length-update_where p f [] = refl
  length-update_where p f (x ∷ xs) = ap suc (length-update_where p f xs)

  -- An update that keeps the test keeps the count.
  pub count_where-update_where :
      (q p : A → Bool) (f : A → A) (xs : List A)
      → ((x : A) → q (f x) ≡ q x)
      → count_where q (update_where p f xs) ≡ count_where q xs
  unfolding count_where update_where
  count_where-update_where q p f [] h = refl
  count_where-update_where q p f (x ∷ xs) h =
      ground (arith, h x, count_where-update_where q p f xs h)

  pub first_where-holds :
      (p : A → Bool) (xs : List A) {x : A} → first_where p xs ≡ some x → p x ≡ true
  unfolding first_where
  first_where-holds p [] e = cc
  first_where-holds p (x ∷ xs) e = elim (Bool-cases (p x)) [
    | inl h ↦ ground arith
    | inr h ↦ first_where-holds p xs (ground arith)
  ]

  pub first_where-none :
      (p : A → Bool) (xs : List A) → first_where p xs ≡ none → count_where p xs ≡ 0
  unfolding first_where count_where
  first_where-none p [] e = refl
  first_where-none p (x ∷ xs) e = ground (arith, first_where-none p xs)

  newest-le :
      (key : A → ℕ) (b : ℕ) (xs : List A) {z : A}
      → All (λ y. key y ≤ b) xs
      → newest key xs ≡ some z
      → key z ≤ b
  unfolding newest
  newest-le key b [] h e = cc
  newest-le key b (x ∷ xs) h e = elim (Option-cases (newest key xs)) [
    | inl n ↦ ground arith
    | inr (y, n) ↦ ground (arith, newest-le key b xs h.1 n)
  ]

  -- A row inserted after all others is the newest.
  pub newest-cons_latest :
      (key : A → ℕ) (x : A) (xs : List A)
      → All (λ y. key y ≤ key x) xs
      → newest key (x ∷ xs) ≡ some x
  unfolding newest
  newest-cons_latest key x xs h = elim (Option-cases (newest key xs)) [
    | inl n ↦ ground arith
    | inr (y, n) ↦ ground (arith, newest-le key (key x) xs h n)
  ]

module _ {ℓ κ} {A : Type ℓ} (P : A → Type κ) where
  pub All-rows_where : (p : A → Bool) (xs : List A) → All P xs → All P (rows_where p xs)
  unfolding rows_where
  All-rows_where p [] h = tt
  All-rows_where p (x ∷ xs) h = elim (Bool-cases (p x)) [
    | inl e ↦ rw e (h.0, All-rows_where p xs h.1)
    | inr e ↦ rw e (All-rows_where p xs h.1)
  ]

  -- An update that keeps `P` of the rows that it changes keeps it of all.
  pub All-update_where :
      (p : A → Bool) (f : A → A) (xs : List A)
      → ((x : A) → p x ≡ true → P x → P (f x))
      → All P xs
      → All P (update_where p f xs)
  unfolding update_where
  All-update_where p f [] keep h = tt
  All-update_where p f (x ∷ xs) keep h = elim (Bool-cases (p x)) [
    | inl e ↦ rw e (keep x e h.0, All-update_where p f xs keep h.1)
    | inr e ↦ rw e (h.0, All-update_where p f xs keep h.1)
  ]

  pub All-mono {κ'} : {Q : A → Type κ'} (xs : List A) → ((x : A) → P x → Q x) → All P xs → All Q xs
  All-mono [] f h = tt
  All-mono (x ∷ xs) f h = (f x h.0, All-mono xs f h.1)

module _ {ℓ} {A : Type ℓ} where
  pub List-cases : (xs : List A) → (xs ≡ []) ⊎ ((y : A) × (ys : List A) × (xs ≡ y ∷ ys))
  List-cases [] = inl refl
  List-cases (x ∷ xs) = inr (x, xs, refl)

module _ {ℓ} {A : Type ℓ} where
  -- An update finds its first row again, changed.
  pub first_where-update_where :
      (p : A → Bool) (f : A → A) (xs : List A)
      → ((x : A) → p (f x) ≡ p x)
      → first_where p (update_where p f xs) ≡ Option.map f (first_where p xs)
  unfolding first_where update_where
  first_where-update_where p f [] h = refl
  first_where-update_where p f (x ∷ xs) h = elim (Bool-cases (p x)) [
    | inl e ↦ ground (arith, h x)
    | inr e ↦ ground (arith, first_where-update_where p f xs h)
  ]

  -- A search does not see an update of rows that it does not look for.
  pub first_where-update_other :
      (q p : A → Bool) (f : A → A) (xs : List A)
      → ((x : A) → q (f x) ≡ q x)
      → ((x : A) → p x ≡ true → q x ≡ false)
      → first_where q (update_where p f xs) ≡ first_where q xs
  unfolding first_where update_where
  first_where-update_other q p f [] h d = refl
  first_where-update_other q p f (x ∷ xs) h d = elim (Bool-cases (p x)) [
    | inl e ↦ ground (arith, h x, d x e, first_where-update_other q p f xs h d)
    | inr e ↦ ground (arith, first_where-update_other q p f xs h d)
  ]

  -- An update that makes no row pass the test counts no more rows.
  pub count_where-update_le :
      (q p : A → Bool) (f : A → A) (xs : List A)
      → ((x : A) → q (f x) ≡ true → q x ≡ true)
      → count_where q (update_where p f xs) ≤ count_where q xs
  unfolding count_where update_where
  count_where-update_le q p f [] h = omega arith
  count_where-update_le q p f (x ∷ xs) h = ground (arith, h x, count_where-update_le q p f xs h)

module _ {ℓ} {A : Type ℓ} where
  pub All-selected : (p : A → Bool) (xs : List A) → All (λ x. p x ≡ true) (rows_where p xs)
  unfolding rows_where
  All-selected p [] = tt
  All-selected p (x ∷ xs) = elim (Bool-cases (p x)) [
    | inl e ↦ rw e (e, All-selected p xs)
    | inr e ↦ rw e (All-selected p xs)
  ]

module _ {ℓ κ} {A : Type ℓ} (P : A → Type κ) where
  pub All-take : (n : ℕ) (xs : List A) → All P xs → All P (take n xs)
  All-take zero xs h = tt
  All-take (suc n) [] h = tt
  All-take (suc n) (x ∷ xs) h = (h.0, All-take n xs h.1)
