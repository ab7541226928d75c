-- ===== src/Base/KeyLaws.antt =====
-- Queries on a table whose rows have a key.
use Prim.Native.Nat.{◌≤◌}
use mathlib.Core.Path.{◌≡◌, refl, ap, sym}
use mathlib.Core.Path.{subst}
use mathlib.Core.Bool.{Bool, true, false}
use mathlib.Core.Logic.{inl, inr}
use mathlib.Core.Option.{some}
use mathlib.Core.List.{List, [], ◌∷◌}
use native.Mathlib.Omega.{arith}
use uppity.Base.RowLaws.{first_where-holds}
use uppity.Base.Rows.{count_where, first_where, update_where, delete_where, All}
use uppity.Base.Tests.{if◌then◌else◌, Bool-cases}

module _ {ℓ} {A : Type ℓ} where
  pub count_where_mono :
      (p q : A → Bool) (xs : List A)
      → ((x : A) → p x ≡ true → q x ≡ true)
      → count_where p xs ≤ count_where q xs
  unfolding count_where
  count_where_mono p q [] h = omega arith
  count_where_mono p q (x ∷ xs) h = ground (arith, h x, count_where_mono p q xs h)

  pub count_where-cong :
      (p q : A → Bool) (xs : List A) → ((x : A) → p x ≡ q x) → count_where p xs ≡ count_where q xs
  unfolding count_where
  count_where-cong p q [] h = refl
  count_where-cong p q (x ∷ xs) h = ground (arith, h x, count_where-cong p q xs h)

  pub count_where-delete_le :
      (q p : A → Bool) (xs : List A) → count_where q (delete_where p xs) ≤ count_where q xs
  unfolding count_where delete_where
  count_where-delete_le q p [] = omega arith
  count_where-delete_le q p (x ∷ xs) = ground (arith, count_where-delete_le q p xs)

  -- An update of no row changes nothing.
  pub update_where-none :
      (p : A → Bool) (f : A → A) (xs : List A) → count_where p xs ≡ 0 → update_where p f xs ≡ xs
  unfolding count_where update_where
  update_where-none p f [] h = refl
  update_where-none p f (x ∷ xs) h = elim (Bool-cases (p x)) [
    | inl e ↦ ground arith
    | inr e ↦
        let none_left : count_where p xs ≡ 0 = ground arith in
        rw e (ap (λ ys. x ∷ ys) (update_where-none p f xs none_left))
  ]

  pub delete_where-none :
      (p : A → Bool) (xs : List A) → count_where p xs ≡ 0 → delete_where p xs ≡ xs
  unfolding count_where delete_where
  delete_where-none p [] h = refl
  delete_where-none p (x ∷ xs) h = elim (Bool-cases (p x)) [
    | inl e ↦ ground arith
    | inr e ↦
        let none_left : count_where p xs ≡ 0 = ground arith in
        rw e (ap (λ ys. x ∷ ys) (delete_where-none p xs none_left))
  ]

module _ {ℓ κ} {A : Type ℓ} (P : A → Type κ) where
  pub All-delete_where : (p : A → Bool) (xs : List A) → All P xs → All P (delete_where p xs)
  unfolding delete_where
  All-delete_where p [] h = tt
  All-delete_where p (x ∷ xs) h = elim (Bool-cases (p x)) [
    | inl e ↦ rw e (All-delete_where p xs h.1)
    | inr e ↦ rw e (h.0, All-delete_where p xs h.1)
  ]

  -- An update of the one row that a query finds keeps `P` of all rows if it keeps it of that one.
  pub All-update_only :
      (p : A → Bool) (f : A → A) (xs : List A) {x : A}
      → count_where p xs ≤ 1
      → first_where p xs ≡ some x
      → (P x → P (f x))
      → All P xs
      → All P (update_where p f xs)
  unfolding count_where first_where update_where
  All-update_only p f [] c e keep h = tt
  All-update_only p f (y ∷ ys) {x} c e keep h = elim (Bool-cases (p y)) [
    | inl t ↦
        let same : y ≡ x = ground arith in
        let none_left : count_where p ys ≡ 0 = ground arith in
        rw (t, update_where-none p f ys none_left)
          (subst (λ z. P z → P (f z)) (sym same) keep h.0, h.1)
    | inr t ↦
        let c' : count_where p ys ≤ 1 = ground arith in
        let e' : first_where p ys ≡ some x = ground arith in
        rw t (h.0, All-update_only p f ys c' e' keep h.1)
  ]

  pub All-first_where :
      (p : A → Bool) (xs : List A) {x : A} → All P xs → first_where p xs ≡ some x → P x
  unfolding first_where
  All-first_where p [] h e = cc
  All-first_where p (y ∷ ys) {x} h e = elim (Bool-cases (p y)) [
    | inl t ↦ let same : y ≡ x = ground arith in subst P same h.0
    | inr t ↦ let e' : first_where p ys ≡ some x = ground arith in All-first_where p ys h.1 e'
  ]

module _ {ℓ} {A : Type ℓ} where
  -- The row that a query finds, after an update that keeps what the query asks.
  pub first_where-update_any :
      (q p : A → Bool) (f : A → A) (xs : List A) {x : A}
      → ((y : A) → q (f y) ≡ q y)
      → first_where q xs ≡ some x
      → first_where q (update_where p f xs) ≡ some (if p x then f x else x)
  unfolding first_where update_where
  first_where-update_any q p f [] keep e = cc
  first_where-update_any q p f (y ∷ ys) {x} keep e = elim (Bool-cases (q y)) [
    | inl t ↦
        let same : y ≡ x = ground arith in
        elim (Bool-cases (p y)) [
          | inl u ↦
              subst (λ z. first_where q (update_where p f (y ∷ ys)) ≡ some (if p z then f z else z))
                same (ground (arith, keep y))
          | inr u ↦
              subst (λ z. first_where q (update_where p f (y ∷ ys)) ≡ some (if p z then f z else z))
                same (ground arith)
        ]
    | inr t ↦
        let e' : first_where q ys ≡ some x = ground arith in
        let rest = first_where-update_any q p f ys keep e' in ground (arith, keep y, rest)
  ]

  -- A query finds its row after a deletion of others.
  pub first_where-delete_other :
      (q p : A → Bool) (xs : List A) {x : A}
      → first_where q xs ≡ some x
      → p x ≡ false
      → first_where q (delete_where p xs) ≡ some x
  unfolding first_where delete_where
  first_where-delete_other q p [] e h = cc
  first_where-delete_other q p (y ∷ ys) {x} e h = elim (Bool-cases (q y)) [
    | inl t ↦
        let same : y ≡ x = ground arith in
        let kept : p y ≡ false = subst (λ z. p z ≡ false) (sym same) h in ground arith
    | inr t ↦
        let e' : first_where q ys ≡ some x = ground arith in
        ground (arith, first_where-delete_other q p ys e' h)
  ]

  -- A narrower query finds the same row, if that row passes it.
  pub first_where-narrow :
      (p q : A → Bool) (xs : List A) {x : A}
      → ((y : A) → p y ≡ true → q y ≡ true)
      → first_where q xs ≡ some x
      → p x ≡ true
      → first_where p xs ≡ some x
  unfolding first_where
  first_where-narrow p q [] h e t = cc
  first_where-narrow p q (y ∷ ys) {x} h e t = elim (Bool-cases (q y)) [
    | inl u ↦
        let same : y ≡ x = ground arith in
        let kept : p y ≡ true = subst (λ z. p z ≡ true) (sym same) t in ground arith
    | inr u ↦
        let e' : first_where q ys ≡ some x = ground arith in
        ground (arith, h y, first_where-narrow p q ys h e' t)
  ]

  pub first_where-count :
      (p : A → Bool) (xs : List A) {x : A} → first_where p xs ≡ some x → 1 ≤ count_where p xs
  unfolding first_where count_where
  first_where-count p [] e = cc
  first_where-count p (y ∷ ys) {x} e = elim (Bool-cases (p y)) [
    | inl t ↦ ground arith
    | inr t ↦
        let e' : first_where p ys ≡ some x = ground arith in
        ground (arith, first_where-count p ys e')
  ]

  -- A query finds the same row after an update of others.
  pub first_where-update_miss :
      (q p : A → Bool) (f : A → A) (xs : List A) {x : A}
      → ((y : A) → q (f y) ≡ q y)
      → first_where q xs ≡ some x
      → p x ≡ false
      → first_where q (update_where p f xs) ≡ some x
  first_where-update_miss q p f xs {x} keep e miss =
      subst (λ b. first_where q (update_where p f xs) ≡ some (if b then f x else x)) miss
        (first_where-update_any q p f xs keep e)

module _ {ℓ κ} {A : Type ℓ} (P : A → Type κ) where
  -- An update of no row but the one with a key keeps `P` of all rows if it keeps it of that one.
  pub All-update_within :
      (q p : A → Bool) (f : A → A) (xs : List A) {x : A}
      → ((y : A) → p y ≡ true → q y ≡ true)
      → count_where q xs ≤ 1
      → first_where q xs ≡ some x
      → (P x → P (f x))
      → All P xs
      → All P (update_where p f xs)
  unfolding count_where first_where update_where
  All-update_within q p f [] i c e keep h = tt
  All-update_within q p f (y ∷ ys) {x} i c e keep h = elim (Bool-cases (q y)) [
    | inl t ↦
        let same : y ≡ x = ground arith in
        let none_left : count_where p ys ≡ 0 = ground (arith, count_where_mono p q ys i) in
        let changed : P (f y) = subst (λ z. P z → P (f z)) (sym same) keep h.0 in
        elim (Bool-cases (p y)) [
          | inl u ↦ rw (u, update_where-none p f ys none_left) (changed, h.1)
          | inr u ↦ rw (u, update_where-none p f ys none_left) (h.0, h.1)
        ]
    | inr t ↦
        let miss : p y ≡ false = ground (arith, i y) in
        let c' : count_where q ys ≤ 1 = ground arith in
        let e' : first_where q ys ≡ some x = ground arith in
        rw miss (h.0, All-update_within q p f ys i c' e' keep h.1)
  ]

module _ {ℓ} {A : Type ℓ} where
  -- A query finds its row changed, if the update takes that row.
  pub first_where-update_met :
      (q p : A → Bool) (f : A → A) (xs : List A) {x : A}
      → ((y : A) → q (f y) ≡ q y)
      → first_where q xs ≡ some x
      → p x ≡ true
      → first_where q (update_where p f xs) ≡ some (f x)
  first_where-update_met q p f xs {x} keep e hit =
      subst (λ b. first_where q (update_where p f xs) ≡ some (if b then f x else x)) hit
        (first_where-update_any q p f xs keep e)

  pub first_where-update_hit :
      (p : A → Bool) (f : A → A) (xs : List A) {x : A}
      → ((y : A) → p (f y) ≡ p y)
      → first_where p xs ≡ some x
      → first_where p (update_where p f xs) ≡ some (f x)
  first_where-update_hit p f xs keep e =
      first_where-update_met p p f xs keep e (first_where-holds p xs e)
