-- ===== src/Pages/Walk.antt =====
-- A client that reads a list page by page (src/lib/server/api/pagination.ts).
use mathlib.Core.Path.{subst}
use uppity.Base.{
  ℕ, zero, suc, ◌+◌, ◌≤◌, ◌<◌, ◌≡◌, refl, sym, ap, ◌∙◌, Bool, Option, none, some, List, [], ◌∷◌,
  ◌++◌, arith, length, take, drop, Bool-cases, inl, inr, ltb, ◌==◌, rows_where, first_where,
}
use uppity.Pages.{Page, last_id, to_page, list_page, page_after, listed, precedes}
use uppity.Pages.Order.{IsKeyed, IsOrdered, listed-IsOrdered, rows_where-after, first_where-key}

module _ {ℓ} {A : Type ℓ} where
  take-take : (n : ℕ) (xs : List A) → take n (take (suc n) xs) ≡ take n xs
  take-take zero xs = refl
  take-take (suc n) [] = refl
  take-take (suc n) (x ∷ xs) = ap (λ ys. x ∷ ys) (take-take n xs)

  ltb-take : (n : ℕ) (xs : List A) → ltb n (length (take (suc n) xs)) ≡ ltb n (length xs)
  ltb-take zero [] = refl
  ltb-take zero (x ∷ xs) = ground arith
  ltb-take (suc n) [] = refl
  ltb-take (suc n) (x ∷ xs) = ground (arith, ltb-take n xs)

  take-short : (n : ℕ) (xs : List A) → length xs ≤ n → take n xs ≡ xs
  take-short zero [] h = refl
  take-short zero (x ∷ xs) h = ground (arith, h)
  take-short (suc n) [] h = refl
  take-short (suc n) (x ∷ xs) h = ap (λ ys. x ∷ ys) (take-short n xs (omega arith))

  take-drop : (n : ℕ) (xs : List A) → take n xs ++ drop n xs ≡ xs
  take-drop zero xs = refl
  take-drop (suc n) [] = refl
  take-drop (suc n) (x ∷ xs) = ap (λ ys. x ∷ ys) (take-drop n xs)

  length-drop : (n : ℕ) (xs : List A) → n ≤ length xs → length (drop n xs) + n ≡ length xs
  length-drop zero xs h = omega arith
  length-drop (suc n) [] h = omega arith
  length-drop (suc n) (x ∷ xs) h = omega (arith, length-drop n xs (omega arith))

  joined :
      (pre init : List A) (a : A) (d : List A)
      → pre ++ ((init ++ (a ∷ [])) ++ d) ≡ (pre ++ init) ++ a ∷ d
  joined [] [] a d = refl
  joined [] (x ∷ init) a d = ap (λ ys. x ∷ ys) (joined [] init a d)
  joined (x ∷ pre) init a d = ap (λ ys. x ∷ ys) (joined pre init a d)

  -- The last row of a list that has one.
  split_last :
      (id : A → ℕ) (x : A) (xs : List A)
      → (init : List A) × (a : A) × (x ∷ xs ≡ init ++ (a ∷ []))
        × (last_id id (x ∷ xs) ≡ some (id a))
  unfolding last_id
  split_last id x [] = ([], x, refl, refl)
  split_last id x (y ∷ ys) =
      let (init, a, e, l) = split_last id y ys in (x ∷ init, a, ap (λ zs. x ∷ zs) e, l)

module _ {ℓ} {A : Type ℓ} where
  abbrev pub more : (Option ℕ → List A) → List A → Option ℕ → List A
  more again rows none = rows
  more again rows (some c) = rows ++ again (some c)

  abbrev pub read : (Option ℕ → List A) → Option (Page A) → List A
  read again none = []
  read again (some p) = more again p.rows p.next_cursor

module _ {ℓ} {A : Type ℓ} (time id : A → ℕ) (shown : A → Bool) (table : List A) (limit : ℕ) where
  -- What the client reads with at most so many requests, each with the cursor of the last answer.
  unfoldable pub walk : ℕ → Option ℕ → List A
  walk zero cursor = []
  walk (suc n) cursor = read (λ c. walk n c) (list_page time id shown table limit cursor)

  -- The page after a row of the list.
  list_page-cursor :
      (a : A) (xs ys : List A)
      → IsKeyed time id table
      → listed time id shown table ≡ xs ++ a ∷ ys
      → list_page time id shown table limit (some (id a))
        ≡ some (to_page id (take (suc limit) ys) limit)
  unfolding list_page
  list_page-cursor a xs ys k e =
      let ordered = subst (IsOrdered time id) e (listed-IsOrdered time id shown table k) in
      let found : first_where (λ x. id x == id a) (listed time id shown table) ≡ some a =
        subst (λ zs. first_where (λ x. id x == id a) zs ≡ some a) (sym e)
          (first_where-key time id a xs ys ordered) in
      let after : rows_where (precedes time id a) (listed time id shown table) ≡ ys =
        subst (λ zs. rows_where (precedes time id a) zs ≡ ys) (sym e)
          (rows_where-after time id a xs ys ordered) in
      ap (page_after time id shown table limit) found
      ∙ ap (λ zs. some (to_page id (take (suc limit) zs) limit)) after

  page_end :
      (n : ℕ) (ys : List A)
      → 1 ≤ n
      → n < length ys
      → (init : List A) × (a : A) × (take n ys ≡ init ++ (a ∷ []))
        × (last_id id (take n ys) ≡ some (id a))
  page_end zero ys h m = ground (arith, h)
  page_end (suc n) [] h m = ground (arith, m)
  page_end (suc n) (x ∷ xs) h m = split_last id x (take n xs)

  one_more : (xs : List A) (a : A) (d : List A) → xs ++ a ∷ d ≡ (xs ++ (a ∷ [])) ++ d
  one_more [] a d = refl
  one_more (x ∷ xs) a d = ap (λ ys. x ∷ ys) (one_more xs a d)

  -- From a cursor at which the next page starts with `ys`, the client reads `ys`.
  walk-from :
      (n : ℕ) (pre ys : List A) (cursor : Option ℕ)
      → IsKeyed time id table
      → 1 ≤ limit
      → listed time id shown table ≡ pre ++ ys
      → list_page time id shown table limit cursor ≡ some (to_page id (take (suc limit) ys) limit)
      → length ys ≤ n
      → walk n cursor ≡ ys
  unfolding walk to_page
  walk-from zero pre [] cursor k one e q h = refl
  walk-from zero pre (y ∷ ys) cursor k one e q h = ground (arith, h)
  walk-from (suc n) pre ys cursor k one e q h =
      ap (read (λ c. walk n c)) q ∙ elim (Bool-cases (ltb limit (length ys))) [
        | inr t ↦ rw (take-take limit ys, ltb-take limit ys, t) (take-short limit ys (ground arith))
        | inl t ↦
            let (init, a, split, last) = page_end limit ys one (ground arith) in
            let there : listed time id shown table ≡ (pre ++ init) ++ a ∷ drop limit ys =
              e
              ∙ ap (λ zs. pre ++ zs) (sym (take-drop limit ys))
              ∙ ap (λ zs. pre ++ (zs ++ drop limit ys)) split
              ∙ joined pre init a (drop limit ys) in
            let shorter : length (drop limit ys) ≤ n =
              omega (arith, length-drop limit ys (ground arith), one) in
            let rest =
              walk-from n ((pre ++ init) ++ (a ∷ [])) (drop limit ys) (some (id a)) k one
                (there ∙ one_more (pre ++ init) a (drop limit ys))
                (list_page-cursor a (pre ++ init) (drop limit ys) k there) shorter in
            rw (take-take limit ys, ltb-take limit ys, t, last)
              (ap (λ zs. take limit ys ++ zs) rest ∙ take-drop limit ys)
      ]

-- A client that starts at the first page and follows the cursors reads exactly the list, each row
-- once and in the list's order, whatever the size of its pages, if that is one at least: with no
-- two rows of one key and as many requests allowed as the list has rows.
pub walk-listed {ℓ} :
    {A : Type ℓ} (time id : A → ℕ) (shown : A → Bool) (table : List A) (limit n : ℕ)
    → IsKeyed time id table
    → 1 ≤ limit
    → length (listed time id shown table) ≤ n
    → walk time id shown table limit n none ≡ listed time id shown table
unfolding list_page
walk-listed time id shown table limit n k one h =
    walk-from time id shown table limit n [] (listed time id shown table) none k one refl refl h
