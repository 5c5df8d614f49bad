-- ===== src/Prelude/Counting.antt =====
-- Lemmas on lengths and counts of filtered, sorted and cut lists, and on properties of all their rows.
use Prim.Native.Nat.{ℕ, zero, suc, ◌+◌, ◌-◌, ◌≤◌}
use mathlib.Core.Path.{◌≡◌, refl, sym, ap, ◌∙◌}
use mathlib.Core.Bool.{Bool, true, false, not, ◌&&◌}
use mathlib.Core.List.{List, [], ◌∷◌, map}
use mathlib.Core.Logic.{inl, inr}
use native.Mathlib.Omega.{arith}
use package.web_data_extraction_engi.Prelude.Tests.{Bool-cases}
use package.web_data_extraction_engi.Prelude.Lists.{length, take, where_, any, count_if, All}
use package.web_data_extraction_engi.Prelude.Sorting.{insert_by, sort_by, count_if-sort_by}

pub length-take : {A : Type 0} (n : ℕ) (xs : List A) → length (take n xs) ≤ n
length-take zero xs = omega arith
length-take (suc n) [] = omega arith
length-take (suc n) (x ∷ xs) = omega (arith, length-take n xs)

pub length-map : {A B : Type 0} (f : A → B) (xs : List A) → length (map f xs) ≡ length xs
length-map f [] = refl
length-map f (x ∷ xs) = ap suc (length-map f xs)

pub count_if-agree :
    {A : Type 0} (p q : A → Bool) (xs : List A)
    → All (λ a. p a ≡ q a) xs
    → count_if p xs ≡ count_if q xs
count_if-agree p q [] h = refl
count_if-agree p q (x ∷ xs) h = rw (h.0, count_if-agree p q xs h.1) refl

pub count_if-where_ :
    {A : Type 0} (p q : A → Bool) (xs : List A)
    → count_if p (where_ q xs) ≡ count_if (λ a. q a && p a) xs
count_if-where_ p q [] = refl
count_if-where_ p q (x ∷ xs) = ground (arith, count_if-where_ p q xs)

pub count_if_le-where_ :
    {A : Type 0} (p q : A → Bool) (xs : List A) → count_if p (where_ q xs) ≤ count_if p xs
count_if_le-where_ p q [] = omega arith
count_if_le-where_ p q (x ∷ xs) = ground (arith, count_if_le-where_ p q xs)

pub count_if-length : {A : Type 0} (xs : List A) → count_if (λ x. true) xs ≡ length xs
count_if-length [] = refl
count_if-length (x ∷ xs) = ap suc (count_if-length xs)

pub length-where_ : {A : Type 0} (q : A → Bool) (xs : List A) → length (where_ q xs) ≡ count_if q xs
length-where_ q [] = refl
length-where_ q (x ∷ xs) = ground (arith, length-where_ q xs)

pub length-sort_by :
    {A : Type 0} (le : A → A → Bool) (xs : List A) → length (sort_by le xs) ≡ length xs
length-sort_by le xs =
    sym (count_if-length (sort_by le xs)) ∙ count_if-sort_by le (λ x. true) xs ∙ count_if-length xs

module _ {A : Type 0} (P : A → Type 0) where
  pub All-insert_by :
      (le : A → A → Bool) (x : A) (xs : List A) → P x → All P xs → All P (insert_by le x xs)
  unfolding insert_by
  All-insert_by le x [] p h = (p, tt)
  All-insert_by le x (y ∷ ys) p h = elim (Bool-cases (le x y)) [
    | inl e ↦ rw e (p, h)
    | inr e ↦ rw e (h.0, All-insert_by le x ys p h.1)
  ]

  pub All-sort_by : (le : A → A → Bool) (xs : List A) → All P xs → All P (sort_by le xs)
  unfolding sort_by
  All-sort_by le [] h = tt
  All-sort_by le (x ∷ xs) h = All-insert_by le x (sort_by le xs) h.0 (All-sort_by le xs h.1)

  pub All-take : (n : ℕ) (xs : List A) → All P xs → All P (take n xs)
  All-take zero xs h = tt
  All-take (suc n) [] h = tt
  All-take (suc n) (x ∷ xs) h = (h.0, All-take n xs h.1)

pub All-where_ : {A : Type 0} (p : A → Bool) (xs : List A) → All (λ a. p a ≡ true) (where_ p xs)
All-where_ p [] = tt
All-where_ p (x ∷ xs) = elim (Bool-cases (p x)) [
  | inl e ↦ rw e (e, All-where_ p xs)
  | inr e ↦ rw e (All-where_ p xs)
]

-- no two rows are the same
abbrev pub Unique : {A : Type 0} → (A → A → Bool) → List A → Type 0
Unique same xs = (k : _) → count_if (λ a. same a k) xs ≤ 1

module _ {A : Type 0} (same : A → A → Bool) (same_refl : (a : A) → same a a ≡ true) where
  none-of : (p : A → Bool) (xs : List A) → count_if p xs ≤ 0 → All (λ a. p a ≡ false) xs
  none-of p [] h = tt
  none-of p (x ∷ xs) h = (ground arith, none-of p xs (ground arith))

  count_if-le : (p : A → Bool) (x : A) (xs : List A) → count_if p xs ≤ count_if p (x ∷ xs)
  count_if-le p x xs = ground arith

  apart :
      (x : A) (chosen xs : List A)
      → All (λ a. same a x ≡ false) xs
      → All (λ a. not (any (same a) (x ∷ chosen)) ≡ not (any (same a) chosen)) xs
  apart x chosen [] h = tt
  apart x chosen (a ∷ xs) h = (rw (h.0) refl, apart x chosen xs h.1)

  fewer :
      (x : A) (xs : List A)
      → count_if (λ a. same a x) (x ∷ xs) ≤ 1
      → count_if (λ a. same a x) xs ≤ 0
  fewer x xs h = let now = same_refl x in ground arith

  at_most_one :
      (k x : A) (xs : List A)
      → count_if (λ a. same a k) (x ∷ xs) ≤ 1
      → count_if (λ a. same a k) xs ≤ 1
  at_most_one k x xs h = omega (arith, count_if-le (λ a. same a k) x xs)

  left_over :
      (n : ℕ) (xs : List A)
      → Unique same xs
      → count_if (λ a. not (any (same a) (take n xs))) xs ≡ length xs - n
  left_over zero xs u = every xs
    where
      every : (ys : List A) → count_if (λ a. true) ys ≡ length ys - 0
      every [] = refl
      every (y ∷ ys) = omega (arith, every ys)
  left_over (suc n) [] u = omega arith
  left_over (suc n) (x ∷ xs) u =
      let alone = none-of (λ a. same a x) xs (fewer x xs (u x)) in
      let rest = left_over n xs (λ k. at_most_one k x xs (u k)) in
      let e : length (x ∷ xs) - suc n ≡ length xs - n = omega arith in
      rw (same_refl x, e) (count_if-agree _ _ xs (apart x (take n xs) xs alone) ∙ rest)

  -- of the rows of a kind, those that are left when the first ones in an order are chosen
  pub count_if-chosen :
      (q : A → Bool) (le : A → A → Bool) (limit : ℕ) (rows : List A)
      → Unique same rows
      → count_if (λ a. q a && not (any (same a) (take limit (sort_by le (where_ q rows))))) rows
        ≡ count_if q rows - limit
  count_if-chosen q le limit rows unique =
      let sorted = sort_by le (where_ q rows) in
      let p : A → Bool = λ a. not (any (same a) (take limit sorted)) in
      let keys : Unique same sorted = λ k.
        rw (count_if-sort_by le (λ a. same a k) (where_ q rows))
          (omega (arith, unique k, count_if_le-where_ (λ a. same a k) q rows)) in
      sym (count_if-where_ p q rows)
      ∙ sym (count_if-sort_by le p (where_ q rows))
      ∙ left_over limit sorted keys
      ∙ ap (λ n. n - limit) (length-sort_by le (where_ q rows) ∙ length-where_ q rows)

pub count_if-swap :
    {A : Type 0} (p q : A → Bool) (xs : List A)
    → count_if (λ a. p a && q a) xs ≡ count_if (λ a. q a && p a) xs
count_if-swap p q [] = refl
count_if-swap p q (x ∷ xs) = ground (arith, count_if-swap p q xs)

pub length-taken :
    {A : Type 0} (n : ℕ) (xs : List A) → length (take n xs) + (length xs - n) ≡ length xs
length-taken zero xs = omega arith
length-taken (suc n) [] = omega arith
length-taken (suc n) (x ∷ xs) = omega (arith, length-taken n xs)
