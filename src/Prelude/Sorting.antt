-- ===== src/Prelude/Sorting.antt =====
-- `sorted(rows, key=...)` and `ORDER BY`: a stable sort by a test, and the order of texts.
use Prim.Native.Char.{code}
use Prim.Native.String.{String}
use mathlib.Core.Path.{◌≡◌, refl, ◌∙◌}
use mathlib.Core.Bool.{Bool, true, false, ◌&&◌}
use mathlib.Core.List.{List, [], ◌∷◌}
use native.Mathlib.Omega.{arith}
use mathlib.Core.Logic.{inl, inr}
use package.web_data_extraction_engi.Prelude.Tests.{if◌then◌else◌, ◌==◌, ltb, Bool-cases}
use package.web_data_extraction_engi.Prelude.Lists.{count_if, All}

-- Python compares texts by their code points
unfoldable pub str_leb : String → String → Bool
str_leb String.[] t = true
str_leb (String.◌∷◌ c s) String.[] = false
str_leb (String.◌∷◌ c s) (String.◌∷◌ d t) =
    if code c == code d then str_leb s t else ltb (code c) (code d)

pub str_leb-total : (s t : String) → str_leb s t ≡ false → str_leb t s ≡ true
unfolding str_leb
str_leb-total String.[] t h = cc h
str_leb-total (String.◌∷◌ c s) String.[] h = refl
str_leb-total (String.◌∷◌ c s) (String.◌∷◌ d t) h = ground (arith, str_leb-total s t)

pub str_leb_trans : (s t u : String) → str_leb s t ≡ true → str_leb t u ≡ true → str_leb s u ≡ true
unfolding str_leb
str_leb_trans String.[] t u h k = refl
str_leb_trans (String.◌∷◌ c s) String.[] u h k = cc h
str_leb_trans (String.◌∷◌ c s) (String.◌∷◌ d t) String.[] h k = cc k
str_leb_trans (String.◌∷◌ c s) (String.◌∷◌ d t) (String.◌∷◌ e u) h k =
    ground (arith, str_leb_trans s t u)

module _ {ℓ} {A : Type ℓ} (le : A → A → Bool) where
  unfoldable pub insert_by : A → List A → List A
  insert_by x [] = x ∷ []
  insert_by x (y ∷ ys) = if le x y then x ∷ y ∷ ys else y ∷ insert_by x ys

  unfoldable pub sort_by : List A → List A
  unfolding insert_by
  sort_by [] = []
  sort_by (x ∷ xs) = insert_by x (sort_by xs)

  count_if-insert_by :
      (p : A → Bool) (x : A) (ys : List A) → count_if p (insert_by x ys) ≡ count_if p (x ∷ ys)
  unfolding insert_by
  count_if-insert_by p x [] = refl
  count_if-insert_by p x (y ∷ ys) = ground (arith, count_if-insert_by p x ys)

  -- a sort keeps every row, as often
  pub count_if-sort_by : (p : A → Bool) (xs : List A) → count_if p (sort_by xs) ≡ count_if p xs
  unfolding sort_by
  count_if-sort_by p [] = refl
  count_if-sort_by p (x ∷ xs) =
      count_if-insert_by p x (sort_by xs) ∙ ground (arith, count_if-sort_by p xs)

  -- each row comes before all later ones
  abbrev pub IsSorted : List A → Type ℓ
  IsSorted [] = Unit
  IsSorted (x ∷ xs) = All (λ y. le x y ≡ true) xs × IsSorted xs

  module _ (total : (x y : A) → le x y ≡ false → le y x ≡ true)
      (trans : (x y z : A) → le x y ≡ true → le y z ≡ true → le x z ≡ true) where
    All-insert_by :
        (z x : A) (ys : List A)
        → le z x ≡ true
        → All (λ y. le z y ≡ true) ys
        → All (λ y. le z y ≡ true) (insert_by x ys)
    unfolding insert_by
    All-insert_by z x [] h a = (h, tt)
    All-insert_by z x (y ∷ ys) h a = elim (Bool-cases (le x y)) [
      | inl e ↦ rw e (h, a)
      | inr e ↦ rw e (a.0, All-insert_by z x ys h a.1)
    ]

    All-trans :
        (x y : A) (ys : List A)
        → le x y ≡ true
        → All (λ z. le y z ≡ true) ys
        → All (λ z. le x z ≡ true) ys
    All-trans x y [] h a = tt
    All-trans x y (z ∷ zs) h a = (trans x y z h a.0, All-trans x y zs h a.1)

    insert_by-IsSorted : (x : A) (ys : List A) → IsSorted ys → IsSorted (insert_by x ys)
    unfolding insert_by
    insert_by-IsSorted x [] s = (tt, tt)
    insert_by-IsSorted x (y ∷ ys) s = elim (Bool-cases (le x y)) [
      | inl e ↦ rw e ((e, All-trans x y ys e s.0), s)
      | inr e ↦ rw e (All-insert_by y x ys (total x y e) s.0, insert_by-IsSorted x ys s.1)
    ]

    pub sort_by-IsSorted : (xs : List A) → IsSorted (sort_by xs)
    unfolding sort_by
    sort_by-IsSorted [] = tt
    sort_by-IsSorted (x ∷ xs) = insert_by-IsSorted x (sort_by xs) (sort_by-IsSorted xs)

    -- two rows of which neither test holds both ways are inserted in any order
    pub insert_by-insert_by :
        (x y : A) (zs : List A)
        → (le x y && le y x) ≡ false
        → insert_by x (insert_by y zs) ≡ insert_by y (insert_by x zs)
    unfolding insert_by
    insert_by-insert_by x y [] h = ground (arith, total x y)
    insert_by-insert_by x y (z ∷ zs) h = ground (
      arith,
      insert_by-insert_by x y zs h,
      total x y,
      trans x y z,
      trans y x z,
      total x z,
      total y z,
      trans x z y,
      trans y z x,
    )
