-- ===== src/Queries/Removal.antt =====
-- services.py: the rows and the keys that `cleanup_expired_files` chooses.
use web_data_extraction_engi.Prelude.{
  ℕ, ◌+◌, ◌-◌, ◌≡◌, refl, ap, ◌∙◌, count_if, String, Bool, true, false, not, List, [], ◌∷◌, ◌++◌,
  length, where_, any, All, Option, arith, ◌==◌, ==_iff, Bool-cases, inl, inr,
}
use web_data_extraction_engi.Prelude.Sorting.{sort_by}
use web_data_extraction_engi.Prelude.Counting.{
  All-sort_by, All-take, All-where_, length-taken, length-sort_by, length-where_, Unique,
  count_if-where_, count_if-chosen, count_if-swap,
}
use web_data_extraction_engi.Queries.Files.{
  has_expired, by_expiry, expired_rows, without_rows, delete_keys,
}

module _ {A : Type 0} (expires_at : A → Option ℕ) (row_id : A → ℕ) (now : ℕ) where
  -- rows of one identifier expire at one time
  abbrev pub Identifies : Type 0
  Identifies = (a b : A) → row_id a ≡ row_id b → expires_at a ≡ expires_at b

  abbrev pub live : A → Bool
  live a = not (has_expired now (expires_at a))

  pub expired_rows-expired :
      (limit : ℕ) (rows : List A)
      → All
          (λ a. has_expired now (expires_at a) ≡ true)
          (expired_rows expires_at row_id now limit rows)
  unfolding expired_rows
  expired_rows-expired limit rows =
      All-take _ limit _ (All-sort_by _ _ _ (All-where_ (λ a. has_expired now (expires_at a)) rows))

  not_removed :
      (a : A) (removed : List A)
      → Identifies
      → All (λ b. has_expired now (expires_at b) ≡ true) removed
      → live a ≡ true
      → any (λ b. row_id b == row_id a) removed ≡ false
  not_removed a [] i h l = refl
  not_removed a (b ∷ removed) i h l = elim (Bool-cases (row_id b == row_id a)) [
    | inl e ↦ let same = i b a ((==_iff (row_id b) (row_id a)).0 e) in cc (rw same at (h.0), l)
    | inr e ↦ rw e (not_removed a removed i h.1 l)
  ]

  pub live_rows-stay :
      (removed rows : List A)
      → Identifies
      → All (λ b. has_expired now (expires_at b) ≡ true) removed
      → where_ live (without_rows expires_at row_id removed rows) ≡ where_ live rows
  unfolding without_rows
  live_rows-stay removed [] i h = refl
  live_rows-stay removed (a ∷ rows) i h =
      let rest = live_rows-stay removed rows i h in
      elim (Bool-cases (live a)) [
        | inl l ↦ rw (not_removed a removed i h l, l, rest)
        | inr l ↦ elim (Bool-cases (any (λ b. row_id b == row_id a) removed)) [
          | inl gone ↦ rw (gone, l, rest)
          | inr kept ↦ rw (kept, l, rest)
        ]
      ]

  -- two rows are the same when their identifiers are
  abbrev pub same_id : A → A → Bool
  same_id a b = row_id b == row_id a

  -- the number of expired rows falls by the limit
  pub expired_left :
      (limit : ℕ) (rows : List A)
      → Unique same_id rows
      → count_if
          (λ a. has_expired now (expires_at a))
          (without_rows expires_at row_id (expired_rows expires_at row_id now limit rows) rows)
        ≡ count_if (λ a. has_expired now (expires_at a)) rows - limit
  unfolding without_rows expired_rows
  expired_left limit rows unique =
      let q : A → Bool = λ a. has_expired now (expires_at a) in
      let chosen = expired_rows expires_at row_id now limit rows in
      let p : A → Bool = λ a. not (any (λ b. row_id b == row_id a) chosen) in
      count_if-where_ q p rows
      ∙ count_if-swap p q rows
      ∙ count_if-chosen same_id (λ a. (==_iff (row_id a) (row_id a)).1 refl) q
          (by_expiry expires_at row_id) limit rows unique

  pub length-live :
      (rows : List A)
      → length rows
        ≡ length (where_ live rows) + count_if (λ a. has_expired now (expires_at a)) rows
  length-live [] = omega arith
  length-live (a ∷ rows) = ground (arith, length-live rows)

  pub length-expired_rows :
      (limit : ℕ) (rows : List A)
      → length (expired_rows expires_at row_id now limit rows)
          + (count_if (λ a. has_expired now (expires_at a)) rows - limit)
        ≡ count_if (λ a. has_expired now (expires_at a)) rows
  unfolding expired_rows
  length-expired_rows limit rows =
      let q : A → Bool = λ a. has_expired now (expires_at a) in
      let sorted = sort_by (by_expiry expires_at row_id) (where_ q rows) in
      let size =
        length-sort_by (by_expiry expires_at row_id) (where_ q rows) ∙ length-where_ q rows in
      omega (arith, length-taken limit sorted, size)

module _ (deletes : String → Bool) where
  pub delete_keys-prefix :
      (keys : List String) → (rest : List String) × ((delete_keys deletes keys).1 ++ rest ≡ keys)
  unfolding delete_keys
  delete_keys-prefix [] = ([], refl)
  delete_keys-prefix (key ∷ keys) =
      let (rest, h) = delete_keys-prefix keys in
      elim (Bool-cases (deletes key)) [
        | inl e ↦ rw e (rest, ap (λ l. key ∷ l) h)
        | inr e ↦ rw e (key ∷ keys, refl)
      ]

  pub delete_keys-all :
      (keys : List String)
      → (delete_keys deletes keys).0 ≡ true
      → (delete_keys deletes keys).1 ≡ keys
  unfolding delete_keys
  delete_keys-all [] h = refl
  delete_keys-all (key ∷ keys) h = elim (Bool-cases (deletes key)) [
    | inl e ↦ rw e (ap (λ l. key ∷ l) (delete_keys-all keys (rw e at h)))
    | inr e ↦ cc (rw e at h)
  ]

  pub delete_keys-raises :
      (keys : List String)
      → (delete_keys deletes keys).0 ≡ false
      → (key : String) × (deletes key ≡ false)
  unfolding delete_keys
  delete_keys-raises [] h = cc h
  delete_keys-raises (key ∷ keys) h = elim (Bool-cases (deletes key)) [
    | inl e ↦ delete_keys-raises keys (rw e at h)
    | inr e ↦ (key, e)
  ]
