-- ===== src/Limiter/Window.antt =====
-- The rate limiter of security.py against a log that forgets nothing.
use web_data_extraction_engi.Prelude.{
  ℕ, ◌+◌, ◌≤◌, ◌<◌, ◌≡◌, refl, Bool, ◌&&◌, List, [], ◌∷◌, ◌++◌, String, arith, ltb, leb, str_eq,
  length, count_if, if◌then◌else◌, Bool-cases, inl, inr, eq_iff, All, All-append, ap, sym, ◌∙◌,
}
use web_data_extraction_engi.Limiter.{
  SlidingWindowRateLimiter, drop_expired, store_hits, allow, answers,
}

-- The times at which a key was let through, oldest first.
abbrev pub Log : Type 0
Log = String → List ℕ

-- the times of a log in the window that ends at `now`
abbrev pub count_recent : ℕ → ℕ → List ℕ → ℕ
count_recent window_ms now = count_if (λ t. ltb now (t + window_ms))

-- the times of a log after `from`, and not after `from + window_ms`
abbrev pub count_between : ℕ → ℕ → List ℕ → ℕ
count_between window_ms from = count_if (λ t. ltb from t && leb t (from + window_ms))

-- a limiter that only counts
abbrev pub may_pass : ℕ → ℕ → Log → String → ℕ → Bool
may_pass limit window_ms log key now = ltb (count_recent window_ms now (log key)) limit

abbrev pub note : Bool → Log → String → ℕ → Log
note allowed log key now = if allowed then store_hits key (log key ++ now ∷ []) log else log

pub counted_answers : ℕ → ℕ → Log → List (String × ℕ) → List Bool
counted_answers limit window_ms log [] = []
counted_answers limit window_ms log ((key, now) ∷ calls) =
    let allowed = may_pass limit window_ms log key now in
    allowed ∷ counted_answers limit window_ms (note allowed log key now) calls

-- what the limiter lets through, added to a log
unfoldable pub passed : SlidingWindowRateLimiter → Log → List (String × ℕ) → Log
passed limiter log [] = log
passed limiter log ((key, now) ∷ calls) =
    let (after, allowed) = allow limiter key now in passed after (note allowed log key now) calls

-- the clock does not run backwards, from `start` on
abbrev pub Ascending : ℕ → List ℕ → Type 0
Ascending start [] = Unit
Ascending start (t ∷ ts) = (start ≤ t) × Ascending t ts

abbrev pub InOrder : ℕ → List (String × ℕ) → Type 0
InOrder start [] = Unit
InOrder start ((key, now) ∷ calls) = (start ≤ now) × InOrder now calls

Ascending-snoc :
    (start : ℕ) (ts : List ℕ) (now : ℕ)
    → start ≤ now
    → Ascending start ts
    → All (λ t. t ≤ now) ts
    → Ascending start (ts ++ now ∷ [])
Ascending-snoc start [] now h a b = (h, tt)
Ascending-snoc start (t ∷ ts) now h a b = (a.0, Ascending-snoc t ts now b.0 a.1 b.1)

All-later : (m n : ℕ) (ts : List ℕ) → m ≤ n → All (λ t. t ≤ m) ts → All (λ t. t ≤ n) ts
All-later m n [] h a = tt
All-later m n (t ∷ ts) h a = (omega arith, All-later m n ts h a.1)

-- pruning again is pruning once, at the later time
drop_expired-drop_expired :
    (w m n : ℕ) (ts : List ℕ) → m ≤ n → drop_expired w n (drop_expired w m ts) ≡ drop_expired w n ts
unfolding drop_expired
drop_expired-drop_expired w m n [] h = refl
drop_expired-drop_expired w m n (t ∷ ts) h = ground (arith, drop_expired-drop_expired w m n ts)

drop_expired-snoc :
    (w now : ℕ) (ts : List ℕ)
    → 0 < w
    → drop_expired w now (ts ++ now ∷ []) ≡ drop_expired w now ts ++ now ∷ []
unfolding drop_expired
drop_expired-snoc w now [] h = ground arith
drop_expired-snoc w now (t ∷ ts) h = ground (arith, drop_expired-snoc w now ts h)

count_recent-late :
    (w now start : ℕ) (ts : List ℕ)
    → now < start + w
    → Ascending start ts
    → count_recent w now ts ≡ length ts
count_recent-late w now start [] h a = refl
count_recent-late w now start (t ∷ ts) h a = ground (arith, count_recent-late w now t ts)

length-drop_expired :
    (w now start : ℕ) (ts : List ℕ)
    → Ascending start ts
    → length (drop_expired w now ts) ≡ count_recent w now ts
unfolding drop_expired
length-drop_expired w now start [] a = refl
length-drop_expired w now start (t ∷ ts) a =
    ground (arith, length-drop_expired w now t ts, count_recent-late w now t ts)

-- The deques are the log, pruned at some time up to `last`.
pub record Tracks (limiter : SlidingWindowRateLimiter) (log : Log) (last : ℕ) : Type 0 where
  pub ordered : (key : String) → Ascending 0 (log key)
  pub past : (key : String) → All (λ t. t ≤ last) (log key)
  pub kept :
      (key : String) (now : ℕ)
      → last ≤ now
      → drop_expired limiter.window_ms now (limiter.hits key)
        ≡ drop_expired limiter.window_ms now (log key)

module _ (limiter : SlidingWindowRateLimiter) (log : Log) (last : ℕ) (t : Tracks limiter log last)
    (pos : 0 < limiter.window_ms) (key : String) (now : ℕ) (h : last ≤ now) where
  pub allow-answer :
      (allow limiter key now).1 ≡ may_pass limiter.limit limiter.window_ms log key now
  unfolding allow
  allow-answer = ground (
    arith,
    t.kept key now h,
    length-drop_expired limiter.window_ms now 0 (log key) (t.ordered key),
  )

  abbrev pruned : List ℕ
  pruned = drop_expired limiter.window_ms now (limiter.hits key)

  refused-Tracks : Tracks (record limiter { hits = store_hits key pruned limiter.hits }) log now
  unfolding store_hits
  refused-Tracks = record {
    ordered = t.ordered;
    past = λ k. All-later last now (log k) h (t.past k);
    kept = λ k n later. elim (Bool-cases (str_eq k key)) [
      | inl same ↦
          rw (same, (eq_iff k key).0 same)
            (drop_expired-drop_expired limiter.window_ms now n (limiter.hits key) later
              ∙ t.kept key n (omega arith))
      | inr other ↦ rw other (t.kept k n (omega arith))
    ];
  }

  passed-Tracks :
      Tracks
        (record limiter { hits = store_hits key (pruned ++ now ∷ []) limiter.hits })
        (store_hits key (log key ++ now ∷ []) log)
        now
  unfolding store_hits
  passed-Tracks = record {
    ordered = λ k. elim (Bool-cases (str_eq k key)) [
      | inl same ↦ rw same (
          Ascending-snoc 0 (log key) now (omega arith) (t.ordered key)
            (All-later last now (log key) h (t.past key)))
      | inr other ↦ rw other (t.ordered k)
    ];
    past = λ k. elim (Bool-cases (str_eq k key)) [
      | inl same ↦ rw same (
          All-append (λ t. t ≤ now) (log key) (now ∷ [])
            (All-later last now (log key) h (t.past key)) (omega arith))
      | inr other ↦ rw other (All-later last now (log k) h (t.past k))
    ];
    kept = λ k n later. elim (Bool-cases (str_eq k key)) [
      | inl same ↦ rw same (
          ap (λ ts. drop_expired limiter.window_ms n (ts ++ now ∷ [])) (t.kept key now h)
          ∙ ap (drop_expired limiter.window_ms n)
              (sym (drop_expired-snoc limiter.window_ms now (log key) pos))
          ∙ drop_expired-drop_expired limiter.window_ms now n (log key ++ now ∷ []) later)
      | inr other ↦ rw other (t.kept k n (omega arith))
    ];
  }

  pub allow-Tracks :
      Tracks (allow limiter key now).0 (note (allow limiter key now).1 log key now) now
  unfolding allow
  allow-Tracks = elim (Bool-cases (leb limiter.limit (length pruned))) [
    | inl full ↦ rw full refused-Tracks
    | inr free ↦ rw free passed-Tracks
  ]

  pub allow-constant :
      ((allow limiter key now).0.limit ≡ limiter.limit)
      × ((allow limiter key now).0.window_ms ≡ limiter.window_ms)
  unfolding allow
  allow-constant = ground arith

abbrev pub empty_log : Log
empty_log key = []

abbrev pub new : ℕ → ℕ → SlidingWindowRateLimiter
new limit window_ms = record { limit = limit; window_ms = window_ms; hits = empty_log }

pub new-Tracks : (limit window_ms : ℕ) → Tracks (new limit window_ms) empty_log 0
new-Tracks limit window_ms = record {
  ordered = λ key. tt;
  past = λ key. tt;
  kept = λ key now h. refl;
}

Tracks-answers :
    (calls : List (String × ℕ)) (limiter : SlidingWindowRateLimiter) (log : Log) (last : ℕ)
    → Tracks limiter log last
    → 0 < limiter.window_ms
    → InOrder last calls
    → answers limiter calls ≡ counted_answers limiter.limit limiter.window_ms log calls
unfolding answers counted_answers
Tracks-answers [] limiter log last t pos o = refl
Tracks-answers ((key, now) ∷ calls) limiter log last t pos o =
    let same = allow-answer limiter log last t pos key now o.0 in
    let fixed = allow-constant limiter log last t pos key now o.0 in
    let rest =
      Tracks-answers calls (allow limiter key now).0 (note (allow limiter key now).1 log key now)
        now (allow-Tracks limiter log last t pos key now o.0) (rw fixed.1 pos) o.1 in
    rw (← same) (ap (λ l. (allow limiter key now).1 ∷ l) (rw (fixed.0, fixed.1) at rest))

-- While the clock does not run backwards and the window is not empty, a new limiter answers every
-- sequence of calls as one that keeps all its grants and lets a call pass exactly if fewer than
-- `limit` grants to that key are in the window that ends at the call.
pub answers-counted_answers :
    (limit window_ms : ℕ) (calls : List (String × ℕ))
    → 0 < window_ms
    → InOrder 0 calls
    → answers (new limit window_ms) calls ≡ counted_answers limit window_ms empty_log calls
answers-counted_answers limit window_ms calls pos o =
    Tracks-answers calls (new limit window_ms) empty_log 0 (new-Tracks limit window_ms) pos o
