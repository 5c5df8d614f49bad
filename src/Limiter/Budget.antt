-- ===== src/Limiter/Budget.antt =====
-- The rate limiter of security.py: what a key gets in a window.
use web_data_extraction_engi.Prelude.{
  ℕ, ◌+◌, ◌≤◌, ◌<◌, ◌≡◌, List, [], ◌∷◌, ◌++◌, String, arith, ltb, ltb→lt, str_eq, Bool-cases, inl,
  inr,
}
use web_data_extraction_engi.Limiter.{SlidingWindowRateLimiter, store_hits, allow}
use web_data_extraction_engi.Limiter.Window.{
  Log, count_recent, count_between, may_pass, note, passed, InOrder, Tracks, allow-answer,
  allow-Tracks, allow-constant, empty_log, new, new-Tracks,
}

count_between-le-recent :
    (w from now : ℕ) (ts : List ℕ)
    → now ≤ from + w
    → count_between w from ts ≤ count_recent w now ts
count_between-le-recent w from now [] h = omega arith
count_between-le-recent w from now (t ∷ ts) h =
    ground (arith, count_between-le-recent w from now ts h)

count_between-early :
    (w from now : ℕ) (ts : List ℕ)
    → from + w < now
    → count_between w from (ts ++ now ∷ []) ≡ count_between w from ts
count_between-early w from now [] h = ground arith
count_between-early w from now (t ∷ ts) h = ground (arith, count_between-early w from now ts h)

count_between-snoc :
    (w from now : ℕ) (ts : List ℕ)
    → count_between w from (ts ++ now ∷ []) ≤ count_between w from ts + 1
count_between-snoc w from now [] = ground arith
count_between-snoc w from now (t ∷ ts) = ground (arith, count_between-snoc w from now ts)

abbrev WithinBudget : ℕ → ℕ → Log → Type 0
WithinBudget limit w log = (key : String) (from : ℕ) → count_between w from (log key) ≤ limit

granted-WithinBudget :
    (limit w : ℕ) (log : Log) (key : String) (now : ℕ)
    → count_recent w now (log key) < limit
    → WithinBudget limit w log
    → WithinBudget limit w (store_hits key (log key ++ now ∷ []) log)
unfolding store_hits
granted-WithinBudget limit w log key now free b k from = elim (Bool-cases (str_eq k key)) [
  | inl same ↦ rw same (elim (Bool-cases (ltb (from + w) now)) [
    | inl late ↦ rw (count_between-early w from now (log key) (ltb→lt _ _ late)) (b key from)
    | inr near ↦
        let early : now ≤ from + w = ground arith in
        omega (
          arith,
          count_between-snoc w from now (log key),
          count_between-le-recent w from now (log key) early,
        )
  ])
  | inr other ↦ rw other (b k from)
]

note-WithinBudget :
    (limit w : ℕ) (log : Log) (key : String) (now : ℕ)
    → WithinBudget limit w log
    → WithinBudget limit w (note (may_pass limit w log key now) log key now)
note-WithinBudget limit w log key now b = elim (Bool-cases (may_pass limit w log key now)) [
  | inl free ↦ rw free (granted-WithinBudget limit w log key now (ltb→lt _ _ free) b)
  | inr full ↦ rw full b
]

passed-WithinBudget :
    (calls : List (String × ℕ)) (limiter : SlidingWindowRateLimiter) (log : Log) (last : ℕ)
    → Tracks limiter log last
    → 0 < limiter.window_ms
    → InOrder last calls
    → WithinBudget limiter.limit limiter.window_ms log
    → WithinBudget limiter.limit limiter.window_ms (passed limiter log calls)
unfolding passed
passed-WithinBudget [] limiter log last t pos o b = b
passed-WithinBudget ((key, now) ∷ calls) limiter log last t pos o b =
    let same = allow-answer limiter log last t pos key now o.0 in
    let fixed = allow-constant limiter log last t pos key now o.0 in
    let kept = note-WithinBudget limiter.limit limiter.window_ms log key now b in
    let next = rw (← same) at kept in
    rw (fixed.0, fixed.1) at
      (passed-WithinBudget calls (allow limiter key now).0
        (note (allow limiter key now).1 log key now) now
        (allow-Tracks limiter log last t pos key now o.0) (rw fixed.1 pos) o.1
        (rw (fixed.0, fixed.1) next))

-- While the clock does not run backwards and the window is not empty, a new limiter lets at most
-- `limit` calls of a key pass in any window of that length, wherever the window starts and whatever
-- other keys ask.
pub passed-budget :
    (limit window_ms : ℕ) (calls : List (String × ℕ)) (key : String) (from : ℕ)
    → 0 < window_ms
    → InOrder 0 calls
    → count_between window_ms from (passed (new limit window_ms) empty_log calls key) ≤ limit
passed-budget limit window_ms calls key from pos o =
    passed-WithinBudget calls (new limit window_ms) empty_log 0 (new-Tracks limit window_ms) pos o
      (λ k f. omega arith) key from
