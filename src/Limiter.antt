-- ===== src/Limiter.antt =====
-- services/api/src/wde_api/security.py: the sliding-window rate limiter of the API process.
-- The monotonic clock counts milliseconds and is read once per call; the model takes its value.
pub mod Window
pub mod Budget
use web_data_extraction_engi.Prelude.{
  ℕ, ◌+◌, Bool, true, false, List, [], ◌∷◌, ◌++◌, String, leb, str_eq, length, if◌then◌else◌,
}

-- `_hits` is a `defaultdict`, so every key has a deque
pub record SlidingWindowRateLimiter : Type 0 where
  pub limit : ℕ
  pub window_ms : ℕ
  pub hits : String → List ℕ

-- `while window and window[0] <= now - window_seconds: window.popleft()`
unfoldable pub drop_expired : ℕ → ℕ → List ℕ → List ℕ
drop_expired window_ms now [] = []
drop_expired window_ms now (t ∷ ts) =
    if leb (t + window_ms) now then drop_expired window_ms now ts else t ∷ ts

-- the deque of one key is replaced
unfoldable pub store_hits : String → List ℕ → (String → List ℕ) → String → List ℕ
store_hits key window hits k = if str_eq k key then window else hits k

-- a refused call leaves its deque pruned
unfoldable pub allow : SlidingWindowRateLimiter → String → ℕ → SlidingWindowRateLimiter × Bool
allow limiter key now =
    let window = drop_expired limiter.window_ms now (limiter.hits key) in
    if leb limiter.limit (length window)
    then (record limiter { hits = store_hits key window limiter.hits }, false)
    else (record limiter { hits = store_hits key (window ++ now ∷ []) limiter.hits }, true)

-- the answers to a sequence of calls, each with its key and its time
unfoldable pub answers : SlidingWindowRateLimiter → List (String × ℕ) → List Bool
answers limiter [] = []
answers limiter ((key, now) ∷ calls) =
    let (after, allowed) = allow limiter key now in allowed ∷ answers after calls
