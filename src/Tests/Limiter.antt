-- ===== src/Tests/Limiter.antt =====
-- The theorems about the rate limiter at concrete inputs.
use web_data_extraction_engi.Prelude.{ℕ, ◌≡◌, ◌≤◌, refl, true, false, List, [], ◌∷◌, String, arith}
use web_data_extraction_engi.Limiter.{allow, answers, drop_expired, store_hits}
use web_data_extraction_engi.Limiter.Window.{
  count_between, counted_answers, passed, empty_log, new, answers-counted_answers,
}
use web_data_extraction_engi.Limiter.Budget.{passed-budget}

-- two calls a second are granted to a key
abbrev calls : List (String × ℕ)
calls = ("a", 100) ∷ ("a", 200) ∷ ("b", 300) ∷ ("a", 900) ∷ ("a", 1_100) ∷ []

answers_run : answers (new 2 1_000) calls ≡ true ∷ true ∷ true ∷ false ∷ true ∷ []
unfolding answers allow drop_expired store_hits
answers_run = refl

answers-counted_answers_example :
    answers (new 2 1_000) calls ≡ counted_answers 2 1_000 empty_log calls
answers-counted_answers_example = answers-counted_answers 2 1_000 calls (omega arith) (omega arith)

passed-budget_example : count_between 1_000 150 (passed (new 2 1_000) empty_log calls "a") ≤ 2
passed-budget_example = passed-budget 2 1_000 calls "a" 150 (omega arith) (omega arith)
