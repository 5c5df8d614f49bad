-- ===== src/Worker/Handlers/Calls.antt =====
-- The calls of a handler that claims its work, waits for an engine and closes.
use web_data_extraction_engi.Prelude.{
  ℕ, ◌≡◌, refl, sym, ap, ◌∙◌, List, [], ◌∷◌, ◌++◌, Option, none, some, maybe, Bool, true, false,
  if◌then◌else◌,
}
use web_data_extraction_engi.Store.{Db}
use web_data_extraction_engi.Store.Tx.{Tx, Result, ok, err}
use web_data_extraction_engi.System.{Externals, Call, run, perform, commit, settled}
use web_data_extraction_engi.Worker.{Answer, done, session, proceed}

run-append :
    (x : Externals) (before after : List (ℕ × Call)) (db : Db)
    → run x (before ++ after) db ≡ run x after (run x before db)
unfolding run
run-append x [] after db = refl
run-append x ((now, call) ∷ before) after db = run-append x before after (perform x now call db)

-- the operation that a claim grants, with the tables it leaves
abbrev pub granted : {A : Type 0} → Result (Option A × Db) → Option (A × Db)
granted (ok (some a, t)) = some (a, t)
granted (ok (none, t)) = none
granted (err e) = none

-- the method raises
abbrev pub raises : {A : Type 0} → Result A → Bool
raises (ok a) = false
raises (err e) = true

-- the call that reports an error of a browser engine; an error of another kind is reported by none
abbrev pub unless_uncaught : Bool → ℕ → Call → List (ℕ × Call)
unless_uncaught reported finish call = if reported then (finish, call) ∷ [] else []

module _ (x : Externals) where
  -- a session that ends with one transaction makes one call
  pub session-run :
      {A : Type 0} (now : ℕ) (call : Call) (m : Tx A) (answer : A → Answer) (s : Db)
      → perform x now call s ≡ commit m s
      → (session m s (λ a t. (answer a, t))).1 ≡ run x ((now, call) ∷ []) s
  unfolding session commit run
  session-run now call m answer s e = closed (m s) ∙ sym e
    where
      closed : (r : Result (_ × Db)) → (proceed s r (λ a t. (answer a, t))).1 ≡ settled s r
      closed (ok (a, t)) = refl
      closed (err f) = refl

  module _ (others : List (ℕ × Call)) (start : ℕ) {A : Type 0} (call : Call) (m : Tx (Option A))
      (closing : A → Db → List (ℕ × Call)) where
    -- the claim; and if it grants an operation, the calls of others while the engine works on it, and
    -- then those that close it, on the tables that are found then
    abbrev pub protocol : Db → List (ℕ × Call)
    protocol s =
        (start, call) ∷ maybe (granted (m s)) [] (λ g. others ++ closing g.0 (run x others g.1))

    pub claimed-run :
        (next : A → Db → Answer × Db) (s : Db)
        → perform x start call s ≡ commit m s
        → ((a : A) (t : Db) → (next a t).1 ≡ run x (closing a t) t)
        → (session m s (λ claimed t. maybe claimed (done, t) (λ a. next a (run x others t)))).1
          ≡ run x (protocol s) s
    unfolding session commit run
    claimed-run next s e closes =
        after (m s)
        ∙ sym (
            ap (run x (maybe (granted (m s)) [] (λ g. others ++ closing g.0 (run x others g.1)))) e)
      where
        after :
            (r : Result (Option A × Db))
            → (proceed s r (λ claimed t. maybe claimed (done, t) (λ a. next a (run x others t)))).1
              ≡ run x
                  (maybe (granted r) [] (λ g. others ++ closing g.0 (run x others g.1)))
                  (settled s r)
        after (ok (some a, t)) =
            closes a (run x others t) ∙ sym (run-append x others (closing a (run x others t)) t)
        after (ok (none, t)) = refl
        after (err f) = refl
