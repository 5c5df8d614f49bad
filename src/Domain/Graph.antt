-- ===== src/Domain/Graph.antt =====
-- The transition graph of `ALLOWED_TRANSITIONS`: chains of allowed changes.
use web_data_extraction_engi.Prelude.{◌≡◌, refl, Bool, true, false, arith, ◌<◌, ◌≤◌, ◌⊎◌}
use web_data_extraction_engi.Domain.{
  JobStatus, queued, ready_for_export, completed, failed, cancelled, is_allowed, is_active,
  position, status_eq, status_in, terminal_states,
}

pub data Reaches (s : JobStatus) : JobStatus → Type 0 where
  here : Reaches s s
  next : {t u : JobStatus} → Reaches s t → is_allowed t u ≡ true → Reaches s u

pub Reaches-trans : {s t u : JobStatus} → Reaches s t → Reaches t u → Reaches s u
Reaches-trans p here = p
Reaches-trans p (next q e) = next (Reaches-trans p q) e

abbrev pub is_terminal : JobStatus → Bool
is_terminal s = status_in s terminal_states

-- an allowed change leaves no terminal state and goes on in the order of the enum
pub is_allowed-live : (s t : JobStatus) → is_allowed s t ≡ true → is_terminal s ≡ false
is_allowed-live completed t h = cc
is_allowed-live failed t h = cc
is_allowed-live cancelled t h = cc
is_allowed-live _ t h = refl

pub is_allowed-lt : (s t : JobStatus) → is_allowed s t ≡ true → position s < position t
is_allowed-lt queued t h = ground arith
is_allowed-lt _ t h = ground arith

-- the terminal states are absorbing
pub Reaches-terminal : {s t : JobStatus} → Reaches s t → is_terminal s ≡ true → t ≡ s
Reaches-terminal here e = refl
Reaches-terminal {s} (next {t} p h) e = cc (is_allowed-live t _ h, Reaches-terminal p e)

pub Reaches-le : {s t : JobStatus} → Reaches s t → position s ≤ position t
Reaches-le here = omega arith
Reaches-le (next {t} {u} p h) = omega (arith, Reaches-le p, is_allowed-lt t u h)

pub status_eq-eq : (s t : JobStatus) → status_eq s t ≡ true → s ≡ t
status_eq-eq queued t h = ground arith
status_eq-eq _ t h = ground arith

-- an active job other than a ready one may fail
pub is_allowed-failed :
    (s : JobStatus) → is_active s ≡ true → (is_allowed s failed ≡ true) ⊎ (s ≡ ready_for_export)
is_allowed-failed s h = ground arith
