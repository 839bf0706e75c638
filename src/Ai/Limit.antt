-- ===== src/Ai/Limit.antt =====
-- The concurrency limiter (packages/ai/src/web/limit.ts). A task is a number. The closures `active`
-- and `pending` are the state; the tasks that were started, in that order, and those of them that
-- have not settled yet are kept beside them. JavaScript is single-threaded, so a call of `limit` and
-- a `finally` are one step each.
pub mod Laws
pub mod Progress
use optra.Prelude.{
  ℕ, suc, ◌+◌, ◌-◌, Option, none, some, List, [], ◌∷◌, ◌++◌, ltb, eqb, any, if◌then◌else◌,
}

pub record Limiter : Type 0 where
  pub active : ℕ
  pub pending : List ℕ
  pub running : List ℕ
  pub started : List ℕ

abbrev pub idle : Limiter
idle = record { active = 0; pending = []; running = []; started = [] }

-- createLimit, for an integer: below 1 it throws a RangeError.
unfoldable pub create_limit : ℕ → Option Limiter
create_limit concurrency = if ltb concurrency 1 then none else some idle

unfoldable pub start : ℕ → Limiter → Limiter
start task l = record {
  active = suc l.active;
  pending = l.pending;
  running = l.running ++ task ∷ [];
  started = l.started ++ task ∷ [];
}

-- pending.shift()?.()
unfoldable pub start_next : List ℕ → Limiter → Limiter
unfolding start
start_next [] l = l
start_next (task ∷ rest) l = start task (record l { pending = rest })

unfoldable pub release : Limiter → Limiter
unfolding start_next
release l = start_next l.pending (record l { active = l.active - 1 })

-- limit(fn)
unfoldable pub submit : ℕ → ℕ → Limiter → Limiter
unfolding start
submit concurrency task l =
    if ltb l.active concurrency then start task l else record l { pending = l.pending ++ task ∷ [] }

-- The tasks that are left when one of them settles.
unfoldable pub without : ℕ → List ℕ → List ℕ
without task [] = []
without task (t ∷ ts) = let rest = without task ts in if eqb t task then ts else t ∷ rest

-- The `finally` of a task, which only a running task has.
unfoldable pub settle : ℕ → Limiter → Limiter
unfolding release without
settle task l =
    if any (eqb task) l.running then release (record l { running = without task l.running }) else l

pub data Event : Type 0 where
  submits settles : ℕ → Event

unfoldable pub step : ℕ → Limiter → Event → Limiter
step concurrency l (submits task) = submit concurrency task l
step concurrency l (settles task) = settle task l

unfoldable pub run : ℕ → Limiter → List Event → Limiter
unfolding step
run concurrency l [] = l
run concurrency l (e ∷ es) = run concurrency (step concurrency l e) es

-- The tasks that a history hands in, in order.
unfoldable pub submissions : List Event → List ℕ
submissions [] = []
submissions (submits task ∷ es) = task ∷ submissions es
submissions (settles task ∷ es) = submissions es
