-- ===== src/Procurement/Queue/Worker.antt =====
-- The worker of the queue of comparisons
-- (apps/api/src/procurement/procurement-compare.processor.ts). What `compare` comes to is an
-- argument, with the runs that it leaves.
use optra.Prelude.{
  ℕ, Bool, true, false, not, ◌&&◌, ◌||◌, Option, none, some, List, [], ◌∷◌, String, ◌==◌, first,
  select, if◌then◌else◌, ltb, eqb, is_some, max,
}
use optra.Http.{HttpError, status_of}
use optra.Procurement.Documents.{Header, Documents, is_done, is_document}
use optra.Procurement.Queue.{PairJob, Run, RunStatus, succeeded, run_failed, newest, receipts_of}

-- COMPARISON_STRATEGY_VERSION
abbrev pub comparison_strategy_version : String
comparison_strategy_version = "3"

abbrev pub is_run_of : PairJob → Run → Bool
is_run_of job run =
    (run.workspace_id == job.workspace_id)
    && (run.purchase_order_id == job.purchase_order_id)
    && (run.invoice_id == job.invoice_id)

abbrev has_succeeded : RunStatus → Bool
has_succeeded succeeded = true
has_succeeded _ = false

abbrev has_failed : RunStatus → Bool
has_failed run_failed = true
has_failed _ = false

abbrev pub is_current_success : PairJob → Run → Bool
is_current_success job run =
    is_run_of job run
    && has_succeeded run.status
    && (run.strategy_version == comparison_strategy_version)

-- A run comes before another by its start, or by its id.
abbrev pub later : (String → String → Bool) → Run → Run → Bool
later above a b =
    ltb b.started_at a.started_at || (eqb a.started_at b.started_at && above a.id b.id)

abbrev pub pick : (String → String → Bool) → Run → Option Run → Run
pick above run none = run
pick above run (some other) = if later above other run then other else run

-- order by started_at desc, id desc limit 1
unfoldable pub latest_run : (String → String → Bool) → (Run → Bool) → List Run → Option Run
latest_run above p [] = none
latest_run above p (run ∷ runs) =
    let rest = latest_run above p runs in if p run then some (pick above run rest) else rest

abbrev pub fresh_against : Run → PairJob → Documents → Option Header → Option Header → Bool
fresh_against run job s (some po) (some inv) =
    ltb
      (max (max po.updated_at inv.updated_at) (
        newest
          (select (λ h. is_done h.status) (receipts_of job.workspace_id job.purchase_order_id s))))
      run.started_at
fresh_against run job s _ _ = false

abbrev pub up_to_date_with : Option Run → PairJob → Documents → Bool
up_to_date_with none job s = false
up_to_date_with (some run) job s =
    fresh_against run job s
      (first (is_document job.workspace_id job.purchase_order_id) s.purchase_orders)
      (first (is_document job.workspace_id job.invoice_id) s.invoices)

-- isUpToDate
unfoldable pub is_up_to_date : (String → String → Bool) → PairJob → Documents → List Run → Bool
unfolding latest_run
is_up_to_date above job s runs =
    up_to_date_with (latest_run above (is_current_success job) runs) job s

-- A comparison's run and its findings, a refusal, or another exception.
pub data Compared : Type 0 where
  compared : String → ℕ → Compared
  refused : HttpError → Compared
  crashed : Compared

pub data Event : Type 0 where
  comparison_flagged : String → ℕ → Event
  comparison_failed : String → Event

pub data Ending : Type 0 where
  finished rethrown : Ending

-- isPermanentCompareError
unfoldable pub is_permanent_compare_error : HttpError → Bool
unfolding status_of
is_permanent_compare_error e =
    eqb (status_of e) 404 || eqb (status_of e) 400 || eqb (status_of e) 402

abbrev pub is_automatic_failure : PairJob → Run → Bool
is_automatic_failure job run =
    is_run_of job run && has_failed run.status && not (is_some run.initiated_by)

-- lastFailedAutomaticRun, and the event about it
abbrev failure_events : Option Run → List Event
failure_events none = []
failure_events (some run) = comparison_failed run.id ∷ []

-- The events that are announced, and whether the job is thrown back to the queue.
unfoldable pub handle_outcome :
    (String → String → Bool) → PairJob → Compared → List Run → List Event × Ending
unfolding is_permanent_compare_error latest_run
handle_outcome above job (compared run_id n) after =
    (if eqb n 0 then [] else comparison_flagged run_id n ∷ [], finished)
handle_outcome above job (refused e) after =
    if is_permanent_compare_error e
    then ([], finished)
    else (failure_events (latest_run above (is_automatic_failure job) after), rethrown)
handle_outcome above job crashed after =
    (failure_events (latest_run above (is_automatic_failure job) after), rethrown)

-- handlePair: nothing is compared when the pair is up to date.
unfoldable pub handle_pair :
    (String → String → Bool)
    → PairJob
    → Documents
    → List Run
    → Compared
    → List Run
    → List Event × Ending × List Run
unfolding is_up_to_date handle_outcome
handle_pair above job s runs outcome after =
    let (events, ending) = handle_outcome above job outcome after in
    if is_up_to_date above job s runs then ([], finished, runs) else (events, ending, after)
