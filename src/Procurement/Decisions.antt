-- ===== src/Procurement/Decisions.antt =====
-- What people decide about the findings, and which findings are current (`dismissFlag`,
-- `recordDecision`, `actorRole`, `failRun` and `currentFlagScope` of
-- apps/api/src/procurement/comparison.service.ts).
pub mod Laws
use optra.Prelude.{
  ℕ, Bool, true, false, not, Option, none, some, List, [], ◌∷◌, ◌++◌, String, ◌==◌, ◌&&◌, ◌||◌,
  if◌then◌else◌, ltb, first, any, select, update, is_some, or_else, trim, truthy,
}
use Prim.Native.Nat.{Ordering}
use Prim.Native.String.{compare}
use optra.Http.{HttpError}

pub data FlagStatus : Type 0 where
  open_flag dismissed : FlagStatus

abbrev pub is_open : FlagStatus → Bool
is_open open_flag = true
is_open dismissed = false

-- A row of discrepancy_flags: its identity and what a decision changes.
pub record Flag : Type 0 where
  pub id : String
  pub workspace_id : String
  pub purchase_order_id : String
  pub invoice_id : String
  pub comparison_run_id : Option String
  pub status : FlagStatus
  pub dismissed_at : Option ℕ
  pub dismissed_by : Option String

-- A row of discrepancy_decisions.
pub record Decision : Type 0 where
  pub workspace_id : String
  pub discrepancy_flag_id : String
  pub comparison_run_id : Option String
  pub actor_user_id : String
  pub actor_role : String
  pub outcome : String
  pub note : String

pub record Membership : Type 0 where
  pub workspace_id : String
  pub user_id : String
  pub role : String

pub record Store : Type 0 where
  pub flags : List Flag
  pub decisions : List Decision
  pub members : List Membership

pub data Outcome : Type 0 where
  flag_row : Flag → Outcome
  decision_row : Decision → Outcome
  bad_request not_found : String → Outcome

abbrev dismiss_system_note : String
dismiss_system_note = "Dismissed from the discrepancies list without a note."

abbrev pub is_flag : String → String → Flag → Bool
is_flag workspace_id flag_id f = f.id == flag_id && f.workspace_id == workspace_id

abbrev pub is_open_flag : String → String → Flag → Bool
is_open_flag workspace_id flag_id f = is_flag workspace_id flag_id f && is_open f.status

abbrev pub closed : ℕ → String → Flag → Flag
closed now user_id f = record f {
  status = dismissed;
  dismissed_at = some now;
  dismissed_by = some user_id;
}

abbrev role_of : Option Membership → String
role_of none = "unknown"
role_of (some m) = m.role

-- actorRole
abbrev pub actor_role : String → String → Store → String
actor_role workspace_id user_id store =
    role_of (first (λ m. m.workspace_id == workspace_id && m.user_id == user_id) store.members)

abbrev pub decision_on : String → String → String → String → Flag → Store → Decision
decision_on workspace_id user_id outcome note f store = record {
  workspace_id = workspace_id;
  discrepancy_flag_id = f.id;
  comparison_run_id = f.comparison_run_id;
  actor_user_id = user_id;
  actor_role = actor_role workspace_id user_id store;
  outcome = outcome;
  note = note;
}

abbrev found_flag : Option Flag → Outcome
found_flag none = not_found "Discrepancy flag not found"
found_flag (some f) = flag_row f

abbrev dismiss_open : ℕ → String → String → String → Store → Option Flag → Store × Outcome
dismiss_open now workspace_id flag_id user_id store none =
    (store, found_flag (first (is_flag workspace_id flag_id) store.flags))
dismiss_open now workspace_id flag_id user_id store (some f) = (
  record store {
    flags = update (is_open_flag workspace_id flag_id) (closed now user_id) store.flags;
    decisions =
        store.decisions
        ++ decision_on workspace_id user_id "false_positive" dismiss_system_note f store ∷ [];
  },
  flag_row (closed now user_id f),
)

-- dismissFlag
unfoldable pub dismiss_flag : ℕ → String → String → String → Store → Store × Outcome
dismiss_flag now workspace_id flag_id user_id store =
    dismiss_open now workspace_id flag_id user_id store
      (first (is_open_flag workspace_id flag_id) store.flags)

abbrev record_on :
    ℕ → String → String → String → String → String → Store → Option Flag → Store × Outcome
record_on now workspace_id flag_id user_id outcome note store none =
    (store, not_found "Discrepancy flag not found")
record_on now workspace_id flag_id user_id outcome note store (some f) =
    let decision = decision_on workspace_id user_id outcome note f store in
    (
      record store {
        flags = update (λ g. g.id == f.id && is_open g.status) (closed now user_id) store.flags;
        decisions = store.decisions ++ decision ∷ [];
      },
      decision_row decision,
    )

-- recordDecision
unfoldable pub record_decision :
    ℕ → String → String → String → String → Option String → Store → Store × Outcome
record_decision now workspace_id flag_id user_id outcome note store =
    let stated = trim (or_else note "") in
    if truthy stated
    then record_on now workspace_id flag_id user_id outcome stated store
        (first (is_flag workspace_id flag_id) store.flags)
    else (store, bad_request "A decision note is required")

pub data RunStatus : Type 0 where
  queued running succeeded failed : RunStatus

pub record Run : Type 0 where
  pub id : String
  pub workspace_id : String
  pub purchase_order_id : String
  pub invoice_id : String
  pub status : RunStatus
  pub created_at : ℕ
  pub last_error : Option String
  pub finished_at : Option ℕ

-- failRun
unfoldable pub fail_run : ℕ → String → String → List Run → List Run
fail_run now run_id last_error runs =
    update (λ r. r.id == run_id)
      (λ r. record r { status = failed; last_error = some last_error; finished_at = some now }) runs

abbrev is_succeeded : RunStatus → Bool
is_succeeded succeeded = true
is_succeeded _ = false

-- A succeeded run of a pair of documents in the workspace.
abbrev pub is_run_of : String → String → String → Run → Bool
is_run_of workspace_id purchase_order_id invoice_id r =
    r.workspace_id == workspace_id
    && r.purchase_order_id == purchase_order_id
    && r.invoice_id == invoice_id
    && is_succeeded r.status

abbrev text_below : String → String → Bool
text_below a b = elim (compare a b) [ Ordering.lt ↦ true | _ ↦ false ]

-- created_at desc, id desc
abbrev pub precedes : Run → Run → Bool
precedes a b =
    ltb a.created_at b.created_at || (not (ltb b.created_at a.created_at) && text_below a.id b.id)

-- The first of the pair's runs in that order (distinct on).
unfoldable pub latest : Option Run → List Run → Option Run
latest best [] = best
latest none (r ∷ rs) = latest (some r) rs
latest (some b) (r ∷ rs) = latest (some (if precedes b r then r else b)) rs

abbrev pub latest_of : String → String → String → List Run → Option Run
latest_of workspace_id purchase_order_id invoice_id runs =
    latest none (select (is_run_of workspace_id purchase_order_id invoice_id) runs)

abbrev has_id : String → Option Run → Bool
has_id id none = false
has_id id (some r) = r.id == id

-- currentRunIds: the run with this id is the latest of some pair of the workspace.
unfoldable pub is_current_run : String → List Run → String → Bool
is_current_run workspace_id runs id =
    any (λ (r : Run). has_id id (latest_of workspace_id r.purchase_order_id r.invoice_id runs)) runs

-- currentFlagScope
unfoldable pub is_current : String → List Run → Flag → Bool
is_current workspace_id runs f = elim f.comparison_run_id [
  | some id ↦ is_current_run workspace_id runs id
  | none ↦ not (any (is_run_of workspace_id f.purchase_order_id f.invoice_id) runs)
]
