-- ===== src/Billing/Ledger.antt =====
-- The append-only usage ledger (apps/api/src/billing/usage-ledger.service.ts). The table
-- `usage_events` is a list of rows. Each transaction takes the workspace's advisory lock, so it is
-- one step on the table.
pub mod Laws
pub mod Quota
use optra.Prelude.{
  ℕ, ◌+◌, ◌-◌, Bool, true, false, ◌&&◌, Option, none, some, String, ◌==◌, List, [], ◌∷◌, ◌++◌,
  if◌then◌else◌, ltb, leb, eqb, any, sum_where, starts_with, take_chars, Option,
}
use Prim.Native.String
use mathlib.Core.Option
use optra.Billing.Calendar.{Window, in_window}

pub data UsageKind : Type 0 where
  matched_line photo_check llm_cost : UsageKind

abbrev pub same_kind : UsageKind → UsageKind → Bool
same_kind matched_line matched_line = true
same_kind photo_check photo_check = true
same_kind llm_cost llm_cost = true
same_kind _ _ = false

pub record UsageEvent : Type 0 where
  pub workspace_id : String
  pub kind : UsageKind
  pub quantity : ℕ
  pub input_tokens : Option ℕ
  pub output_tokens : Option ℕ
  pub model : Option String
  pub idempotency_key : String
  pub occurred_at : ℕ

pub data ReserveResult : Type 0 where
  charged duplicate over : ReserveResult

abbrev pub Ledger : Type 0
Ledger = List UsageEvent

-- The rows of a workspace, of one kind, that fall in a window.
abbrev pub is_usage : String → UsageKind → Window → UsageEvent → Bool
is_usage workspace kind w e =
    e.workspace_id == workspace && same_kind e.kind kind && in_window w e.occurred_at

-- coalesce(sum(quantity), 0) over such rows.
abbrev pub used : String → UsageKind → Window → Ledger → ℕ
used workspace kind w rows = sum_where (is_usage workspace kind w) (λ e. e.quantity) rows

abbrev pub has_key : String → UsageEvent → Bool
has_key key e = e.idempotency_key == key

-- `total + quantity > limit`; no limit is never passed.
abbrev pub passes : Option ℕ → ℕ → Bool
passes none n = false
passes (some limit) n = ltb limit n

-- insert ... on conflict (idempotency_key) do nothing returning id
unfoldable pub insert_event : UsageEvent → Ledger → ReserveResult × Ledger
insert_event e rows =
    if any (has_key e.idempotency_key) rows then (duplicate, rows) else (charged, rows ++ e ∷ [])

pub record ReserveInput : Type 0 where
  pub workspace_id : String
  pub kind : UsageKind
  pub idempotency_key : String
  pub quantity : ℕ
  pub limit : Option ℕ
  pub window : Window
  pub now : ℕ

abbrev pub event_of : ReserveInput → UsageEvent
event_of input = record {
  workspace_id = input.workspace_id;
  kind = input.kind;
  quantity = input.quantity;
  input_tokens = none;
  output_tokens = none;
  model = none;
  idempotency_key = input.idempotency_key;
  occurred_at = input.now;
}

unfoldable pub reserve : ReserveInput → Ledger → ReserveResult × Ledger
reserve input rows =
    if any (λ e. e.workspace_id == input.workspace_id && has_key input.idempotency_key e) rows
    then (duplicate, rows)
    else if passes input.limit
        (used input.workspace_id input.kind input.window rows + input.quantity)
    then (over, rows)
    else insert_event (event_of input) rows

pub record PairInput : Type 0 where
  pub workspace_id : String
  pub key_prefix : String
  pub line_count : ℕ
  pub limit : Option ℕ
  pub window : Window
  pub now : ℕ
  -- the value of the call of randomUUID
  pub uuid : String

-- The rows that count lines of one PO/invoice pair.
abbrev pub is_pair : String → String → UsageEvent → Bool
is_pair workspace key_prefix e =
    e.workspace_id == workspace
    && same_kind e.kind matched_line
    && starts_with e.idempotency_key key_prefix

abbrev pub counted_lines : String → String → Ledger → ℕ
counted_lines workspace key_prefix rows =
    sum_where (is_pair workspace key_prefix) (λ e. e.quantity) rows

abbrev pub pair_key : PairInput → Ledger → String
pair_key input rows =
    if any (is_pair input.workspace_id input.key_prefix) rows
    then String.◌++◌ input.key_prefix (String.◌++◌ ":" input.uuid)
    else input.key_prefix

abbrev pub pair_event : PairInput → Ledger → UsageEvent
pair_event input rows = record {
  workspace_id = input.workspace_id;
  kind = matched_line;
  quantity = input.line_count - counted_lines input.workspace_id input.key_prefix rows;
  input_tokens = none;
  output_tokens = none;
  model = none;
  idempotency_key = pair_key input rows;
  occurred_at = input.now;
}

-- Only the lines beyond those already counted for the pair are charged. The source's
-- `delta <= 0` is a subtraction of integers.
unfoldable pub reserve_pair_lines : PairInput → Ledger → ReserveResult × Ledger
reserve_pair_lines input rows =
    let counted = counted_lines input.workspace_id input.key_prefix rows in
    if leb input.line_count counted
    then (duplicate, rows)
    else if passes input.limit
        (used input.workspace_id matched_line input.window rows + (input.line_count - counted))
    then (over, rows)
    else insert_event (pair_event input rows) rows

pub record TokenMeter : Type 0 where
  pub total : ℕ
  pub cost_micro_usd : ℕ
  pub input_tokens : ℕ
  pub output_tokens : ℕ
  pub dominant_model : Option String

pub record LlmInput : Type 0 where
  pub workspace_id : String
  pub meter : TokenMeter
  pub now : ℕ
  pub uuid : String

abbrev pub llm_event : LlmInput → UsageEvent
llm_event input = record {
  workspace_id = input.workspace_id;
  kind = llm_cost;
  quantity = input.meter.cost_micro_usd;
  input_tokens = some input.meter.input_tokens;
  output_tokens = some input.meter.output_tokens;
  model = Option.map (take_chars 64) input.meter.dominant_model;
  idempotency_key = String.◌++◌ "llm:" input.uuid;
  occurred_at = input.now;
}

-- `none` is the error of the unique index on the key.
unfoldable pub record_llm_cost : LlmInput → Ledger → Option Ledger
record_llm_cost input rows =
    if eqb input.meter.total 0
    then some rows
    else if any (has_key (llm_event input).idempotency_key) rows
    then none
    else some (rows ++ llm_event input ∷ [])

pub record Sums : Type 0 where
  pub matched_lines : ℕ
  pub photo_checks : ℕ
  pub llm_cost_micro_usd : ℕ

unfoldable pub sums_by_kind : String → Window → Ledger → Sums
sums_by_kind workspace w rows = record {
  matched_lines = used workspace matched_line w rows;
  photo_checks = used workspace photo_check w rows;
  llm_cost_micro_usd = used workspace llm_cost w rows;
}
