-- ===== src/Billing/Ledger/Quota.antt =====
-- The ledger over a sequence of transactions. The advisory lock orders them, so any interleaving of
-- concurrent requests is such a sequence.
use optra.Prelude.{
  ℕ, ◌+◌, ◌≤◌, ◌≡◌, refl, sym, ap, ◌∙◌, ◌⊎◌, inl, inr, true, false, Option, none, some, String,
  List, [], ◌∷◌, ◌++◌, eqb, any, All, any-append_single, eq_iff, arith, Bool-cases, or_else,
}
use mathlib.Core.List.{append-nil, append_assoc}
use optra.Billing.Calendar.{Window}
use optra.Billing.Ledger.{
  UsageKind, matched_line, llm_cost, same_kind, UsageEvent, ReserveResult, charged, duplicate, over,
  Ledger, is_usage, used, has_key, passes, ReserveInput, event_of, reserve, PairInput, pair_event,
  reserve_pair_lines, LlmInput, llm_event, record_llm_cost,
}
use optra.Billing.Ledger.Laws.{
  used-append, reserve-charged, reserve_unchanged, reserve_pair_lines-charged,
  reserve_pair_lines_unchanged,
}

-- One transaction on the ledger.
pub data Charge : Type 0 where
  single : ReserveInput → Charge
  pair : PairInput → Charge
  llm : LlmInput → Charge

-- The table after the transaction; a refused insert leaves it as it was.
unfoldable pub apply : Charge → Ledger → Ledger
apply (single i) rows = (reserve i rows).1
apply (pair i) rows = (reserve_pair_lines i rows).1
apply (llm i) rows = or_else (record_llm_cost i rows) rows

unfoldable pub apply_all : List Charge → Ledger → Ledger
unfolding apply
apply_all [] rows = rows
apply_all (c ∷ cs) rows = apply_all cs (apply c rows)

abbrev single-or_not : ReserveResult → Type 0
single-or_not r = (r ≡ charged) ⊎ (r ≡ charged → ⊥)

charged-cases : (r : ReserveResult) → single-or_not r
charged-cases charged = inl refl
charged-cases duplicate = inr (λ e. cc)
charged-cases over = inr (λ e. cc)

-- Every transaction adds at most one row at the end, and that row's key is new.
pub record IsAppend (rows rows' : Ledger) : Type 0 where
  pub event : UsageEvent
  pub fresh : any (has_key event.idempotency_key) rows ≡ false
  pub appended : rows' ≡ rows ++ event ∷ []

llm-cases :
    (i : LlmInput) (rows : Ledger)
    → (apply (llm i) rows ≡ rows)
      ⊎ ((any (has_key (llm_event i).idempotency_key) rows ≡ false)
          × (apply (llm i) rows ≡ rows ++ llm_event i ∷ []))
unfolding apply record_llm_cost
llm-cases i rows = elim (Bool-cases (eqb i.meter.total 0)) [
  | inl unused ↦ inl (rw unused refl)
  | inr spent ↦ elim (Bool-cases (any (has_key (llm_event i).idempotency_key) rows)) [
    | inl old ↦ inl (rw (spent, old) refl)
    | inr new ↦ inr (new, rw (spent, new) refl)
  ]
]

apply-cases : (c : Charge) (rows : Ledger) → (apply c rows ≡ rows) ⊎ IsAppend rows (apply c rows)
unfolding apply record_llm_cost
apply-cases (single i) rows = elim (charged-cases (reserve i rows).0) [
  | inl h ↦
      let (_, new, same) = reserve-charged i rows h in
      inr (record { event = event_of i; fresh = new; appended = same })
  | inr h ↦ inl (reserve_unchanged i rows h)
]
apply-cases (pair i) rows = elim (charged-cases (reserve_pair_lines i rows).0) [
  | inl h ↦
      let (_, _, new, same) = reserve_pair_lines-charged i rows h in
      inr (record { event = pair_event i rows; fresh = new; appended = same })
  | inr h ↦ inl (reserve_pair_lines_unchanged i rows h)
]
apply-cases (llm i) rows = elim (llm-cases i rows) [
  | inl same ↦ inl same
  | inr (new, added) ↦ inr (record { event = llm_event i; fresh = new; appended = added })
]

-- No two rows share an idempotency key: the unique index of the table.
abbrev pub HasUniqueKeys : Ledger → Type 0
HasUniqueKeys [] = Unit
HasUniqueKeys (e ∷ rows) = (any (has_key e.idempotency_key) rows ≡ false) × HasUniqueKeys rows

HasUniqueKeys-concat :
    (rows : Ledger) (e : UsageEvent)
    → HasUniqueKeys rows
    → any (has_key e.idempotency_key) rows ≡ false
    → HasUniqueKeys (rows ++ e ∷ [])
HasUniqueKeys-concat [] e _ _ = (refl, tt)
HasUniqueKeys-concat (r ∷ rows) e (alone, h) new = (
  rw any-append_single (
      ground (
        arith,
        eq_iff e.idempotency_key r.idempotency_key,
        eq_iff r.idempotency_key e.idempotency_key,
      )),
  HasUniqueKeys-concat rows e h (ground arith),
)

apply-HasUniqueKeys :
    (c : Charge) (rows : Ledger) → HasUniqueKeys rows → HasUniqueKeys (apply c rows)
apply-HasUniqueKeys c rows h = elim (apply-cases c rows) [
  | inl same ↦ rw same h
  | inr new ↦ rw new.appended (HasUniqueKeys-concat rows new.event h new.fresh)
]

-- The ledger is append-only over any sequence of transactions, and keeps its keys unique, if they
-- are unique at the start.
apply_all-append :
    (cs : List Charge) (rows : Ledger)
    → HasUniqueKeys rows
    → ((added : Ledger) × (apply_all cs rows ≡ rows ++ added)) × HasUniqueKeys (apply_all cs rows)
unfolding apply_all
apply_all-append [] rows h = (([], sym (append-nil rows)), h)
apply_all-append (c ∷ cs) rows h =
    let ((added, later), unique) =
      apply_all-append cs (apply c rows) (apply-HasUniqueKeys c rows h) in
    (
      elim (apply-cases c rows) [
        | inl same ↦ (added, later ∙ ap (λ r. r ++ added) same)
        | inr new ↦ (
          new.event ∷ added,
          later ∙ ap (λ r. r ++ added) new.appended ∙ append_assoc rows (new.event ∷ []) added,
        )
      ],
      unique,
    )

same_kind-eq : (a b : UsageKind) → same_kind a b ≡ true → a ≡ b
same_kind-eq a b h = ground arith

is_usage-eq :
    (workspace : String) (kind : UsageKind) (w : Window) (e : UsageEvent)
    → is_usage workspace kind w e ≡ true
    → (e.workspace_id ≡ workspace) × (e.kind ≡ kind)
is_usage-eq workspace kind w e h =
    ground (arith, eq_iff e.workspace_id workspace, same_kind-eq e.kind kind)

passes-le : (l : Option ℕ) (n limit : ℕ) → passes l n ≡ false → l ≡ some limit → n ≤ limit
passes-le none n limit _ h = cc
passes-le (some k) n limit p h = ground arith

room_within :
    (l : Option ℕ) (ws ws' : String) (k k' : UsageKind) (w w' : Window) (rows : Ledger)
    (q limit : ℕ)
    → passes l (used ws k w rows + q) ≡ false
    → (l ≡ some limit) × (w ≡ w')
    → ws ≡ ws'
    → k ≡ k'
    → used ws' k' w' rows + q ≤ limit
room_within l ws ws' k k' w w' rows q limit fits (capped, same_w) same_ws same_k =
    rw (same_ws, same_k, same_w) at (passes-le l _ limit fits capped)

module _ (workspace : String) (kind : UsageKind) (w : Window) (limit : ℕ) where
  -- A transaction that concerns this workspace and kind is made under this limit and window.
  abbrev pub IsCapped : Charge → Type 0
  IsCapped (single i) =
      i.workspace_id ≡ workspace → i.kind ≡ kind → (i.limit ≡ some limit) × (i.window ≡ w)
  IsCapped (pair i) =
      i.workspace_id ≡ workspace → matched_line ≡ kind → (i.limit ≡ some limit) × (i.window ≡ w)
  IsCapped (llm i) = i.workspace_id ≡ workspace → llm_cost ≡ kind → ⊥

  append-le :
      (rows : Ledger) (e : UsageEvent)
      → (e.workspace_id ≡ workspace
          → e.kind ≡ kind
          → used workspace kind w rows + e.quantity ≤ limit)
      → used workspace kind w rows ≤ limit
      → used workspace kind w (rows ++ e ∷ []) ≤ limit
  append-le rows e room h = elim (Bool-cases (is_usage workspace kind w e)) [
    | inl counts ↦
        let (ws, k) = is_usage-eq workspace kind w e counts in
        rw (used-append workspace kind w rows e, counts) (room ws k)
    | inr other ↦ rw (used-append workspace kind w rows e, other) (omega arith)
  ]

  apply-le :
      (c : Charge) (rows : Ledger)
      → IsCapped c
      → used workspace kind w rows ≤ limit
      → used workspace kind w (apply c rows) ≤ limit
  unfolding apply
  apply-le (single i) rows capped h = elim (charged-cases (reserve i rows).0) [
    | inl done ↦
        let (fits, _, same) = reserve-charged i rows done in
        rw same (
          append-le rows (event_of i)
            (λ ws k.
              room_within i.limit _ workspace _ kind i.window w rows _ limit fits (capped ws k) ws
                k)
            h)
    | inr refused ↦ rw (reserve_unchanged i rows refused) h
  ]
  apply-le (pair i) rows capped h = elim (charged-cases (reserve_pair_lines i rows).0) [
    | inl done ↦
        let (_, fits, _, same) = reserve_pair_lines-charged i rows done in
        rw same (
          append-le rows (pair_event i rows)
            (λ ws k.
              room_within i.limit _ workspace _ kind i.window w rows _ limit fits (capped ws k) ws
                k)
            h)
    | inr refused ↦ rw (reserve_pair_lines_unchanged i rows refused) h
  ]
  apply-le (llm i) rows capped h = elim (llm-cases i rows) [
    | inl same ↦ rw same h
    | inr (_, added) ↦ rw added (append-le rows (llm_event i) (λ ws k. absurd (capped ws k)) h)
  ]

  -- A quota is never exceeded: whatever transactions are served in whatever order, the usage of
  -- the window stays within the limit, if it is within it at the start and each transaction of
  -- this workspace and kind is made under that limit and window.
  pub apply_all-le :
      (cs : List Charge) (rows : Ledger)
      → All IsCapped cs
      → used workspace kind w rows ≤ limit
      → used workspace kind w (apply_all cs rows) ≤ limit
  unfolding apply_all
  apply_all-le [] rows _ h = h
  apply_all-le (c ∷ cs) rows (capped, rest) h =
      apply_all-le cs (apply c rows) rest (apply-le c rows capped h)
