-- ===== src/Billing/Ledger/Laws.antt =====
-- What one charge does to the ledger: which rows it adds, and what a repeat of it does.
use optra.Prelude.{
  ℕ, ◌⊎◌, some, ◌+◌, ◌-◌, ◌≤◌, ◌<◌, ◌≡◌, refl, true, false, ◌&&◌, String, ◌==◌, [], ◌∷◌, ◌++◌,
  if◌then◌else◌, any, sum_where-append, any-append_single, starts_with, eq_refl, arith, Bool-cases,
  inl, inr,
}
use text.Mathlib.TextPositions.{starts_with-append}
use text.Mathlib.TextLemmas.{append-nil}
use optra.Billing.Calendar.{Window, in_window}
use optra.Billing.Ledger.{
  UsageKind, matched_line, UsageEvent, ReserveResult, charged, duplicate, over, Ledger, is_usage,
  used, has_key, passes, insert_event, ReserveInput, event_of, reserve, PairInput, is_pair,
  counted_lines, pair_key, pair_event, reserve_pair_lines,
}

-- The sum over a window after one more row.
pub used-append :
    (workspace : String) (kind : UsageKind) (w : Window) (rows : Ledger) (e : UsageEvent)
    → used workspace kind w (rows ++ e ∷ [])
      ≡ used workspace kind w rows + (if is_usage workspace kind w e then e.quantity else 0)
used-append workspace kind w rows e = omega (
  arith,
  sum_where-append (is_usage workspace kind w) (λ (r : UsageEvent). r.quantity) rows (e ∷ []),
)

counted-append :
    (workspace key_prefix : String) (rows : Ledger) (e : UsageEvent)
    → counted_lines workspace key_prefix (rows ++ e ∷ [])
      ≡ counted_lines workspace key_prefix rows
        + (if is_pair workspace key_prefix e then e.quantity else 0)
counted-append workspace key_prefix rows e = omega (
  arith,
  sum_where-append (is_pair workspace key_prefix) (λ (r : UsageEvent). r.quantity) rows (e ∷ []),
)

-- A charged row was new, and is the only change.
pub insert_event-charged :
    (e : UsageEvent) (rows : Ledger)
    → (insert_event e rows).0 ≡ charged
    → (any (has_key e.idempotency_key) rows ≡ false) × ((insert_event e rows).1 ≡ rows ++ e ∷ [])
unfolding insert_event
insert_event-charged e rows h = ground arith

pub reserve-charged :
    (i : ReserveInput) (rows : Ledger)
    → (reserve i rows).0 ≡ charged
    → (passes i.limit (used i.workspace_id i.kind i.window rows + i.quantity) ≡ false)
      × (any (has_key i.idempotency_key) rows ≡ false)
      × ((reserve i rows).1 ≡ rows ++ event_of i ∷ [])
unfolding reserve
reserve-charged i rows h = ground (arith, insert_event-charged (event_of i) rows)

-- Whatever is not charged leaves the ledger as it was.
pub reserve_unchanged :
    (i : ReserveInput) (rows : Ledger)
    → ((reserve i rows).0 ≡ charged → ⊥)
    → (reserve i rows).1 ≡ rows
unfolding reserve insert_event
reserve_unchanged i rows h = ground arith

pub reserve_pair_lines-charged :
    (i : PairInput) (rows : Ledger)
    → (reserve_pair_lines i rows).0 ≡ charged
    → (counted_lines i.workspace_id i.key_prefix rows < i.line_count)
      × (passes i.limit (
            used i.workspace_id matched_line i.window rows
            + (i.line_count - counted_lines i.workspace_id i.key_prefix rows))
          ≡ false)
      × (any (has_key (pair_key i rows)) rows ≡ false)
      × ((reserve_pair_lines i rows).1 ≡ rows ++ pair_event i rows ∷ [])
unfolding reserve_pair_lines
reserve_pair_lines-charged i rows h = ground (arith, insert_event-charged (pair_event i rows) rows)

pub reserve_pair_lines_unchanged :
    (i : PairInput) (rows : Ledger)
    → ((reserve_pair_lines i rows).0 ≡ charged → ⊥)
    → (reserve_pair_lines i rows).1 ≡ rows
unfolding reserve_pair_lines insert_event
reserve_pair_lines_unchanged i rows h = ground arith

starts_with_self : (s : String) → starts_with s s ≡ true
starts_with_self s = rw append-nil at (starts_with-append s "")

pair_event-is_pair :
    (i : PairInput) (rows : Ledger) → is_pair i.workspace_id i.key_prefix (pair_event i rows) ≡ true
pair_event-is_pair i rows = elim (Bool-cases (any (is_pair i.workspace_id i.key_prefix) rows)) [
  | inl more ↦ rw (more, eq_refl, starts_with-append i.key_prefix _)
  | inr first_row ↦ rw (first_row, eq_refl, starts_with_self i.key_prefix)
]

-- A charged pair has been counted for exactly the lines that it has now, and the workspace's
-- matched lines of every window grow by the lines beyond the earlier count, if the window contains
-- the instant of the charge, and not at all otherwise.
pub reserve_pair_lines-settles :
    (i : PairInput) (rows : Ledger) (w : Window)
    → (reserve_pair_lines i rows).0 ≡ charged
    → (counted_lines i.workspace_id i.key_prefix (reserve_pair_lines i rows).1 ≡ i.line_count)
      × (used i.workspace_id matched_line w (reserve_pair_lines i rows).1
          ≡ used i.workspace_id matched_line w rows
            + (if in_window w i.now
                then i.line_count - counted_lines i.workspace_id i.key_prefix rows
                else 0))
reserve_pair_lines-settles i rows w h =
    let (more, _, _, same) = reserve_pair_lines-charged i rows h in
    (
      rw
          (
            same,
            counted-append i.workspace_id i.key_prefix rows (pair_event i rows),
            pair_event-is_pair i rows,
          )
          (omega arith),
      rw (same, used-append i.workspace_id matched_line w rows (pair_event i rows), eq_refl) refl,
    )

counted_enough :
    (j : PairInput) (rows : Ledger)
    → j.line_count ≤ counted_lines j.workspace_id j.key_prefix rows
    → reserve_pair_lines j rows ≡ (duplicate, rows)
unfolding reserve_pair_lines
counted_enough j rows h = ground arith

-- A later charge of the same pair, for no more lines than were paid, is a duplicate: it adds no row
-- and is not refused, whatever its limit.
reserve_pair_lines_repeat :
    (i j : PairInput) (rows : Ledger)
    → (reserve_pair_lines i rows).0 ≡ charged
    → j.workspace_id ≡ i.workspace_id
    → j.key_prefix ≡ i.key_prefix
    → j.line_count ≤ i.line_count
    → reserve_pair_lines j (reserve_pair_lines i rows).1
      ≡ (duplicate, (reserve_pair_lines i rows).1)
reserve_pair_lines_repeat i j rows h ws key le =
    let paid = (reserve_pair_lines-settles i rows i.window h).0 in
    counted_enough j (reserve_pair_lines i rows).1 (rw (ws, key, paid) le)

duplicate_key :
    (i : ReserveInput) (rows : Ledger)
    → any (λ e. e.workspace_id == i.workspace_id && has_key i.idempotency_key e) rows ≡ true
    → reserve i rows ≡ (duplicate, rows)
unfolding reserve
duplicate_key i rows h = rw h

-- Sending a charged request again, with the same workspace and idempotency key, charges nothing.
reserve_repeat :
    (i j : ReserveInput) (rows : Ledger)
    → (reserve i rows).0 ≡ charged
    → j.workspace_id ≡ i.workspace_id
    → j.idempotency_key ≡ i.idempotency_key
    → reserve j (reserve i rows).1 ≡ (duplicate, (reserve i rows).1)
reserve_repeat i j rows h ws key =
    let (_, _, same) = reserve-charged i rows h in
    duplicate_key j (reserve i rows).1 (
      rw
        (
          same,
          any-append_single (λ e. e.workspace_id == j.workspace_id && has_key j.idempotency_key e)
              rows (event_of i),
          ws,
          key,
        )
        (ground (arith, eq_refl i.workspace_id, eq_refl i.idempotency_key)))

charged-cases : (r : ReserveResult) → (r ≡ charged) ⊎ (r ≡ charged → ⊥)
charged-cases charged = inl refl
charged-cases duplicate = inr (λ e. cc)
charged-cases over = inr (λ e. cc)

-- Under a limit, a pair's charge changes nothing or leaves the window's usage within the limit.
pub reserve_pair_lines-within :
    (i : PairInput) (rows : Ledger) (limit : ℕ)
    → i.limit ≡ some limit
    → ((reserve_pair_lines i rows).1 ≡ rows)
      ⊎ (used i.workspace_id matched_line i.window (reserve_pair_lines i rows).1 ≤ limit)
reserve_pair_lines-within i rows limit l = elim (charged-cases (reserve_pair_lines i rows).0) [
  | inl h ↦
      let (_, fits, _, same) = reserve_pair_lines-charged i rows h in
      inr (
        rw (same, used-append i.workspace_id matched_line i.window rows (pair_event i rows))
          (ground arith))
  | inr h ↦ inl (reserve_pair_lines_unchanged i rows h)
]

pub reserve-within :
    (i : ReserveInput) (rows : Ledger) (limit : ℕ)
    → i.limit ≡ some limit
    → ((reserve i rows).1 ≡ rows) ⊎ (used i.workspace_id i.kind i.window (reserve i rows).1 ≤ limit)
reserve-within i rows limit l = elim (charged-cases (reserve i rows).0) [
  | inl h ↦
      let (fits, _, same) = reserve-charged i rows h in
      inr (rw (same, used-append i.workspace_id i.kind i.window rows (event_of i)) (ground arith))
  | inr h ↦ inl (reserve_unchanged i rows h)
]
