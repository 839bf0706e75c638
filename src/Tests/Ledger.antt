-- ===== src/Tests/Ledger.antt =====
-- The usage ledger of a workspace with a purchase order of forty lines that is compared, extended to
-- fifty lines, and compared again.
use optra.Prelude.{◌+◌, ◌-◌, ◌≤◌, ◌≡◌, refl, some, List, [], ◌∷◌, if◌then◌else◌, All, arith}
use optra.Billing.Calendar.{Window, in_window}
use optra.Billing.Ledger.{
  matched_line, photo_check, charged, used, counted_lines, ReserveInput, reserve, PairInput,
  reserve_pair_lines, insert_event,
}
use optra.Billing.Ledger.Laws.{reserve_pair_lines-settles}
use optra.Billing.Ledger.Quota.{Charge, pair, apply_all, IsCapped, apply_all-le}

abbrev month : Window
month = record { start = 1000; end = 2000 }

abbrev first_order : PairInput
first_order = record {
  workspace_id = "w";
  key_prefix = "cmp:po:inv";
  line_count = 40;
  limit = some 100;
  window = month;
  now = 1500;
  uuid = "u1";
}

abbrev longer_order : PairInput
longer_order = record first_order { line_count = 50; uuid = "u2" }

abbrev photo : ReserveInput
photo = record {
  workspace_id = "w";
  kind = photo_check;
  idempotency_key = "photo:1";
  quantity = 1;
  limit = some 5;
  window = month;
  now = 1500;
}

abbrev charges : List Charge
charges = pair first_order ∷ pair longer_order ∷ []

charges-IsCapped : All (IsCapped "w" matched_line month 100) charges
charges-IsCapped = ((λ _ _. (refl, refl)), ((λ _ _. (refl, refl)), tt))

empty-within : used "w" matched_line month [] ≤ 100
empty-within = omega arith

apply_all-le_example : used "w" matched_line month (apply_all charges []) ≤ 100
apply_all-le_example =
    apply_all-le "w" matched_line month 100 charges [] charges-IsCapped empty-within

first_charged : (reserve_pair_lines first_order []).0 ≡ charged
unfolding reserve_pair_lines insert_event
first_charged = refl

reserve_pair_lines-settles_example :
    (counted_lines "w" "cmp:po:inv" (reserve_pair_lines first_order []).1 ≡ 40)
    × (used "w" matched_line month (reserve_pair_lines first_order []).1
        ≡ used "w" matched_line month []
          + (if in_window month 1500 then 40 - counted_lines "w" "cmp:po:inv" [] else 0))
reserve_pair_lines-settles_example = reserve_pair_lines-settles first_order [] month first_charged

forty-le : 40 ≤ 40
forty-le = omega arith

photo_charged : (reserve photo []).0 ≡ charged
unfolding reserve insert_event
photo_charged = refl
