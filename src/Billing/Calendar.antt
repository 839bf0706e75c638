-- ===== src/Billing/Calendar.antt =====
-- The UTC calendar behind `currentMonthPeriod` (apps/api/src/billing/plans.ts). An instant is the
-- number of milliseconds since 1970-01-01T00:00Z, what `Date.getTime` returns; instants before 1970
-- are left out. A month is counted from January 1970.
use optra.Prelude.{
  ℕ, zero, suc, ◌+◌, ◌-◌, ◌*◌, ◌/◌, ◌%◌, ◌≤◌, ◌<◌, Bool, ◌&&◌, ◌||◌, not, arith, ltb, leb, eqb,
  if◌then◌else◌, inl, inr, Bool-cases, ltb→lt, String, pad_two, pad_four,
}
use Prim.Native.String

abbrev pub day_ms : ℕ
day_ms = 24 * 60 * 60 * 1000

is_leap : ℕ → Bool
is_leap y = (eqb (y % 4) 0 && not (eqb (y % 100) 0)) || eqb (y % 400) 0

-- The number of days of a month, counted from January 1970.
unfoldable pub month_days : ℕ → ℕ
unfolding is_leap
month_days k =
    let m = k % 12 in
    if eqb m 1
    then (if is_leap (1970 + k / 12) then 29 else 28)
    else if eqb m 3 || eqb m 5 || eqb m 8 || eqb m 10
    then 30
    else 31

-- The day on which a month starts: `Date.UTC(y, m, 1)` in days.
unfoldable pub month_start : ℕ → ℕ
month_start zero = 0
month_start (suc k) = month_start k + month_days k

find_month : ℕ → ℕ → ℕ → ℕ
find_month zero k rest = k
find_month (suc fuel) k rest =
    let later = find_month fuel (suc k) (rest - month_days k) in
    if ltb rest (month_days k) then k else later

-- `getUTCFullYear` and `getUTCMonth` as one number, 12 * (year - 1970) + month.
unfoldable pub utc_month : ℕ → ℕ
unfolding find_month month_days
utc_month now = find_month (suc (now / day_ms)) 0 (now / day_ms)

pub record Window : Type 0 where
  pub start : ℕ
  pub end : ℕ

-- Whether an instant lies in the half-open window.
abbrev pub in_window : Window → ℕ → Bool
in_window w t = leb w.start t && ltb t w.end

-- The UTC calendar month containing `now`: [start, end).
unfoldable pub current_month_period : ℕ → Window
unfolding utc_month month_start
current_month_period now =
    let k = utc_month now in
    record { start = month_start k * day_ms; end = month_start (suc k) * day_ms }

-- `date.toISOString().slice(0, 10)`, for the years up to 9999.
unfoldable pub iso_day : ℕ → String
unfolding utc_month month_start pad_two pad_four
iso_day t =
    let k = utc_month t in
    let date =
      String.◌++◌ (pad_two (k % 12 + 1))
        (String.◌++◌ "-" (pad_two (t / day_ms - month_start k + 1))) in
    String.◌++◌ (pad_four (1970 + k / 12)) (String.◌++◌ "-" date)

month_days-pos : (k : ℕ) → 0 < month_days k
unfolding month_days is_leap
month_days-pos k = ground arith

find_month_bounds :
    (fuel k rest : ℕ)
    → rest < fuel
    → (month_start (find_month fuel k rest) ≤ month_start k + rest)
      × (month_start k + rest < month_start (suc (find_month fuel k rest)))
unfolding find_month month_start
find_month_bounds zero k rest h = absurd (omega arith)
find_month_bounds (suc fuel) k rest h = elim (Bool-cases (ltb rest (month_days k))) [
  | inl here ↦ rw here (omega (arith, ltb→lt rest (month_days k) here))
  | inr later ↦
      let past : month_days k ≤ rest = ground arith in
      let ih =
        find_month_bounds fuel (suc k) (rest - month_days k) (omega (arith, month_days-pos k)) in
      rw later (omega (arith, ih))
]

pub utc_month_bounds :
    (now : ℕ)
    → (month_start (utc_month now) ≤ now / day_ms)
      × (now / day_ms < month_start (suc (utc_month now)))
unfolding utc_month month_start
utc_month_bounds now =
    let b = find_month_bounds (suc (now / day_ms)) 0 (now / day_ms) (omega arith) in
    omega (arith, b)

-- The billing month contains the instant that it is computed for.
pub current_month_period-contains :
    (now : ℕ) → ((current_month_period now).start ≤ now) × (now < (current_month_period now).end)
unfolding current_month_period
current_month_period-contains now = omega (arith, utc_month_bounds now)
