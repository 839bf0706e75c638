-- ===== src/Procurement/Wording.antt =====
-- How a finding names a line and words its numbers (`lineName`, `singlePrice`, `summedNote` and
-- `maskedPriceNote` of apps/api/src/procurement/comparison.service.ts).
use optra.Prelude.{
  ℕ, Option, none, some, List, [], ◌∷◌, String, ltb, if◌then◌else◌, and_then, is_some, trim,
  non_empty, take_chars,
}
use Prim.Native.String
use Prim.Native.String.{count}
use mathlib.Core.Option
use optra.Procurement.Engine.{Engine}
use optra.Procurement.Lines.{LineItem}
use optra.Procurement.Group.{Group}
use optra.Procurement.Ladder.{Joined}

abbrev pub text : List String → String
text [] = ""
text (s ∷ ss) = String.◌++◌ s (text ss)

-- parts.filter(Boolean).join(sep)
abbrev pub kept : List (Option String) → List String
kept [] = []
kept (none ∷ parts) = kept parts
kept (some s ∷ parts) = s ∷ kept parts

abbrev pub joined_by : String → List String → String
joined_by sep [] = ""
joined_by sep (s ∷ []) = s
joined_by sep (s ∷ t ∷ ss) = text (s ∷ sep ∷ joined_by sep (t ∷ ss) ∷ [])

abbrev pub reason_name_max : ℕ
reason_name_max = 80

abbrev pub shown_description : String → String
shown_description s =
    if ltb reason_name_max (count s)
    then text ("\"" ∷ take_chars 79 s ∷ "…\"" ∷ [])
    else text ("\"" ∷ s ∷ "\"" ∷ [])

abbrev pub described : Option String → Option String
described description =
    Option.map shown_description (and_then description (λ s. non_empty (trim s)))

abbrev pub name_from : Option String → Option String → Option String
name_from none description = described description
name_from (some sku) description =
    if is_some (non_empty (trim sku)) then some sku else described description

-- lineName
abbrev pub line_name : Option LineItem → Option String
line_name none = none
line_name (some line) = name_from line.sku line.description

-- singlePrice
abbrev pub single_price : (e : Engine) → Option e.Num → Option e.Num → Option e.Num
single_price e (some a) (some b) = if e.same a b then some a else none
single_price e _ _ = none

abbrev pub group_price : (e : Engine) → Option (Group e.Num) → Option e.Num
group_price e none = none
group_price e (some g) = single_price e g.price_min g.price_max

abbrev pub group_quantity : (e : Engine) → Option (Group e.Num) → Option e.Num
group_quantity e none = none
group_quantity e (some g) = g.quantity

abbrev pub price_min_of : (e : Engine) → Option (Group e.Num) → Option e.Num
price_min_of e none = none
price_min_of e (some g) = g.price_min

abbrev pub price_max_of : (e : Engine) → Option (Group e.Num) → Option e.Num
price_max_of e none = none
price_max_of e (some g) = g.price_max

abbrev pub or_unknown : (e : Engine) → Option e.Num → String
or_unknown e none = "unknown"
or_unknown e (some n) = e.show n

-- `${value}` of a number or null
abbrev pub or_null : (e : Engine) → Option e.Num → String
or_null e none = "null"
or_null e (some n) = e.show n

abbrev pub lines_note : {Num : Type 0} → Engine → Option (Group Num) → String → Option String
lines_note e none what = none
lines_note e (some g) what =
    if ltb 1 g.lines then some (text (e.count_text g.lines ∷ what ∷ [])) else none

abbrev pub in_parentheses : String → List String → String
in_parentheses start [] = ""
in_parentheses start (s ∷ ss) = text (start ∷ joined_by " and " (s ∷ ss) ∷ ")" ∷ [])

-- summedNote
abbrev pub summed_note : (e : Engine) → Joined e → String
summed_note e row = in_parentheses " (summed across " (
    kept (
      lines_note e row.po " purchase order lines"
      ∷ lines_note e row.invoice " invoice lines"
      ∷ lines_note e row.receipt " goods receipt lines"
      ∷ []))

abbrev pub prices_note : (e : Engine) → Option e.Num → Option e.Num → String
prices_note e (some a) (some b) =
    if e.same a b
    then ""
    else text (" (the unit price also differs: PO=" ∷ e.show a ∷ " Invoice=" ∷ e.show b ∷ ")" ∷ [])
prices_note e _ _ = ""

-- maskedPriceNote
abbrev pub masked_price_note : (e : Engine) → Joined e → String
masked_price_note e row = prices_note e (group_price e row.po) (group_price e row.invoice)
