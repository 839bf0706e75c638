-- ===== src/Procurement/Columns/Decimal.antt =====
-- DECIMAL_PATTERN of apps/api/src/procurement/column-mapping.ts, as the automaton of the regular
-- expression ^[+-]?(?:\d+(?:\.\d*)?|\.\d+)(?:[eE][+-]?\d+)?$.
use Prim.Native.Char.{code}
use Prim.Native.String.{String, [], ◌∷◌}
use optra.Prelude.{ℕ, Bool, true, false, ◌&&◌, ◌||◌, leb, eqb, if◌then◌else◌}

pub data Place : Type 0 where
  start signed whole point fraction exponent exponent_signed exponent_digits nowhere : Place

abbrev is_digit : ℕ → Bool
is_digit c = leb 48 c && leb c 57

abbrev is_sign : ℕ → Bool
is_sign c = eqb c 43 || eqb c 45

abbrev is_point : ℕ → Bool
is_point c = eqb c 46

abbrev is_e : ℕ → Bool
is_e c = eqb c 69 || eqb c 101

next : Place → ℕ → Place
next start c =
    if is_sign c
    then signed
    else if is_digit c
    then whole
    else if is_point c
    then point
    else nowhere
next signed c = if is_digit c then whole else if is_point c then point else nowhere
next whole c =
    if is_digit c
    then whole
    else if is_point c
    then fraction
    else if is_e c
    then exponent
    else nowhere
next point c = if is_digit c then fraction else nowhere
next fraction c = if is_digit c then fraction else if is_e c then exponent else nowhere
next exponent c =
    if is_sign c then exponent_signed else if is_digit c then exponent_digits else nowhere
next exponent_signed c = if is_digit c then exponent_digits else nowhere
next exponent_digits c = if is_digit c then exponent_digits else nowhere
next nowhere c = nowhere

accepts : Place → Bool
accepts whole = true
accepts fraction = true
accepts exponent_digits = true
accepts _ = false

read : Place → String → Bool
unfolding next accepts
read place [] = accepts place
read place (c ∷ s) = read (next place (code c)) s

-- DECIMAL_PATTERN.test(text)
unfoldable pub is_decimal : String → Bool
unfolding read
is_decimal text = read start text
