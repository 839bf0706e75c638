-- ===== src/Prelude/Text.antt =====
-- What the source uses of JavaScript's `String`: `trim` over the code points that ECMAScript calls
-- white space and line terminators, `slice(0, n)` over code points, and truthiness.
use Prim.Native.Nat.{ℕ, zero, suc, ◌+◌, ◌/◌, ◌%◌}
use Prim.Native.Char.{Char, code}
use Prim.Native.String
use Prim.Native.String.{String, [], ◌∷◌}
use mathlib.Core.Bool.{Bool, true, false, ◌&&◌, ◌||◌}
use mathlib.Core.Option.{Option, none, some}
use text.Mathlib.Text.{◌==◌, starts_with}
use optra.Prelude.Tests.{eqb, leb, if◌then◌else◌}

unfoldable pub is_space : ℕ → Bool
is_space c =
    (leb 9 c && leb c 13)
    || eqb c 32
    || eqb c 160
    || eqb c 0x1680
    || (leb 0x2000 c && leb c 0x200a)
    || eqb c 0x2028
    || eqb c 0x2029
    || eqb c 0x202f
    || eqb c 0x205f
    || eqb c 0x3000
    || eqb c 0xfeff

unfoldable pub trim_start : String → String
unfolding is_space
trim_start [] = []
trim_start (c ∷ s) = let rest = trim_start s in if is_space (code c) then rest else c ∷ s

abbrev snoc_space : Char → String → String
snoc_space c [] = if is_space (code c) then [] else c ∷ []
snoc_space c (d ∷ s) = c ∷ d ∷ s

unfoldable pub trim_end : String → String
unfolding is_space
trim_end [] = []
trim_end (c ∷ s) = snoc_space c (trim_end s)

-- s.trim()
unfoldable pub trim : String → String
unfolding trim_start trim_end
trim s = trim_end (trim_start s)

-- s.slice(0, n), for a text without surrogate pairs.
unfoldable pub take_chars : ℕ → String → String
take_chars zero s = []
take_chars (suc n) [] = []
take_chars (suc n) (c ∷ s) = c ∷ take_chars n s

-- s.length, in units of UTF-16
unfoldable pub utf16_length : String → ℕ
utf16_length [] = 0
utf16_length (c ∷ s) = (if leb 0x10000 (code c) then 2 else 1) + utf16_length s

-- `s ? s : null`
abbrev pub non_empty : String → Option String
non_empty [] = none
non_empty (c ∷ s) = some (c ∷ s)

-- `!!s`
abbrev pub truthy : String → Bool
truthy [] = false
truthy (c ∷ s) = true

digit : ℕ → String
digit zero = "0"
digit (suc zero) = "1"
digit (suc (suc zero)) = "2"
digit (suc (suc (suc zero))) = "3"
digit (suc (suc (suc (suc zero)))) = "4"
digit (suc (suc (suc (suc (suc zero))))) = "5"
digit (suc (suc (suc (suc (suc (suc zero)))))) = "6"
digit (suc (suc (suc (suc (suc (suc (suc zero))))))) = "7"
digit (suc (suc (suc (suc (suc (suc (suc (suc zero)))))))) = "8"
digit _ = "9"

-- A number with at least two, or four, digits, as in an ISO date.
unfoldable pub pad_two : ℕ → String
unfolding digit
pad_two n = String.◌++◌ (digit (n / 10 % 10)) (digit (n % 10))

unfoldable pub pad_four : ℕ → String
unfolding pad_two
pad_four n = String.◌++◌ (pad_two (n / 100 % 100)) (pad_two (n % 100))

abbrev strip_last : ℕ → Char → String → String
strip_last x c [] = if eqb (code c) x then [] else c ∷ []
strip_last x c (d ∷ s) = c ∷ d ∷ s

-- s.endsWith(suffix)
unfoldable pub ends_with : String → String → Bool
ends_with [] suffix = [] == suffix
ends_with (c ∷ s) suffix = ((c ∷ s) == suffix) || ends_with s suffix

-- s.includes(part)
unfoldable pub includes : String → String → Bool
includes [] part = starts_with [] part
includes (c ∷ s) part = starts_with (c ∷ s) part || includes s part

-- s.replace(/x+$/, ''), for the character x with this code
unfoldable pub strip_end : ℕ → String → String
strip_end x [] = []
strip_end x (c ∷ s) = strip_last x c (strip_end x s)
