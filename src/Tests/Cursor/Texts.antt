-- ===== src/Tests/Cursor/Texts.antt =====
-- Cursors as texts, a time being as many ones, and the order of texts by their characters.
use Prim.Native.Char.{code}
use Prim.Native.String.{String, [], ◌∷◌}
use Prim.Native.Nat.{ℕ, zero, suc}
use text.Mathlib.TextEquality.{Char-path}
use optra.Prelude.{
  Bool, true, false, not, ◌&&◌, ◌||◌, Option, none, some, ◌≡◌, refl, ap, ltb, eqb, if◌then◌else◌,
  ◌==◌, eq_iff, eq_refl, truthy, Bool-cases, inl, inr, arith,
}
use optra.Pagination.Cursor.{Cursor}

unfoldable pub below : String → String → Bool
below [] [] = false
below [] (d ∷ t) = true
below (c ∷ s) [] = false
below (c ∷ s) (d ∷ t) =
    let rest = below s t in ltb (code c) (code d) || (eqb (code c) (code d) && rest)

-- The first character of a text, before another text.
abbrev put : String → String → String
put [] t = t
put (c ∷ s) t = c ∷ t

unfoldable pub write : ℕ → String → String
write zero id = put "." id
write (suc k) id = put "1" (write k id)

abbrev later : Option Cursor → Option Cursor
later none = none
later (some c) = some (record { k = suc c.k; id = c.id })

unfoldable pub decode : String → Option Cursor
decode [] = none
decode (c ∷ s) =
    let rest = decode s in if eqb (code c) 46 then some (record { k = 0; id = s }) else later rest

abbrev pub encode : Cursor → String
encode c = write c.k c.id

decode-write : (k : ℕ) (id : String) → decode (write k id) ≡ some (record { k = k; id = id })
unfolding decode write
decode-write zero id = refl
decode-write (suc k) id = ap later (decode-write k id)

pub decode-encode : (c : Cursor) → decode (encode c) ≡ some c
decode-encode c = decode-write c.k c.id

truthy-write : (k : ℕ) (id : String) → truthy (write k id) ≡ true
unfolding write
truthy-write zero id = refl
truthy-write (suc k) id = refl

pub truthy-encode : (c : Cursor) → truthy (encode c) ≡ true
truthy-encode c = truthy-write c.k c.id

pub below_asymmetric : (a b : String) → (below a b && below b a) ≡ false
unfolding below
below_asymmetric [] [] = refl
below_asymmetric [] (d ∷ t) = refl
below_asymmetric (c ∷ s) [] = refl
below_asymmetric (c ∷ s) (d ∷ t) = ground (arith, below_asymmetric s t)

pub below_transitive : (a b c : String) → (not (below a b && below b c) || below a c) ≡ true
unfolding below
below_transitive [] [] [] = refl
below_transitive [] [] (e ∷ u) = refl
below_transitive [] (d ∷ t) [] = refl
below_transitive [] (d ∷ t) (e ∷ u) = ground arith
below_transitive (c ∷ s) [] [] = refl
below_transitive (c ∷ s) [] (e ∷ u) = refl
below_transitive (c ∷ s) (d ∷ t) [] = ground arith
below_transitive (c ∷ s) (d ∷ t) (e ∷ u) = ground (arith, below_transitive s t u)

pub below_total : (a b : String) → ((a == b) || below a b || below b a) ≡ true
unfolding below
below_total [] [] = refl
below_total [] (d ∷ t) = ground arith
below_total (c ∷ s) [] = ground arith
below_total (c ∷ s) (d ∷ t) = elim (Bool-cases (eqb (code c) (code d))) [
  | inr n ↦ ground arith
  | inl y ↦ elim (Bool-cases (s == t)) [
    | inl e ↦
        let same = Char-path c d (ground arith) in
        let rest = (eq_iff s t).0 e in rw (same, rest, eq_refl (d ∷ t)) refl
    | inr n ↦ ground (arith, below_total s t)
  ]
]
