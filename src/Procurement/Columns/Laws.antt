-- ===== src/Procurement/Columns/Laws.antt =====
-- What is read off a row (apps/api/src/procurement/column-mapping.ts): which fields a column can
-- fill, and what is left of a line after its values were checked.
use optra.Prelude.{
  arith, ℕ, suc, ◌≤◌, ◌≡◌, refl, sym, inl, inr, Bool, true, false, not, ◌&&◌, Option, none, some,
  List, [], ◌∷◌, map, String, ◌==◌, eq_iff, any, is_some, Bool-cases, Option-cases,
}
use optra.Procurement.Columns.{
  Cell, MappedLineItem, keep_if, numeric_or_null, validate_line_item, normalize_header, find_value,
  map_row_to_line_item, sku_aliases, description_aliases, quantity_aliases, unit_price_aliases,
  line_total_aliases, uom_aliases, received_aliases, accepted_aliases, rejected_aliases,
}

keep_if_twice : (p : String → Bool) (o : Option String) → keep_if p (keep_if p o) ≡ keep_if p o
keep_if_twice p none = refl
keep_if_twice p (some s) = elim (Bool-cases (p s)) [ inl t ↦ rw (t, t) refl | inr f ↦ rw f refl ]

owns : String → List String → Bool
owns k names = any (λ a. k == a) names

are_disjoint : List String → List String → Bool
are_disjoint names others = not (any (λ a. owns a others) names)

is_apart : List String → List (List String) → Bool
is_apart names [] = true
is_apart names (others ∷ rest) = are_disjoint names others && is_apart names rest

are_separate : List (List String) → Bool
unfolding is_apart are_disjoint owns
are_separate [] = true
are_separate (names ∷ rest) = is_apart names rest && are_separate rest

abbrev alias_lists : List (List String)
alias_lists =
    sku_aliases ∷ description_aliases ∷ quantity_aliases ∷ unit_price_aliases ∷ line_total_aliases
    ∷ uom_aliases ∷ received_aliases ∷ accepted_aliases ∷ rejected_aliases ∷ []

alias_lists_separate : are_separate alias_lists ≡ true
unfolding are_separate is_apart are_disjoint owns
alias_lists_separate = refl

-- Checking a line a second time changes nothing: what the columns can hold is kept as it is.
pub validate_line_item-validate_line_item :
    (item : MappedLineItem) → validate_line_item (validate_line_item item) ≡ validate_line_item item
unfolding validate_line_item numeric_or_null
validate_line_item-validate_line_item item = simp keep_if_twice

owns-eq :
    (k a : String) (others : List String)
    → (k == a) ≡ true
    → owns k others ≡ true
    → owns a others ≡ true
owns-eq k a others e h = rw (sym ((eq_iff k a).0 e)) h

are_disjoint-owns :
    (k : String) (names others : List String)
    → are_disjoint names others ≡ true
    → owns k names ≡ true
    → owns k others ≡ false
unfolding are_disjoint owns
are_disjoint-owns k [] others d h = ground arith
are_disjoint-owns k (a ∷ names) others d h = elim (Bool-cases (k == a)) [
  | inl t ↦ ground (arith, owns-eq k a others t)
  | inr f ↦ are_disjoint-owns k names others (ground arith) (ground arith)
]

-- The number of fields that have a value.
unfoldable pub filled : List (Option String) → ℕ
filled [] = 0
filled (none ∷ rest) = filled rest
filled (some _ ∷ rest) = suc (filled rest)

module _ (lower : String → String) (cell : Cell) where
  find_value-owns :
      (names : List String)
      → is_some (find_value lower (cell ∷ []) names) ≡ true
      → owns (normalize_header lower cell.header) names ≡ true
  unfolding find_value owns
  find_value-owns [] h = ground arith
  find_value-owns (a ∷ names) h = elim (Bool-cases (normalize_header lower cell.header == a)) [
    | inl t ↦ rw t refl
    | inr f ↦ rw f (find_value-owns names (rw f at h))
  ]

  filled-owned_by_none :
      (names : List String) (lists : List (List String))
      → is_apart names lists ≡ true
      → owns (normalize_header lower cell.header) names ≡ true
      → filled (map (find_value lower (cell ∷ [])) lists) ≡ 0
  unfolding is_apart filled
  filled-owned_by_none names [] h o = refl
  filled-owned_by_none names (others ∷ lists) h o =
      elim (Option-cases (find_value lower (cell ∷ []) others)) [
        | inl n ↦ rw n (filled-owned_by_none names lists (ground arith) o)
        | inr (v, e) ↦ ground (
          arith,
          are_disjoint-owns (normalize_header lower cell.header) names others,
          find_value-owns others (rw e refl),
        )
      ]

  filled-le :
      (lists : List (List String))
      → are_separate lists ≡ true
      → filled (map (find_value lower (cell ∷ [])) lists) ≤ 1
  unfolding are_separate filled
  filled-le [] h = omega arith
  filled-le (names ∷ lists) h = elim (Option-cases (find_value lower (cell ∷ []) names)) [
    | inl n ↦ rw n (filled-le lists (ground arith))
    | inr (v, e) ↦ rw e (
        omega (
          arith,
          filled-owned_by_none names lists (ground arith) (find_value-owns names (rw e refl)),
        ))
  ]

abbrev pub fields : MappedLineItem → List (Option String)
fields item =
    item.sku ∷ item.description ∷ item.quantity ∷ item.unit_price ∷ item.line_total ∷ item.uom
    ∷ item.quantity_received ∷ item.quantity_accepted ∷ item.quantity_rejected ∷ []

-- Whatever its header, one column of a file fills at most one of the nine fields of a line.
pub map_row_to_line_item-filled :
    (lower : String → String) (cell : Cell)
    → filled (fields (map_row_to_line_item lower (cell ∷ []))) ≤ 1
unfolding map_row_to_line_item
map_row_to_line_item-filled lower cell = filled-le lower cell alias_lists alias_lists_separate
