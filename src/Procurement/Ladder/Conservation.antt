-- ===== src/Procurement/Ladder/Conservation.antt =====
-- The joins lose no line and repeat none: every line of every document is in one row of the result.
use optra.Prelude.{
  ℕ, ◌+◌, ◌≤◌, true, false, Option, none, some, List, [], ◌∷◌, map, String, ◌==◌, eq_iff, eq_refl,
  if◌then◌else◌, select, length, ◌≡◌, refl, ◌∙◌, arith, Bool-cases, inl, inr,
}
use optra.Procurement.Engine.{Engine}
use optra.Procurement.Lines.{Cells}
use optra.Procurement.Group.{Group, has_mk, grouped, group_of}
use optra.Procurement.Ladder.{known, add_key, keys_of, Joined, join_at, joined}

abbrev pub sum_of {ℓ} : {A : Type ℓ} → (A → ℕ) → List A → ℕ
sum_of q [] = 0
sum_of q (x ∷ xs) = q x + sum_of q xs

abbrev pub lines_of : {Num : Type 0} → Option (Group Num) → ℕ
lines_of none = 0
lines_of (some g) = g.lines

abbrev IsDistinct : List String → Type 0
IsDistinct [] = Unit
IsDistinct (k ∷ ks) = (known k ks ≡ false) × IsDistinct ks

add_key-IsDistinct :
    (mk : String) (keys : List String) → IsDistinct keys → IsDistinct (add_key mk keys)
unfolding add_key
add_key-IsDistinct mk keys h = elim (Bool-cases (known mk keys)) [
  | inl t ↦ rw t h
  | inr f ↦ rw f (f, h)
]

keys_of-IsDistinct :
    (rows : List Cells) (keys : List String) → IsDistinct keys → IsDistinct (keys_of rows keys)
unfolding keys_of
keys_of-IsDistinct [] keys h = h
keys_of-IsDistinct (row ∷ rows) keys h =
    add_key-IsDistinct row.mk (keys_of rows keys) (keys_of-IsDistinct rows keys h)

known-add_key :
    (mk other : String) (keys : List String)
    → known mk keys ≡ true
    → known mk (add_key other keys) ≡ true
unfolding add_key
known-add_key mk other keys h = ground (arith, h)

known-added : (mk : String) (keys : List String) → known mk (add_key mk keys) ≡ true
unfolding add_key
known-added mk keys = elim (Bool-cases (known mk keys)) [
  | inl t ↦ rw t t
  | inr f ↦ rw (f, eq_refl mk) refl
]

known-keys_of :
    (mk : String) (rows : List Cells) (keys : List String)
    → known mk keys ≡ true
    → known mk (keys_of rows keys) ≡ true
unfolding keys_of
known-keys_of mk [] keys h = h
known-keys_of mk (row ∷ rows) keys h =
    known-add_key mk row.mk (keys_of rows keys) (known-keys_of mk rows keys h)

abbrev AllKnown : List Cells → List String → Type 0
AllKnown [] keys = Unit
AllKnown (row ∷ rows) keys = (known row.mk keys ≡ true) × AllKnown rows keys

AllKnown-add_key :
    (mk : String) (rows : List Cells) (keys : List String)
    → AllKnown rows keys
    → AllKnown rows (add_key mk keys)
AllKnown-add_key mk [] keys _ = tt
AllKnown-add_key mk (row ∷ rows) keys (h, hs) =
    (known-add_key row.mk mk keys h, AllKnown-add_key mk rows keys hs)

AllKnown-own : (rows : List Cells) (keys : List String) → AllKnown rows (keys_of rows keys)
unfolding keys_of
AllKnown-own [] keys = tt
AllKnown-own (row ∷ rows) keys = (
  known-added row.mk (keys_of rows keys),
  AllKnown-add_key row.mk rows (keys_of rows keys) (AllKnown-own rows keys),
)

AllKnown-keys_of :
    (rows more : List Cells) (keys : List String)
    → AllKnown rows keys
    → AllKnown rows (keys_of more keys)
unfolding keys_of
AllKnown-keys_of rows [] keys h = h
AllKnown-keys_of rows (m ∷ more) keys h =
    AllKnown-add_key m.mk rows (keys_of more keys) (AllKnown-keys_of rows more keys h)

length-keys_of :
    (rows : List Cells) (keys : List String)
    → length (keys_of rows keys) ≤ length rows + length keys
unfolding keys_of add_key
length-keys_of [] keys = omega arith
length-keys_of (row ∷ rows) keys = ground (arith, length-keys_of rows keys)

abbrev hit : String → String → ℕ
hit mk k = if mk == k then 1 else 0

never : (mk : String) (keys : List String) → known mk keys ≡ false → sum_of (hit mk) keys ≡ 0
never mk [] h = refl
never mk (k ∷ ks) h = elim (Bool-cases (mk == k)) [
  | inl t ↦ cc (rw t at h)
  | inr f ↦ let rest = never mk ks (rw f at h) in rw f (omega (arith, rest))
]

once :
    (mk : String) (keys : List String)
    → IsDistinct keys
    → known mk keys ≡ true
    → sum_of (hit mk) keys ≡ 1
once mk [] d h = cc
once mk (k ∷ ks) (new, d) h = elim (Bool-cases (mk == k)) [
  | inl t ↦
      let same : mk ≡ k = (eq_iff mk k).0 t in
      let rest = never mk ks (rw same new) in rw (t, rest) refl
  | inr f ↦ let rest = once mk ks d (rw f at h) in rw f (omega (arith, rest))
]

sum_of-plus :
    (f g : String → ℕ) (keys : List String)
    → sum_of (λ k. f k + g k) keys ≡ sum_of f keys + sum_of g keys
sum_of-plus f g [] = refl
sum_of-plus f g (k ∷ ks) = omega (arith, sum_of-plus f g ks)

sum_of-zero : (keys : List String) → sum_of (λ (_ : String). 0) keys ≡ 0
sum_of-zero [] = refl
sum_of-zero (k ∷ ks) = omega (arith, sum_of-zero ks)

sum_of-eq :
    (f g : String → ℕ)
    → ((k : String) → f k ≡ g k)
    → (keys : List String) → sum_of f keys ≡ sum_of g keys
sum_of-eq f g same [] = refl
sum_of-eq f g same (k ∷ ks) = omega (arith, same k, sum_of-eq f g same ks)

length-select_cons :
    (row : Cells) (rows : List Cells) (k : String)
    → length (select (has_mk k) (row ∷ rows)) ≡ hit row.mk k + length (select (has_mk k) rows)
length-select_cons row rows k = ground arith

spread :
    (rows : List Cells) (keys : List String)
    → IsDistinct keys
    → AllKnown rows keys
    → sum_of (λ k. length (select (has_mk k) rows)) keys ≡ length rows
spread [] keys d _ = sum_of-zero keys
spread (row ∷ rows) keys d (h, hs) =
    let split =
      sum_of-eq (λ k. length (select (has_mk k) (row ∷ rows)))
        (λ k. hit row.mk k + length (select (has_mk k) rows)) (length-select_cons row rows) keys in
    let parts = sum_of-plus (hit row.mk) (λ k. length (select (has_mk k) rows)) keys in
    omega (arith, split, parts, once row.mk keys d h, spread rows keys d hs)

module _ (e : Engine) where
  lines-grouped : (rows : List Cells) → lines_of (grouped e rows) ≡ length rows
  unfolding grouped
  lines-grouped [] = refl
  lines-grouped (row ∷ rows) = refl

  lines-group_of :
      (rows : List Cells) (k : String)
      → lines_of (group_of e k rows) ≡ length (select (has_mk k) rows)
  unfolding group_of
  lines-group_of rows k = lines-grouped (select (has_mk k) rows)

  conserved :
      (rows : List Cells) (keys : List String)
      → IsDistinct keys
      → AllKnown rows keys
      → sum_of (λ k. lines_of (group_of e k rows)) keys ≡ length rows
  conserved rows keys d h =
      sum_of-eq (λ k. lines_of (group_of e k rows)) (λ k. length (select (has_mk k) rows))
        (lines-group_of rows) keys
      ∙ spread rows keys d h

  sum_of-map :
      (q : Joined e → ℕ) (f : String → Joined e) (keys : List String)
      → sum_of q (map f keys) ≡ sum_of (λ k. q (f k)) keys
  sum_of-map q f [] = refl
  sum_of-map q f (k ∷ ks) = omega (arith, sum_of-map q f ks)

  -- The rows of the join, taken together, hold each line of the order, of the invoice and of the
  -- receipts exactly once: the groups' line counts sum to the number of lines of each document, so
  -- lines with one key are neither lost nor multiplied by the lines of the other documents.
  pub joined-conserved :
      (po inv grn : List Cells)
      → (sum_of (λ (j : Joined e). lines_of j.po) (joined e po inv grn) ≡ length po)
        × (sum_of (λ (j : Joined e). lines_of j.invoice) (joined e po inv grn) ≡ length inv)
        × (sum_of (λ (j : Joined e). lines_of j.receipt) (joined e po inv grn) ≡ length grn)
  unfolding joined
  joined-conserved po inv grn =
      let g = keys_of grn [] in
      let i = keys_of inv g in
      let keys = keys_of po i in
      let d = keys_of-IsDistinct po i (keys_of-IsDistinct inv g (keys_of-IsDistinct grn [] tt)) in
      (
        sum_of-map (λ j. lines_of j.po) (join_at e po inv grn) keys
            ∙ conserved po keys d (AllKnown-own po i),
        sum_of-map (λ j. lines_of j.invoice) (join_at e po inv grn) keys
            ∙ conserved inv keys d (AllKnown-keys_of inv po i (AllKnown-own inv g)),
        sum_of-map (λ j. lines_of j.receipt) (join_at e po inv grn) keys
            ∙ conserved grn keys d
                (AllKnown-keys_of grn po i (AllKnown-keys_of grn inv g (AllKnown-own grn []))),
      )

  length-map : (f : String → Joined e) (keys : List String) → length (map f keys) ≡ length keys
  length-map f [] = refl
  length-map f (k ∷ ks) = omega (arith, length-map f ks)

  -- The result has no more rows than the three documents have lines together, the bound that is
  -- given to the engine as maxRows.
  length-joined :
      (po inv grn : List Cells) → length (joined e po inv grn) ≤ length po + length inv + length grn
  unfolding joined
  length-joined po inv grn =
      let g = keys_of grn [] in
      let i = keys_of inv g in
      omega (
        arith,
        length-map (join_at e po inv grn) (keys_of po i),
        length-keys_of po i,
        length-keys_of inv g,
        length-keys_of grn [],
      )
