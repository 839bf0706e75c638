-- ===== src/Procurement/Review/Numbering.antt =====
-- A reviewed document has the lines of the body, and its row count says so.
use optra.Prelude.{
  ℕ, ◌+◌, ◌≡◌, inl, inr, refl, Bool, true, false, ◌&&◌, List, [], ◌∷◌, String, ◌==◌, eq_iff,
  eq_refl, any, select, length, if◌then◌else◌, Bool-cases, arith,
}
use optra.Procurement.Documents.{Line, is_line_of}
use optra.Procurement.Review.{are_distinct, all_exist, has_line_id}

abbrev pub count_of {ℓ} : {A : Type ℓ} → (A → Bool) → List A → ℕ
count_of p [] = 0
count_of p (x ∷ xs) = (if p x then 1 else 0) + count_of p xs

-- The ids of the lines of a table are different, as a primary key is.
abbrev pub HasKey : List Line → Type 0
HasKey [] = Unit
HasKey (l ∷ ls) = (any (has_line_id l.id) ls ≡ false) × HasKey ls

module _ (workspace_id id : String) where
  abbrev belongs : Line → Bool
  belongs = is_line_of workspace_id id

  none-belong :
      (i : String) (ls : List Line)
      → any (has_line_id i) ls ≡ false
      → count_of (λ l. belongs l && (l.id == i)) ls ≡ 0
  none-belong i [] h = refl
  none-belong i (l ∷ ls) h = ground (arith, none-belong i ls)

  -- A line that exists is there once.
  one-belongs :
      (i : String) (ls : List Line)
      → HasKey ls
      → any (has_line_id i) (select belongs ls) ≡ true
      → count_of (λ l. belongs l && (l.id == i)) ls ≡ 1
  one-belongs i [] k h = ground arith
  one-belongs i (l ∷ ls) (fresh, k) h = elim (Bool-cases (belongs l)) [
    | inr n ↦ rw n (omega (arith, one-belongs i ls k (rw n at h)))
    | inl y ↦ elim (Bool-cases (l.id == i)) [
      | inl e ↦
          let same = (eq_iff l.id i).0 e in
          rw (y, e) (omega (arith, none-belong i ls (rw same at fresh)))
      | inr d ↦ rw (y, d) (omega (arith, one-belongs i ls k (rw (y, d) at h)))
    ]
  ]

  abbrev pub is_kept : List String → Line → Bool
  is_kept ids l = belongs l && any (λ i. l.id == i) ids

  count_of-none : (ls : List Line) → count_of (is_kept []) ls ≡ 0
  count_of-none [] = refl
  count_of-none (l ∷ ls) = ground (arith, count_of-none ls)

  count_of-split :
      (i : String) (ids : List String) (ls : List Line)
      → any (λ j. j == i) ids ≡ false
      → count_of (is_kept (i ∷ ids)) ls
        ≡ count_of (λ l. belongs l && (l.id == i)) ls + count_of (is_kept ids) ls
  count_of-split i ids [] h = refl
  count_of-split i ids (l ∷ ls) h = elim (Bool-cases (l.id == i)) [
    | inr n ↦ rw n (ground (arith, count_of-split i ids ls h))
    | inl y ↦
        let same = (eq_iff l.id i).0 y in
        let other = not-any_sym i ids h in
        rw (y, same, other) (ground (arith, count_of-split i ids ls h))
  ]
    where
      not-any_sym :
          (i : String) (ids : List String)
          → any (λ j. j == i) ids ≡ false
          → any (λ j. i == j) ids ≡ false
      not-any_sym i [] h = refl
      not-any_sym i (j ∷ ids) h = elim (Bool-cases (i == j)) [
        | inl y ↦ cc (rw ((eq_iff i j).0 y, eq_refl j) at h)
        | inr n ↦ rw n (not-any_sym i ids (ground arith))
      ]

  -- As many lines are kept as the body has ids.
  pub count_of-kept :
      (ids : List String) (ls : List Line)
      → HasKey ls
      → are_distinct ids ≡ true
      → all_exist (select belongs ls) ids ≡ true
      → count_of (is_kept ids) ls ≡ length ids
  unfolding are_distinct all_exist
  count_of-kept [] ls k d e = count_of-none ls
  count_of-kept (i ∷ ids) ls k d e = omega (
    arith,
    count_of-split i ids ls (ground arith),
    one-belongs i ls k (ground arith),
    count_of-kept ids ls k (ground arith) (ground arith),
  )
