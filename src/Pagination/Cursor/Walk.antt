-- ===== src/Pagination/Cursor/Walk.antt =====
-- A client that follows the cursors reads every row once.
use optra.Prelude.{
  ℕ, zero, suc, ◌-◌, ◌≤◌, ◌<◌, ◌≡◌, inl, inr, refl, sym, ap, ◌∙◌, Bool, true, false, not, ◌&&◌,
  ◌||◌, Option, none, some, List, [], ◌∷◌, ◌++◌, String, ◌==◌, All, select, length, ltb, truthy,
  Bool-cases, arith,
}
use mathlib.Core.Path.{subst}
use mathlib.Core.List.{append_assoc}
use optra.Pagination.Cursor.{
  Codec, Cursor, Row, take, last, is_after, cursor_of, ordered, page_of, list_rows, walk, limit_of,
}
use optra.Pagination.Cursor.Sorted.{HaveDistinctIds, IsSorted, ordered-IsSorted, length-ordered}

-- The last of the rows that are taken, and the rows before and after it.
record IsCut (rows : List Row) (n : ℕ) : Type 0 where
  before : List Row
  end : Row
  rest : List Row
  taken : take n rows ≡ before ++ end ∷ []
  found : last (take n rows) ≡ some end
  whole : rows ≡ before ++ end ∷ rest
  shorter : length rest < length rows

take_all : (n : ℕ) (rows : List Row) → length rows ≤ n → take n rows ≡ rows
unfolding take
take_all zero [] h = refl
take_all (suc n) [] h = refl
take_all zero (r ∷ rows) h = absurd (omega arith)
take_all (suc n) (r ∷ rows) h = ap (λ rs. r ∷ rs) (take_all n rows (omega arith))

cut : (n : ℕ) (rows : List Row) → suc n ≤ length rows → IsCut rows (suc n)
unfolding take last
cut n [] h = absurd (omega arith)
cut zero (r ∷ rows) h = record {
  before = [];
  end = r;
  rest = rows;
  taken = refl;
  found = refl;
  whole = refl;
  shorter = omega arith;
}
cut (suc n) (r ∷ []) h = absurd (omega arith)
cut (suc n) (r ∷ s ∷ rows) h =
    let c = cut n (s ∷ rows) (omega arith) in
    record {
      before = r ∷ c.before;
      end = c.end;
      rest = c.rest;
      taken = ap (λ rs. r ∷ rs) c.taken;
      found = c.found;
      whole = ap (λ rs. r ∷ rs) c.whole;
      shorter = omega (arith, c.shorter);
    }

module _ (codec : Codec) where
  select-All :
      (p : Row → Bool) (rows : List Row) → All (λ r. p r ≡ true) rows → select p rows ≡ rows
  select-All p [] _ = refl
  select-All p (r ∷ rows) (h, hs) = rw h (ap (λ rs. r ∷ rs) (select-All p rows hs))

  module _ (asymmetric : (a b : String) → (codec.below a b && codec.below b a) ≡ false) where
    -- Behind a row of a sorted list come just the rows after it.
    select-after :
        (before : List Row) (end : Row) (rest : List Row)
        → IsSorted codec (before ++ end ∷ rest)
        → select (is_after codec (cursor_of codec end)) (before ++ end ∷ rest) ≡ rest
    select-after [] end rest (h, hs) =
        let itself : is_after codec (cursor_of codec end) end ≡ false =
          ground (arith, asymmetric end.id end.id) in
        rw itself (select-All (is_after codec (cursor_of codec end)) rest h)
    select-after (b ∷ before) end rest (h, hs) =
        let earlier : is_after codec (cursor_of codec end) b ≡ false =
          ground (arith, end-after b before end rest h, asymmetric end.id b.id) in
        rw earlier (select-after before end rest hs)
      where
        end-after :
            (b : Row) (before : List Row) (end : Row) (rest : List Row)
            → All (λ s. is_after codec (cursor_of codec b) s ≡ true) (before ++ end ∷ rest)
            → is_after codec (cursor_of codec b) end ≡ true
        end-after b [] end rest (h, _) = h
        end-after b (c ∷ before) end rest (_, h) = end-after b before end rest h

    module _ (round_trip : (c : Cursor) → codec.decode (codec.encode c) ≡ some c)
        (stated : (c : Cursor) → truthy (codec.encode c) ≡ true) (limit : Option ℕ)
        (rows : List Row) where
      limit-positive : (l : ℕ) × (limit_of codec limit ≡ suc l)
      limit-positive = (limit_of codec limit - 1, omega arith)

      -- The rows behind a cursor that was handed out, read to their end.
      walk-after :
          (fuel : ℕ) (before : List Row) (end : Row) (rest : List Row)
          → ordered codec rows ≡ before ++ end ∷ rest
          → IsSorted codec (before ++ end ∷ rest)
          → length rest < fuel
          → walk codec fuel limit rows (some (codec.encode (cursor_of codec end))) ≡ some rest
      unfolding walk list_rows page_of
      walk-after zero before end rest e s h = absurd (omega arith)
      walk-after (suc fuel) before end rest e s h =
          let c = cursor_of codec end in
          let seen : select (is_after codec c) (ordered codec rows) ≡ rest =
            rw e (select-after before end rest s) in
          elim (Bool-cases (ltb (limit_of codec limit) (length rest))) [
            | inr n ↦
                rw (stated c, round_trip c, seen, n)
                  (ap some (take_all (limit_of codec limit) rest (ground arith)))
            | inl y ↦
                let (l, positive) = limit-positive in
                let k = cut l rest (ground (arith, positive)) in
                let regroup =
                  ap (λ rs. before ++ end ∷ rs) k.whole
                  ∙ sym (append_assoc before (end ∷ k.before) (k.end ∷ k.rest)) in
                let further =
                  walk-after fuel (before ++ end ∷ k.before) k.end k.rest (e ∙ regroup)
                    (subst (IsSorted codec) regroup s) (omega (arith, k.shorter)) in
                let read : take (suc l) rest ++ k.rest ≡ rest =
                  ap (λ rs. rs ++ k.rest) k.taken
                  ∙ append_assoc k.before (k.end ∷ []) k.rest
                  ∙ sym k.whole in
                let full = rw positive at y in
                rw (stated c, round_trip c, seen, positive, full, k.found, further) (ap some read)
          ]

      first-page :
          (l : ℕ)
          → limit_of codec limit ≡ suc l
          → ltb (suc l) (length (ordered codec rows)) ≡ true
          → IsSorted codec (ordered codec rows)
          → select (λ r. true) (ordered codec rows) ≡ ordered codec rows
          → IsCut (ordered codec rows) (suc l)
          → walk codec (suc (length rows)) limit rows none ≡ some (ordered codec rows)
      unfolding walk list_rows page_of
      first-page l positive more sorted all k =
          let further =
            walk-after (length rows) k.before k.end k.rest k.whole
              (subst (IsSorted codec) k.whole sorted)
              (omega (arith, k.shorter, length-ordered codec rows)) in
          let read : take (suc l) (ordered codec rows) ++ k.rest ≡ ordered codec rows =
            ap (λ rs. rs ++ k.rest) k.taken
            ∙ append_assoc k.before (k.end ∷ []) k.rest
            ∙ sym k.whole in
          let join : Option (List Row) → Option (List Row) = elim [
            | none ↦ none
            | some behind ↦ some (take (suc l) (ordered codec rows) ++ behind)
          ] in
          rw (all, positive, more, k.found) (ap join further ∙ ap some read)

      -- The pages of a user's list hold every row of the user, in the order of the query and each
      -- once, when a client follows the cursors until there is none: with distinct ids, whose order
      -- is total, transitive and asymmetric, with cursors that are decoded to what was encoded, and
      -- for any limit. No more pages are read than there are rows, and one.
      pub walk_all :
          ((a b c : String) → (not (codec.below a b && codec.below b c) || codec.below a c) ≡ true)
          → ((a b : String) → ((a == b) || codec.below a b || codec.below b a) ≡ true)
          → HaveDistinctIds rows
          → walk codec (suc (length rows)) limit rows none ≡ some (ordered codec rows)
      unfolding walk list_rows page_of
      walk_all transitive total distinct =
          let sorted = ordered-IsSorted codec transitive total rows distinct in
          let all : select (λ r. true) (ordered codec rows) ≡ ordered codec rows =
            select-All (λ r. true) (ordered codec rows) (always (ordered codec rows)) in
          elim (Bool-cases (ltb (limit_of codec limit) (length (ordered codec rows)))) [
            | inr n ↦
                rw (all, n)
                  (ap some (take_all (limit_of codec limit) (ordered codec rows) (ground arith)))
            | inl y ↦
                let (l, positive) = limit-positive in
                first-page l positive (rw positive at y) sorted all
                  (cut l (ordered codec rows) (ground (arith, positive)))
          ]
        where
          always : (rs : List Row) → All (λ r. true ≡ true) rs
          always [] = tt
          always (r ∷ rs) = (refl, always rs)
