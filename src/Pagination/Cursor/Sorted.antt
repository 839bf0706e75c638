-- ===== src/Pagination/Cursor/Sorted.antt =====
-- The rows in the order of the query.
use optra.Prelude.{
  suc, length, ◌≡◌, inl, inr, refl, true, false, not, ◌&&◌, ◌||◌, List, [], ◌∷◌, String, ◌==◌, All,
  Bool-cases, arith,
}
use optra.Pagination.Cursor.{Codec, Row, is_after, cursor_of, insert, ordered}

-- No two rows have one id.
abbrev pub HaveDistinctIds : List Row → Type 0
HaveDistinctIds [] = Unit
HaveDistinctIds (r ∷ rows) = All (λ s. (s.id == r.id) ≡ false) rows × HaveDistinctIds rows

module _ (codec : Codec) where
  -- Every row comes after all that stand before it.
  abbrev pub IsSorted : List Row → Type 0
  IsSorted [] = Unit
  IsSorted (r ∷ rows) = All (λ s. is_after codec (cursor_of codec r) s ≡ true) rows × IsSorted rows

  length-insert : (r : Row) (rows : List Row) → length (insert codec r rows) ≡ suc (length rows)
  unfolding insert
  length-insert r [] = refl
  length-insert r (s ∷ rows) = ground (arith, length-insert r rows)

  pub length-ordered : (rows : List Row) → length (ordered codec rows) ≡ length rows
  unfolding ordered
  length-ordered [] = refl
  length-ordered (r ∷ rows) =
      omega (arith, length-insert r (ordered codec rows), length-ordered rows)

  insert-All :
      (P : Row → Type 0) (r : Row) (rows : List Row)
      → P r
      → All P rows
      → All P (insert codec r rows)
  unfolding insert
  insert-All P r [] p _ = (p, tt)
  insert-All P r (s ∷ rows) p (q, qs) = elim (Bool-cases (is_after codec (cursor_of codec r) s)) [
    | inl y ↦ rw y (p, (q, qs))
    | inr n ↦ rw n (q, insert-All P r rows p qs)
  ]

  ordered-All : (P : Row → Type 0) (rows : List Row) → All P rows → All P (ordered codec rows)
  unfolding ordered
  ordered-All P [] _ = tt
  ordered-All P (r ∷ rows) (p, ps) = insert-All P r (ordered codec rows) p (ordered-All P rows ps)

  module _
      (transitive : (a b c : String)
        → (not (codec.below a b && codec.below b c) || codec.below a c) ≡ true)
      (total : (a b : String) → ((a == b) || codec.below a b || codec.below b a) ≡ true) where
    after-All :
        (r s : Row) (rows : List Row)
        → is_after codec (cursor_of codec r) s ≡ true
        → All (λ t. is_after codec (cursor_of codec s) t ≡ true) rows
        → All (λ t. is_after codec (cursor_of codec r) t ≡ true) rows
    after-All r s [] h _ = tt
    after-All r s (t ∷ rows) h (k, ks) =
        (ground (arith, transitive t.id s.id r.id), after-All r s rows h ks)

    insert-IsSorted :
        (r : Row) (rows : List Row)
        → All (λ s. (s.id == r.id) ≡ false) rows
        → IsSorted rows
        → IsSorted (insert codec r rows)
    unfolding insert
    insert-IsSorted r [] _ _ = (tt, tt)
    insert-IsSorted r (s ∷ rows) (d, ds) (h, hs) =
        elim (Bool-cases (is_after codec (cursor_of codec r) s)) [
          | inl y ↦ rw y ((y, after-All r s rows y h), (h, hs))
          | inr n ↦
              let later : is_after codec (cursor_of codec s) r ≡ true =
                ground (arith, total s.id r.id) in
              rw n (
                insert-All (λ t. is_after codec (cursor_of codec s) t ≡ true) r rows later h,
                insert-IsSorted r rows ds hs,
              )
        ]

    pub ordered-IsSorted : (rows : List Row) → HaveDistinctIds rows → IsSorted (ordered codec rows)
    unfolding ordered
    ordered-IsSorted [] _ = tt
    ordered-IsSorted (r ∷ rows) (d, ds) =
        insert-IsSorted r (ordered codec rows) (ordered-All (λ s. (s.id == r.id) ≡ false) rows d)
          (ordered-IsSorted rows ds)
