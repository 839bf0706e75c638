-- ===== src/Procurement/Review/Counting.antt =====
-- A reviewed document has the lines of the body, and its row count says so.
use optra.Prelude.{
  ℕ, suc, ◌+◌, ◌≡◌, ◌⊎◌, inl, inr, refl, Bool, true, false, Option, none, some, List, [], ◌∷◌, ◌++◌,
  String, ◌==◌, eq_refl, any, first, select, update, length, All, Bool-cases, Option-cases, arith,
}
use optra.Http.{ok}
use optra.Procurement.Documents.{
  Kind, purchase_order, invoice, goods_receipt, Header, Line, Documents, headers_of, lines_of,
  with_headers, with_lines, is_line_of, is_document,
}
use optra.Procurement.Review.{
  LineInput, KeptRow, NewRow, Request, attempt, rewritten, rewrite_by, update_kept,
  delete_lines_not_in, manual_lines, reviewed_lines, ids_of, new_rows, kept_rows, are_distinct,
  all_exist, claim_header, is_claimable,
}
use optra.Procurement.Review.Closed.{attempt-Succeeds, headers_of-with_headers}
use optra.Procurement.Review.Numbering.{HasKey, count_of, is_kept, count_of-kept}

lines-with_headers :
    (k : Kind) (hs : List Header) (s : Documents) → lines_of k (with_headers k hs s) ≡ lines_of k s
lines-with_headers purchase_order hs s = refl
lines-with_headers invoice hs s = refl
lines-with_headers goods_receipt hs s = refl

lines-with_lines : (k : Kind) (ls : List Line) (s : Documents) → lines_of k (with_lines k ls s) ≡ ls
lines-with_lines purchase_order ls s = refl
lines-with_lines invoice ls s = refl
lines-with_lines goods_receipt ls s = refl

module _ (same_number : String → String → Bool) (workspace_id id : String) where
  abbrev belongs : Line → Bool
  belongs = is_line_of workspace_id id

  length-ids_of :
      (n : ℕ) (body : List LineInput)
      → length (ids_of body) + length (new_rows same_number n body) ≡ length body
  unfolding ids_of new_rows
  length-ids_of n [] = refl
  length-ids_of n (line ∷ rest) = elim (Option-cases line.id) [
    | inl e ↦ rw e (omega (arith, length-ids_of (suc n) rest))
    | inr (i, e) ↦ rw e (omega (arith, length-ids_of (suc n) rest))
  ]

  count_of-append :
      (xs ys : List Line) → count_of belongs (xs ++ ys) ≡ count_of belongs xs + count_of belongs ys
  count_of-append [] ys = omega arith
  count_of-append (x ∷ xs) ys = omega (arith, count_of-append xs ys)

  count_of-length : (ls : List Line) → length (select belongs ls) ≡ count_of belongs ls
  count_of-length [] = refl
  count_of-length (l ∷ ls) = ground (arith, count_of-length ls)

  count_of-delete :
      (ids : List String) (ls : List Line)
      → count_of belongs (delete_lines_not_in same_number workspace_id id ids ls)
        ≡ count_of (is_kept workspace_id id ids) ls
  unfolding delete_lines_not_in
  count_of-delete ids [] = refl
  count_of-delete ids (l ∷ ls) = ground (arith, count_of-delete ids ls)

  belongs-rewrite_by :
      (found : Option KeptRow) (kind : Kind) (user_id : String) (now : ℕ) (l : Line)
      → belongs (rewrite_by same_number found kind user_id now l) ≡ belongs l
  unfolding rewritten
  belongs-rewrite_by none kind user_id now l = refl
  belongs-rewrite_by (some row) kind user_id now l = refl

  count_of-update :
      (p : Line → Bool) (f : Line → Line)
      → ((l : Line) → belongs (f l) ≡ belongs l)
      → (ls : List Line) → count_of belongs (update p f ls) ≡ count_of belongs ls
  count_of-update p f keep [] = refl
  count_of-update p f keep (l ∷ ls) = ground (arith, keep l, count_of-update p f keep ls)

  count_of-manual :
      (new_id : ℕ → String) (kind : Kind) (rows : List NewRow)
      → count_of belongs (manual_lines same_number new_id kind workspace_id id rows) ≡ length rows
  unfolding manual_lines
  count_of-manual new_id kind [] = refl
  count_of-manual new_id kind (row ∷ rows) =
      rw (eq_refl workspace_id, eq_refl id) (omega (arith, count_of-manual new_id kind rows))

  lines-claim_header :
      (k : Kind) (user_id : String) (now : ℕ) (s c : Documents)
      → claim_header k workspace_id id user_id now s ≡ some c
      → lines_of k c ≡ lines_of k s
  unfolding claim_header
  lines-claim_header k user_id now s c h =
      elim (Bool-cases (any (is_claimable workspace_id id) (headers_of k s))) [
        | inr n ↦ cc (rw n at h)
        | inl y ↦
            let hs =
              update (is_claimable workspace_id id)
                (λ h. record h {
                  reviewed_at = some now;
                  reviewed_by = some user_id;
                  updated_at = now;
                })
                (headers_of k s) in
            let same : c ≡ with_headers k hs s = cc (rw y at h) in
            rw same (lines-with_headers k hs s)
      ]

  reviewed_lines-count :
      (new_id : ℕ → String) (kind : Kind) (user_id : String) (now : ℕ) (body : List LineInput)
      (lines : List Line)
      → HasKey lines
      → are_distinct (ids_of body) ≡ true
      → all_exist (select belongs lines) (ids_of body) ≡ true
      → length (
          select belongs
            (reviewed_lines same_number new_id kind workspace_id id user_id now body lines))
        ≡ length body
  unfolding reviewed_lines update_kept
  reviewed_lines-count new_id kind user_id now body lines k d e =
      let kept = delete_lines_not_in same_number workspace_id id (ids_of body) lines in
      let manual =
        manual_lines same_number new_id kind workspace_id id (new_rows same_number 0 body) in
      let rows = kept_rows same_number kind (select belongs lines) 0 body in
      let change : Line → Line =
        λ l. rewrite_by same_number (first (λ row. row.id == l.id) rows) kind user_id now l in
      omega (
        arith,
        count_of-length (update belongs change kept ++ manual),
        count_of-append (update belongs change kept) manual,
        count_of-update belongs change (λ l. belongs-rewrite_by _ kind user_id now l) kept,
        count_of-delete (ids_of body) lines,
        count_of-kept workspace_id id (ids_of body) lines k d e,
        count_of-manual new_id kind (new_rows same_number 0 body),
        length-ids_of 0 body,
      )

counted-All :
    (workspace_id id : String) (n : ℕ) (hs : List Header)
    → All
        (λ h. (is_document workspace_id id h ≡ false) ⊎ (h.row_count ≡ some n))
        (update (is_document workspace_id id) (λ h. record h { row_count = some n }) hs)
counted-All workspace_id id n [] = tt
counted-All workspace_id id n (h ∷ hs) = elim (Bool-cases (is_document workspace_id id h)) [
  | inl y ↦ rw y (inr refl, counted-All workspace_id id n hs)
  | inr m ↦ rw m (inl m, counted-All workspace_id id n hs)
]

-- After a review that succeeds, on tables whose lines have different ids, the document has as many
-- lines as the body, and the row count of its head is that number.
pub review-counts :
    (same_number : String → String → Bool) (r : Request) (s t : Documents)
    → HasKey (lines_of r.kind s)
    → attempt same_number r s ≡ ok t
    → (length (select (is_line_of r.workspace_id r.id) (lines_of r.kind t)) ≡ length r.lines)
      × All
          (λ h. (is_document r.workspace_id r.id h ≡ false) ⊎ (h.row_count ≡ some (length r.lines)))
          (headers_of r.kind t)
review-counts same_number r s t k h =
    let v = attempt-Succeeds same_number r s t h in
    let same =
      lines-claim_header same_number r.workspace_id r.id r.kind r.user_id r.now s v.claimed
        v.claims in
    (
      rw (v.result, lines-with_headers r.kind _ _, lines-with_lines r.kind _ v.claimed)
          (reviewed_lines-count same_number r.workspace_id r.id r.new_id r.kind r.user_id r.now
            r.lines (lines_of r.kind v.claimed) (rw same k) v.distinct v.exist),
      rw (v.result, headers_of-with_headers r.kind _ _)
          (counted-All r.workspace_id r.id (length r.lines) (headers_of r.kind v.claimed)),
    )
