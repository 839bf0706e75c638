-- ===== src/Procurement/Review/Originals.antt =====
-- What was read from the photo is kept beside the lines that reviewers edit.
use optra.Prelude.{
  ℕ, ◌≡◌, ◌⊎◌, inl, inr, refl, Bool, false, Option, none, some, List, [], ◌∷◌, ◌++◌, String, ◌==◌,
  select, All, All-update, Bool-cases,
}
use optra.Procurement.Documents.{Kind, Line, Values, is_line_of}
use optra.Procurement.Review.{
  LineInput, KeptRow, NewRow, rewritten, rewrite_by, update_kept, delete_lines_not_in, manual_lines,
  reviewed_lines,
}

-- The line is another one, or it still has these first values.
abbrev pub HasOriginal : String → Values → Line → Type 0
HasOriginal id v l = ((l.id == id) ≡ false) ⊎ (l.extracted_values ≡ some v)

module _ (same_number : String → String → Bool) (id : String) (v : Values) where
  rewritten-HasOriginal :
      (kind : Kind) (user_id : String) (now : ℕ) (row : KeptRow) (l : Line)
      → HasOriginal id v l
      → HasOriginal id v (rewritten same_number kind user_id now row l)
  unfolding rewritten
  rewritten-HasOriginal kind user_id now row l (inl other) = inl other
  rewritten-HasOriginal kind user_id now row l (inr e) = elim (Bool-cases row.changed) [
    | inl y ↦ inr (rw (y, e) refl)
    | inr n ↦ inr (rw n e)
  ]

  rewrite_by-HasOriginal :
      (found : Option KeptRow) (kind : Kind) (user_id : String) (now : ℕ) (l : Line)
      → HasOriginal id v l
      → HasOriginal id v (rewrite_by same_number found kind user_id now l)
  rewrite_by-HasOriginal none kind user_id now l h = h
  rewrite_by-HasOriginal (some row) kind user_id now l h =
      rewritten-HasOriginal kind user_id now row l h

  All-select :
      (P : Line → Type 0) (p : Line → Bool) (ls : List Line) → All P ls → All P (select p ls)
  All-select P p [] _ = tt
  All-select P p (l ∷ ls) (h, hs) = elim (Bool-cases (p l)) [
    | inl y ↦ rw y (h, All-select P p ls hs)
    | inr n ↦ rw n (All-select P p ls hs)
  ]

  All-append : (P : Line → Type 0) (xs ys : List Line) → All P xs → All P ys → All P (xs ++ ys)
  All-append P [] ys _ k = k
  All-append P (x ∷ xs) ys (h, hs) k = (h, All-append P xs ys hs k)

  manual-HasOriginal :
      (new_id : ℕ → String) (kind : Kind) (workspace_id document_id : String) (rows : List NewRow)
      → ((n : ℕ) → (new_id n == id) ≡ false)
      → All (HasOriginal id v) (manual_lines same_number new_id kind workspace_id document_id rows)
  unfolding manual_lines
  manual-HasOriginal new_id kind workspace_id document_id [] fresh = tt
  manual-HasOriginal new_id kind workspace_id document_id (row ∷ rows) fresh = (
    inl (fresh row.line_number),
    manual-HasOriginal new_id kind workspace_id document_id rows fresh,
  )

  -- When the first values of a line have been captured, a review of any document, with new ids that
  -- are not the line's, leaves the line with these first values, or deletes it.
  pub reviewed_lines-HasOriginal :
      (new_id : ℕ → String) (kind : Kind) (workspace_id document_id user_id : String) (now : ℕ)
      (body : List LineInput) (lines : List Line)
      → ((n : ℕ) → (new_id n == id) ≡ false)
      → All (HasOriginal id v) lines
      → All
          (HasOriginal id v)
          (reviewed_lines same_number new_id kind workspace_id document_id user_id now body lines)
  unfolding reviewed_lines update_kept delete_lines_not_in
  reviewed_lines-HasOriginal new_id kind workspace_id document_id user_id now body lines fresh h =
      All-append (HasOriginal id v) _ _
        (All-update (HasOriginal id v) (is_line_of workspace_id document_id) _ _
          (λ l had. rewrite_by-HasOriginal _ kind user_id now l had)
          (All-select (HasOriginal id v) _ lines h))
        (manual-HasOriginal new_id kind workspace_id document_id _ fresh)
