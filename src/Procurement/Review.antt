-- ===== src/Procurement/Review.antt =====
-- The review of a document that was read from a photo
-- (apps/api/src/procurement/procurement-review.service.ts: `review`, `applyLines`, `claimHeader`,
-- `explainRejection`). The transaction is one step. The casts of edited values to numeric are left out:
-- the values of a body are validated before. `same_number` is Number(a) === Number(b).
pub mod Closed
pub mod Once
pub mod Originals
pub mod Numbering
pub mod Counting
use optra.Prelude.{
  ℕ, suc, Bool, true, false, not, ◌&&◌, ◌||◌, Option, none, some, List, [], ◌∷◌, ◌++◌, map, String,
  ◌==◌, any, first, select, update, length, if◌then◌else◌, is_some, or_else,
}
use Prim.Native.String
use optra.Http.{HttpError, Result, ok, fail, ◌>>=◌, ◌>>◌, guard, not_found, conflict, bad_request}
use optra.Procurement.Documents.{
  Kind, purchase_order, invoice, goods_receipt, doc_label, Header, Line, Documents, FieldKey,
  FieldType, text, numeric, Values, sku, description, uom, quantity, unit_price, line_total,
  quantity_received, quantity_accepted, quantity_rejected, is_done, headers_of, lines_of,
  with_headers, with_lines, is_document, is_line_of,
}

-- A field of the body: absent, or null, or a text.
pub data Given : Type 0 where
  omitted : Given
  given : Option String → Given

pub record LineInput : Type 0 where
  pub id : Option String
  pub field : FieldKey → Given

pub record Response : Type 0 where
  pub id : String
  pub reviewed_at : ℕ
  pub row_count : ℕ

-- LINE_FIELDS: whether a table has the column.
unfoldable pub is_field : Kind → FieldKey → Bool
is_field k sku = true
is_field k description = true
is_field k uom = true
is_field goods_receipt quantity_received = true
is_field goods_receipt quantity_accepted = true
is_field goods_receipt quantity_rejected = true
is_field goods_receipt _ = false
is_field _ quantity = true
is_field _ unit_price = true
is_field _ line_total = true
is_field _ _ = false

abbrev field_type : FieldKey → FieldType
field_type sku = text
field_type description = text
field_type uom = text
field_type _ = numeric

abbrev pub line_fields : Kind → List FieldKey
line_fields goods_receipt =
    sku ∷ description ∷ uom ∷ quantity_received ∷ quantity_accepted ∷ quantity_rejected ∷ []
line_fields _ = sku ∷ description ∷ uom ∷ quantity ∷ unit_price ∷ line_total ∷ []

-- `line[key] ?? null`
abbrev pub value_of : Given → Option String
value_of omitted = none
value_of (given v) = v

-- Omitted keeps what is stored; null clears it.
abbrev pub next_value : Given → Option String → Option String
next_value omitted stored = stored
next_value (given v) stored = v

pub record KeptRow : Type 0 where
  pub id : String
  pub line_number : ℕ
  pub changed : Bool
  pub values : Values

pub record NewRow : Type 0 where
  pub line_number : ℕ
  pub values : Values

abbrev pub has_line_id : String → Line → Bool
has_line_id id l = l.id == id

-- The ids of the body's lines that have one.
unfoldable pub ids_of : List LineInput → List String
ids_of [] = []
ids_of (line ∷ rest) = elim line.id [ none ↦ ids_of rest | some id ↦ id ∷ ids_of rest ]

-- Whether no id comes twice.
unfoldable pub are_distinct : List String → Bool
are_distinct [] = true
are_distinct (id ∷ ids) = not (any (λ i. i == id) ids) && are_distinct ids

unfoldable pub all_exist : List Line → List String → Bool
all_exist existing [] = true
all_exist existing (id ∷ ids) = any (has_line_id id) existing && all_exist existing ids

module _ (same_number : String → String → Bool) where
  abbrev same_text : FieldType → String → String → Bool
  same_text text a b = a == b
  same_text numeric a b = (a == b) || same_number a b

  unfoldable pub same_value : FieldType → Option String → Option String → Bool
  same_value t none none = true
  same_value t (some a) (some b) = same_text t a b
  same_value t _ _ = false

  -- The row of a kept line, from the line that is stored.
  unfoldable pub kept_row : Kind → ℕ → LineInput → Line → KeptRow
  unfolding same_value
  kept_row kind line_number line before =
      let next : Values = λ f. next_value (line.field f) (before.values f) in
      record {
        id = before.id;
        line_number = line_number;
        changed =
            any (λ f. not (same_value (field_type f) (before.values f) (next f)))
              (line_fields kind);
        values = next;
      }

  abbrev cons_kept : Option Line → Kind → ℕ → LineInput → List KeptRow → List KeptRow
  cons_kept none kind line_number line rows = rows
  cons_kept (some before) kind line_number line rows = kept_row kind line_number line before ∷ rows

  -- The rows of the lines from the nth on that have an id.
  unfoldable pub kept_rows : Kind → List Line → ℕ → List LineInput → List KeptRow
  kept_rows kind existing n [] = []
  kept_rows kind existing n (line ∷ rest) =
      let more = kept_rows kind existing (suc n) rest in
      elim line.id [
        | none ↦ more
        | some id ↦ cons_kept (first (has_line_id id) existing) kind (suc n) line more
      ]

  -- The rows of the lines without an id.
  unfoldable pub new_rows : ℕ → List LineInput → List NewRow
  new_rows n [] = []
  new_rows n (line ∷ rest) =
      let more = new_rows (suc n) rest in
      elim line.id [
        | none ↦ record { line_number = suc n; values = λ f. value_of (line.field f) } ∷ more
        | some id ↦ more
      ]

  -- deleteLinesNotIn
  unfoldable pub delete_lines_not_in : String → String → List String → List Line → List Line
  delete_lines_not_in workspace_id id keep_ids =
      select λ l. not (is_line_of workspace_id id l && not (any (λ i. l.id == i) keep_ids))

  -- What the UPDATE makes of one line. Only the columns of the kind change.
  unfoldable pub rewritten : Kind → String → ℕ → KeptRow → Line → Line
  unfolding is_field
  rewritten kind user_id now row l = record l {
    line_number = some row.line_number;
    values = λ f. if is_field kind f then row.values f else l.values f;
    edited_at = if row.changed then some now else l.edited_at;
    edited_by = if row.changed then some user_id else l.edited_by;
    extracted_values =
        if row.changed then some (or_else l.extracted_values l.values) else l.extracted_values;
  }

  abbrev has_row_id : String → KeptRow → Bool
  has_row_id id row = row.id == id

  abbrev pub rewrite_by : Option KeptRow → Kind → String → ℕ → Line → Line
  rewrite_by none kind user_id now l = l
  rewrite_by (some row) kind user_id now l = rewritten kind user_id now row l

  -- UPDATE … FROM (VALUES …) AS v WHERE t.id = v.id
  unfoldable pub update_kept :
      Kind → String → ℕ → String → String → List KeptRow → List Line → List Line
  unfolding rewritten
  update_kept kind user_id now workspace_id id rows =
      update (is_line_of workspace_id id)
        λ l. rewrite_by (first (has_row_id l.id) rows) kind user_id now l

  -- insertManualLines, with the ids that the database draws
  unfoldable pub manual_lines : (ℕ → String) → Kind → String → String → List NewRow → List Line
  unfolding is_field
  manual_lines new_id kind workspace_id id [] = []
  manual_lines new_id kind workspace_id id (row ∷ rows) =
      record {
        id = new_id row.line_number;
        workspace_id = workspace_id;
        document_id = id;
        line_number = some row.line_number;
        values = λ f. if is_field kind f then row.values f else none;
        source_kind = "manual";
        edited_at = none;
        edited_by = none;
        extracted_values = none;
      }
      ∷ manual_lines new_id kind workspace_id id rows

  -- The lines of the table after a review.
  unfoldable pub reviewed_lines :
      (ℕ → String) → Kind → String → String → String → ℕ → List LineInput → List Line → List Line
  unfolding kept_rows new_rows delete_lines_not_in update_kept manual_lines ids_of
  reviewed_lines new_id kind workspace_id id user_id now body lines =
      let existing = select (is_line_of workspace_id id) lines in
      update_kept kind user_id now workspace_id id (kept_rows kind existing 0 body)
        (delete_lines_not_in workspace_id id (ids_of body) lines)
      ++ manual_lines new_id kind workspace_id id (new_rows 0 body)

  -- applyLines
  unfoldable pub apply_lines :
      (ℕ → String)
      → Kind
      → String
      → String
      → String
      → ℕ
      → List LineInput
      → Documents
      → Result Documents
  unfolding are_distinct all_exist reviewed_lines ids_of
  apply_lines new_id kind workspace_id id user_id now body s =
      guard (are_distinct (ids_of body)) (bad_request "Duplicate line ids in the review body")
      >> guard (all_exist (select (is_line_of workspace_id id) (lines_of kind s)) (ids_of body))
          (not_found "Line not found")
      >> ok (
          with_headers kind
            (update (is_document workspace_id id) (λ h. record h { row_count = some (length body) })
              (headers_of kind s))
            (with_lines kind
              (reviewed_lines new_id kind workspace_id id user_id now body (lines_of kind s)) s))

-- The WHERE of claimHeader.
unfoldable pub is_claimable : String → String → Header → Bool
is_claimable workspace_id id h =
    is_document workspace_id id h
    && h.review_required
    && not (is_some h.reviewed_at)
    && is_done h.status

-- claimHeader: the store after it, when it claimed a header.
unfoldable pub claim_header : Kind → String → String → String → ℕ → Documents → Option Documents
unfolding is_claimable
claim_header kind workspace_id id user_id now s =
    if any (is_claimable workspace_id id) (headers_of kind s)
    then some (
        with_headers kind
          (update (is_claimable workspace_id id)
            (λ h. record h { reviewed_at = some now; reviewed_by = some user_id; updated_at = now })
            (headers_of kind s))
          s)
    else none

-- explainRejection, and the 404 of its caller
unfoldable pub explain_rejection : Kind → Option Header → HttpError
unfolding doc_label
explain_rejection kind none = not_found (String.◌++◌ (doc_label kind) " not found")
explain_rejection kind (some h) =
    if is_some h.reviewed_at
    then conflict (String.◌++◌ (doc_label kind) " was already reviewed")
    else if not h.review_required
    then bad_request (String.◌++◌ (doc_label kind) " does not need review")
    else if not (is_done h.status)
    then conflict (String.◌++◌ (doc_label kind) " is still parsing")
    else not_found (String.◌++◌ (doc_label kind) " not found")

module _ (same_number : String → String → Bool) where
  abbrev apply_claimed :
      (ℕ → String)
      → Kind
      → String
      → String
      → String
      → ℕ
      → List LineInput
      → Documents
      → Option Documents
      → Result Documents
  apply_claimed new_id kind workspace_id id user_id now body s none =
      fail (explain_rejection kind (first (is_document workspace_id id) (headers_of kind s)))
  apply_claimed new_id kind workspace_id id user_id now body s (some claimed) =
      apply_lines same_number new_id kind workspace_id id user_id now body claimed

  -- The transaction of `review`: an error rolls it back.
  unfoldable pub review_transaction :
      (ℕ → String)
      → Kind
      → String
      → String
      → String
      → ℕ
      → List LineInput
      → Documents
      → Result Documents
  unfolding claim_header explain_rejection apply_lines
  review_transaction new_id kind workspace_id id user_id now body s =
      apply_claimed new_id kind workspace_id id user_id now body s
        (claim_header kind workspace_id id user_id now s)

-- A request for a review.
pub record Request : Type 0 where
  pub kind : Kind
  pub workspace_id : String
  pub id : String
  pub user_id : String
  pub now : ℕ
  pub lines : List LineInput
  pub new_id : ℕ → String

module _ (same_number : String → String → Bool) where
  abbrev pub attempt : Request → Documents → Result Documents
  attempt r =
      review_transaction same_number r.new_id r.kind r.workspace_id r.id r.user_id r.now r.lines

  abbrev answer : Request → Documents → Result Documents → Result Response × Documents
  answer r s (fail e) = (fail e, s)
  answer r s (ok t) =
      (ok (record { id = r.id; reviewed_at = r.now; row_count = length r.lines }), t)

  -- review, before the enqueueing that follows it
  unfoldable pub review : Request → Documents → Result Response × Documents
  unfolding review_transaction
  review r s = answer r s (attempt r s)
