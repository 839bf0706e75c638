-- ===== src/Procurement/Review/Closed.antt =====
-- What a review that succeeds does to the heads of the documents.
use optra.Prelude.{
  ℕ, ◌≡◌, ◌⊎◌, inl, inr, refl, Bool, true, false, Option, some, List, [], ◌∷◌, String, any, first,
  select, update, length, Bool-cases, Option-cases, arith,
}
use optra.Http.{ok, fail}
use optra.Procurement.Documents.{
  Kind, purchase_order, invoice, goods_receipt, Header, Line, Documents, headers_of, lines_of,
  with_headers, with_lines, is_document, is_line_of,
}
use optra.Procurement.Review.{
  Request, attempt, review_transaction, claim_header, apply_lines, is_claimable, ids_of,
  are_distinct, all_exist, reviewed_lines, explain_rejection,
}

headers-with_headers :
    (k l : Kind) (hs : List Header) (s : Documents)
    → (headers_of l (with_headers k hs s) ≡ headers_of l s)
      ⊎ (k ≡ l) × (headers_of l (with_headers k hs s) ≡ hs)
headers-with_headers purchase_order purchase_order hs s = inr (refl, refl)
headers-with_headers invoice invoice hs s = inr (refl, refl)
headers-with_headers goods_receipt goods_receipt hs s = inr (refl, refl)
headers-with_headers purchase_order invoice hs s = inl refl
headers-with_headers purchase_order goods_receipt hs s = inl refl
headers-with_headers invoice purchase_order hs s = inl refl
headers-with_headers invoice goods_receipt hs s = inl refl
headers-with_headers goods_receipt purchase_order hs s = inl refl
headers-with_headers goods_receipt invoice hs s = inl refl

pub headers_of-with_headers :
    (k : Kind) (hs : List Header) (s : Documents) → headers_of k (with_headers k hs s) ≡ hs
headers_of-with_headers purchase_order hs s = refl
headers_of-with_headers invoice hs s = refl
headers_of-with_headers goods_receipt hs s = refl

headers-with_lines :
    (k l : Kind) (ls : List Line) (s : Documents)
    → headers_of l (with_lines k ls s) ≡ headers_of l s
headers-with_lines purchase_order purchase_order ls s = refl
headers-with_lines purchase_order invoice ls s = refl
headers-with_lines purchase_order goods_receipt ls s = refl
headers-with_lines invoice purchase_order ls s = refl
headers-with_lines invoice invoice ls s = refl
headers-with_lines invoice goods_receipt ls s = refl
headers-with_lines goods_receipt purchase_order ls s = refl
headers-with_lines goods_receipt invoice ls s = refl
headers-with_lines goods_receipt goods_receipt ls s = refl

-- No update of headers that keeps or closes them makes a header claimable.
unclaimable-update :
    (workspace_id id : String) (p : Header → Bool) (f : Header → Header)
    → ((h : Header)
        → is_claimable workspace_id id h ≡ false
        → is_claimable workspace_id id (f h) ≡ false)
    → (hs : List Header) → any (is_claimable workspace_id id) hs ≡ false
    → any (is_claimable workspace_id id) (update p f hs) ≡ false
unclaimable-update workspace_id id p f keep [] e = refl
unclaimable-update workspace_id id p f keep (h ∷ hs) e =
    ground (arith, keep h, unclaimable-update workspace_id id p f keep hs)

-- A claimed document is not claimable.
claimed-unclaimable :
    (workspace_id id user_id : String) (now : ℕ) (hs : List Header)
    → any (is_claimable workspace_id id) (
        update
          (is_claimable workspace_id id)
          (λ h. record h { reviewed_at = some now; reviewed_by = some user_id; updated_at = now })
          hs)
      ≡ false
unfolding is_claimable
claimed-unclaimable workspace_id id user_id now [] = refl
claimed-unclaimable workspace_id id user_id now (h ∷ hs) =
    ground (arith, claimed-unclaimable workspace_id id user_id now hs)

-- No header of the document can be claimed.
abbrev pub IsClosed : Kind → String → String → Documents → Type 0
IsClosed kind workspace_id id s = any (is_claimable workspace_id id) (headers_of kind s) ≡ false

IsClosed-with_headers :
    (k l : Kind) (workspace_id id : String) (hs : List Header) (s : Documents)
    → IsClosed l workspace_id id s
    → ((k ≡ l) → any (is_claimable workspace_id id) hs ≡ false)
    → IsClosed l workspace_id id (with_headers k hs s)
IsClosed-with_headers k l workspace_id id hs s was new = elim (headers-with_headers k l hs s) [
  | inl same ↦ rw same was
  | inr (e, set) ↦ rw set (new e)
]

is_claimable-claimed :
    (workspace_id id user_id : String) (now : ℕ) (h : Header)
    → is_claimable workspace_id id h ≡ false
    → is_claimable workspace_id id
        (record h { reviewed_at = some now; reviewed_by = some user_id; updated_at = now })
      ≡ false
unfolding is_claimable
is_claimable-claimed workspace_id id user_id now h e = ground arith

is_claimable-counted :
    (workspace_id id : String) (n : Option ℕ) (h : Header)
    → is_claimable workspace_id id h ≡ false
    → is_claimable workspace_id id (record h { row_count = n }) ≡ false
unfolding is_claimable
is_claimable-counted workspace_id id n h e = e

claim_header-IsClosed :
    (k l : Kind) (w i workspace_id id user_id : String) (now : ℕ) (s c : Documents)
    → claim_header k w i user_id now s ≡ some c
    → IsClosed l workspace_id id s
    → IsClosed l workspace_id id c
unfolding claim_header
claim_header-IsClosed k l w i workspace_id id user_id now s c h was =
    elim (Bool-cases (any (is_claimable w i) (headers_of k s))) [
      | inr n ↦ cc (rw n at h)
      | inl y ↦
          let hs =
            update (is_claimable w i)
              (λ h. record h {
                reviewed_at = some now;
                reviewed_by = some user_id;
                updated_at = now;
              })
              (headers_of k s) in
          let same : c ≡ with_headers k hs s = cc (rw y at h) in
          rw same (
            IsClosed-with_headers k l workspace_id id hs s was (λ e.
              unclaimable-update workspace_id id (is_claimable w i) _
                (is_claimable-claimed workspace_id id user_id now) (headers_of k s) (rw e was)))
    ]

claim_header-closes :
    (k : Kind) (workspace_id id user_id : String) (now : ℕ) (s c : Documents)
    → claim_header k workspace_id id user_id now s ≡ some c
    → IsClosed k workspace_id id c
unfolding claim_header
claim_header-closes k workspace_id id user_id now s c h =
    elim (Bool-cases (any (is_claimable workspace_id id) (headers_of k s))) [
      | inr n ↦ cc (rw n at h)
      | inl y ↦
          let hs =
            update (is_claimable workspace_id id)
              (λ h. record h {
                reviewed_at = some now;
                reviewed_by = some user_id;
                updated_at = now;
              })
              (headers_of k s) in
          let same : c ≡ with_headers k hs s = cc (rw y at h) in
          rw (same, headers_of-with_headers k hs s)
            (claimed-unclaimable workspace_id id user_id now (headers_of k s))
    ]

-- What a review that succeeds does to the documents: it claims, then replaces lines and counts them.
pub record Succeeds (same_number : String → String → Bool) (r : Request) (s t : Documents)
    : Type 0 where
  pub claimed : Documents
  pub claims : claim_header r.kind r.workspace_id r.id r.user_id r.now s ≡ some claimed
  pub distinct : are_distinct (ids_of r.lines) ≡ true
  pub exist :
      all_exist (select (is_line_of r.workspace_id r.id) (lines_of r.kind claimed)) (ids_of r.lines)
      ≡ true
  pub result :
      t
      ≡ with_headers r.kind
          (update
            (is_document r.workspace_id r.id)
            (λ h. record h { row_count = some (length r.lines) })
            (headers_of r.kind claimed))
          (with_lines r.kind
            (reviewed_lines same_number r.new_id r.kind r.workspace_id r.id r.user_id r.now r.lines
              (lines_of r.kind claimed))
            claimed)

module _ (same_number : String → String → Bool) where
  pub attempt-Succeeds :
      (r : Request) (s t : Documents) → attempt same_number r s ≡ ok t → Succeeds same_number r s t
  unfolding review_transaction apply_lines
  attempt-Succeeds r s t h =
      elim (Option-cases (claim_header r.kind r.workspace_id r.id r.user_id r.now s)) [
        | inl n ↦ cc (rw n at h)
        | inr (c, e) ↦ elim (Bool-cases (are_distinct (ids_of r.lines))) [
          | inr n ↦ cc (rw (e, n) at h)
          | inl y ↦
              elim (Bool-cases (
                all_exist (select (is_line_of r.workspace_id r.id) (lines_of r.kind c))
                  (ids_of r.lines))) [
                    | inr n ↦ cc (rw (e, y, n) at h)
                    | inl z ↦ record {
                      claimed = c;
                      claims = e;
                      distinct = y;
                      exist = z;
                      result = cc (rw (e, y, z) at h);
                    }
                  ]
        ]
      ]

  counted-IsClosed :
      (r : Request) (s t : Documents) (l : Kind) (workspace_id id : String)
      → (v : Succeeds same_number r s t) → IsClosed l workspace_id id v.claimed
      → IsClosed l workspace_id id t
  counted-IsClosed r s t l workspace_id id v was = rw v.result (
      IsClosed-with_headers r.kind l workspace_id id _ _
        (rw (headers-with_lines r.kind l _ v.claimed) was)
        λ e.
          unclaimable-update workspace_id id (is_document r.workspace_id r.id) _
            (is_claimable-counted workspace_id id (some (length r.lines)))
            (headers_of r.kind v.claimed) (rw e was))

  pub after-IsClosed :
      (r : Request) (s t : Documents) (l : Kind) (workspace_id id : String)
      → attempt same_number r s ≡ ok t
      → IsClosed l workspace_id id s
      → IsClosed l workspace_id id t
  after-IsClosed r s t l workspace_id id h was =
      let v = attempt-Succeeds r s t h in
      counted-IsClosed r s t l workspace_id id v (
        claim_header-IsClosed r.kind l r.workspace_id r.id workspace_id id r.user_id r.now s
          v.claimed v.claims was)

  pub after-closes :
      (r : Request) (s t : Documents)
      → attempt same_number r s ≡ ok t
      → IsClosed r.kind r.workspace_id r.id t
  after-closes r s t h =
      let v = attempt-Succeeds r s t h in
      counted-IsClosed r s t r.kind r.workspace_id r.id v
        (claim_header-closes r.kind r.workspace_id r.id r.user_id r.now s v.claimed v.claims)

  pub IsClosed-fails :
      (r : Request) (s : Documents)
      → IsClosed r.kind r.workspace_id r.id s
      → attempt same_number r s
        ≡ fail (
            explain_rejection r.kind
              (first (is_document r.workspace_id r.id) (headers_of r.kind s)))
  unfolding review_transaction claim_header
  IsClosed-fails r s h = rw h refl
