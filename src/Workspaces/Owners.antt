-- ===== src/Workspaces/Owners.antt =====
-- A workspace never loses its last owner.
use optra.Prelude.{
  ℕ, ◌+◌, ◌≤◌, Bool, true, false, not, some, List, [], ◌∷◌, String, ◌==◌, ◌&&◌, first, select,
  length, sum_where, eq_refl, ◌≡◌, refl, arith, Bool-cases, Option-cases, inl, inr,
}
use optra.Workspaces.{
  Member, Store, is_owner, is_owner_of, is_member, removed, is_last_owner, remove_member,
}

-- The owners of a workspace, and the rows with an id.
abbrev pub owners : String → List Member → ℕ
owners workspace_id rows = sum_where (is_owner_of workspace_id) (λ _. 1) rows

abbrev pub rows_with : String → List Member → ℕ
rows_with id rows = sum_where (λ m. m.id == id) (λ _. 1) rows

abbrev pub HasUniqueIds : List Member → Type 0
HasUniqueIds rows = (id : String) → rows_with id rows ≤ 1

length-select :
    (p : Member → Bool) (rows : List Member) → length (select p rows) ≡ sum_where p (λ _. 1) rows
length-select p [] = refl
length-select p (m ∷ ms) = ground (arith, length-select p ms)

abbrev removed_owner : String → String → Member → Bool
removed_owner workspace_id id m = m.id == id && is_owner_of workspace_id m

abbrev removed_other : String → String → Member → Bool
removed_other workspace_id id m = m.id == id && not (is_owner_of workspace_id m)

owners-removed :
    (workspace_id id : String) (rows : List Member)
    → owners workspace_id rows
      ≡ owners workspace_id (removed id rows)
        + sum_where (removed_owner workspace_id id) (λ _. 1) rows
owners-removed workspace_id id [] = refl
owners-removed workspace_id id (m ∷ ms) = ground (arith, owners-removed workspace_id id ms)

rows_split :
    (workspace_id id : String) (rows : List Member)
    → sum_where (removed_owner workspace_id id) (λ _. 1) rows
        + sum_where (removed_other workspace_id id) (λ _. 1) rows
      ≡ rows_with id rows
rows_split workspace_id id [] = refl
rows_split workspace_id id (m ∷ ms) = ground (arith, rows_split workspace_id id ms)

sum_where-first :
    (p q : Member → Bool) (rows : List Member) (m : Member)
    → first p rows ≡ some m
    → q m ≡ true
    → 1 ≤ sum_where q (λ _. 1) rows
sum_where-first p q [] m h t = cc
sum_where-first p q (r ∷ rs) m h t = elim (Bool-cases (p r)) [
  | inl y ↦ let same : r ≡ m = cc (rw y at h) in rw same (rw t (omega arith))
  | inr n ↦ let rest = sum_where-first p q rs m (rw n at h) t in omega (arith, rest)
]

owner_removed :
    (workspace_id target : String) (m : Member) (rows : List Member)
    → rows_with m.id rows ≤ 1
    → first (is_member workspace_id target) rows ≡ some m
    → is_last_owner workspace_id m rows ≡ false
    → 1 ≤ owners workspace_id rows
    → 1 ≤ owners workspace_id (removed m.id rows)
owner_removed workspace_id target m rows unique h spare before =
    let parts = owners-removed workspace_id m.id rows in
    let split = rows_split workspace_id m.id rows in
    elim (Bool-cases (is_owner m.role)) [
      | inl own ↦
          let many = length-select (is_owner_of workspace_id) rows in
          let more = rw own at spare in ground arith
      | inr other ↦
          let here : removed_other workspace_id m.id m ≡ true =
            rw (eq_refl m.id, other) (ground arith) in
          let one =
            sum_where-first (is_member workspace_id target) (removed_other workspace_id m.id) rows m
              h here in
          omega (arith, parts, split, one, unique, before)
    ]

-- A workspace that has an owner still has one after any member is removed from it, when the rows
-- have different ids.
pub remove_member-keeps_owner :
    (workspace_id target : String) (store : Store)
    → HasUniqueIds store.members
    → 1 ≤ owners workspace_id store.members
    → 1 ≤ owners workspace_id (remove_member workspace_id target store).0.members
unfolding remove_member
remove_member-keeps_owner workspace_id target store unique before =
    elim (Option-cases (first (is_member workspace_id target) store.members)) [
      | inl n ↦ rw n before
      | inr (m, s) ↦ elim (Bool-cases (is_last_owner workspace_id m store.members)) [
        | inl t ↦ rw (s, t) before
        | inr f ↦
            rw (s, f) (owner_removed workspace_id target m store.members (unique m.id) s f before)
      ]
    ]
