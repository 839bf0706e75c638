-- ===== src/Pagination/Cursor.antt =====
-- Lists by cursor (encodeCursor and decodeCursor of packages/db/src/pagination.ts, and `listForUser`
-- of apps/api/src/workspaces/workspaces.service.ts). JSON, base64url and the database's order of ids
-- are the record `Codec`; a time is in whole milliseconds, as the query rounds it.
pub mod Sorted
pub mod Walk
use optra.Prelude.{
  ℕ, zero, suc, ◌+◌, Bool, true, false, ◌&&◌, ◌||◌, Option, none, some, List, [], ◌∷◌, ◌++◌, String,
  ◌==◌, min, max, ltb, eqb, leb, if◌then◌else◌, select, first, length, or_else, truthy,
}
use optra.Http.{Result, ok, fail, ◌>>=◌, bad_request}
use optra.Workspaces.{Workspace, Member, Role}

pub record Cursor : Type 0 where
  pub k : ℕ
  pub id : String

pub record Codec : Type 0 where
  -- Buffer.from(JSON.stringify(cursor)).toString('base64url')
  pub encode : Cursor → String
  -- its inverse, nothing for a text that is no cursor
  pub decode : String → Option Cursor
  -- whether an id is below another
  pub below : String → String → Bool

pub record Row : Type 0 where
  pub id : String
  pub name : String
  pub owner_id : String
  pub created_at : ℕ
  pub role : Role

pub record Page : Type 0 where
  pub items : List Row
  pub next_cursor : Option String

abbrev row_of : Member → Option Workspace → List Row → List Row
row_of m none rows = rows
row_of m (some w) rows =
    record {
      id = w.id;
      name = w.name;
      owner_id = w.owner_id;
      created_at = w.created_at;
      role = m.role;
    }
    ∷ rows

-- The join of the members of a user with their workspaces.
unfoldable pub rows_of : String → List Member → List Workspace → List Row
rows_of user_id [] workspaces = []
rows_of user_id (m ∷ ms) workspaces =
    let rest = rows_of user_id ms workspaces in
    if m.user_id == user_id
    then row_of m (first (λ w. w.id == m.workspace_id) workspaces) rest
    else rest

-- take and at(-1)
unfoldable pub take : ℕ → List Row → List Row
take zero rows = []
take (suc n) [] = []
take (suc n) (r ∷ rs) = r ∷ take n rs

unfoldable pub last : List Row → Option Row
last [] = none
last (r ∷ []) = some r
last (r ∷ s ∷ rs) = last (s ∷ rs)

module _ (codec : Codec) where
  open codec use {encode, decode, below}

  -- Whether a row comes after the cursor.
  abbrev pub is_after : Cursor → Row → Bool
  is_after c r = ltb r.created_at c.k || (eqb r.created_at c.k && below r.id c.id)

  abbrev pub cursor_of : Row → Cursor
  cursor_of r = record { k = r.created_at; id = r.id }

  unfoldable pub insert : Row → List Row → List Row
  insert r [] = r ∷ []
  insert r (s ∷ rows) =
      let rest = insert r rows in if is_after (cursor_of r) s then r ∷ s ∷ rows else s ∷ rest

  -- order by created_at desc, id desc
  unfoldable pub ordered : List Row → List Row
  unfolding insert
  ordered [] = []
  ordered (r ∷ rows) = insert r (ordered rows)

  -- decodeCursor
  abbrev decoded : Option Cursor → Result (Option Cursor)
  decoded none = fail (bad_request "Invalid cursor")
  decoded (some c) = ok (some c)

  abbrev pub cursor_from : Option String → Result (Option Cursor)
  cursor_from none = ok none
  cursor_from (some raw) = if truthy raw then decoded (decode raw) else ok none

  abbrev pub within : Option Cursor → Row → Bool
  within none r = true
  within (some c) r = is_after c r

  abbrev next_of : Bool → Option Row → Option String
  next_of false last = none
  next_of true none = none
  next_of true (some r) = some (encode (cursor_of r))

  -- The answer, from the rows that the query would find without its limit.
  unfoldable pub page_of : ℕ → List Row → Page
  unfolding take last
  page_of limit rows = record {
    items = take limit rows;
    next_cursor = next_of (ltb limit (length rows)) (last (take limit rows));
  }

  -- Math.min(Math.max(Number(query.limit ?? 20), 1), 100), for a limit that is a natural number
  abbrev pub limit_of : Option ℕ → ℕ
  limit_of limit = min (max (or_else limit 20) 1) 100

  -- listForUser, of the rows of the user
  unfoldable pub list_rows : Option ℕ → Option String → List Row → Result Page
  unfolding ordered page_of
  list_rows limit cursor rows =
      cursor_from cursor >>= λ c. ok (page_of (limit_of limit) (select (within c) (ordered rows)))

  unfoldable pub list_for_user :
      String → Option ℕ → Option String → List Member → List Workspace → Result Page
  unfolding rows_of list_rows
  list_for_user user_id limit cursor members workspaces =
      list_rows limit cursor (rows_of user_id members workspaces)

  -- The pages that a client reads by following the cursors, on fuel: nothing when a page is refused
  -- or the fuel does not last.
  abbrev more_of : (Option String → Option (List Row)) → Result Page → Option (List Row)
  more_of go (fail e) = none
  more_of go (ok page) = elim page.next_cursor [
    | none ↦ some page.items
    | some next ↦ elim (go (some next)) [ none ↦ none | some rest ↦ some (page.items ++ rest) ]
  ]

  unfoldable pub walk : ℕ → Option ℕ → List Row → Option String → Option (List Row)
  unfolding list_rows
  walk zero limit rows cursor = none
  walk (suc fuel) limit rows cursor = more_of (walk fuel limit rows) (list_rows limit cursor rows)
