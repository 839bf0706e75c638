-- ===== src/Tests/Cursor.antt =====
-- Three workspaces, of which two were created in one millisecond, one to a page.
mod Texts
use optra.Prelude.{some, none, List, [], ◌∷◌, ◌≡◌, refl}
use optra.Workspaces.{member}
use optra.Pagination.Cursor.{Codec, Row, ordered, walk}
use optra.Pagination.Cursor.Sorted.{HaveDistinctIds}
use optra.Pagination.Cursor.Walk.{walk_all}
use Texts.{
  below, encode, decode, decode-encode, truthy-encode, below_asymmetric, below_transitive,
  below_total,
}

abbrev codec : Codec
codec = record { encode = encode; decode = decode; below = below }

abbrev rows : List Row
rows =
    record { id = "b"; name = "B"; owner_id = "u"; created_at = 2; role = member }
    ∷ record { id = "a"; name = "A"; owner_id = "u"; created_at = 2; role = member }
    ∷ record { id = "c"; name = "C"; owner_id = "u"; created_at = 3; role = member }
    ∷ []

rows-HaveDistinctIds : HaveDistinctIds rows
rows-HaveDistinctIds = ((refl, (refl, tt)), ((refl, tt), (tt, tt)))

walk_all_example : walk codec 4 (some 1) rows none ≡ some (ordered codec rows)
walk_all_example =
    walk_all codec below_asymmetric decode-encode truthy-encode (some 1) rows below_transitive
      below_total rows-HaveDistinctIds
