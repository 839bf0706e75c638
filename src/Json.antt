-- ===== src/Json.antt =====
-- The values that `JSON.parse` returns, and the reads that the source makes of them.
use optra.Prelude.{ℕ, Bool, true, false, Option, none, some, String, ◌==◌, if◌then◌else◌}
use Prim.Native.String

mutual
  pub data Json : Type 0 where
    null : Json
    bool : Bool → Json
    -- the text that `String` gives of the number, and its value if that is a natural number
    number : String → Option ℕ → Json
    string : String → Json
    array : Items → Json
    object : Fields → Json

  pub data Items : Type 0 where
    nil : Items
    cons : Json → Items → Items

  pub data Fields : Type 0 where
    end : Fields
    field : String → Json → Fields → Fields

-- `json.key`; undefined is `none`.
unfoldable pub get : String → Fields → Option Json
get key end = none
get key (field k v fields) = let rest = get key fields in if k == key then some v else rest

abbrev comma : Items → String
comma nil = ""
comma (cons _ _) = ","

-- `String(value)` of a value that is not undefined; an array is joined by commas, with nothing for
-- null.
unfoldable mutual
  pub to_text : Json → String
  to_text null = "null"
  to_text (bool true) = "true"
  to_text (bool false) = "false"
  to_text (number text _) = text
  to_text (string s) = s
  to_text (array items) = join items
  to_text (object _) = "[object Object]"

  pub join : Items → String
  join nil = ""
  join (cons null items) = String.◌++◌ (comma items) (join items)
  join (cons v items) = String.◌++◌ (to_text v) (String.◌++◌ (comma items) (join items))

-- `String(value)`
abbrev pub text_of : Option Json → String
text_of none = "undefined"
text_of (some v) = to_text v

-- `value ?? other`, which also replaces null
abbrev pub nullish : Option Json → Option Json
nullish none = none
nullish (some null) = none
nullish (some v) = some v

-- `typeof value === 'string'`
abbrev pub as_string : Option Json → Option String
as_string (some (string s)) = some s
as_string _ = none

-- `isObject(value)`
abbrev pub as_object : Option Json → Option Fields
as_object (some (object fields)) = some fields
as_object _ = none

-- `isObject(value) ? value : {}`
abbrev pub object_or_empty : Option Json → Fields
object_or_empty (some (object fields)) = fields
object_or_empty _ = end
