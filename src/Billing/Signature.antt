-- ===== src/Billing/Signature.antt =====
-- Signatures (apps/api/src/billing/webhook-signature.ts) and the form of a UUID. The HMAC is a
-- parameter: `hmac secret bytes` is the lowercase hex HMAC-SHA256.
use optra.Prelude.{
  ℕ, zero, suc, Bool, false, Option, none, some, String, ◌==◌, ◌&&◌, ◌||◌, if◌then◌else◌, leb,
  truthy, and_then, is_some,
}
use Prim.Native.Char.{code}

abbrev pub Hmac : Type 0
Hmac = String → String → String

unfoldable pub sign_workspace_binding : Hmac → String → String → String
sign_workspace_binding hmac workspace_id secret = hmac secret workspace_id

-- Equal lengths and equal bytes are equal texts.
unfoldable pub verify_signature : Hmac → String → Option String → String → Bool
verify_signature hmac raw_body none secret = false
verify_signature hmac raw_body (some signature) secret =
    truthy signature && truthy secret && hmac secret raw_body == signature

is_hex : ℕ → Bool
is_hex c = (leb b'0' c && leb c b'9') || (leb b'a' c && leb c b'f') || (leb b'A' c && leb c b'F')

-- The text after n hexadecimal digits.
after_hex : ℕ → String → Option String
unfolding is_hex
after_hex zero s = some s
after_hex (suc n) String.[] = none
after_hex (suc n) (String.◌∷◌ c s) =
    let rest = after_hex n s in if is_hex (code c) then rest else none

after_dash : String → Option String
after_dash String.[] = none
after_dash (String.◌∷◌ c s) = if String.◌∷◌ c String.[] == "-" then some s else none

at_end : String → Option String
at_end String.[] = some String.[]
at_end (String.◌∷◌ c s) = none

-- UUID_RE.test
unfoldable pub is_uuid : String → Bool
unfolding after_hex after_dash at_end
is_uuid s =
    let groups = and_then (and_then (after_hex 8 s) after_dash) (after_hex 4) in
    let groups = and_then (and_then groups after_dash) (after_hex 4) in
    let groups = and_then (and_then groups after_dash) (after_hex 4) in
    is_some (and_then (and_then (and_then groups after_dash) (after_hex 12)) at_end)
