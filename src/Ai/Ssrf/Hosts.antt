-- ===== src/Ai/Ssrf/Hosts.antt =====
-- The regular expressions that ssrf.ts applies to a host name.
use Prim.Native.String.{String, [], ◌∷◌}
use optra.Prelude.{◌&&◌, ◌==◌, ends_with, if◌then◌else◌}

-- replace(/\.$/, '')
unfoldable pub drop_dot : String → String
drop_dot [] = ""
drop_dot (c ∷ s) = let rest = drop_dot s in if (c ∷ s) == "." then "" else c ∷ rest

drop_last : String → String
drop_last [] = ""
drop_last (c ∷ []) = ""
drop_last (c ∷ d ∷ s) = c ∷ drop_last (d ∷ s)

-- replace(/^\[(.*)\]$/, '$1')
unfoldable pub strip_brackets : String → String
unfolding drop_last
strip_brackets [] = ""
strip_brackets (c ∷ s) = if ((c ∷ []) == "[") && ends_with s "]" then drop_last s else c ∷ s
