-- ===== src/Procurement/Lines/Keys.antt =====
-- When two lines are matched: the text key against the thing that it stands for.
use optra.Prelude.{
  Option, none, some, String, or_else, false, ◌==◌, eq_iff, ◌≡◌, ◌↔◌, refl, sym, ap, ◌∙◌,
}
use Prim.Native.String
use Prim.Native.String.{count}
use text.Mathlib.TextLemmas.{append_cancel_left, append_assoc, append_inj}
use optra.Procurement.Engine.{Engine}
use optra.Procurement.Lines.{folded, key_from, row_key}

-- What a line is matched by.
pub data Identity : Type 0 where
  by_sku by_description unkeyed : String → Identity

abbrev key_text : Identity → String
key_text (by_sku s) = String.◌++◌ "sku::" s
key_text (by_description d) = String.◌++◌ "desc::" d
key_text (unkeyed i) = String.◌++◌ "unkeyed::" i

abbrev identity_from : String → Option String → Option String → Identity
identity_from id (some s) d = by_sku s
identity_from id none (some d) = by_description d
identity_from id none none = unkeyed id

-- The folded SKU, else the folded description, else the line itself.
unfoldable pub identity : Engine → String → Option String → Option String → Identity
identity e id sku description = identity_from id (folded e sku) (folded e description)

apart :
    (a b a_rest b_rest s t : String)
    → a == b ≡ false
    → count a ≡ count b
    → String.◌++◌ (String.◌++◌ a a_rest) s ≡ String.◌++◌ (String.◌++◌ b b_rest) t
    → ⊥
apart a b a_rest b_rest s t ne len h =
    let heads = append_inj (sym (append_assoc a a_rest s) ∙ h ∙ append_assoc b b_rest t) len in
    let same = (eq_iff a b).1 heads.0 in cc (rw ne at same)

sku_not_desc : (s t : String) → String.◌++◌ "sku::" s ≡ String.◌++◌ "desc::" t → ⊥
sku_not_desc s t h = apart "s" "d" "ku::" "esc::" s t refl refl h

sku_not_unkeyed : (s t : String) → String.◌++◌ "sku::" s ≡ String.◌++◌ "unkeyed::" t → ⊥
sku_not_unkeyed s t h = apart "s" "u" "ku::" "nkeyed::" s t refl refl h

desc_not_unkeyed : (s t : String) → String.◌++◌ "desc::" s ≡ String.◌++◌ "unkeyed::" t → ⊥
desc_not_unkeyed s t h = apart "d" "u" "esc::" "nkeyed::" s t refl refl h

key_text_inj : (x y : Identity) → key_text x ≡ key_text y → x ≡ y
key_text_inj (by_sku s) (by_sku t) h = ap by_sku (append_cancel_left "sku::" s t h)
key_text_inj (by_sku s) (by_description t) h = elim (sku_not_desc s t h) [ ]
key_text_inj (by_sku s) (unkeyed t) h = elim (sku_not_unkeyed s t h) [ ]
key_text_inj (by_description s) (by_sku t) h = elim (sku_not_desc t s (sym h)) [ ]
key_text_inj (by_description s) (by_description t) h =
    ap by_description (append_cancel_left "desc::" s t h)
key_text_inj (by_description s) (unkeyed t) h = elim (desc_not_unkeyed s t h) [ ]
key_text_inj (unkeyed s) (by_sku t) h = elim (sku_not_unkeyed t s (sym h)) [ ]
key_text_inj (unkeyed s) (by_description t) h = elim (desc_not_unkeyed t s (sym h)) [ ]
key_text_inj (unkeyed s) (unkeyed t) h = ap unkeyed (append_cancel_left "unkeyed::" s t h)

from-key :
    (id : String) (s d : Option String)
    → or_else (key_from s d) (String.◌++◌ "unkeyed::" id) ≡ key_text (identity_from id s d)
from-key id none none = refl
from-key id none (some d) = refl
from-key id (some s) d = refl

row_key-text :
    (e : Engine) (id : String) (sku description : Option String)
    → row_key e id sku description ≡ key_text (identity e id sku description)
unfolding identity
row_key-text e id sku description = from-key id (folded e sku) (folded e description)

-- Two lines have the same match key exactly if they have the same identity: an equal folded SKU, or
-- no SKU and an equal folded description, or neither of the two and the same line id. A SKU never
-- equals a description, and a line with neither is matched with no other line.
pub row_key-identity :
    (e : Engine) (id id2 : String) (sku description sku2 description2 : Option String)
    → (row_key e id sku description ≡ row_key e id2 sku2 description2)
      ↔ (identity e id sku description ≡ identity e id2 sku2 description2)
row_key-identity e id id2 sku description sku2 description2 =
    let left = row_key-text e id sku description in
    let right = row_key-text e id2 sku2 description2 in
    (
      λ h.
          key_text_inj (identity e id sku description) (identity e id2 sku2 description2)
            (sym left ∙ h ∙ right),
      λ h. left ∙ ap key_text h ∙ sym right,
    )
