-- ===== src/Pagination.antt =====
-- Offset pagination of the admin tables (packages/db/src/pagination.ts).
pub mod Cursor
use optra.Prelude.{
  ℕ, ◌+◌, ◌-◌, ◌*◌, ◌/◌, ◌≤◌, ◌<◌, ◌≡◌, List, Option, min, max, ltb, eqb, if◌then◌else◌, or_else,
  arith,
}
use native.Mathlib.Nat.{div-add-mod', mod-lt}

-- Math.trunc(Number(value)): not finite, negative, or a natural number.
pub data Parsed : Type 0 where
  not_finite negative : Parsed
  natural : ℕ → Parsed

pub record OffsetPage : Type 0 where
  pub page : ℕ
  pub page_size : ℕ
  pub offset : ℕ

pub record OffsetResult (A : Type 0) : Type 0 where
  pub items : List A
  pub page : ℕ
  pub page_size : ℕ
  pub total : ℕ
  pub total_pages : ℕ

abbrev default_page_size : ℕ
default_page_size = 20

abbrev max_page_size : ℕ
max_page_size = 100

-- Number.MAX_SAFE_INTEGER
abbrev pub max_safe_integer : ℕ
max_safe_integer = 9007199254740991

abbrev clamp_natural : ℕ → ℕ → ℕ → ℕ → ℕ
clamp_natural parsed fallback least most =
    if ltb parsed least then min (max fallback least) most else min parsed most

-- clampInt, for bounds that are not negative
unfoldable pub clamp_int : Parsed → ℕ → ℕ → ℕ → ℕ
clamp_int (natural parsed) fallback least most = clamp_natural parsed fallback least most
clamp_int _ fallback least most = min (max fallback least) most

-- resolveOffsetPage
unfoldable pub resolve_offset_page : Parsed → Parsed → Option ℕ → OffsetPage
resolve_offset_page raw_page raw_page_size default_size =
    let page_size =
      clamp_int raw_page_size (or_else default_size default_page_size) 1 max_page_size in
    let page = clamp_int raw_page 1 1 max_safe_integer in
    record { page = page; page_size = page_size; offset = (page - 1) * page_size }

-- Math.ceil(total / pageSize), or 0
unfoldable pub total_pages_of : ℕ → ℕ → ℕ
total_pages_of total page_size = if eqb total 0 then 0 else (total + page_size - 1) / page_size

-- buildOffsetResult
unfoldable pub build_offset_result : {A : Type 0} → List A → ℕ → ℕ → ℕ → OffsetResult A
build_offset_result items total page page_size = record {
  items = items;
  page = page;
  page_size = page_size;
  total = total;
  total_pages = total_pages_of total page_size;
}

clamp_int-bounds :
    (p : Parsed) (fallback most : ℕ)
    → 1 ≤ most
    → (1 ≤ clamp_int p fallback 1 most) × (clamp_int p fallback 1 most ≤ most)
unfolding clamp_int
clamp_int-bounds not_finite fallback most h = ground arith
clamp_int-bounds negative fallback most h = ground arith
clamp_int-bounds (natural n) fallback most h = ground arith

-- Whatever the query says, the page is at least 1 and a safe integer, the page size is from 1 to
-- 100, and the offset is the number of rows on the earlier pages.
resolve_offset_page-bounds :
    (raw_page raw_page_size : Parsed) (default_size : Option ℕ)
    → let r = resolve_offset_page raw_page raw_page_size default_size in
      (1 ≤ r.page)
      × (r.page ≤ max_safe_integer)
      × (1 ≤ r.page_size)
      × (r.page_size ≤ 100)
      × (r.offset ≡ (r.page - 1) * r.page_size)
unfolding resolve_offset_page
resolve_offset_page-bounds raw_page raw_page_size default_size =
    let (a, b) = clamp_int-bounds raw_page 1 max_safe_integer (omega arith) in
    let (c, d) =
      clamp_int-bounds raw_page_size (or_else default_size default_page_size) max_page_size
        (omega arith) in
    (a, b, c, d, omega arith)

-- When a page has at least one row, the pages of a result hold all its rows, and none of them is
-- empty: the number of pages times the page size is at least the number of rows, and less than a
-- page more than it.
build_offset_result-covers :
    {A : Type 0} (items : List A) (total page page_size : ℕ)
    → 1 ≤ page_size
    → let r = build_offset_result items total page page_size in
      (total ≤ r.total_pages * page_size) × (r.total_pages * page_size < total + page_size)
unfolding build_offset_result total_pages_of
build_offset_result-covers items total page page_size h =
    let parts = div-add-mod' (total + page_size - 1) page_size in
    let rest = mod-lt (total + page_size - 1) {m = page_size} (omega arith) in
    ground (arith, parts, rest)
