-- ===== src/Ai/Crawl/Rounds.antt =====
-- Every turn of the crawl keeps its state sound and its pages within bounds.
use optra.Prelude.{
  ℕ, zero, suc, ◌-◌, ◌≤◌, ◌<◌, ◌≡◌, inl, inr, false, Option, none, some, List, [], ◌∷◌, ◌++◌, All,
  All-concat, All-if, length, leb, min, Bool-cases, arith,
}
use optra.Ai.Crawl.Weight.{length-append_single}
use optra.Ai.Crawl.Keeps.{IsPage, IsShallow, IsSound}
use optra.Ai.Crawl.Site.{Asked, Web, Page}
use optra.Ai.Crawl.{
  Entry, Config, Crawl, crawl_pages, push_pages, splice, round_on, round, is_over, crawl_loop,
}
use optra.Ai.Crawl.Handling.{IsMaybePage, crawl_pages-HandlesAll}

module _ (web : Web) (config : Config) where
  push_pages-All :
      (fetched : List Asked) (pages : List (Option Page)) (results : List Page)
      → All (IsMaybePage web config fetched) pages
      → All (IsPage web config fetched) results
      → All (IsPage web config fetched) (push_pages web config pages results)
  unfolding push_pages
  push_pages-All fetched [] results _ h = h
  push_pages-All fetched (none ∷ rest) results (_, ps) h = push_pages-All fetched rest results ps h
  push_pages-All fetched (some page ∷ rest) results (p, ps) h =
      let longer = All-concat (IsPage web config fetched) results h p in
      All-if (All (IsPage web config fetched))
        (leb config.max_pages (length (results ++ page ∷ []))) longer
        (push_pages-All fetched rest (results ++ page ∷ []) ps longer)

  push_pages-le :
      (pages : List (Option Page)) (results : List Page)
      → length results < config.max_pages
      → length (push_pages web config pages results) ≤ config.max_pages
  unfolding push_pages
  push_pages-le [] results h = omega arith
  push_pages-le (none ∷ rest) results h = push_pages-le rest results h
  push_pages-le (some page ∷ rest) results h =
      let grown = length-append_single results page in
      elim (Bool-cases (leb config.max_pages (length (results ++ page ∷ [])))) [
        | inl y ↦ rw y (omega (arith, grown))
        | inr n ↦ rw n (push_pages-le rest (results ++ page ∷ []) (ground (arith, grown)))
      ]

  splice-All :
      (P : Entry → Type 0) (n : ℕ) (queue : List Entry) → All P queue → All P (splice n queue).1
  unfolding splice
  splice-All P zero queue h = h
  splice-All P (suc n) [] h = tt
  splice-All P (suc n) (e ∷ queue) (_, h) = splice-All P n queue h

  -- A crawl that is sound and holds at most as many pages as it may.
  pub record IsBounded (c : Crawl) : Type 0 where
    pub sound : IsSound web config c
    pub fits : length c.results ≤ config.max_pages

  round-IsBounded :
      (c : Crawl) → IsBounded c → is_over web config c ≡ false → IsBounded (round web config c)
  unfolding round round_on
  round-IsBounded c v going =
      let taken = min (length c.queue) (config.max_pages - length c.results) in
      let start : Crawl = record c { queue = (splice taken c.queue).1 } in
      let start-IsSound : IsSound web config start = record {
        polite = v.sound.polite;
        seen = v.sound.seen;
        once = v.sound.once;
        shallow = splice-All (IsShallow web config) taken c.queue v.sound.shallow;
        pages = v.sound.pages;
      } in
      let (handled, last) =
        crawl_pages web config (length c.results) (splice taken c.queue).0 start in
      let all =
        crawl_pages-HandlesAll web config (length c.results) (splice taken c.queue).0 start
          start-IsSound in
      record {
        sound = record {
          polite = all.sound.polite;
          seen = all.sound.seen;
          once = all.sound.once;
          shallow = all.sound.shallow;
          pages = push_pages-All _ _ _ all.pages all.sound.pages;
        };
        fits = push_pages-le handled last.results (rw all.results (ground arith));
      }

  pub crawl_loop-IsBounded :
      (fuel : ℕ) (c d : Crawl) → IsBounded c → crawl_loop web config fuel c ≡ some d → IsBounded d
  unfolding crawl_loop
  crawl_loop-IsBounded zero c d v h = elim (Bool-cases (is_over web config c)) [
    | inl y ↦ let same : d ≡ c = cc (rw y at h) in rw same v
    | inr n ↦ cc (rw n at h)
  ]
  crawl_loop-IsBounded (suc fuel) c d v h = elim (Bool-cases (is_over web config c)) [
    | inl y ↦ let same : d ≡ c = cc (rw y at h) in rw same v
    | inr n ↦ crawl_loop-IsBounded fuel (round web config c) d (round-IsBounded c v n) (rw n at h)
  ]
