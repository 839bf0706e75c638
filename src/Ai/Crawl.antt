-- ===== src/Ai/Crawl.antt =====
-- The crawler (packages/ai/src/web/crawl.ts). The pages of a frontier are worked on one after the
-- other, as with a concurrency of 1; the delays between requests are left out. `fetched` is the log
-- of the pages that were requested, newest first, and `announced` the
-- progress that the callback was told.
pub mod Site
pub mod Cases
pub mod Weight
pub mod Pages
pub mod Ends
pub mod Keeps
pub mod Handling
pub mod Rounds
pub mod Polite
use optra.Prelude.{
  ℕ, zero, suc, ◌+◌, ◌-◌, Bool, true, false, ◌&&◌, ◌||◌, not, String, Option, none, some, List, [],
  ◌∷◌, ◌++◌, leb, ltb, if◌then◌else◌, includes, length, utf16_length, or_else, min, max,
}
use Prim.Native.String
use optra.Ai.Ssrf.{Url, assert_public_url}
use Site.{
  Web, Asked, followed, manual, Response, Page, Scope, has, is_in_scope, extract_links,
  extract_content, fetch_with_retry,
}

pub record Entry : Type 0 where
  pub url : String
  pub depth : ℕ

pub record Progress : Type 0 where
  pub pages_found : ℕ
  pub pages_visited : ℕ
  pub pages_queued : ℕ
  pub max_pages : ℕ

pub record Options : Type 0 where
  pub max_depth : Option ℕ
  pub max_pages : Option ℕ
  pub include_prefixes : Option (List String)
  pub exclude_dirs : Option (List String)
  pub respect_robots : Option Bool

-- What crawlSite passes to each page.
pub record Config : Type 0 where
  pub scope : Scope
  pub max_depth : ℕ
  pub max_pages : ℕ
  -- the text of robots.txt, nothing when it is not respected or did not load
  pub robots : Option String

pub record Crawl : Type 0 where
  pub visited : List String
  pub queued : List String
  pub queue : List Entry
  pub results : List Page
  pub pages_found : ℕ
  pub fetched : List Asked
  pub announced : List Progress

unfoldable pub is_html : Response → Bool
is_html r =
    (leb 200 r.status && ltb r.status 300) && includes (or_else r.content_type "") "text/html"

abbrev min_content_length : ℕ
min_content_length = 50

module _ (web : Web) (config : Config) where
  unfoldable pub enqueue : ℕ → String → Crawl → Crawl
  enqueue depth link c = record c {
    queued = link ∷ c.queued;
    queue = c.queue ++ record { url = link; depth = suc depth } ∷ [];
  }

  -- The loop over a page's links, of a page at this depth: the new state, and whether it ended
  -- without an exception. `found` is the number of results when the frontier was taken.
  unfoldable pub push_links : ℕ → ℕ → List String → Crawl → Crawl × Bool
  unfolding enqueue
  push_links found depth [] c = (c, true)
  push_links found depth (link ∷ rest) c =
      let skipped = push_links found depth rest c in
      let pushed = push_links found depth rest (enqueue depth link c) in
      if has c.visited link || has c.queued link
      then skipped
      else elim (is_in_scope web config.scope link) [
        | none ↦ (c, false)
        | some false ↦ skipped
        | some true ↦ if leb config.max_pages (length c.queue + found) then (c, true) else pushed
      ]

  unfoldable pub announce : Page → Crawl → Option Page × Crawl
  announce page c =
      let found = suc c.pages_found in
      (
        if web.on_page page then some page else none,
        record c {
          pages_found = found;
          announced =
              c.announced
              ++ record {
                pages_found = found;
                pages_visited = length c.visited;
                pages_queued = length c.queued;
                max_pages = config.max_pages;
              }
                ∷ [];
        },
      )

  unfoldable pub finish : String → String → Option (String × String) → Crawl → Option Page × Crawl
  unfolding announce
  finish url html none c = (none, c)
  finish url html (some (title, content)) c =
      if ltb (utf16_length content) min_content_length
      then (none, c)
      else announce (record { url = url; title = title; content = content; html = html }) c

  unfoldable pub follow : ℕ → Entry → String → Crawl → Crawl × Bool
  unfolding push_links
  follow found entry html c =
      if ltb entry.depth config.max_depth
      then push_links found entry.depth (extract_links web html entry.url) c
      else (c, true)

  -- The end of a page, unless the loop over its links threw.
  unfoldable pub finish_followed : Entry → String → Crawl × Bool → Option Page × Crawl
  unfolding finish
  finish_followed entry html (c, true) =
      finish entry.url html (extract_content web html entry.url) c
  finish_followed entry html (c, false) = (none, c)

  unfoldable pub read_html : ℕ → Entry → Option String → Crawl → Option Page × Crawl
  unfolding follow finish_followed
  read_html found entry none c = (none, c)
  read_html found entry (some html) c = finish_followed entry html (follow found entry html c)

  unfoldable pub read_response : ℕ → Entry → Option Response → Crawl → Option Page × Crawl
  unfolding is_html read_html
  read_response found entry none c = (none, c)
  read_response found entry (some r) c =
      if is_html r then read_html found entry r.text c else (none, c)

  unfoldable pub visit : String → Crawl → Crawl
  visit url c = record c { visited = url ∷ c.visited }

  -- The requests for a page, and what comes of them.
  unfoldable pub request : ℕ → Entry → Crawl → Option Page × Crawl
  unfolding read_response
  request found entry c =
      let (response, asked) = fetch_with_retry web manual entry.url in
      read_response found entry response (record c { fetched = asked ∷ c.fetched })

  abbrev pub is_allowed : String → Bool
  is_allowed url = elim config.robots [ none ↦ true | some text ↦ web.robots_allow text url ]

  -- crawlPage, with null for an exception, as its caller has it.
  unfoldable pub crawl_page : ℕ → Entry → Crawl → Option Page × Crawl
  unfolding visit request
  crawl_page found entry c =
      if has c.visited entry.url then (none, c) else elim (is_in_scope web config.scope entry.url) [
        | none ↦ (none, c)
        | some false ↦ (none, c)
        | some true ↦
            if not (is_allowed entry.url)
            then (none, visit entry.url c)
            else if assert_public_url web.net entry.url
            then request found entry (visit entry.url c)
            else (none, c)
      ]

  unfoldable pub crawl_pages : ℕ → List Entry → Crawl → List (Option Page) × Crawl
  unfolding crawl_page
  crawl_pages found [] c = ([], c)
  crawl_pages found (entry ∷ rest) c =
      let (page, d) = crawl_page found entry c in
      let (pages, e) = crawl_pages found rest d in (page ∷ pages, e)

  -- The loop over pageResults.
  unfoldable pub push_pages : List (Option Page) → List Page → List Page
  push_pages [] results = results
  push_pages (none ∷ rest) results = push_pages rest results
  push_pages (some page ∷ rest) results =
      let more = push_pages rest (results ++ page ∷ []) in
      if leb config.max_pages (length (results ++ page ∷ [])) then results ++ page ∷ [] else more

-- queue.splice(0, n): the entries taken, and the rest.
unfoldable pub splice : ℕ → List Entry → List Entry × List Entry
splice zero queue = ([], queue)
splice (suc n) [] = ([], [])
splice (suc n) (entry ∷ queue) = let (taken, rest) = splice n queue in (entry ∷ taken, rest)

module _ (web : Web) (config : Config) where
  unfoldable pub round_on : List Entry × List Entry → Crawl → Crawl
  unfolding crawl_pages push_pages
  round_on (frontier, rest) c =
      let (pages, d) =
        crawl_pages web config (length c.results) frontier (record c { queue = rest }) in
      record d { results = push_pages web config pages d.results }

  -- One turn of the loop of crawlSite.
  unfoldable pub round : Crawl → Crawl
  unfolding round_on splice
  round c = round_on (splice (min (length c.queue) (config.max_pages - length c.results)) c.queue) c

  abbrev pub is_over : Crawl → Bool
  is_over c = leb (length c.queue) 0 || leb config.max_pages (length c.results)

  -- The loop of crawlSite on fuel: nothing when the fuel does not last.
  unfoldable pub crawl_loop : ℕ → Crawl → Option Crawl
  unfolding round
  crawl_loop zero c = if is_over c then some c else none
  crawl_loop (suc fuel) c =
      let rest = crawl_loop fuel (round c) in if is_over c then some c else rest

abbrev pub robots_url : String → String
robots_url origin = String.◌++◌ origin "/robots.txt"

abbrev clamp : ℕ → ℕ → ℕ → ℕ
clamp value least most = min (max value least) most

module _ (web : Web) where
  robots_text : Response → Option String
  robots_text r = if leb 200 r.status && ltb r.status 300 then r.text else some ""

  text_or_nothing : Option Response → Option String
  unfolding robots_text
  text_or_nothing none = none
  text_or_nothing (some r) = robots_text r

  -- loadRobots: one request, whatever redirects it follows; no text when it or its text rejects.
  unfoldable pub load_robots : String → Option String × List Asked
  unfolding text_or_nothing
  load_robots origin = (
    text_or_nothing (web.fetch followed (robots_url origin) 0),
    (robots_url origin, 1, followed) ∷ [],
  )

  unfoldable pub robots_for : Options → Url → Option String × List Asked
  unfolding load_robots
  robots_for options seed =
      if or_else options.respect_robots true then load_robots seed.origin else (none, [])

  unfoldable pub config_for : Options → Url → Config
  unfolding robots_for
  config_for options seed = record {
    scope = record {
      origin = seed.origin;
      include_prefixes = options.include_prefixes;
      exclude_dirs = options.exclude_dirs;
    };
    max_depth = clamp (or_else options.max_depth 3) 0 5;
    max_pages = clamp (or_else options.max_pages 500) 1 2000;
    robots = (robots_for options seed).0;
  }

  unfoldable pub seed_state : String → Crawl
  seed_state seed = record {
    visited = [];
    queued = seed ∷ [];
    queue = record { url = seed; depth = 0 } ∷ [];
    results = [];
    pages_found = 0;
    fetched = [];
    announced = [];
  }

  -- Why crawlSite throws, or every request that it made and the state in which it returns.
  pub data Outcome : Type 0 where
    invalid_seed : Outcome
    blocked_seed : Outcome
    out_of_fuel : Outcome
    crawled : List Asked → Crawl → Outcome

  abbrev outcome_of : List Asked → Option Crawl → Outcome
  outcome_of asked none = out_of_fuel
  outcome_of asked (some c) = crawled (c.fetched ++ asked) c

  abbrev crawl_seed : ℕ → Options → String → Option Url → Outcome
  crawl_seed fuel options seed none = invalid_seed
  crawl_seed fuel options seed (some url) =
      if assert_public_url web.net seed
      then outcome_of (robots_for options url).1
          (crawl_loop web (config_for options url) fuel (seed_state seed))
      else blocked_seed

  -- crawlSite
  unfoldable pub crawl_site : ℕ → Options → String → Outcome
  unfolding crawl_loop config_for seed_state robots_for
  crawl_site fuel options seed_url = elim (web.canonicalize seed_url none) [
    | none ↦ invalid_seed
    | some seed ↦ crawl_seed fuel options seed (web.net.parse_url seed)
  ]
