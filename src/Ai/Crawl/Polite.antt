-- ===== src/Ai/Crawl/Polite.antt =====
-- What a crawl asks for, how often, and what it returns.
use optra.Prelude.{true, List, ◌++◌, All, length, or_else, ◌≤◌, ◌≡◌, String, none, some}
use optra.Ai.Ssrf.{Url, assert_public_url}
use optra.Ai.Crawl.Site.{Asked, Web, followed}
use optra.Ai.Crawl.{Crawl, robots_url, Options, config_for}
use optra.Ai.Crawl.Rounds.{IsBounded}

-- The request for robots.txt, made once when it is respected. It follows redirects.
abbrev pub IsForRobots : Options → Url → Asked → Type 0
IsForRobots options seed (url, requests, redirect) =
    (url ≡ robots_url seed.origin)
    × (requests ≡ 1)
    × (redirect ≡ followed)
    × (or_else options.respect_robots true ≡ true)

-- What a crawl comes to: a seed that passed the check of its address, a configuration whose scope
-- has the seed's origin, and that allows at most 2000 pages and a depth of 5, under which the final
-- state is sound and holds at most as many pages as it may; its page requests, with at most one for
-- robots.txt before them, are all that was asked.
abbrev pub Behaves : Web → Options → String → List Asked → Crawl → Type 0
Behaves web options seed_url asked c =
    (seed : String) × (url : Url) × (web.canonicalize seed_url none ≡ some seed)
    × (web.net.parse_url seed ≡ some url)
    × (assert_public_url web.net seed ≡ true)
    × ((config_for web options url).max_pages ≤ 2000)
    × ((config_for web options url).max_depth ≤ 5)
    × IsBounded web (config_for web options url) c
    × (before : List Asked) × (asked ≡ c.fetched ++ before)
    × (length before ≤ 1)
    × All (IsForRobots options url) before
