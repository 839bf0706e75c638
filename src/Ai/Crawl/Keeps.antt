-- ===== src/Ai/Crawl/Keeps.antt =====
-- What the handling of a page changes, and what it leaves as it was.
use optra.Prelude.{
  ℕ, zero, suc, ◌+◌, ◌≤◌, ◌≡◌, inl, inr, refl, true, false, ◌||◌, ◌&&◌, ◌∙◌, Bool, String, Option,
  none, some, List, [], ◌∷◌, map, All, All-concat, length, utf16_length, leb, ltb, ltb→lt,
  Bool-cases, Option-cases, arith,
}
use optra.Ai.Ssrf.{assert_public_url}
use optra.Ai.Crawl.Site.{
  Asked, Web, manual, Response, Page, has, is_in_scope, extract_links, extract_content, try_fetch,
}
use optra.Ai.Crawl.{
  Entry, Config, Crawl, enqueue, push_links, announce, finish, follow, finish_followed, read_html,
  min_content_length, read_response, is_html, is_allowed,
}

pub try_fetch-le :
    (fetch : ℕ → Option Response) (left attempt : ℕ)
    → (try_fetch fetch left attempt).1 ≤ attempt + left
unfolding try_fetch
try_fetch-le fetch zero attempt = omega arith
try_fetch-le fetch (suc left) attempt = elim (Option-cases (fetch attempt)) [
  | inl e ↦ rw e (omega (arith, try_fetch-le fetch left (suc attempt)))
  | inr (r, e) ↦ elim (Bool-cases (leb 500 r.status && ltb r.status 600)) [
    | inl y ↦ rw (e, y) (omega (arith, try_fetch-le fetch left (suc attempt)))
    | inr n ↦ rw (e, n) (omega arith)
  ]
]

abbrev pub urls : List Asked → List String
urls = map λ f. f.0

-- No text is there twice.
abbrev pub Distinct : List String → Type 0
Distinct [] = Unit
Distinct (u ∷ us) = (has us u ≡ false) × Distinct us

module _ (web : Web) (config : Config) where
  open config use {max_depth, max_pages}

  -- A request that the crawler may make, at most three times: the URL is in scope, robots.txt allows
  -- it, it passed the check of its address, and no redirect is followed.
  abbrev pub IsPolite : Asked → Type 0
  IsPolite (url, requests, redirect) =
      (is_in_scope web config.scope url ≡ some true)
      × (is_allowed web config url ≡ true)
      × (assert_public_url web.net url ≡ true)
      × (requests ≤ 3)
      × (redirect ≡ manual)

  -- A page with enough text, of a URL that was asked for.
  abbrev pub IsPage : List Asked → Page → Type 0
  IsPage fetched page =
      (min_content_length ≤ utf16_length page.content) × (has (urls fetched) page.url ≡ true)

  abbrev pub IsShallow : Entry → Type 0
  IsShallow entry = entry.depth ≤ max_depth

  pub record IsSound (c : Crawl) : Type 0 where
    pub polite : All IsPolite c.fetched
    pub seen : All (λ u. has c.visited u ≡ true) (urls c.fetched)
    pub once : Distinct (urls c.fetched)
    pub shallow : All IsShallow c.queue
    pub pages : All (IsPage c.fetched) c.results

  -- What the end of a page leaves as it was.
  pub record Keeps (c d : Crawl) : Type 0 where
    pub visited : d.visited ≡ c.visited
    pub fetched : d.fetched ≡ c.fetched
    pub results : d.results ≡ c.results

  Keeps-refl : (c : Crawl) → Keeps c c
  Keeps-refl c = record { visited = refl; fetched = refl; results = refl }

  Keeps-trans : {c d e : Crawl} → Keeps c d → Keeps d e → Keeps c e
  Keeps-trans j k = record {
    visited = k.visited ∙ j.visited;
    fetched = k.fetched ∙ j.fetched;
    results = k.results ∙ j.results;
  }

  push_links_cases {ℓ} :
      (P : Crawl → Type ℓ) (found depth : ℕ) (links : List String) (c : Crawl)
      → ((link : String) (d : Crawl) → P d → P (enqueue web config depth link d))
      → P c
      → P (push_links web config found depth links c).0
  unfolding push_links
  push_links_cases P found depth [] c push p = p
  push_links_cases P found depth (link ∷ links) c push p =
      let skipped = push_links_cases P found depth links c push p in
      elim (Bool-cases (has c.visited link || has c.queued link)) [
        | inl y ↦ rw y skipped
        | inr n ↦ elim (Option-cases (is_in_scope web config.scope link)) [
          | inl e ↦ rw (n, e) p
          | inr (false, e) ↦ rw (n, e) skipped
          | inr (true, e) ↦ elim (Bool-cases (leb max_pages (length c.queue + found))) [
            | inl full ↦ rw (n, e, full) p
            | inr free ↦
                rw (n, e, free)
                  (push_links_cases P found depth links (enqueue web config depth link c) push
                    (push link c p))
          ]
        ]
      ]

  -- The links of a page are pushed one level below it.
  follow_cases :
      (found : ℕ) (entry : Entry) (html : String) (c : Crawl)
      → All IsShallow c.queue
      → Keeps c (follow web config found entry html c).0
        × All IsShallow (follow web config found entry html c).0.queue
  unfolding follow enqueue
  follow_cases found entry html c h = elim (Bool-cases (ltb entry.depth max_depth)) [
    | inl y ↦ rw y (
        push_links_cases (λ d. Keeps c d × All IsShallow d.queue) found entry.depth
          (extract_links web html entry.url) c
          (λ link d p. (
            record { visited = p.0.visited; fetched = p.0.fetched; results = p.0.results },
            All-concat IsShallow d.queue p.1 (ltb→lt entry.depth max_depth y),
          ))
          (Keeps-refl c, h))
    | inr n ↦ rw n (Keeps-refl c, h)
  ]

  -- The page that comes of an entry, if one does.
  abbrev pub IsOf : String → Option Page → Type 0
  IsOf url none = Unit
  IsOf url (some page) = (page.url ≡ url) × (min_content_length ≤ utf16_length page.content)

  finish_lem :
      (url html : String) (r : Option (String × String)) (c : Crawl)
      → Keeps c (finish web config url html r c).1
        × ((finish web config url html r c).1.queue ≡ c.queue)
        × IsOf url (finish web config url html r c).0
  unfolding finish announce
  finish_lem url html none c = (Keeps-refl c, refl, tt)
  finish_lem url html (some (title, content)) c =
      elim (Bool-cases (ltb (utf16_length content) min_content_length)) [
        | inl y ↦ rw y (Keeps-refl c, refl, tt)
        | inr n ↦
            elim (Bool-cases
              (web.on_page (record { url = url; title = title; content = content; html = html }))) [
                | inl y ↦
                    rw (n, y)
                      (
                        record { visited = refl; fetched = refl; results = refl },
                        refl,
                        (refl, ground arith),
                      )
                | inr m ↦
                    rw (n, m) (record { visited = refl; fetched = refl; results = refl }, refl, tt)
              ]
      ]

  abbrev pub Handled : String → Crawl → Option Page × Crawl → Type 0
  Handled url c r = Keeps c r.1 × All IsShallow r.1.queue × IsOf url r.0

  finish_followed_lem :
      (entry : Entry) (html : String) (c : Crawl) (f : Crawl × Bool)
      → Keeps c f.0
      → All IsShallow f.0.queue
      → Handled entry.url c (finish_followed web config entry html f)
  unfolding finish_followed
  finish_followed_lem entry html c (d, true) k h =
      let (kept, same, page) = finish_lem entry.url html (extract_content web html entry.url) d in
      (Keeps-trans k kept, rw same h, page)
  finish_followed_lem entry html c (d, false) k h = (k, h, tt)

  pub read_response_lem :
      (found : ℕ) (entry : Entry) (r : Option Response) (c : Crawl)
      → All IsShallow c.queue
      → Handled entry.url c (read_response web config found entry r c)
  unfolding read_response read_html
  read_response_lem found entry none c h = (Keeps-refl c, h, tt)
  read_response_lem found entry (some r) c h = elim (Bool-cases (is_html r)) [
    | inr n ↦ rw n (Keeps-refl c, h, tt)
    | inl y ↦ elim (Option-cases r.text) [
      | inl e ↦ rw (y, e) (Keeps-refl c, h, tt)
      | inr (html, e) ↦
          let (kept, fine) = follow_cases found entry html c h in
          rw (y, e)
            (finish_followed_lem entry html c (follow web config found entry html c) kept fine)
    ]
  ]
