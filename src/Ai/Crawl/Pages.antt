-- ===== src/Ai/Crawl/Pages.antt =====
-- Every page that is worked on weighs more than the entries that it pushes.
use optra.Prelude.{
  ℕ, suc, ◌+◌, ◌-◌, ◌*◌, ◌≤◌, ◌<◌, ◌≡◌, inl, inr, refl, true, false, ◌||◌, Bool, String, Option,
  none, some, List, [], ◌∷◌, length, leb, ltb, Bool-cases, Option-cases, ltb→lt, arith,
}
use native.Mathlib.Nat.{suc-mul, mul-le-mul_right}
use optra.Ai.Crawl.Site.{
  Web, manual, Response, Page, has, is_in_scope, extract_links, extract_content, fetch_with_retry,
}
use optra.Ai.Crawl.Cases.{crawl_page_cases}
use optra.Ai.Crawl.{
  Entry, Config, Crawl, enqueue, push_links, announce, finish, follow, finish_followed, read_html,
  read_response, is_html, visit, request, crawl_page, crawl_pages,
}
use optra.Ai.Crawl.Weight.{weight, load, weight-positive, load-append, length-append_single, room}

module _ (web : Web) (config : Config) where
  open config use {max_depth, max_pages}

  abbrev pub load_of : Crawl → ℕ
  load_of c = load max_pages max_depth c.queue

  abbrev below : ℕ → ℕ
  below depth = weight max_pages (max_depth - suc depth)

  load-enqueue :
      (depth : ℕ) (link : String) (c : Crawl)
      → load_of (enqueue web config depth link c) ≡ load_of c + below depth
  unfolding enqueue load
  load-enqueue depth link c = omega (
    arith,
    load-append max_pages max_depth c.queue (record { url = link; depth = suc depth } ∷ []),
  )

  length-enqueue :
      (depth : ℕ) (link : String) (c : Crawl)
      → length (enqueue web config depth link c).queue ≡ suc (length c.queue)
  unfolding enqueue
  length-enqueue depth link c =
      length-append_single c.queue (record { url = link; depth = suc depth })

  -- While there is room for `max_pages` entries, each one that is pushed takes its own.
  load-push_links :
      (found depth : ℕ) (links : List String) (c : Crawl)
      → load_of (push_links web config found depth links c).0
        ≤ load_of c + (max_pages - length c.queue) * below depth
  unfolding push_links
  load-push_links found depth [] c = omega arith
  load-push_links found depth (link ∷ links) c =
      let skipped = load-push_links found depth links c in
      elim (Bool-cases (has c.visited link || has c.queued link)) [
        | inl y ↦ rw y skipped
        | inr n ↦ elim (Option-cases (is_in_scope web config.scope link)) [
          | inl e ↦ rw (n, e) (omega arith)
          | inr (false, e) ↦ rw (n, e) skipped
          | inr (true, e) ↦ elim (Bool-cases (leb max_pages (length c.queue + found))) [
            | inl full ↦ rw (n, e, full) (omega arith)
            | inr free ↦
                let pushed = load-push_links found depth links (enqueue web config depth link c) in
                let taken = room max_pages (length c.queue) (below depth) (ground arith) in
                rw (n, e, free)
                  (omega (
                    arith,
                    rw (load-enqueue depth link c, length-enqueue depth link c) at pushed,
                    taken,
                  ))
          ]
        ]
      ]

  -- A page above the deepest level weighs more than all the entries that it may push.
  weight-below :
      (depth : ℕ)
      → depth < max_depth
      → weight max_pages (max_depth - depth) ≡ max_pages * below depth + below depth
  unfolding weight
  weight-below depth h =
      let split : max_depth - depth ≡ suc (max_depth - suc depth) = omega arith in
      rw split (suc-mul max_pages (below depth))

  load-follow :
      (found : ℕ) (entry : Entry) (html : String) (c : Crawl)
      → suc (load_of (follow web config found entry html c).0)
        ≤ load_of c + weight max_pages (max_depth - entry.depth)
  unfolding follow
  load-follow found entry html c = elim (Bool-cases (ltb entry.depth max_depth)) [
    | inl y ↦
        let links = extract_links web html entry.url in
        rw y (
          omega (
            arith,
            load-push_links found entry.depth links c,
            weight-below entry.depth (ltb→lt entry.depth max_depth y),
            weight-positive max_pages (max_depth - suc entry.depth),
            mul-le-mul_right {m = max_pages - length c.queue} {n = max_pages} (below entry.depth)
                (omega arith),
          ))
    | inr n ↦ rw n (omega (arith, weight-positive max_pages (max_depth - entry.depth)))
  ]

  queue-finish_followed :
      (entry : Entry) (html : String) (f : Crawl × Bool)
      → (finish_followed web config entry html f).1.queue ≡ f.0.queue
  unfolding finish_followed finish announce
  queue-finish_followed entry html (c, true) =
      elim (Option-cases (extract_content web html entry.url)) [
        | inl e ↦ rw e refl
        | inr ((title, content), e) ↦ rw e (ground arith)
      ]
  queue-finish_followed entry html (c, false) = refl

  abbrev Lighter : Entry → Crawl → Option Page × Crawl → Type 0
  Lighter entry c r = suc (load_of r.1) ≤ load_of c + weight max_pages (max_depth - entry.depth)

  Lighter-same : (entry : Entry) (c d : Crawl) → d.queue ≡ c.queue → Lighter entry c (none, d)
  Lighter-same entry c d e =
      rw e (omega (arith, weight-positive max_pages (max_depth - entry.depth)))

  read_html-Lighter :
      (found : ℕ) (entry : Entry) (text : Option String) (c : Crawl)
      → Lighter entry c (read_html web config found entry text c)
  unfolding read_html
  read_html-Lighter found entry none c = Lighter-same entry c c refl
  read_html-Lighter found entry (some html) c =
      rw (queue-finish_followed entry html (follow web config found entry html c))
        (load-follow found entry html c)

  read_response-Lighter :
      (found : ℕ) (entry : Entry) (r : Option Response) (c : Crawl)
      → Lighter entry c (read_response web config found entry r c)
  unfolding read_response
  read_response-Lighter found entry none c = Lighter-same entry c c refl
  read_response-Lighter found entry (some r) c = elim (Bool-cases (is_html r)) [
    | inl y ↦ rw y (read_html-Lighter found entry r.text c)
    | inr n ↦ rw n (Lighter-same entry c c refl)
  ]

  crawl_page-Lighter :
      (found : ℕ) (entry : Entry) (c : Crawl)
      → Lighter entry c (crawl_page web config found entry c)
  unfolding request visit
  crawl_page-Lighter found entry c =
      crawl_page_cases web config (Lighter entry c) found entry c (Lighter-same entry c c refl)
        (λ _. Lighter-same entry c (visit web config entry.url c) refl)
        λ _ _ _ _.
          let (response, asked) = fetch_with_retry web manual entry.url in
          read_response-Lighter found entry response
            (record (visit web config entry.url c) { fetched = asked ∷ c.fetched })

  pub crawl_pages-load :
      (found : ℕ) (frontier : List Entry) (c : Crawl)
      → load_of (crawl_pages web config found frontier c).1 + length frontier
        ≤ load_of c + load max_pages max_depth frontier
  unfolding crawl_pages load
  crawl_pages-load found [] c = omega arith
  crawl_pages-load found (entry ∷ rest) c = omega (
    arith,
    crawl_page-Lighter found entry c,
    crawl_pages-load found rest (crawl_page web config found entry c).1,
  )
