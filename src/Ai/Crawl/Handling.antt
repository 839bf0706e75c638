-- ===== src/Ai/Crawl/Handling.antt =====
-- Every page that is worked on keeps the state of the crawl sound.
use optra.Prelude.{
  ℕ, ◌≡◌, inl, inr, refl, sym, ◌∙◌, true, false, String, Option, none, some, List, [], ◌∷◌, ◌++◌,
  All, ◌==◌, eq_iff, eq_refl, Bool-cases, arith,
}
use mathlib.Core.List.{append_assoc}
use optra.Ai.Ssrf.{assert_public_url}
use optra.Ai.Crawl.Cases.{crawl_page_cases}
use optra.Ai.Crawl.Keeps.{
  urls, IsPage, IsShallow, IsSound, IsOf, Keeps, read_response_lem, try_fetch-le,
}
use optra.Ai.Crawl.Site.{Asked, Web, manual, Page, has, fetch_with_retry, is_in_scope}
use optra.Ai.Crawl.{Entry, Config, Crawl, visit, request, is_allowed, crawl_page, crawl_pages}

has-grown :
    (visited : List String) (url u : String) → has visited u ≡ true → has (url ∷ visited) u ≡ true
has-grown visited url u h = ground arith

All-has_grown :
    (visited : List String) (url : String) (us : List String)
    → All (λ u. has visited u ≡ true) us
    → All (λ u. has (url ∷ visited) u ≡ true) us
All-has_grown visited url [] _ = tt
All-has_grown visited url (u ∷ us) (h, hs) =
    (has-grown visited url u h, All-has_grown visited url us hs)

fresh-url :
    (visited : List String) (url : String) (us : List String)
    → All (λ u. has visited u ≡ true) us
    → has visited url ≡ false
    → has us url ≡ false
fresh-url visited url [] _ n = refl
fresh-url visited url (u ∷ us) (h, hs) n = elim (Bool-cases (u == url)) [
  | inl e ↦ cc (rw ((eq_iff u url).0 e) at h)
  | inr e ↦ rw e (fresh-url visited url us hs n)
]

has-append :
    (new old : List Asked) (u : String) → has (urls old) u ≡ true → has (urls (new ++ old)) u ≡ true
has-append [] old u h = h
has-append (f ∷ new) old u h = ground (arith, has-append new old u h)

abbrev pub Extends : Crawl → Crawl → Type 0
Extends c d = (new : List Asked) × (d.fetched ≡ new ++ c.fetched)

module _ (web : Web) (config : Config) where
  abbrev pub IsMaybePage : List Asked → Option Page → Type 0
  IsMaybePage fetched none = Unit
  IsMaybePage fetched (some page) = IsPage web config fetched page

  IsMaybePage-append :
      (new old : List Asked) (page : Option Page)
      → IsMaybePage old page
      → IsMaybePage (new ++ old) page
  IsMaybePage-append new old none _ = tt
  IsMaybePage-append new old (some page) (long, asked) = (long, has-append new old page.url asked)

  All-IsPage_cons :
      (f : Asked) (old : List Asked) (pages : List Page)
      → All (IsPage web config old) pages
      → All (IsPage web config (f ∷ old)) pages
  All-IsPage_cons f old [] _ = tt
  All-IsPage_cons f old (p ∷ ps) ((long, asked), rest) =
      ((long, has-append (f ∷ []) old p.url asked), All-IsPage_cons f old ps rest)

  Keeps-IsSound :
      (c d : Crawl)
      → Keeps web config c d
      → All (IsShallow web config) d.queue
      → IsSound web config c
      → IsSound web config d
  Keeps-IsSound c d k h v = record {
    polite = rw k.fetched v.polite;
    seen = rw (k.fetched, k.visited) v.seen;
    once = rw k.fetched v.once;
    shallow = h;
    pages = rw (k.fetched, k.results) v.pages;
  }

  -- A step of the crawl keeps its state sound, and the results as they were.
  record Handles (c : Crawl) (r : Option Page × Crawl) : Type 0 where
    sound : IsSound web config r.1
    extends : Extends c r.1
    page : IsMaybePage r.1.fetched r.0
    results : r.1.results ≡ c.results

  IsOf-IsMaybePage :
      (url : String) (n : ℕ) (old : List Asked) (page : Option Page)
      → IsOf web config url page
      → IsMaybePage ((url, n, manual) ∷ old) page
  IsOf-IsMaybePage url n old none _ = tt
  IsOf-IsMaybePage url n old (some page) (e, long) = (long, rw e (ground (arith, eq_refl url)))

  request-Handles :
      (found : ℕ) (entry : Entry) (c : Crawl)
      → IsSound web config c
      → has c.visited entry.url ≡ false
      → is_in_scope web config.scope entry.url ≡ some true
      → is_allowed web config entry.url ≡ true
      → assert_public_url web.net entry.url ≡ true
      → Handles c (request web config found entry (visit web config entry.url c))
  unfolding request visit fetch_with_retry
  request-Handles found entry c v n scope allowed public =
      let (response, (_, requests, _)) = fetch_with_retry web manual entry.url in
      let asked : Crawl = record (visit web config entry.url c) {
        fetched = (entry.url, requests, manual) ∷ c.fetched;
      } in
      let asked-IsSound : IsSound web config asked = record {
        polite = (
          (scope, allowed, public, try_fetch-le (web.fetch manual entry.url) 3 0, refl),
          v.polite,
        );
        seen = (
          ground (arith, eq_refl entry.url),
          All-has_grown c.visited entry.url (urls c.fetched) v.seen,
        );
        once = (fresh-url c.visited entry.url (urls c.fetched) v.seen n, v.once);
        shallow = v.shallow;
        pages = All-IsPage_cons (entry.url, requests, manual) c.fetched c.results v.pages;
      } in
      let (kept, shallow, page) =
        read_response_lem web config found entry response asked v.shallow in
      record {
        sound = Keeps-IsSound asked _ kept shallow asked-IsSound;
        extends = ((entry.url, requests, manual) ∷ [], kept.fetched);
        page = rw kept.fetched (IsOf-IsMaybePage entry.url requests c.fetched _ page);
        results = kept.results;
      }

  crawl_page-Handles :
      (found : ℕ) (entry : Entry) (c : Crawl)
      → IsSound web config c
      → Handles c (crawl_page web config found entry c)
  unfolding visit
  crawl_page-Handles found entry c v =
      crawl_page_cases web config (Handles c) found entry c
        (record { sound = v; extends = ([], refl); page = tt; results = refl })
        (λ _. record {
          sound = record {
            polite = v.polite;
            seen = All-has_grown c.visited entry.url (urls c.fetched) v.seen;
            once = v.once;
            shallow = v.shallow;
            pages = v.pages;
          };
          extends = ([], refl);
          page = tt;
          results = refl;
        })
        (request-Handles found entry c v)

  pub record HandlesAll (c : Crawl) (r : List (Option Page) × Crawl) : Type 0 where
    pub sound : IsSound web config r.1
    pub extends : Extends c r.1
    pub pages : All (IsMaybePage r.1.fetched) r.0
    pub results : r.1.results ≡ c.results

  pub crawl_pages-HandlesAll :
      (found : ℕ) (frontier : List Entry) (c : Crawl)
      → IsSound web config c
      → HandlesAll c (crawl_pages web config found frontier c)
  unfolding crawl_pages
  crawl_pages-HandlesAll found [] c v = record {
    sound = v;
    extends = ([], refl);
    pages = tt;
    results = refl;
  }
  crawl_pages-HandlesAll found (entry ∷ rest) c v =
      let one = crawl_page-Handles found entry c v in
      let more =
        crawl_pages-HandlesAll found rest (crawl_page web config found entry c).1 one.sound in
      let (new, e) = more.extends in
      let (older, f) = one.extends in
      record {
        sound = more.sound;
        extends = (new ++ older, rw (e, f) (sym (append_assoc new older c.fetched)));
        pages = (
          rw e (
              IsMaybePage-append new (crawl_page web config found entry c).1.fetched
                (crawl_page web config found entry c).0 one.page),
          more.pages,
        );
        results = more.results ∙ one.results;
      }
