-- ===== src/Ai/Crawl/Cases.antt =====
-- What the handling of one page comes to.
use optra.Prelude.{ℕ, ◌≡◌, inl, inr, true, false, Option, none, some, Bool-cases, Option-cases}
use optra.Ai.Ssrf.{assert_public_url}
use optra.Ai.Crawl.Site.{Web, Page, has, is_in_scope}
use optra.Ai.Crawl.{Entry, Config, Crawl, visit, request, is_allowed, crawl_page}

module _ (web : Web) (config : Config) where
  -- A page is left alone, or marked as visited because robots.txt forbids it, or requested.
  pub crawl_page_cases {ℓ} :
      (P : Option Page × Crawl → Type ℓ) (found : ℕ) (entry : Entry) (c : Crawl)
      → P (none, c)
      → (has c.visited entry.url ≡ false → P (none, visit web config entry.url c))
      → (has c.visited entry.url ≡ false
          → is_in_scope web config.scope entry.url ≡ some true
          → is_allowed web config entry.url ≡ true
          → assert_public_url web.net entry.url ≡ true
          → P (request web config found entry (visit web config entry.url c)))
      → P (crawl_page web config found entry c)
  unfolding crawl_page
  crawl_page_cases P found entry c same forbidden requested =
      elim (Bool-cases (has c.visited entry.url)) [
        | inl y ↦ rw y same
        | inr n ↦ elim (Option-cases (is_in_scope web config.scope entry.url)) [
          | inl e ↦ rw (n, e) same
          | inr (false, e) ↦ rw (n, e) same
          | inr (true, e) ↦ elim (Bool-cases (is_allowed web config entry.url)) [
            | inr refused ↦ rw (n, e, refused) (forbidden n)
            | inl allowed ↦ elim (Bool-cases (assert_public_url web.net entry.url)) [
              | inr private ↦ rw (n, e, allowed, private) same
              | inl public ↦ rw (n, e, allowed, public) (requested n e allowed public)
            ]
          ]
        ]
      ]
