-- ===== src/Ai/Crawl/Site.antt =====
-- What the crawler takes from elsewhere (packages/ai/src/web/crawl.ts): the network, the HTML parsers
-- and robots.txt, with the requests' retries and the links, scopes and texts that it makes of them.
use optra.Prelude.{
  ℕ, zero, suc, Bool, true, ◌&&◌, not, String, ◌==◌, Option, none, some, List, [], ◌∷◌, ◌++◌, any,
  leb, ltb, if◌then◌else◌, starts_with, includes, or_else, truthy,
}
use optra.Ai.Ssrf.{Net, Url}

-- The redirect option of a request: by default redirects are followed.
pub data Redirect : Type 0 where
  followed manual : Redirect

-- The requests for a URL: how many, and what they do about redirects.
abbrev pub Asked : Type 0
Asked = String × ℕ × Redirect

-- text() may reject.
pub record Response : Type 0 where
  pub status : ℕ
  pub content_type : Option String
  pub text : Option String

-- Readability's parse of a document, with the document's own title.
pub record Readable : Type 0 where
  pub title : String
  pub document_title : String
  pub text_content : String

pub record Page : Type 0 where
  pub url : String
  pub title : String
  pub content : String
  pub html : String

pub record Web : Type 1 where
  pub net : Net
  -- canonicalizeUrl(raw, base), which throws on what is no http or https URL
  pub canonicalize : String → Option String → Option String
  -- fetchImpl at its nth attempt, nothing when it rejects
  pub fetch : Redirect → String → ℕ → Option Response
  -- robotsParser(url, text).isAllowed(url, userAgent)
  pub robots_allow : String → String → Bool
  -- the href attributes of $('a[href]')
  pub hrefs : String → List String
  -- JSDOM with Readability, nothing when they throw; the title and the body that cheerio finds
  pub readability : String → String → Option (Option Readable)
  pub cheerio_title : String → String
  pub cheerio_body : String → String
  -- replace(/\s+/g, ' ').trim()
  pub collapse_whitespace : String → String
  pub trim : String → String
  -- the callback onPage, which may throw
  pub on_page : Page → Bool

pub record Scope : Type 0 where
  pub origin : String
  pub include_prefixes : Option (List String)
  pub exclude_dirs : Option (List String)

abbrev pub has : List String → String → Bool
has set url = any (λ u. u == url) set

-- An answer from 500 to 599 and a rejection are tried `again`.
abbrev answered : Option Response × ℕ → ℕ → Option Response → Option Response × ℕ
answered again attempt none = again
answered again attempt (some r) =
    if leb 500 r.status && ltb r.status 600 then again else (some r, suc attempt)

-- The attempts that are left. The second component is the number of requests.
unfoldable pub try_fetch : (ℕ → Option Response) → ℕ → ℕ → Option Response × ℕ
try_fetch fetch zero attempt = (none, attempt)
try_fetch fetch (suc left) attempt =
    answered (try_fetch fetch left (suc attempt)) attempt (fetch attempt)

abbrev pub in_prefixes : Option (List String) → String → Bool
in_prefixes none pathname = true
in_prefixes (some []) pathname = true
in_prefixes (some (p ∷ ps)) pathname = any (starts_with pathname) (p ∷ ps)

module _ (web : Web) where
  unfoldable pub fetch_with_retry : Redirect → String → Option Response × Asked
  unfolding try_fetch
  fetch_with_retry redirect url =
      let (response, requests) = try_fetch (web.fetch redirect url) 3 0 in
      (response, (url, requests, redirect))

  abbrev scope_of : Scope → Option Url → Option Bool
  scope_of scope none = none
  scope_of scope (some url) = some (
      (url.origin == scope.origin)
      && in_prefixes scope.include_prefixes url.pathname
      && not (any (includes url.pathname) (or_else scope.exclude_dirs [])))

  -- isInScope, nothing when `new URL` throws.
  unfoldable pub is_in_scope : Scope → String → Option Bool
  is_in_scope scope url = scope_of scope (web.net.parse_url url)

  unfoldable pub add_link : List String → Option String → List String
  add_link links none = links
  add_link links (some link) = if has links link then links else links ++ link ∷ []

  unfoldable pub links_from : String → List String → List String → List String
  unfolding add_link
  links_from page_url links [] = links
  links_from page_url links (href ∷ rest) =
      links_from page_url
        (if truthy href then add_link links (web.canonicalize href (some page_url)) else links) rest

  -- extractLinks
  unfoldable pub extract_links : String → String → List String
  unfolding links_from
  extract_links html page_url = links_from page_url [] (web.hrefs html)

  abbrev or_text : String → String → String
  or_text a b = if truthy a then a else b

  abbrev fallback_content : String → String → String × String
  fallback_content html url = (
    web.collapse_whitespace (or_text (web.trim (web.cheerio_title html)) url),
    web.collapse_whitespace (web.cheerio_body html),
  )

  abbrev content_from : String → String → Option Readable → String × String
  content_from html url none = fallback_content html url
  content_from html url (some r) =
      if truthy (web.trim r.text_content)
      then (
        web.collapse_whitespace (or_text r.title (or_text r.document_title url)),
        web.collapse_whitespace r.text_content,
      )
      else fallback_content html url

  -- extractContent: the title and the text, nothing when the parsers throw.
  unfoldable pub extract_content : String → String → Option (String × String)
  extract_content html url = elim (web.readability html url) [
    | none ↦ none
    | some parsed ↦ some (content_from html url parsed)
  ]
