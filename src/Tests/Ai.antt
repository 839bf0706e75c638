-- ===== src/Tests/Ai.antt =====
-- A limiter of one slot; and a site of two pages, of which one links to the other and to a page in a
-- directory that is left out.
use optra.Prelude.{
  ℕ, ◌+◌, ◌≤◌, ◌≡◌, ◌≢◌, ◌⊎◌, ◌^◌, true, refl, some, none, String, ◌==◌, List, [], ◌∷◌, Option, any,
  eqb, if◌then◌else◌, starts_with, includes, ends_with, arith,
}
use optra.Ai.Ssrf.{
  Net, Url, assert_public_url, is_blocked_hostname, is_private_ip, IsPublicUrl,
  assert_public_url-IsPublicUrl,
}
use optra.Ai.Ssrf.Hosts.{strip_brackets}
use optra.Ai.Limit.{
  Limiter, idle, create_limit, Event, submits, settles, run, step, submit, settle, submissions,
}
use optra.Ai.Limit.Laws.{IsBusy, run-IsBusy, line, line-run}
use optra.Ai.Limit.Progress.{Finishes, done, next, unsettled, Finishes-starts_all}
use optra.Ai.Crawl.Site.{Asked, Web, Page, followed, manual}
use optra.Ai.Crawl.{Options, crawl_site, Crawl, out_of_fuel}
use optra.Ai.Crawl.Ends.{crawl_site-ends}

abbrev history : List Event
history = submits 1 ∷ submits 2 ∷ submits 3 ∷ settles 1 ∷ []

one_slot : create_limit 1 ≡ some idle
unfolding create_limit
one_slot = refl

run-IsBusy_example : IsBusy 1 (run 1 idle history)
run-IsBusy_example = run-IsBusy 1 idle history one_slot

line-run_example : line (run 1 idle history) ≡ 1 ∷ 2 ∷ 3 ∷ []
unfolding submissions
line-run_example = line-run 1 idle history one_slot

abbrev second_done : Limiter
second_done = settle 2 (run 1 idle history)

two_runs : any (eqb 2) (run 1 idle history).running ≡ true
unfolding run step submit settle
two_runs = refl

finishing : Finishes 1 (run 1 idle history) second_done
finishing = next 2 two_runs done

Finishes-starts_all_example :
    (1 + unsettled second_done ≡ unsettled (run 1 idle history))
    × ((second_done.started ≡ submissions history)
        ⊎ ((t : ℕ) × (any (eqb t) second_done.running ≡ true)))
Finishes-starts_all_example = Finishes-starts_all 1 1 idle second_done history one_slot finishing

abbrev home : String
home = "https://shop.test"

abbrev parts : String → Option Url
parts text =
    if starts_with text "https://shop.test"
    then some (record {
      href = text;
      protocol = "https:";
      hostname = "shop.test";
      origin = home;
      pathname = if includes text "/private" then "/private/x" else "/list";
    })
    else none

abbrev net : Net
net = record {
  parse_url = parts;
  lower = λ s. s;
  Ip = String;
  parse_ip = λ s. if starts_with s "1" then some s else none;
  mapped_ipv4 = λ ip. none;
  ip_text = λ ip. ip;
  range = λ ip. if starts_with ip "10." then "private" else "unicast";
  lookup = λ host. some ("104.16.0.1" ∷ []);
}

abbrev text_of : String → String
text_of url = "A list of the spare parts that this shop has, with their prices."

abbrev web : Web
web = record {
  net = net;
  canonicalize = λ raw base. some raw;
  fetch = λ redirect url attempt.
      if eqb attempt 0
      then none
      else some (record { status = 200; content_type = some "text/html"; text = some url });
  robots_allow = λ text url. true;
  hrefs = λ html.
      if html == home
      then "https://shop.test/list" ∷ "https://shop.test/private/x" ∷ home ∷ []
      else [];
  readability = λ html url. some none;
  cheerio_title = λ html. "Shop";
  cheerio_body = text_of;
  collapse_whitespace = λ s. s;
  trim = λ s. s;
  on_page = λ page. true;
}

abbrev options : Options
options = record {
  max_depth = some 1;
  max_pages = none;
  include_prefixes = none;
  exclude_dirs = some ("/private" ∷ []);
  respect_robots = none;
}

home-public : assert_public_url net home ≡ true
unfolding assert_public_url is_blocked_hostname strip_brackets ends_with is_private_ip
home-public = refl

assert_public_url-IsPublicUrl_example : IsPublicUrl net home
assert_public_url-IsPublicUrl_example = assert_public_url-IsPublicUrl net home home-public

abbrev shop_page : String → Page
shop_page url = record { url = url; title = "Shop"; content = text_of url; html = url }

abbrev end_state : Crawl
end_state = record {
  visited = "https://shop.test/list" ∷ home ∷ [];
  queued = "https://shop.test/list" ∷ home ∷ [];
  queue = [];
  results = shop_page home ∷ shop_page "https://shop.test/list" ∷ [];
  pages_found = 2;
  fetched = ("https://shop.test/list", 2, manual) ∷ (home, 2, manual) ∷ [];
  announced =
      record { pages_found = 1; pages_visited = 1; pages_queued = 2; max_pages = 500 }
      ∷ record { pages_found = 2; pages_visited = 2; pages_queued = 2; max_pages = 500 }
      ∷ [];
}

-- The robots.txt, and the two pages.
abbrev all_asked : List Asked
all_asked =
    ("https://shop.test/list", 2, manual)
    ∷ (home, 2, manual)
    ∷ ("https://shop.test/robots.txt", 1, followed)
    ∷ []

enough : 2001 ^ 5 ≤ 2001 ^ 5
enough = omega arith

crawl_site-ends_example : crawl_site web (2001 ^ 5) options home ≢ out_of_fuel
crawl_site-ends_example = crawl_site-ends web (2001 ^ 5) options home enough
