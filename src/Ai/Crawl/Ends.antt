-- ===== src/Ai/Crawl/Ends.antt =====
-- The crawl ends: every turn of its loop makes the queue lighter.
use optra.Prelude.{
  ℕ, zero, suc, ◌+◌, ◌-◌, ◌^◌, ◌≢◌, ◌≤◌, ◌≡◌, inl, inr, refl, false, String, none, some, List, [],
  ◌∷◌, length, Bool-cases, Option-cases, min, arith,
}
use optra.Ai.Ssrf.{Url, assert_public_url}
use optra.Ai.Crawl.Site.{Web}
use optra.Ai.Crawl.{
  Entry, Config, Crawl, Options, splice, round_on, round, is_over, crawl_loop, config_for,
  seed_state, crawl_site, out_of_fuel,
}
use optra.Ai.Crawl.Weight.{load, weight-le}
use optra.Ai.Crawl.Pages.{load_of, crawl_pages-load}

load-splice :
    (most deepest n : ℕ) (queue : List Entry)
    → load most deepest (splice n queue).0 + load most deepest (splice n queue).1
      ≡ load most deepest queue
unfolding load splice
load-splice most deepest zero queue = omega arith
load-splice most deepest (suc n) [] = omega arith
load-splice most deepest (suc n) (e ∷ queue) = omega (arith, load-splice most deepest n queue)

length-splice : (n : ℕ) (queue : List Entry) → length (splice n queue).0 ≡ min n (length queue)
unfolding splice
length-splice zero queue = omega arith
length-splice (suc n) [] = omega arith
length-splice (suc n) (e ∷ queue) = omega (arith, length-splice n queue)

module _ (web : Web) (config : Config) where
  open config use {max_depth, max_pages}

  round-load :
      (c : Crawl)
      → is_over web config c ≡ false
      → suc (load_of web config (round web config c)) ≤ load_of web config c
  unfolding round round_on
  round-load c going =
      let taken = min (length c.queue) (max_pages - length c.results) in
      let (frontier, rest) = splice taken c.queue in
      omega (
        arith,
        crawl_pages-load web config (length c.results) (splice taken c.queue).0
            (record c { queue = (splice taken c.queue).1 }),
        load-splice max_pages max_depth taken c.queue,
        length-splice taken c.queue,
        some_taken,
      )
    where
      some_taken : 1 ≤ min (min (length c.queue) (max_pages - length c.results)) (length c.queue)
      some_taken = ground arith

  crawl_loop-ends :
      (fuel : ℕ) (c : Crawl)
      → load_of web config c ≤ fuel
      → (d : Crawl) × (crawl_loop web config fuel c ≡ some d)
  unfolding crawl_loop
  crawl_loop-ends zero c h = elim (Bool-cases (is_over web config c)) [
    | inl y ↦ (c, rw y refl)
    | inr n ↦ absurd (omega (arith, round-load c n))
  ]
  crawl_loop-ends (suc fuel) c h = elim (Bool-cases (is_over web config c)) [
    | inl y ↦ (c, rw y refl)
    | inr n ↦
        let (d, e) = crawl_loop-ends fuel (round web config c) (omega (arith, round-load c n)) in
        (d, rw n e)
  ]

seed-light :
    (web : Web) (options : Options) (url : Url) (seed : String) (fuel : ℕ)
    → 2001 ^ 5 ≤ fuel
    → load_of web (config_for web options url) (seed_state web seed) ≤ fuel
unfolding config_for seed_state load
seed-light web options url seed fuel h = omega (
  arith,
  weight-le (config_for web options url).max_pages ((config_for web options url).max_depth - 0)
      (omega arith) (omega arith),
)

-- The crawl of a site ends, whatever the options and whatever the site answers: the loop takes at
-- most 2001 to the power of 5 turns.
pub crawl_site-ends :
    (web : Web) (fuel : ℕ) (options : Options) (seed_url : String)
    → 2001 ^ 5 ≤ fuel
    → crawl_site web fuel options seed_url ≢ out_of_fuel
unfolding crawl_site
crawl_site-ends web fuel options seed_url h = elim (Option-cases (web.canonicalize seed_url none)) [
  | inl e ↦ rw (e, crawl_site) (λ x. cc)
  | inr (seed, e) ↦ elim (Option-cases (web.net.parse_url seed)) [
    | inl n ↦ rw (e, n, crawl_site) (λ x. cc)
    | inr (url, s) ↦ elim (Bool-cases (assert_public_url web.net seed)) [
      | inr b ↦ rw (e, s, b, crawl_site) (λ x. cc)
      | inl b ↦
          let (d, ended) =
            crawl_loop-ends web (config_for web options url) fuel (seed_state web seed)
              (seed-light web options url seed fuel h) in
          rw (e, s, b, ended, crawl_site) (λ x. cc)
    ]
  ]
]
