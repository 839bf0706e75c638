-- ===== src/Ai/Ssrf.antt =====
-- Which addresses the crawler may ask (packages/ai/src/web/ssrf.ts). `new URL`, ipaddr.js, the
-- resolver and lower-casing are the record `Net`.
pub mod Hosts
use optra.Prelude.{
  Bool, true, false, not, ◌||◌, ◌&&◌, ◌≡◌, ◌⊎◌, inl, inr, refl, String, ◌==◌, eq_iff, Option, none,
  some, List, [], ◌∷◌, any, All, Bool-cases, Option-cases, if◌then◌else◌, ends_with, is_some,
  or_else, arith,
}
use Hosts.{drop_dot, strip_brackets}

-- What a URL object says.
pub record Url : Type 0 where
  pub href : String
  pub protocol : String
  pub hostname : String
  pub origin : String
  pub pathname : String

pub record Net : Type 1 where
  -- new URL(text), or nothing when it throws
  pub parse_url : String → Option Url
  pub lower : String → String
  pub Ip : Type 0
  -- ipaddr.parse, or nothing when it throws; isValid says whether it does
  pub parse_ip : String → Option Ip
  -- the IPv4 address that an IPv4-mapped IPv6 address stands for
  pub mapped_ipv4 : Ip → Option Ip
  pub ip_text : Ip → String
  pub range : Ip → String
  -- the addresses of a host, or nothing when the resolver rejects
  pub lookup : String → Option (List String)

pub is_one_of : List String → String → Bool
is_one_of names name = any (λ n. n == name) names

abbrev blocked_hostnames : List String
blocked_hostnames = "localhost" ∷ "metadata.google.internal" ∷ []

abbrev blocked_suffixes : List String
blocked_suffixes = ".local" ∷ ".internal" ∷ []

abbrev pub blocked_ranges : List String
blocked_ranges =
    "private" ∷ "loopback" ∷ "linkLocal" ∷ "uniqueLocal" ∷ "reserved" ∷ "unspecified"
    ∷ "carrierGradeNat" ∷ "broadcast" ∷ []

abbrev pub metadata_ip : String
metadata_ip = "169.254.169.254"

module _ (net : Net) where
  open net use {parse_url, lower, Ip, parse_ip, mapped_ipv4, ip_text, range, lookup}

  unfoldable pub is_blocked_hostname : String → Bool
  unfolding drop_dot is_one_of
  is_blocked_hostname hostname =
      let normalized = drop_dot (lower hostname) in
      is_one_of blocked_hostnames normalized || any (ends_with normalized) blocked_suffixes

  -- The address itself, or the IPv4 address that it maps.
  abbrev pub normalized_ip : Ip → Ip
  normalized_ip ip = or_else (mapped_ipv4 ip) ip

  unfoldable pub is_private_parsed : Option Ip → Bool
  unfolding is_one_of
  is_private_parsed none = true
  is_private_parsed (some ip) =
      (ip_text (normalized_ip ip) == metadata_ip)
      || is_one_of blocked_ranges (range (normalized_ip ip))

  unfoldable pub is_private_ip : String → Bool
  unfolding is_private_parsed
  is_private_ip ip =
      (strip_brackets ip == metadata_ip) || is_private_parsed (parse_ip (strip_brackets ip))

  -- The addresses of the lookup, which may reject.
  unfoldable pub are_public : Option (List String) → Bool
  are_public none = false
  are_public (some addresses) = not (any is_private_ip addresses)

  -- ipaddr.isValid(host): the literal address, or else the host's addresses.
  unfoldable pub is_public_host : String → Bool
  unfolding are_public
  is_public_host host =
      if is_some (parse_ip host) then not (is_private_ip host) else are_public (lookup host)

  unfoldable pub is_public_url : Option Url → Bool
  unfolding is_public_host
  is_public_url none = false
  is_public_url (some url) =
      let host = strip_brackets (lower url.hostname) in
      ((url.protocol == "http:") || (url.protocol == "https:"))
      && not (is_blocked_hostname host)
      && is_public_host host

  -- assertPublicUrl: whether it resolves, rather than throws.
  unfoldable pub assert_public_url : String → Bool
  unfolding is_public_url
  assert_public_url raw_url = is_public_url (parse_url raw_url)

  -- An address that parses, and neither is the metadata service's nor lies in a blocked range.
  abbrev pub IsPublicIp : String → Type 0
  IsPublicIp text =
      (ip : Ip) × (parse_ip (strip_brackets text) ≡ some ip)
      × ((ip_text (normalized_ip ip) == metadata_ip) ≡ false)
      × (is_one_of blocked_ranges (range (normalized_ip ip)) ≡ false)

  is_private_ip-IsPublicIp : (text : String) → is_private_ip text ≡ false → IsPublicIp text
  unfolding is_private_ip is_private_parsed
  is_private_ip-IsPublicIp text h = elim (Option-cases (parse_ip (strip_brackets text))) [
    | inl n ↦ ground (arith, n)
    | inr (ip, s) ↦ (ip, s, ground (arith, s), ground (arith, s))
  ]

  private_free : (texts : List String) → any is_private_ip texts ≡ false → All IsPublicIp texts
  private_free [] h = tt
  private_free (t ∷ ts) h =
      (is_private_ip-IsPublicIp t (ground arith), private_free ts (ground arith))

  abbrev pub host_of : Url → String
  host_of url = strip_brackets (lower url.hostname)

  -- What the crawler may ask for: an http or https URL whose host is not one of the blocked names,
  -- and is a public address, or resolves to public addresses only.
  abbrev pub IsPublicUrl : String → Type 0
  IsPublicUrl raw_url =
      (url : Url) × (parse_url raw_url ≡ some url)
      × ((url.protocol ≡ "http:") ⊎ (url.protocol ≡ "https:"))
      × (is_blocked_hostname (host_of url) ≡ false)
      × (IsPublicIp (host_of url)
          ⊎ (addresses : List String) × (lookup (host_of url) ≡ some addresses)
            × All IsPublicIp addresses)

  are_public-All :
      (found : Option (List String))
      → are_public found ≡ true
      → (addresses : List String) × (found ≡ some addresses) × All IsPublicIp addresses
  unfolding are_public
  are_public-All none h = ground arith
  are_public-All (some texts) h = (texts, refl, private_free texts (ground arith))

  is_public_host-cases :
      (host : String)
      → is_public_host host ≡ true
      → IsPublicIp host
        ⊎ (addresses : List String) × (lookup host ≡ some addresses) × All IsPublicIp addresses
  unfolding is_public_host
  is_public_host-cases host h = elim (Bool-cases (is_some (parse_ip host))) [
    | inl y ↦ inl (is_private_ip-IsPublicIp host (ground (arith, rw y at h)))
    | inr n ↦ inr (are_public-All (lookup host) (rw n at h))
  ]

  -- A URL that passes has http or https for its protocol, its host is none of the blocked names, and
  -- the host is a public address or all its addresses are public: each parses, lies in no blocked
  -- range, and neither it nor the IPv4 address that it maps is the metadata service's.
  pub assert_public_url-IsPublicUrl :
      (raw_url : String) → assert_public_url raw_url ≡ true → IsPublicUrl raw_url
  unfolding assert_public_url is_public_url
  assert_public_url-IsPublicUrl raw_url h = elim (Option-cases (parse_url raw_url)) [
    | inl n ↦ ground (arith, n)
    | inr (url, s) ↦
        let k = rw s at h in
        (
          url,
          s,
          ground (arith, eq_iff url.protocol "http:", eq_iff url.protocol "https:"),
          ground arith,
          is_public_host-cases (host_of url) (ground arith),
        )
  ]
