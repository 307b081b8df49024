-- ===== src/UrlCheck/Guard.antt =====
-- `assertPublicHttpUrl` and `assertPubliclyResolvable` of url-check/public-url.ts. Node's `URL` and
-- `dns.lookup` are parameters; `W` is the state of the network, which a query may change. Each
-- exception is its message.
use newbie_modules.Common.{
  ℕ, Bool, true, ◌&&◌, ◌||◌, not, Option, none, some, List, [], ◌∷◌, ◌++◌, ◌==◌, if◌then◌else◌,
}
use newbie_modules.Common.Texts.{units, text_eq}
use newbie_modules.Evaluation.Errors.{Text}
use newbie_modules.UrlCheck.Address.{is_blocked_address, is_ip}

pub data Reply {ℓ} (A : Type ℓ) : Type ℓ where
  ok : A → Reply A
  thrown : (message : Text) → Reply A

pub record Url : Type 0 where
  pub protocol : Text
  pub hostname : Text

pub record Response : Type 0 where
  pub status : ℕ
  pub location : Option Text

pub record Network (W : Type 0) : Type 0 where
  pub is_ipv6 : Text → Bool
  -- `new URL(text)`
  pub parse_url : Text → Option Url
  -- `new URL(location, base).href`
  pub resolve : (location base : Text) → Reply Text
  -- `dns.lookup(host, { all: true })`
  pub lookup : Text → W → Reply (List Text) × W
  pub fetch : Text → W → Reply Response × W

abbrev strip_last : Text → Text → Option Text
strip_last inner [] = none
strip_last inner (c ∷ []) = if c == b']' then some inner else none
strip_last inner (c ∷ d ∷ cs) = strip_last (inner ++ c ∷ []) (d ∷ cs)

abbrev or_else : Option Text → Text → Text
or_else none host = host
or_else (some inner) host = inner

-- `url.hostname.replace(/^\[(.*)\]$/, "$1")`; a host name has no line break.
abbrev pub strip_brackets : Text → Text
strip_brackets [] = []
strip_brackets (c ∷ cs) = if c == b'[' then or_else (strip_last [] cs) (c ∷ cs) else c ∷ cs

abbrev pub url_host : Url → Text
url_host url = strip_brackets url.hostname

abbrev pub is_http : Text → Bool
is_http protocol = text_eq protocol (units "http:") || text_eq protocol (units "https:")

module _ {W : Type 0} (net : Network W) where
  open net use {is_ipv6, parse_url, lookup}

  -- The fuel of `is_blocked_address` always suffices.
  abbrev pub is_blocked : Text → Bool
  is_blocked address = elim (is_blocked_address is_ipv6 address) [
    | none ↦ true
    | some verdict ↦ verdict
  ]

  unfoldable pub assert_public_http_url : Text → Reply (Unit {0})
  assert_public_http_url raw = elim (parse_url raw) [
    | none ↦ thrown (units "Invalid URL: " ++ raw)
    | some url ↦
        if not (is_http url.protocol)
        then thrown (units "Only http(s) URLs can be monitored: " ++ raw)
        else if is_ip is_ipv6 (url_host url) && is_blocked (url_host url)
        then thrown (units "URL host is not a public address: " ++ url_host url)
        else ok tt
  ]

  abbrev pub find_blocked : List Text → Option Text
  find_blocked [] = none
  find_blocked (a ∷ as') = if is_blocked a then some a else find_blocked as'

  abbrev pub all_public : Text → List Text → Reply (Unit {0})
  all_public host addresses = elim (find_blocked addresses) [
    | none ↦ ok tt
    | some a ↦
        thrown
          (units "Probe blocked: " ++ (host ++ (units " resolves to non-public address " ++ a)))
  ]

  unfoldable pub resolve_host : Text → W → Reply (Unit {0}) × W
  resolve_host host w =
      let (answer, w') = lookup host w in
      elim answer [
        | thrown message ↦ (thrown message, w')
        | ok addresses ↦ (all_public host addresses, w')
      ]

  unfoldable pub assert_publicly_resolvable : Text → W → Reply (Unit {0}) × W
  assert_publicly_resolvable raw w = elim (parse_url raw) [
    | none ↦ (thrown (units "Invalid URL"), w)
    | some url ↦
        if is_ip is_ipv6 (url_host url)
        then (if is_blocked (url_host url)
            then (
              thrown
                  (units "Probe blocked: " ++ (url_host url ++ units " is not a public address")),
              w,
            )
            else (ok tt, w))
        else resolve_host (url_host url) w
  ]
