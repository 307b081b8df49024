-- ===== src/UrlCheck/Probe/Safety.antt =====
-- What a probe of url-check/url-check-probe.service.ts may fetch, and how often.
use newbie_modules.Common.{
  ℕ, zero, suc, ◌≤◌, ◌≡◌, ◌⊎◌, refl, true, false, none, some, List, [], ◌∷◌, length, All,
  Bool-cases, Option-cases, inl, inr, arith, ltb_iff, ◌<◌,
}
use newbie_modules.Evaluation.Errors.{Text}
use newbie_modules.UrlCheck.Address.{is_ip}
use newbie_modules.UrlCheck.Guard.{
  Reply, ok, thrown, Url, Response, Network, url_host, is_http, is_blocked, find_blocked,
  all_public, resolve_host, assert_public_http_url, assert_publicly_resolvable,
}
use newbie_modules.UrlCheck.Probe.{
  Run, stopped, on_response, redirect_of, visit, too_many, follow, probe, max_redirects,
}

Reply-cases : {A : Type 0} (r : Reply A) → ((m : Text) × (r ≡ thrown m)) ⊎ ((a : A) × (r ≡ ok a))
Reply-cases (ok a) = inr (a, refl)
Reply-cases (thrown m) = inl (m, refl)

module _ {W : Type 0} (net : Network W) where
  open net use {is_ipv6, parse_url, lookup}

  -- A host is a public address, or a name and every address that the lookup gave is public.
  abbrev pub IsPublicHost : Text → W → Type 0
  IsPublicHost host w =
      ((is_ip is_ipv6 host ≡ true) × (is_blocked net host ≡ false))
      ⊎ ((is_ip is_ipv6 host ≡ false)
          × ((addresses : List Text) × ((lookup host w).0 ≡ ok addresses)
              × All (λ a. is_blocked net a ≡ false) addresses))

  -- What was checked of a URL before it is fetched.
  pub record IsAllowed (fetched : Text × W) : Type 0 where
    pub url : Url
    pub parsed : parse_url fetched.0 ≡ some url
    pub http : is_http url.protocol ≡ true
    pub public : IsPublicHost (url_host url) fetched.1

  find_blocked-none :
      (as' : List Text) → find_blocked net as' ≡ none → All (λ a. is_blocked net a ≡ false) as'
  find_blocked-none [] h = tt
  find_blocked-none (a ∷ as') h = elim (Bool-cases (is_blocked net a)) [
    | inl bad ↦ absurd (cc (rw bad at h))
    | inr good ↦ (good, find_blocked-none as' (rw good at h))
  ]

  all_public_ok :
      (host : Text) (as' : List Text) (u : Unit {0})
      → all_public net host as' ≡ ok u
      → All (λ a. is_blocked net a ≡ false) as'
  all_public_ok host as' u h = elim (Option-cases (find_blocked net as')) [
    | inl clear ↦ find_blocked-none as' clear
    | inr (a, bad) ↦ absurd (cc (rw (bad, all_public) at h))
  ]

  resolve_host_ok :
      (host : Text) (w : W) (u : Unit {0})
      → (resolve_host net host w).0 ≡ ok u
      → (addresses : List Text) × ((lookup host w).0 ≡ ok addresses)
        × All (λ a. is_blocked net a ≡ false) addresses
  unfolding resolve_host
  resolve_host_ok host w u h = elim (Reply-cases (lookup host w).0) [
    | inl (m, failed) ↦ absurd (cc (rw (failed, resolve_host) at h))
    | inr (as', found) ↦ (as', found, all_public_ok host as' u (rw (found, resolve_host) at h))
  ]

  resolvable_ok :
      (raw : Text) (w : W) (url : Url) (u : Unit {0})
      → parse_url raw ≡ some url
      → (assert_publicly_resolvable net raw w).0 ≡ ok u
      → IsPublicHost (url_host url) w
  unfolding assert_publicly_resolvable
  resolvable_ok raw w url u parsed h = elim (Bool-cases (is_ip is_ipv6 (url_host url))) [
    | inl ip ↦ elim (Bool-cases (is_blocked net (url_host url))) [
      | inl bad ↦ absurd (cc (rw (parsed, assert_publicly_resolvable, ip, bad) at h))
      | inr good ↦ inl (ip, good)
    ]
    | inr name ↦ inr (
      name,
      resolve_host_ok (url_host url) w u (rw (parsed, assert_publicly_resolvable, name) at h),
    )
  ]

  http_ok :
      (raw : Text) (u : Unit {0})
      → assert_public_http_url net raw ≡ ok u
      → (url : Url) × (parse_url raw ≡ some url) × (is_http url.protocol ≡ true)
  unfolding assert_public_http_url
  http_ok raw u h = elim (Option-cases (parse_url raw)) [
    | inl bad ↦ absurd (cc (rw (bad, assert_public_http_url) at h))
    | inr (url, parsed) ↦ elim (Bool-cases (is_http url.protocol)) [
      | inr other ↦ absurd (cc (rw (parsed, assert_public_http_url, other) at h))
      | inl good ↦ (url, parsed, good)
    ]
  ]

  -- Everything fetched was allowed, at most `n` URLs, and one at least if there is a status.
  pub record IsSafe (n : ℕ) (run : Run W) : Type 0 where
    pub allowed : All IsAllowed run.fetched
    pub bounded : length run.fetched ≤ n
    pub asked : (status : ℕ) → run.result ≡ ok status → 1 ≤ length run.fetched

  -- The same of a run that continues one with a request.
  record IsRest (n : ℕ) (run : Run W) : Type 0 where
    allowed : All IsAllowed run.fetched
    bounded : length run.fetched ≤ n

  stopped-IsSafe : (n : ℕ) (m : Text) (w : W) → IsSafe n (stopped (thrown m) w)
  stopped-IsSafe n m w = record { allowed = tt; bounded = omega arith; asked = λ status h. cc }

  stopped-IsRest : (n : ℕ) (r : Reply ℕ) (w : W) → IsRest n (stopped r w)
  stopped-IsRest n r w = record { allowed = tt; bounded = omega arith }

  on_response-IsRest :
      (n : ℕ) (redirect : Text → W → Run W) (reply : Reply Response) (w : W)
      → ((location : Text) (w' : W) → IsRest n (redirect location w'))
      → IsRest n (on_response redirect reply w)
  on_response-IsRest n redirect (thrown m) w h = stopped-IsRest n (thrown m) w
  on_response-IsRest n redirect (ok response) w h = elim (Option-cases (redirect_of response)) [
    | inl none_of ↦ rw (none_of, on_response) (stopped-IsRest n (ok response.status) w)
    | inr (location, there) ↦ rw (there, on_response) (h location w)
  ]

  visit-IsSafe :
      (n : ℕ) (redirect : Text → W → Run W) (url : Text) (w : W)
      → ((location : Text) (w' : W) → IsRest n (redirect location w'))
      → IsSafe (suc n) (visit net redirect url w)
  unfolding visit
  visit-IsSafe n redirect url w h = elim (Reply-cases (assert_public_http_url net url)) [
    | inl (m, refused) ↦ rw (refused, visit) (stopped-IsSafe (suc n) m w)
    | inr (u, http) ↦
        let guard = assert_publicly_resolvable net url w in
        elim (Reply-cases guard.0) [
          | inl (m, refused) ↦ rw (http, visit, refused) (stopped-IsSafe (suc n) m guard.1)
          | inr (v, public) ↦
              let (parsed_url, parsed, scheme) = http_ok url u http in
              let (reply, w') = net.fetch url guard.1 in
              let rest = on_response-IsRest n redirect reply w' h in
              rw (http, visit, public)
                (record {
                  allowed = (
                    record {
                      url = parsed_url;
                      parsed = parsed;
                      http = scheme;
                      public = resolvable_ok url w parsed_url v parsed public;
                    },
                    rest.allowed,
                  );
                  bounded = omega (arith, rest.bounded);
                  asked = λ status k. omega arith;
                })
        ]
  ]

  IsSafe-IsRest : (n : ℕ) (run : Run W) → IsSafe n run → IsRest n run
  IsSafe-IsRest n run h = record { allowed = h.allowed; bounded = h.bounded }

  follow-IsSafe : (left : ℕ) (url : Text) (w : W) → IsSafe (suc left) (follow net left url w)
  unfolding follow
  follow-IsSafe zero url w =
      visit-IsSafe 0 (too_many net) url w (λ location w'. stopped-IsRest 0 (thrown _) w')
  follow-IsSafe (suc left) url w = visit-IsSafe (suc left) _ url w (λ location w'.
      elim (Reply-cases (net.resolve location url)) [
        | inl (m, refused) ↦ rw refused (stopped-IsRest (suc left) (thrown m) w')
        | inr (next, found) ↦
            rw found
              (IsSafe-IsRest (suc left) (follow net left next w') (follow-IsSafe left next w'))
      ])

  -- Whatever the network answers and however it changes, a probe requests at most six URLs, and
  -- each only after that URL was found to be http or https with a host that is a public address or
  -- a name whose addresses were all public in a lookup; a target counts as up only if a request was
  -- made and answered with a status below 400.
  pub probe-IsSafe :
      (duration_ms : ℕ) (url : Text) (w : W)
      → let (outcome, run) = probe net duration_ms url w in
        IsSafe 6 run
        × (outcome.is_up ≡ true
            → (status : ℕ) × (run.result ≡ ok status) × (status < 400) × (1 ≤ length run.fetched))
  unfolding probe
  probe-IsSafe duration_ms url w =
      let run = follow net max_redirects url w in
      let safe = follow-IsSafe max_redirects url w in
      (
        safe,
        λ up. elim (Reply-cases run.result) [
          | inl (m, failed) ↦ absurd (cc (rw failed at up))
          | inr (status, answered) ↦ (
            status,
            answered,
            (ltb_iff status 400).0 (rw answered at up),
            safe.asked status answered,
          )
        ],
      )
