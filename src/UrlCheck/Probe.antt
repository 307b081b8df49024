-- ===== src/UrlCheck/Probe.antt =====
-- `probe` of url-check/url-check-probe.service.ts: the loop over redirects. A run also gives the
-- list of what it fetched, each with the network as its guards found it. The time that the probe
-- took is an argument; a timeout is a failure of `fetch`.
use newbie_modules.Common.{
  ℕ, zero, suc, Bool, true, false, ◌&&◌, ◌||◌, Option, none, some, List, [], ◌∷◌, ◌++◌, take, ltb,
  ◌==◌, if◌then◌else◌,
}
use newbie_modules.Common.Texts.{units}
use newbie_modules.Evaluation.Errors.{Text}
use newbie_modules.UrlCheck.Alert.{ProbeOutcome}
use newbie_modules.UrlCheck.Guard.{
  Reply, ok, thrown, Response, Network, assert_public_http_url, assert_publicly_resolvable,
}
pub mod Safety

abbrev pub max_redirects : ℕ
max_redirects = 5

abbrev pub up_status_ceiling : ℕ
up_status_ceiling = 400

abbrev pub is_redirect_status : ℕ → Bool
is_redirect_status s = s == 301 || (s == 302 || (s == 303 || (s == 307 || s == 308)))

-- `response.headers.get("location")` where it is truthy.
abbrev pub location_of : Option Text → Option Text
location_of none = none
location_of (some []) = none
location_of (some (c ∷ cs)) = some (c ∷ cs)

-- Where the response redirects to, if it does.
abbrev pub redirect_of : Response → Option Text
redirect_of r = if is_redirect_status r.status then location_of r.location else none

pub record Run (W : Type 0) : Type 0 where
  pub result : Reply ℕ
  pub fetched : List (Text × W)
  pub world : W

abbrev pub stopped : {W : Type 0} → Reply ℕ → W → Run W
stopped result w = record { result = result; fetched = []; world = w }

abbrev pub after_fetch : {W : Type 0} → Text → W → Run W → Run W
after_fetch url w run = record run { fetched = (url, w) ∷ run.fetched }

-- What follows the response; `redirect` is the rest of the loop, where there is a location.
abbrev pub on_response : {W : Type 0} → (Text → W → Run W) → Reply Response → W → Run W
on_response redirect (thrown message) w = stopped (thrown message) w
on_response redirect (ok response) w = elim (redirect_of response) [
  | none ↦ stopped (ok response.status) w
  | some location ↦ redirect location w
]

module _ {W : Type 0} (net : Network W) where
  open net use {resolve, fetch}

  -- The guards, the request and what follows it.
  unfoldable pub visit : (Text → W → Run W) → Text → W → Run W
  visit redirect url w = elim (assert_public_http_url net url) [
    | thrown message ↦ stopped (thrown message) w
    | ok u ↦
        let (allowed, w') = assert_publicly_resolvable net url w in
        elim allowed [
          | thrown message ↦ stopped (thrown message) w'
          | ok v ↦
              let (reply, w'') = fetch url w' in after_fetch url w (on_response redirect reply w'')
        ]
  ]

  abbrev pub too_many : Text → W → Run W
  too_many location w = stopped (thrown (units "Too many redirects (>5)")) w

  -- The rounds of the loop from a hop on; `left` is `MAX_REDIRECTS - hop`. The result is the status
  -- of the last response.
  unfoldable pub follow : ℕ → Text → W → Run W
  follow zero url w = visit too_many url w
  follow (suc left) url w =
      visit
        (λ location w'. elim (resolve location url) [
          | thrown message ↦ stopped (thrown message) w'
          | ok next ↦ follow left next w'
        ])
        url w

  abbrev pub outcome_of : ℕ → Reply ℕ → ProbeOutcome
  outcome_of duration_ms (ok status) = record {
    is_up = ltb status up_status_ceiling;
    status_code = some status;
    duration_ms = duration_ms;
    error = [];
  }
  outcome_of duration_ms (thrown message) = record {
    is_up = false;
    status_code = none;
    duration_ms = duration_ms;
    error = take 1000 message;
  }

  unfoldable pub probe : ℕ → Text → W → ProbeOutcome × Run W
  probe duration_ms url w =
      let run = follow max_redirects url w in (outcome_of duration_ms run.result, run)
