-- ===== src/UrlCheck/Tests.antt =====
-- url-check at concrete inputs.
use newbie_modules.Common.{
  ℕ, ◌+◌, ◌<◌, ◌≤◌, ◌≡◌, refl, Bool, true, false, none, some, List, [], ◌∷◌, ◌++◌, map, length, any,
  All, ◌==◌, arith,
}
use newbie_modules.Common.Texts.{units}
use newbie_modules.Evaluation.Errors.{Text}
use newbie_modules.UrlCheck.Address.{
  is_blocked_in, is_blocked_address, parse_ipv4, mapped_prefix, expanded_prefix,
}
use newbie_modules.UrlCheck.Address.Octets.{dotted}
use newbie_modules.UrlCheck.Address.Ranges.{is_reserved, is_blocked_address-dotted}
use newbie_modules.UrlCheck.Address.Embedded.{is_blocked_address-mapped}
use newbie_modules.UrlCheck.Alert.{ProbeOutcome, UpdateTarget, State, advance_state, update_target}
use newbie_modules.UrlCheck.Alert.Invariant.{
  IsMatched, checked_once, updated, here, next, Reach-IsMatched,
}
use newbie_modules.UrlCheck.Alert.Hysteresis.{
  Check, ups, replay, log, kind_of, is_decided_open, changes, unchecked, goes_down, goes_up,
  replay_refines,
}
use newbie_modules.UrlCheck.Cycle.{batches, batches_from, join, IsBatch, batches_cover}
use newbie_modules.UrlCheck.Guard.{
  ok, Network, assert_public_http_url, assert_publicly_resolvable, resolve_host,
}
use newbie_modules.UrlCheck.Probe.{visit, follow, probe}
use newbie_modules.UrlCheck.Probe.Safety.{IsSafe, probe-IsSafe}

-- An IPv6 address as far as these inputs need.
abbrev has_colon : Text → Bool
has_colon t = any (λ c. c == b':') t

blocks_loopback : is_blocked_address has_colon (units "127.0.0.1") ≡ some true
unfolding is_blocked_address is_blocked_in parse_ipv4
blocks_loopback = refl

allows_public : is_blocked_address has_colon (units "8.8.8.8") ≡ some false
unfolding is_blocked_address is_blocked_in parse_ipv4
allows_public = refl

blocks_link_local : is_blocked_address has_colon (units "fe80::1") ≡ some true
unfolding is_blocked_address is_blocked_in parse_ipv4
blocks_link_local = refl

blocks_mapped : is_blocked_address has_colon (units "::FFFF:169.254.169.254") ≡ some true
unfolding is_blocked_address is_blocked_in parse_ipv4
blocks_mapped = refl

is_blocked_address-dotted_example :
    is_blocked_address has_colon (dotted 172 31 0 9) ≡ some (is_reserved 172 31)
is_blocked_address-dotted_example =
    is_blocked_address-dotted 172 31 0 9 (omega arith) (omega arith) (omega arith) (omega arith)
      has_colon

is_blocked_address-mapped_example :
    (is_blocked_address has_colon (mapped_prefix ++ dotted 10 0 0 1) ≡ some (is_reserved 10 0))
    × (is_blocked_address has_colon (expanded_prefix ++ dotted 10 0 0 1) ≡ some (is_reserved 10 0))
is_blocked_address-mapped_example =
    is_blocked_address-mapped 10 0 0 1 (omega arith) (omega arith) (omega arith) (omega arith)
      has_colon refl refl

abbrev up : ProbeOutcome
up = record { is_up = true; status_code = some 200; duration_ms = 40; error = [] }

abbrev failing : ProbeOutcome
failing = record { is_up = false; status_code = some 503; duration_ms = 40; error = [] }

abbrev fresh : State
fresh = unchecked 1 2 "Site" (units "https://a.b/")

-- Newest first: three failures, a success, a failure, three successes.
abbrev outage : List Check
outage =
    (up, 8)
    ∷ (up, 7)
    ∷ (up, 6)
    ∷ (failing, 5)
    ∷ (up, 4)
    ∷ (failing, 3)
    ∷ (failing, 2)
    ∷ (failing, 1)
    ∷ []

one_alert : map kind_of (log fresh outage) ≡ goes_up ∷ goes_down ∷ []
unfolding log replay advance_state
one_alert = refl

replay_refines_example :
    ((replay fresh outage).row.is_alert_open ≡ is_decided_open (ups outage))
    × (map kind_of (log fresh outage) ≡ changes (ups outage))
replay_refines_example = replay_refines 1 2 "Site" (units "https://a.b/") outage

abbrev pause : UpdateTarget
pause = record { name = none; url = none; is_active = some false }

fresh-IsMatched : IsMatched fresh
fresh-IsMatched = record { incident = refl; time = λ h. refl; timed = λ h. cc }

Reach-IsMatched_example : IsMatched (
    update_target
      (advance_state fresh.row failing 5 fresh).0.row
      pause
      9
      (advance_state fresh.row failing 5 fresh).0)
Reach-IsMatched_example =
    Reach-IsMatched
      (next (next here (checked_once failing 5 fresh))
        (updated pause 9 (advance_state fresh.row failing 5 fresh).0))
      fresh-IsMatched

-- A site that redirects to the metadata address.
abbrev redirecting : Network ℕ
redirecting = record {
  is_ipv6 = has_colon;
  parse_url = λ text. some (record { protocol = units "http:"; hostname = text });
  resolve = λ location base. ok location;
  lookup = λ host w. (ok (units "8.8.8.8" ∷ []), w + 1);
  fetch = λ url w. (ok (record { status = 302; location = some (units "169.254.169.254") }), w + 1);
}

blocks_redirect : length (probe redirecting 40 (units "a.b") 0).1.fetched ≡ 1
unfolding probe follow visit assert_public_http_url assert_publicly_resolvable resolve_host
    is_blocked_address is_blocked_in parse_ipv4
blocks_redirect = refl

probe-IsSafe_example :
    let (outcome, run) = probe redirecting 40 (units "a.b") 0 in
    IsSafe redirecting 6 run
    × (outcome.is_up ≡ true
        → (status : ℕ) × (run.result ≡ ok status) × (status < 400) × (1 ≤ length run.fetched))
probe-IsSafe_example = probe-IsSafe redirecting 40 (units "a.b") 0

abbrev twelve : List ℕ
twelve = 1 ∷ 2 ∷ 3 ∷ 4 ∷ 5 ∷ 6 ∷ 7 ∷ 8 ∷ 9 ∷ 10 ∷ 11 ∷ 12 ∷ []

batches_cover_example : (join (batches twelve) ≡ twelve) × All IsBatch (batches twelve)
batches_cover_example = batches_cover twelve

batches-twelve : map length (batches twelve) ≡ 10 ∷ 2 ∷ []
unfolding batches batches_from
batches-twelve = refl
