-- ===== src/UrlCheck/Address.antt =====
-- Which addresses the guard of url-check/public-url.ts blocks. An address is a list of UTF-16 code
-- units. `isIP` is Node's: an IPv4 address is four decimal numbers up to 255 without a leading zero;
-- which texts are IPv6 addresses is a parameter `is_ipv6`.
use Prim.Native.Nat.{bit_and}
use newbie_modules.Common.{
  ℕ, zero, suc, ◌+◌, ◌-◌, ◌*◌, ◌%◌, ◌^◌, Bool, true, false, ◌&&◌, ◌||◌, not, Option, none, some,
  List, [], ◌∷◌, map, any, all, length, drop, ltb, leb, ◌==◌, if◌then◌else◌,
}
use newbie_modules.Common.Texts.{units, text_eq, starts_with, split, is_digit, lower}
use newbie_modules.Evaluation.Errors.{Text}
pub mod Octets
pub mod Ranges
pub mod Mapped
pub mod Embedded

pub record AddressRange : Type 0 where
  pub base : ℕ
  pub prefix : ℕ

abbrev range : ℕ → ℕ → AddressRange
range base prefix = record { base = base; prefix = prefix }

abbrev pub blocked_ipv4_ranges : List AddressRange
blocked_ipv4_ranges =
    range 0x00000000 8
    ∷ range 0x0a000000 8
    ∷ range 0x64400000 10
    ∷ range 0x7f000000 8
    ∷ range 0xa9fe0000 16
    ∷ range 0xac100000 12
    ∷ range 0xc0a80000 16
    ∷ range 0xe0000000 4
    ∷ range 0xf0000000 4
    ∷ []

-- `Number(part)` of a text of digits.
abbrev pub decimal_from : ℕ → Text → ℕ
decimal_from value [] = value
decimal_from value (c ∷ cs) = decimal_from (value * 10 + (c - b'0')) cs

abbrev pub decimal : Text → ℕ
decimal = decimal_from 0

-- `/^\d{1,3}$/`
abbrev pub is_short_number : Text → Bool
is_short_number part = leb 1 (length part) && leb (length part) 3 && all is_digit part

-- The loop over the parts.
abbrev pub parse_parts : ℕ → List Text → Option ℕ
parse_parts value [] = some value
parse_parts value (part ∷ parts) =
    let rest = parse_parts (value * 256 + decimal part) parts in
    if is_short_number part then (if ltb 255 (decimal part) then none else rest) else none

unfoldable pub parse_ipv4 : Text → Option ℕ
parse_ipv4 address =
    let parts = split b'.' address in if length parts == 4 then parse_parts 0 parts else none

abbrev pub has_leading_zero : Text → Bool
has_leading_zero [] = false
has_leading_zero (c ∷ []) = false
has_leading_zero (c ∷ d ∷ cs) = c == b'0'

abbrev pub is_octet : Text → Bool
is_octet part = is_short_number part && not (has_leading_zero part) && leb (decimal part) 255

abbrev pub is_ipv4 : Text → Bool
is_ipv4 address = let parts = split b'.' address in length parts == 4 && all is_octet parts

-- `prefix === 0 ? 0 : (0xffffffff << (32 - prefix)) >>> 0`, a shift of 32-bit words.
abbrev pub mask_of : ℕ → ℕ
mask_of prefix = if prefix == 0 then 0 else 0xffffffff * 2 ^ (32 - prefix) % 2 ^ 32

-- Both sides are 32-bit words, so that comparing them without a sign gives the same.
abbrev pub is_in_range : ℕ → AddressRange → Bool
is_in_range value r = bit_and value (mask_of r.prefix) == bit_and r.base (mask_of r.prefix)

abbrev pub hex_digit : ℕ → Option ℕ
hex_digit c =
    if is_digit c
    then some (c - b'0')
    else if leb b'a' c && leb c b'f'
    then some (c - b'a' + 10)
    else none

-- `parseInt(text, 16)`: the digits up to the first other unit. `NaN` is 0 under `&`, as here.
abbrev pub parse_hex : ℕ → Text → ℕ
parse_hex value [] = value
parse_hex value (c ∷ cs) = elim (hex_digit c) [
  | none ↦ value
  | some d ↦ parse_hex (value * 16 + d) cs
]

abbrev pub first_part : List Text → Text
first_part [] = []
first_part (p ∷ ps) = p

abbrev pub first_hextet : Text → ℕ
first_hextet normalized = parse_hex 0 (first_part (split b':' normalized))

abbrev pub is_local_hextet : ℕ → Bool
is_local_hextet h = bit_and h 0xffc0 == 0xfe80 || bit_and h 0xfe00 == 0xfc00

abbrev pub mapped_prefix : Text
mapped_prefix = units "::ffff:"

abbrev pub expanded_prefix : Text
expanded_prefix = units "0:0:0:0:0:ffff:"

abbrev pub is_unspecified_or_loopback : Text → Bool
is_unspecified_or_loopback t = text_eq t (units "::") || text_eq t (units "::1")

abbrev pub is_blocked_ipv4 : Option ℕ → Bool
is_blocked_ipv4 none = true
is_blocked_ipv4 (some value) = any (is_in_range value) blocked_ipv4_ranges

module _ (is_ipv6 : Text → Bool) where
  -- `isBlockedAddress`, which calls itself on the address that an IPv6 one maps: `none` is fuel that
  -- ran out.
  unfoldable pub is_blocked_in : ℕ → Text → Option Bool
  is_blocked_in zero raw = none
  is_blocked_in (suc fuel) raw =
      let normalized = map lower raw in
      let mapped = is_blocked_in fuel (drop (length mapped_prefix) normalized) in
      let expanded = is_blocked_in fuel (drop (length expanded_prefix) normalized) in
      if is_ipv4 raw
      then some (is_blocked_ipv4 (parse_ipv4 raw))
      else if is_ipv6 raw
      then (if is_unspecified_or_loopback normalized
          then some true
          else if starts_with mapped_prefix normalized
          then mapped
          else if starts_with expanded_prefix normalized
          then expanded
          else some (is_local_hextet (first_hextet normalized)))
      else some true

  unfoldable pub is_blocked_address : Text → Option Bool
  is_blocked_address raw = is_blocked_in (suc (length raw)) raw

  abbrev pub is_ip : Text → Bool
  is_ip host = is_ipv4 host || is_ipv6 host
