-- ===== src/UrlCheck/Address/Ranges.antt =====
-- The blocked ranges of url-check/public-url.ts against the reserved networks they stand for.
use newbie_modules.Common.{
  ℕ, ◌+◌, ◌*◌, ◌/◌, ◌<◌, ◌^◌, ◌≡◌, ap, Bool, ◌&&◌, ◌||◌, some, leb, ◌==◌, arith,
}
use newbie_modules.Common.Bits.{
  bit_and-mask4, bit_and-mask8, bit_and-mask10, bit_and-mask12, bit_and-mask16,
}
use newbie_modules.Evaluation.Errors.{Text}
use newbie_modules.UrlCheck.Address.{is_blocked_ipv4, is_blocked_in, is_blocked_address}
use newbie_modules.UrlCheck.Address.Octets.{dotted, dotted-is_ipv4, parse_ipv4-dotted}

-- 0/8, 10/8, 100.64/10, 127/8, 169.254/16, 172.16/12, 192.168/16, 224/4 and 240/4.
abbrev pub is_reserved : ℕ → ℕ → Bool
is_reserved a b =
    a == 0
    || (a == 10
        || (a == 100 && (leb 64 b && leb b 127)
            || (a == 127
                || (a == 169 && b == 254
                    || (a == 172 && (leb 16 b && leb b 31)
                        || (a == 192 && b == 168 || leb 224 a))))))

abbrev pub value : ℕ → ℕ → ℕ → ℕ → ℕ
value a b c d = ((a * 256 + b) * 256 + c) * 256 + d

module _ (a b c d : ℕ) (ha : a < 256) (hb : b < 256) (hc : c < 256) (hd : d < 256) where
  pub ranges_reserved : is_blocked_ipv4 (some (value a b c d)) ≡ is_reserved a b
  ranges_reserved =
      let v = value a b c d in
      let small : v < 2 ^ 32 = omega arith in
      let p24 : v / 2 ^ 24 ≡ a = omega arith in
      let p22 : v / 2 ^ 22 ≡ a * 4 + b / 64 = omega arith in
      let p16 : v / 2 ^ 16 ≡ a * 256 + b = omega arith in
      let p20 : v / 2 ^ 20 ≡ a * 16 + b / 16 = omega arith in
      let p28 : v / 2 ^ 28 ≡ a / 16 = omega arith in
      rw
        (
          bit_and-mask4 v small,
          bit_and-mask8 v small,
          bit_and-mask10 v small,
          bit_and-mask12 v small,
          bit_and-mask16 v small,
          p24,
          p22,
          p16,
          p20,
          p28,
        )
        (ground arith)

  -- A written IPv4 address is blocked exactly if it lies in one of the nine reserved networks.
  pub is_blocked_address-dotted :
      (is_ipv6 : Text → Bool) → is_blocked_address is_ipv6 (dotted a b c d) ≡ some (is_reserved a b)
  unfolding is_blocked_address is_blocked_in
  is_blocked_address-dotted is_ipv6 =
      rw (dotted-is_ipv4 a b c d ha hb hc hd, parse_ipv4-dotted a b c d ha hb hc hd)
        (ap some ranges_reserved)
