-- ===== src/UrlCheck/Address/Embedded.antt =====
-- IPv6 addresses with an IPv4 one in dotted decimals at their end, in url-check/public-url.ts.
use newbie_modules.Common.{
  ℕ, suc, ◌<◌, ◌≡◌, refl, sym, ap, ◌∙◌, Bool, true, false, ◌&&◌, some, List, [], ◌∷◌, ◌++◌, map,
  all, length, length-append, drop, ◌==◌, arith,
}
use newbie_modules.Common.Texts.{split, cons_part, lower, starts_with}
use newbie_modules.Evaluation.Errors.{Text}
use newbie_modules.UrlCheck.Address.{
  is_ipv4, is_octet, is_blocked_in, is_blocked_address, mapped_prefix, expanded_prefix,
  is_unspecified_or_loopback,
}
use newbie_modules.UrlCheck.Address.Octets.{octet_text, dotted, octet_text-IsWritten}
use newbie_modules.UrlCheck.Address.Ranges.{is_reserved, is_blocked_address-dotted}
use newbie_modules.UrlCheck.Address.Mapped.{is_blocked_address-Decides}

map-append : (f : ℕ → ℕ) (s t : Text) → map f (s ++ t) ≡ map f s ++ map f t
map-append f [] t = refl
map-append f (c ∷ s) t = ap (λ r. f c ∷ r) (map-append f s t)

colon_first :
    (parts : List Text)
    → (length (cons_part b':' parts) == 4 && all is_octet (cons_part b':' parts)) ≡ false
colon_first [] = ground arith
colon_first (p ∷ ps) = ground arith

colon_second :
    (parts : List Text)
    → (length (cons_part b'0' (cons_part b':' parts)) == 4
        && all is_octet (cons_part b'0' (cons_part b':' parts)))
      ≡ false
colon_second [] = ground arith
colon_second (p ∷ ps) = ground arith

mapped-is_ipv4 : (t : Text) → is_ipv4 (b':' ∷ t) ≡ false
mapped-is_ipv4 t = colon_first (split b'.' t)

expanded-is_ipv4 : (t : Text) → is_ipv4 (b'0' ∷ b':' ∷ t) ≡ false
expanded-is_ipv4 t = colon_second (split b'.' t)

expanded_step :
    (is_ipv6 : Text → Bool) (fuel : ℕ) (raw : Text)
    → is_ipv4 raw ≡ false
    → is_ipv6 raw ≡ true
    → is_unspecified_or_loopback (map lower raw) ≡ false
    → starts_with mapped_prefix (map lower raw) ≡ false
    → starts_with expanded_prefix (map lower raw) ≡ true
    → is_blocked_in is_ipv6 (suc fuel) raw
      ≡ is_blocked_in is_ipv6 fuel (drop (length expanded_prefix) (map lower raw))
unfolding is_blocked_in
expanded_step is_ipv6 fuel raw four six far plain long =
    rw (four, is_blocked_in, six, far, plain, long) refl

module _ (is_ipv6 : Text → Bool) (t : Text) (b : Bool) (same : map lower t ≡ t)
    (decided : (fuel : ℕ) → length t < fuel → is_blocked_in is_ipv6 fuel t ≡ some b) where
  mapped_tail :
      is_ipv6 (mapped_prefix ++ t) ≡ true → is_blocked_address is_ipv6 (mapped_prefix ++ t) ≡ some b
  unfolding is_blocked_address is_blocked_in
  mapped_tail six =
      rw (mapped-is_ipv4 _, six, same)
        (decided (length (mapped_prefix ++ t)) (omega (arith, length-append mapped_prefix t)))

  expanded_tail :
      is_ipv6 (expanded_prefix ++ t) ≡ true
      → is_blocked_address is_ipv6 (expanded_prefix ++ t) ≡ some b
  unfolding is_blocked_address
  expanded_tail six =
      expanded_step is_ipv6 (length (expanded_prefix ++ t)) (expanded_prefix ++ t)
        (expanded-is_ipv4 (drop 2 expanded_prefix ++ t)) six refl refl refl
      ∙ (ap (is_blocked_in is_ipv6 (length (expanded_prefix ++ t))) same
          ∙ decided (length (expanded_prefix ++ t))
              (omega (arith, length-append expanded_prefix t)))

module _ (a b c d : ℕ) (ha : a < 256) (hb : b < 256) (hc : c < 256) (hd : d < 256) where
  lower-dotted : map lower (dotted a b c d) ≡ dotted a b c d
  lower-dotted =
      let wa = octet_text-IsWritten a ha in
      let wb = octet_text-IsWritten b hb in
      let wc = octet_text-IsWritten c hc in
      let wd = octet_text-IsWritten d hd in
      rw (
        map-append lower (octet_text a)
            (b'.' ∷ (octet_text b ++ b'.' ∷ (octet_text c ++ b'.' ∷ octet_text d))),
        map-append lower (octet_text b) (b'.' ∷ (octet_text c ++ b'.' ∷ octet_text d)),
        map-append lower (octet_text c) (b'.' ∷ octet_text d),
        wa.same,
        wb.same,
        wc.same,
        wd.same,
      )

  module _ (is_ipv6 : Text → Bool) where
    with_fuel :
        (fuel : ℕ)
        → length (dotted a b c d) < fuel
        → is_blocked_in is_ipv6 fuel (dotted a b c d) ≡ some (is_reserved a b)
    with_fuel fuel h =
        let (verdict, first, again) = is_blocked_address-Decides is_ipv6 (dotted a b c d) in
        again fuel h ∙ (sym first ∙ is_blocked_address-dotted a b c d ha hb hc hd is_ipv6)

    -- An IPv6 address that maps an IPv4 one and writes it with four decimal octets at its end, in the
    -- compressed form `::ffff:a.b.c.d` or the expanded one `0:0:0:0:0:ffff:a.b.c.d`, is blocked
    -- exactly if the IPv4 address lies in one of the nine reserved networks.
    pub is_blocked_address-mapped :
        is_ipv6 (mapped_prefix ++ dotted a b c d) ≡ true
        → is_ipv6 (expanded_prefix ++ dotted a b c d) ≡ true
        → (is_blocked_address is_ipv6 (mapped_prefix ++ dotted a b c d) ≡ some (is_reserved a b))
          × (is_blocked_address is_ipv6 (expanded_prefix ++ dotted a b c d)
              ≡ some (is_reserved a b))
    is_blocked_address-mapped short long = (
      mapped_tail is_ipv6 (dotted a b c d) (is_reserved a b) lower-dotted with_fuel short,
      expanded_tail is_ipv6 (dotted a b c d) (is_reserved a b) lower-dotted with_fuel long,
    )
