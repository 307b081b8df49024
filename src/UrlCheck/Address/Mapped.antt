-- ===== src/UrlCheck/Address/Mapped.antt =====
-- IPv6 addresses that stand for an IPv4 one, and the recursion of `isBlockedAddress` in
-- url-check/public-url.ts.
use newbie_modules.Common.{
  ℕ, zero, suc, ◌≤◌, ◌<◌, ◌≡◌, refl, sym, ap, ◌∙◌, Bool, true, some, [], ◌∷◌, map, length, drop,
  length-drop, Bool-cases, inl, inr, arith,
}
use newbie_modules.Common.Texts.{lower, starts_with}
use newbie_modules.Evaluation.Errors.{Text}
use newbie_modules.UrlCheck.Address.{
  is_ipv4, is_blocked_in, is_blocked_address, mapped_prefix, expanded_prefix,
  is_unspecified_or_loopback, is_local_hextet, first_hextet, is_blocked_ipv4, parse_ipv4,
}

length-map : (f : ℕ → ℕ) (t : Text) → length (map f t) ≡ length t
length-map f [] = refl
length-map f (c ∷ t) = ap suc (length-map f t)

starts_with-length : (prefix t : Text) → starts_with prefix t ≡ true → length prefix ≤ length t
starts_with-length [] t h = omega arith
starts_with-length (c ∷ prefix) [] h = cc
starts_with-length (c ∷ prefix) (d ∷ t) h = ground (arith, starts_with-length prefix t)

-- What is left after a prefix that is not empty is shorter.
rest-lt :
    (prefix t : Text) (fuel : ℕ)
    → 1 ≤ length prefix
    → starts_with prefix (map lower t) ≡ true
    → length t < suc fuel
    → length (drop (length prefix) (map lower t)) < fuel
rest-lt prefix t fuel one h k = omega (
  arith,
  length-drop (length prefix) (map lower t),
  length-map lower t,
  starts_with-length prefix (map lower t) h,
)

module _ (is_ipv6 : Text → Bool) where
  abbrev Decides : ℕ → ℕ → Text → Type 0
  Decides f g t =
      (b : Bool) × (is_blocked_in is_ipv6 f t ≡ some b) × (is_blocked_in is_ipv6 g t ≡ some b)

  decides : (f g : ℕ) (t : Text) → length t < f → length t < g → Decides f g t
  unfolding is_blocked_in
  decides zero g t h k = absurd (omega arith)
  decides (suc f) zero t h k = absurd (omega arith)
  decides (suc f) (suc g) t h k =
      let normal = map lower t in
      elim (Bool-cases (is_ipv4 t)) [
        | inl four ↦ rw (four, is_blocked_in) (is_blocked_ipv4 (parse_ipv4 t), refl, refl)
        | inr other ↦ elim (Bool-cases (is_ipv6 t)) [
          | inr none_of ↦ rw (other, is_blocked_in, none_of) (true, refl, refl)
          | inl six ↦ elim (Bool-cases (is_unspecified_or_loopback normal)) [
            | inl loop ↦ rw (other, is_blocked_in, six, loop) (true, refl, refl)
            | inr far ↦ elim (Bool-cases (starts_with mapped_prefix normal)) [
              | inl short ↦
                  rw (other, is_blocked_in, six, far, short)
                    (decides f g (drop (length mapped_prefix) normal)
                      (rest-lt mapped_prefix t f (omega arith) short h)
                      (rest-lt mapped_prefix t g (omega arith) short k))
              | inr plain ↦ elim (Bool-cases (starts_with expanded_prefix normal)) [
                | inl long ↦
                    rw (other, is_blocked_in, six, far, plain, long)
                      (decides f g (drop (length expanded_prefix) normal)
                        (rest-lt expanded_prefix t f (omega arith) long h)
                        (rest-lt expanded_prefix t g (omega arith) long k))
                | inr local ↦
                    rw (other, is_blocked_in, six, far, plain, local)
                      (is_local_hextet (first_hextet normal), refl, refl)
              ]
            ]
          ]
        ]
      ]

  -- Every text is decided: each recursive call is on a text that is shorter by a prefix, and any
  -- fuel above the length of the address gives the same answer.
  pub is_blocked_address-Decides :
      (t : Text)
      → (b : Bool) × (is_blocked_address is_ipv6 t ≡ some b)
        × ((fuel : ℕ) → length t < fuel → is_blocked_in is_ipv6 fuel t ≡ some b)
  unfolding is_blocked_address
  is_blocked_address-Decides t =
      let (b, first, again) =
        decides (suc (length t)) (suc (length t)) t (omega arith) (omega arith) in
      (
        b,
        first,
        λ fuel h.
            let (c, one, two) = decides fuel (suc (length t)) t h (omega arith) in
            let same : some c ≡ some b = sym two ∙ first in one ∙ same,
      )
