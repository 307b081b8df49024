-- ===== src/UrlCheck/Address/Octets.antt =====
-- IPv4 addresses as they are written, and how url-check/public-url.ts reads them.
use newbie_modules.Common.{
  ℕ, zero, suc, ◌+◌, ◌*◌, ◌/◌, ◌%◌, ◌<◌, ◌≡◌, refl, Bool, true, ◌&&◌, some, [], ◌∷◌, ◌++◌, map, ltb,
  ◌==◌, if◌then◌else◌, ==_iff, and_parts, Bool-cases, inl, inr, arith,
}
use newbie_modules.Common.Texts.{
  split, lower, lacks, text_eq, split-lacks, split-append, eq_of_text_eq,
}
use newbie_modules.Evaluation.Errors.{Text}
use newbie_modules.UrlCheck.Address.{decimal, is_short_number, parse_ipv4, is_octet, is_ipv4}

abbrev digit : ℕ → ℕ
digit d = b'0' + d

abbrev pub octet_text : ℕ → Text
octet_text n =
    if ltb n 10
    then digit n ∷ []
    else if ltb n 100
    then digit (n / 10) ∷ digit (n % 10) ∷ []
    else digit (n / 100) ∷ digit (n / 10 % 10) ∷ digit (n % 10) ∷ []

abbrev pub dotted : ℕ → ℕ → ℕ → ℕ → Text
dotted a b c d =
    octet_text a ++ b'.' ∷ (octet_text b ++ b'.' ∷ (octet_text c ++ b'.' ∷ octet_text d))

-- A test of every number under a bound, and what it says of one.
table : (ℕ → Bool) → ℕ → Bool
table test zero = true
table test (suc top) = table test top && test top

table_entry : (test : ℕ → Bool) (bound n : ℕ) → n < bound → table test bound ≡ true → test n ≡ true
unfolding table
table_entry test zero n below done = elim below [ ]
table_entry test (suc top) n below done =
    let (earlier, last) = and_parts (table test top) (test top) done in
    elim (Bool-cases (n == top)) [
      | inl here ↦ rw ((==_iff n top).0 here) last
      | inr other ↦ table_entry test top n (ground (arith, other)) earlier
    ]

abbrev reads_back : ℕ → Bool
reads_back n =
    let t = octet_text n in
    is_octet t && (decimal t == n && (lacks b'.' t && (lacks b':' t && text_eq (map lower t) t)))

reads_back-table : table reads_back 256 ≡ true
unfolding table
reads_back-table = refl

pub record IsWritten (n : ℕ) : Type 0 where
  pub octet : is_octet (octet_text n) ≡ true
  pub short : is_short_number (octet_text n) ≡ true
  pub value : decimal (octet_text n) ≡ n
  pub no_dot : lacks b'.' (octet_text n) ≡ true
  pub no_colon : lacks b':' (octet_text n) ≡ true
  pub same : map lower (octet_text n) ≡ octet_text n

pub octet_text-IsWritten : (n : ℕ) → n < 256 → IsWritten n
octet_text-IsWritten n h =
    let t = octet_text n in
    let (octet, more) = and_parts _ _ (table_entry reads_back 256 n h reads_back-table) in
    let (value, rest) = and_parts _ _ more in
    let (no_dot, others) = and_parts _ _ rest in
    let (no_colon, same) = and_parts _ _ others in
    record {
      octet = octet;
      short = (and_parts _ _ (and_parts _ _ octet).0).0;
      value = (==_iff _ n).0 value;
      no_dot = no_dot;
      no_colon = no_colon;
      same = eq_of_text_eq _ _ same;
    }

module _ (a b c d : ℕ) (ha : a < 256) (hb : b < 256) (hc : c < 256) (hd : d < 256) where
  pub dotted_parts :
      split b'.' (dotted a b c d) ≡ octet_text a ∷ octet_text b ∷ octet_text c ∷ octet_text d ∷ []
  dotted_parts =
      let wa = octet_text-IsWritten a ha in
      let wb = octet_text-IsWritten b hb in
      let wc = octet_text-IsWritten c hc in
      let wd = octet_text-IsWritten d hd in
      rw (
        split-append b'.' (octet_text a)
            (octet_text b ++ b'.' ∷ (octet_text c ++ b'.' ∷ octet_text d)) wa.no_dot,
        split-append b'.' (octet_text b) (octet_text c ++ b'.' ∷ octet_text d) wb.no_dot,
        split-append b'.' (octet_text c) (octet_text d) wc.no_dot,
        split-lacks b'.' (octet_text d) wd.no_dot,
      )

  pub dotted-is_ipv4 : is_ipv4 (dotted a b c d) ≡ true
  dotted-is_ipv4 =
      let wa = octet_text-IsWritten a ha in
      let wb = octet_text-IsWritten b hb in
      let wc = octet_text-IsWritten c hc in
      let wd = octet_text-IsWritten d hd in
      rw (dotted_parts, wa.octet, wb.octet, wc.octet, wd.octet)

  -- A written address is read back as its 32-bit number.
  pub parse_ipv4-dotted : parse_ipv4 (dotted a b c d) ≡ some (((a * 256 + b) * 256 + c) * 256 + d)
  unfolding parse_ipv4
  parse_ipv4-dotted =
      let wa = octet_text-IsWritten a ha in
      let wb = octet_text-IsWritten b hb in
      let wc = octet_text-IsWritten c hc in
      let wd = octet_text-IsWritten d hd in
      rw
        (
          dotted_parts, wa.short, wb.short, wc.short, wd.short, wa.value, wb.value, wc.value,
          wd.value,
        )
        (ground arith)
