-- ===== src/Web/Addresses/Blocks.antt =====
-- The blocks of IPv4 addresses that are not public, as ranges of 32-bit numbers, which the tests of
-- apps/jit-worker/src/web_access.rs on octets are to agree with.
use jitforge.Base.{
  ℕ, ◌+◌, ◌*◌, ◌≤◌, Bool, false, not, ◌&&◌, ◌||◌, List, [], ◌∷◌, any, leb, ◌==◌, ◌≡◌, sym, subst,
  inl, inr, Bool-cases, eq-of-==, arith,
}
use jitforge.Web.Addresses.{v4, is_special, is_public_v4, is_public_ip}

abbrev pub number_of : ℕ → ℕ → ℕ → ℕ → ℕ
number_of a b c d = a * 16777216 + b * 65536 + c * 256 + d

abbrev pub in_range : ℕ → ℕ × ℕ → Bool
in_range n (first, last) = leb first n && leb n last

-- 0/8, 10/8, 100.64/10, 127/8, 169.254/16, 172.16/12, 192.0.0/24, 192.0.2/24, 192.168/16, 198.18/15,
-- 198.51.100/24, 203.0.113/24 and everything from 224.0.0.0 on.
abbrev pub reserved_blocks : List (ℕ × ℕ)
reserved_blocks =
    (0, 16777215)
    ∷ (167772160, 184549375)
    ∷ (1681915904, 1686110207)
    ∷ (2130706432, 2147483647)
    ∷ (2851995648, 2852061183)
    ∷ (2886729728, 2887778303)
    ∷ (3221225472, 3221225727)
    ∷ (3221225984, 3221226239)
    ∷ (3232235520, 3232301055)
    ∷ (3323068416, 3323199487)
    ∷ (3325256704, 3325256959)
    ∷ (3405803776, 3405804031)
    ∷ (3758096384, 4294967295)
    ∷ []

module _ (a b c d : ℕ) (hb : b ≤ 255) (hc : c ≤ 255) (hd : d ≤ 255) where
  -- Addresses whose first octet is in a range.
  range_first :
      (x y : ℕ)
      → in_range (number_of a b c d) (x * 16777216, y * 16777216 + 16777215) ≡ (leb x a && leb a y)
  range_first x y = ground arith

  range_second :
      (x y z : ℕ)
      → z ≤ 255
      → in_range (number_of a b c d) (x * 16777216 + y * 65536, x * 16777216 + z * 65536 + 65535)
        ≡ (a == x && leb y b && leb b z)
  range_second x y z h = ground arith

  range_third :
      (x y z : ℕ)
      → y ≤ 255
      → z ≤ 255
      → in_range
          (number_of a b c d)
          (x * 16777216 + y * 65536 + z * 256, x * 16777216 + y * 65536 + z * 256 + 255)
        ≡ (a == x && b == y && c == z)
  range_third x y z h k = ground arith

-- The tests on the octets that the ranges come down to.
abbrev reserved_octets : ℕ → ℕ → ℕ → Bool
reserved_octets a b c =
    leb 0 a && leb a 0
    || (leb 10 a && leb a 10
        || (a == 100 && leb 64 b && leb b 127
            || (leb 127 a && leb a 127
                || (a == 169 && leb 254 b && leb b 254
                    || (a == 172 && leb 16 b && leb b 31
                        || (a == 192 && b == 0 && c == 0
                            || (a == 192 && b == 0 && c == 2
                                || (a == 192 && leb 168 b && leb b 168
                                    || (a == 198 && leb 18 b && leb b 19
                                        || (a == 198 && b == 51 && c == 100
                                            || (a == 203 && b == 0 && c == 113
                                                || (leb 224 a && leb a 255 || (false)))))))))))))

abbrev Agree : ℕ → ℕ → ℕ → ℕ → Type 0
Agree a b c d = is_public_v4 a b c d ≡ not (reserved_octets a b c)

Agree-10 : (b c d : ℕ) → Agree 10 b c d
unfolding is_public_v4 is_special
Agree-10 b c d = ground arith

Agree-100 : (b c d : ℕ) → Agree 100 b c d
unfolding is_public_v4 is_special
Agree-100 b c d = ground arith

Agree-127 : (b c d : ℕ) → Agree 127 b c d
unfolding is_public_v4 is_special
Agree-127 b c d = ground arith

Agree-169 : (b c d : ℕ) → Agree 169 b c d
unfolding is_public_v4 is_special
Agree-169 b c d = ground arith

Agree-172 : (b c d : ℕ) → Agree 172 b c d
unfolding is_public_v4 is_special
Agree-172 b c d = ground arith

Agree-192 : (b c d : ℕ) → Agree 192 b c d
unfolding is_public_v4 is_special
Agree-192 b c d = ground arith

Agree-198 : (b c d : ℕ) → Agree 198 b c d
unfolding is_public_v4 is_special
Agree-198 b c d = ground arith

Agree-203 : (b c d : ℕ) → Agree 203 b c d
unfolding is_public_v4 is_special
Agree-203 b c d = ground arith

-- For a first octet that no test singles out, only its size counts.
Agree-other :
    (a b c d : ℕ)
    → a ≤ 255
    → (a == 10) ≡ false
    → (a == 100) ≡ false
    → (a == 127) ≡ false
    → (a == 169) ≡ false
    → (a == 172) ≡ false
    → (a == 192) ≡ false
    → (a == 198) ≡ false
    → (a == 203) ≡ false
    → Agree a b c d
unfolding is_public_v4 is_special
Agree-other a b c d h n10 n100 n127 n169 n172 n192 n198 n203 =
    rw (n10, n100, n127, n169, n172, n192, n198, n203) (ground arith)

agree : (a b c d : ℕ) → a ≤ 255 → Agree a b c d
agree a b c d h = elim (Bool-cases (a == 10)) [
  | inl e ↦ subst (λ n. Agree n b c d) (sym (eq-of-== a 10 e)) (Agree-10 b c d)
  | inr n10 ↦ elim (Bool-cases (a == 100)) [
    | inl e ↦ subst (λ n. Agree n b c d) (sym (eq-of-== a 100 e)) (Agree-100 b c d)
    | inr n100 ↦ elim (Bool-cases (a == 127)) [
      | inl e ↦ subst (λ n. Agree n b c d) (sym (eq-of-== a 127 e)) (Agree-127 b c d)
      | inr n127 ↦ elim (Bool-cases (a == 169)) [
        | inl e ↦ subst (λ n. Agree n b c d) (sym (eq-of-== a 169 e)) (Agree-169 b c d)
        | inr n169 ↦ elim (Bool-cases (a == 172)) [
          | inl e ↦ subst (λ n. Agree n b c d) (sym (eq-of-== a 172 e)) (Agree-172 b c d)
          | inr n172 ↦ elim (Bool-cases (a == 192)) [
            | inl e ↦ subst (λ n. Agree n b c d) (sym (eq-of-== a 192 e)) (Agree-192 b c d)
            | inr n192 ↦ elim (Bool-cases (a == 198)) [
              | inl e ↦ subst (λ n. Agree n b c d) (sym (eq-of-== a 198 e)) (Agree-198 b c d)
              | inr n198 ↦ elim (Bool-cases (a == 203)) [
                | inl e ↦ subst (λ n. Agree n b c d) (sym (eq-of-== a 203 e)) (Agree-203 b c d)
                | inr n203 ↦ Agree-other a b c d h n10 n100 n127 n169 n172 n192 n198 n203
              ]
            ]
          ]
        ]
      ]
    ]
  ]
]

-- For octets, an IPv4 address is taken as public exactly if it is in none of the reserved blocks.
pub is_public_ip-reserved_blocks :
    (a b c d : ℕ)
    → a ≤ 255
    → b ≤ 255
    → c ≤ 255
    → d ≤ 255
    → is_public_ip (v4 a b c d) ≡ not (any (in_range (number_of a b c d)) reserved_blocks)
unfolding is_public_ip any
is_public_ip-reserved_blocks a b c d ha hb hc hd =
    rw
      (
        range_first a b c d hb hc hd 0 0,
        range_first a b c d hb hc hd 10 10,
        range_second a b c d hb hc hd 100 64 127 (omega arith),
        range_first a b c d hb hc hd 127 127,
        range_second a b c d hb hc hd 169 254 254 (omega arith),
        range_second a b c d hb hc hd 172 16 31 (omega arith),
        range_third a b c d hb hc hd 192 0 0 (omega arith) (omega arith),
        range_third a b c d hb hc hd 192 0 2 (omega arith) (omega arith),
        range_second a b c d hb hc hd 192 168 168 (omega arith),
        range_second a b c d hb hc hd 198 18 19 (omega arith),
        range_third a b c d hb hc hd 198 51 100 (omega arith) (omega arith),
        range_third a b c d hb hc hd 203 0 113 (omega arith) (omega arith),
        range_first a b c d hb hc hd 224 255,
      )
      (agree a b c d ha)
