-- ===== src/Auth/Policy/Address/Blocks.antt =====
-- The IPv4 blocks that src/auth/metadata_policy.cpp refuses, as a table of prefixes.
use mcp_cpp_sdk.Prelude.{
  ℕ, ◌-◌, ◌/◌, ◌^◌, ◌<◌, ◌≡◌, refl, sym, ap, subst, ◌∙◌, Bool, true, false, not, ◌&&◌, ◌||◌, List,
  [], ◌∷◌, ◌==◌, leb, if◌then◌else◌, if-both, arith,
}
use mcp_cpp_sdk.Auth.Policy.Address.{
  MetadataUrlDecision, allowed, address_link_local, address_private, address_loopback,
  address_multicast, address_reserved, octet, classify_octets, classify_v4, v4_of,
}

-- A block of addresses: its first address and the length of its prefix.
abbrev pub Block : Type 0
Block = ℕ × ℕ

-- The address and the first of the block agree in the bits of the prefix.
abbrev pub in_block : ℕ → Block → Bool
in_block value (first, bits) = value / 2 ^ (32 - bits) == first / 2 ^ (32 - bits)

abbrev pub in_blocks : ℕ → List Block → Bool
in_blocks value [] = false
in_blocks value (block ∷ blocks) = in_block value block || in_blocks value blocks

-- The special-purpose blocks of RFC 1122, 1918, 2544, 3927, 5737, 5771, 6598 and 6890.
abbrev pub special_blocks : List Block
special_blocks =
    (v4_of 169 254 0 0, 16)
    ∷ (v4_of 10 0 0 0, 8)
    ∷ (v4_of 172 16 0 0, 12)
    ∷ (v4_of 192 168 0 0, 16)
    ∷ (v4_of 224 0 0 0, 4)
    ∷ (v4_of 0 0 0 0, 8)
    ∷ (v4_of 240 0 0 0, 4)
    ∷ (v4_of 100 64 0 0, 10)
    ∷ (v4_of 192 0 0 0, 24)
    ∷ (v4_of 192 0 2 0, 24)
    ∷ (v4_of 198 18 0 0, 15)
    ∷ (v4_of 198 51 100 0, 24)
    ∷ (v4_of 203 0 113 0, 24)
    ∷ []

abbrev pub loopback_block : Block
loopback_block = (v4_of 127 0 0 0, 8)

abbrev pub is_allowed : MetadataUrlDecision → Bool
is_allowed allowed = true
is_allowed _ = false

or_cong : (a b c d : Bool) → a ≡ b → c ≡ d → (a || c) ≡ (b || d)
or_cong a b c d e f = ap (λ x. x || c) e ∙ ap (λ x. b || x) f

-- The chain of refusals of the code, for any tests.
refusals :
    (b1 b2 b3 b4 b5 b6 b7 b8 b9 b10 : Bool)
    → is_allowed (
        if b1
        then address_link_local
        else if b2
        then address_private
        else if b3
        then address_multicast
        else if b4
        then address_multicast
        else if b5
        then address_reserved
        else if b6
        then address_reserved
        else if b7
        then address_reserved
        else if b8
        then address_reserved
        else if b9
        then address_reserved
        else if b10
        then address_reserved
        else allowed)
      ≡ not (b1 || (b2 || (b3 || (b4 || (b5 || (b6 || (b7 || (b8 || (b9 || (b10 || false))))))))))
refusals true b2 b3 b4 b5 b6 b7 b8 b9 b10 = refl
refusals false true b3 b4 b5 b6 b7 b8 b9 b10 = refl
refusals false false true b4 b5 b6 b7 b8 b9 b10 = refl
refusals false false false true b5 b6 b7 b8 b9 b10 = refl
refusals false false false false true b6 b7 b8 b9 b10 = refl
refusals false false false false false true b7 b8 b9 b10 = refl
refusals false false false false false false true b8 b9 b10 = refl
refusals false false false false false false false true b9 b10 = refl
refusals false false false false false false false false true b10 = refl
refusals false false false false false false false false false true = refl
refusals false false false false false false false false false false = refl

abbrev o1 : ℕ → ℕ
o1 value = octet value 0x1000000

abbrev o2 : ℕ → ℕ
o2 value = octet value 0x10000

abbrev o3 : ℕ → ℕ
o3 value = octet value 0x100

-- The tests of the code are those of the blocks.
test_16 :
    (value a b : ℕ)
    → value < 0x100000000
    → a < 256
    → b < 256
    → in_block value (v4_of a b 0 0, 16) ≡ (o1 value == a && o2 value == b)
test_16 value a b h ha hb = ground arith

test_8 :
    (value a : ℕ)
    → value < 0x100000000
    → a < 256
    → in_block value (v4_of a 0 0 0, 8) ≡ (o1 value == a)
test_8 value a h ha = ground arith

test_24 :
    (value a b c : ℕ)
    → value < 0x100000000
    → a < 256
    → b < 256
    → c < 256
    → in_block value (v4_of a b c 0, 24) ≡ (o1 value == a && (o2 value == b && o3 value == c))
test_24 value a b c h ha hb hc = ground arith

test_172 :
    (value : ℕ)
    → value < 0x100000000
    → in_block value (v4_of 172 16 0 0, 12)
      ≡ (o1 value == 172 && (leb 16 (o2 value) && leb (o2 value) 31))
test_172 value h = ground arith

test_100 :
    (value : ℕ)
    → value < 0x100000000
    → in_block value (v4_of 100 64 0 0, 10)
      ≡ (o1 value == 100 && (leb 64 (o2 value) && leb (o2 value) 127))
test_100 value h = ground arith

test_198 :
    (value : ℕ)
    → value < 0x100000000
    → in_block value (v4_of 198 18 0 0, 15)
      ≡ (o1 value == 198 && (o2 value == 18 || o2 value == 19))
test_198 value h = ground arith

test_224 :
    (value : ℕ)
    → value < 0x100000000
    → in_block value (v4_of 224 0 0 0, 4) ≡ (leb 224 (o1 value) && leb (o1 value) 239)
test_224 value h = ground arith

test_240 :
    (value : ℕ) → value < 0x100000000 → in_block value (v4_of 240 0 0 0, 4) ≡ leb 240 (o1 value)
test_240 value h = ground arith

-- The groups of the code's tests, in order; an address of 32 ones is one of the last block.
flat :
    (t169 t10 t172 t192 ones multi t0 t240 others : Bool)
    → ((ones ≡ true) → t240 ≡ true)
    → (t169 || ((t10 || (t172 || t192)) || (ones || (multi || ((t0 || t240) || others)))))
      ≡ (t169 || (t10 || (t172 || (t192 || (multi || (t0 || (t240 || others)))))))
flat true t10 t172 t192 ones multi t0 t240 others h = refl
flat false true t172 t192 ones multi t0 t240 others h = refl
flat false false true t192 ones multi t0 t240 others h = refl
flat false false false true ones multi t0 t240 others h = refl
flat false false false false true true t0 t240 others h = refl
flat false false false false true false true t240 others h = refl
flat false false false false true false false t240 others h = rw (h refl) refl
flat false false false false false true t0 t240 others h = refl
flat false false false false false false true t240 others h = refl
flat false false false false false false false t240 others h = refl

test_192 :
    (o1 o2 o3 : ℕ) (rest : Bool)
    → ((o1 == 192 && (o2 == 0 && (o3 == 0 || o3 == 2))) || rest)
      ≡ ((o1 == 192 && (o2 == 0 && o3 == 0)) || ((o1 == 192 && (o2 == 0 && o3 == 2)) || rest))
test_192 o1 o2 o3 rest = ground arith

all_ones : (value : ℕ) → (value == 0xFFFFFFFF) ≡ true → leb 240 (o1 value) ≡ true
all_ones value h = ground arith

-- The blocks, as the tests of the code.
in_blocks-tests :
    (value : ℕ)
    → value < 0x100000000
    → in_blocks value special_blocks ≡ (
        (o1 value == 169 && o2 value == 254)
        || ((o1 value == 10)
            || ((o1 value == 172 && (leb 16 (o2 value) && leb (o2 value) 31))
                || ((o1 value == 192 && o2 value == 168)
                    || ((leb 224 (o1 value) && leb (o1 value) 239)
                        || ((o1 value == 0)
                            || (leb 240 (o1 value)
                                || ((o1 value == 100 && (leb 64 (o2 value) && leb (o2 value) 127))
                                    || ((o1 value == 192 && (o2 value == 0 && o3 value == 0))
                                        || ((o1 value == 192 && (o2 value == 0 && o3 value == 2))
                                            || ((o1 value == 198
                                                  && (o2 value == 18 || o2 value == 19))
                                                || ((o1 value == 198
                                                      && (o2 value == 51 && o3 value == 100))
                                                    || ((o1 value == 203
                                                          && (o2 value == 0 && o3 value == 113))
                                                        || false)))))))))))))
in_blocks-tests value h = or_cong _ _ _ _ (test_16 value 169 254 h (omega arith) (omega arith)) (
    or_cong _ _ _ _ (test_8 value 10 h (omega arith)) (
      or_cong _ _ _ _ (test_172 value h) (
        or_cong _ _ _ _ (test_16 value 192 168 h (omega arith) (omega arith)) (
          or_cong _ _ _ _ (test_224 value h) (
            or_cong _ _ _ _ (test_8 value 0 h (omega arith)) (
              or_cong _ _ _ _ (test_240 value h) (
                or_cong _ _ _ _ (test_100 value h) (
                  or_cong _ _ _ _
                    (test_24 value 192 0 0 h (omega arith) (omega arith) (omega arith))
                    (or_cong _ _ _ _
                      (test_24 value 192 0 2 h (omega arith) (omega arith) (omega arith))
                      (or_cong _ _ _ _ (test_198 value h) (
                        or_cong _ _ _ _
                          (test_24 value 198 51 100 h (omega arith) (omega arith) (omega arith))
                          (or_cong _ _ _ _
                            (test_24 value 203 0 113 h (omega arith) (omega arith) (omega arith))
                            refl))))))))))))

-- The tests of the code behind the one for a loopback address, in their order.
abbrev code_tests : ℕ → ℕ → ℕ → ℕ → Bool
code_tests value a b c =
    (a == 169 && b == 254)
    || (((a == 10) || ((a == 172 && (leb 16 b && leb b 31)) || (a == 192 && b == 168)))
        || ((value == 0xFFFFFFFF)
            || ((leb 224 a && leb a 239)
                || (((a == 0) || leb 240 a)
                    || ((a == 100 && (leb 64 b && leb b 127))
                        || ((a == 192 && (b == 0 && (c == 0 || c == 2)))
                            || ((a == 198 && (b == 18 || b == 19))
                                || ((a == 198 && (b == 51 && c == 100))
                                    || ((a == 203 && (b == 0 && c == 113)) || false)))))))))

classify_octets-tests :
    (loopback : Bool) (value a b c : ℕ)
    → (a == 127) ≡ false
    → is_allowed (classify_octets loopback value a b c) ≡ not (code_tests value a b c)
unfolding classify_octets
classify_octets-tests loopback value a b c other =
    if-both (λ d. is_allowed d ≡ not (code_tests value a b c)) (a == 127) _ _
      (λ e. ground (arith, e, other))
      (λ e.
        refusals (a == 169 && b == 254)
          ((a == 10) || ((a == 172 && (leb 16 b && leb b 31)) || (a == 192 && b == 168)))
          (value == 0xFFFFFFFF) (leb 224 a && leb a 239) ((a == 0) || leb 240 a)
          (a == 100 && (leb 64 b && leb b 127)) (a == 192 && (b == 0 && (c == 0 || c == 2)))
          (a == 198 && (b == 18 || b == 19)) (a == 198 && (b == 51 && c == 100))
          (a == 203 && (b == 0 && c == 113)))

code_tests-in_blocks :
    (value : ℕ)
    → value < 0x100000000
    → code_tests value (o1 value) (o2 value) (o3 value) ≡ in_blocks value special_blocks
code_tests-in_blocks value h =
    flat (o1 value == 169 && o2 value == 254) (o1 value == 10)
      (o1 value == 172 && (leb 16 (o2 value) && leb (o2 value) 31))
      (o1 value == 192 && o2 value == 168) (value == 0xFFFFFFFF)
      (leb 224 (o1 value) && leb (o1 value) 239) (o1 value == 0) (leb 240 (o1 value)) _
      (all_ones value)
    ∙ ap
        (λ b.
          (o1 value == 169 && o2 value == 254)
          || ((o1 value == 10)
              || ((o1 value == 172 && (leb 16 (o2 value) && leb (o2 value) 31))
                  || ((o1 value == 192 && o2 value == 168)
                      || ((leb 224 (o1 value) && leb (o1 value) 239)
                          || ((o1 value == 0)
                              || (leb 240 (o1 value)
                                  || ((o1 value == 100 && (leb 64 (o2 value) && leb (o2 value) 127))
                                      || b))))))))
        (test_192 (o1 value) (o2 value) (o3 value) _)
    ∙ sym (in_blocks-tests value h)

-- A loopback address is in no other block.
loopback-in_blocks :
    (value : ℕ)
    → value < 0x100000000
    → (o1 value == 127) ≡ true
    → in_blocks value special_blocks ≡ false
loopback-in_blocks value h e = in_blocks-tests value h ∙ ground (arith, e)

either : (b : Bool) → is_allowed (if b then allowed else address_loopback) ≡ b
either true = refl
either false = refl

classify_octets-loopback :
    (loopback : Bool) (value a b c : ℕ)
    → (a == 127) ≡ true
    → is_allowed (classify_octets loopback value a b c) ≡ loopback
unfolding classify_octets
classify_octets-loopback loopback value a b c e =
    if-both (λ d. is_allowed d ≡ loopback) (a == 127) _ _ (λ e. either loopback)
      (λ e'. ground (arith, e, e'))

-- An IPv4 address is allowed exactly if it is a loopback address and these are allowed, or it is no
-- loopback address and in none of the thirteen other special-purpose blocks.
pub classify_v4-blocks :
    (loopback : Bool) (value : ℕ)
    → value < 0x100000000
    → is_allowed (classify_v4 loopback value)
      ≡ (if in_block value loopback_block then loopback else not (in_blocks value special_blocks))
unfolding classify_v4
classify_v4-blocks loopback value h =
    let a = o1 value in
    subst
      (λ b.
        is_allowed (classify_octets loopback value a (o2 value) (o3 value))
        ≡ (if b then loopback else not (in_blocks value special_blocks)))
      (sym (test_8 value 127 h (omega arith)))
      (if-both (λ r. is_allowed (classify_octets loopback value a (o2 value) (o3 value)) ≡ r)
        (a == 127) _ _ (λ e. classify_octets-loopback loopback value a (o2 value) (o3 value) e)
        (λ e.
          classify_octets-tests loopback value a (o2 value) (o3 value) e
          ∙ ap not (code_tests-in_blocks value h)))
