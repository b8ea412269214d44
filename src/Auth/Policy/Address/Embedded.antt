-- ===== src/Auth/Policy/Address/Embedded.antt =====
-- The IPv4 addresses that src/auth/metadata_policy.cpp finds in IPv6 addresses.
use mcp_cpp_sdk.Prelude.{
  ℕ, ◌<◌, ◌≡◌, refl, ap, ◌∙◌, Bool, false, not, [], ◌∷◌, ◌++◌, replicate, if◌then◌else◌, Bytes,
  arith,
}
use mcp_cpp_sdk.Auth.Policy.Address.{
  AddressApi, v4_of, mapped_v4, nat64_prefix, embedded_v4, classify_v4, classify_embedded,
  classify_mapped, classify_v6,
}
use mcp_cpp_sdk.Auth.Policy.Address.Blocks.{
  in_block, in_blocks, special_blocks, loopback_block, is_allowed, classify_v4-blocks,
}

-- How an IPv6 address spells an IPv4 one: the last are the bytes behind it.
pub data Spelling : Type 0 where
  mapped nat64 : Spelling
  six_to_four : Bytes → Spelling

abbrev pub spell : Spelling → ℕ → ℕ → ℕ → ℕ → Bytes
spell mapped a b c d = replicate 10 0 ++ 0xFF ∷ 0xFF ∷ a ∷ b ∷ c ∷ d ∷ []
spell nat64 a b c d = nat64_prefix ++ a ∷ b ∷ c ∷ d ∷ []
spell (six_to_four rest) a b c d = 0x20 ∷ 0x02 ∷ a ∷ b ∷ c ∷ d ∷ rest

-- Only a mapped address may be a loopback address.
abbrev pub opts_out : Spelling → Bool → Bool
opts_out mapped loopback = loopback
opts_out _ loopback = false

classify_v6-spell :
    (api : AddressApi) (loopback : Bool) (spelling : Spelling) (a b c d : ℕ)
    → classify_v6 api loopback (spell spelling a b c d)
      ≡ classify_v4 (opts_out spelling loopback) (v4_of a b c d)
unfolding classify_v6 classify_mapped classify_embedded mapped_v4 embedded_v4
classify_v6-spell api loopback mapped a b c d = refl
classify_v6-spell api loopback nat64 a b c d = refl
classify_v6-spell api loopback (six_to_four rest) a b c d = refl

-- An IPv6 address that maps an IPv4 address, or has it behind the NAT64 or the 6to4 prefix, is
-- allowed exactly if the IPv4 address is a loopback address, mapped, and these are allowed, or it is
-- no loopback address and in none of the other special-purpose blocks.
pub classify_v6-blocks :
    (api : AddressApi) (loopback : Bool) (spelling : Spelling) (a b c d : ℕ)
    → a < 256
    → b < 256
    → c < 256
    → d < 256
    → is_allowed (classify_v6 api loopback (spell spelling a b c d)) ≡ (
        if in_block (v4_of a b c d) loopback_block
        then opts_out spelling loopback
        else not (in_blocks (v4_of a b c d) special_blocks))
classify_v6-blocks api loopback spelling a b c d ha hb hc hd =
    ap is_allowed (classify_v6-spell api loopback spelling a b c d)
    ∙ classify_v4-blocks (opts_out spelling loopback) (v4_of a b c d) (omega arith)
