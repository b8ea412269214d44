-- ===== src/Auth/Policy/Tests.antt =====
-- Runs of src/auth/metadata_policy.cpp.
use mcp_cpp_sdk.Prelude.{
  ◌≡◌, refl, true, false, not, none, [], ◌∷◌, ◌++◌, if◌then◌else◌, Bytes, codes, arith,
}
use mcp_cpp_sdk.Auth.Policy.Address.{AddressApi, v4_of, address_private, classify_v4, classify_v6}
use mcp_cpp_sdk.Auth.Policy.Address.Blocks.{
  in_block, in_blocks, special_blocks, loopback_block, is_allowed, classify_v4-blocks,
}
use mcp_cpp_sdk.Auth.Policy.Address.Embedded.{nat64, spell, opts_out, classify_v6-blocks}
use mcp_cpp_sdk.Auth.Policy.Sanitize.{sanitize_for_diagnostics}
use mcp_cpp_sdk.Auth.Policy.Sanitize.Clean.{IsClean, sanitize_for_diagnostics-IsClean}
use mcp_cpp_sdk.Auth.Policy.Sanitize.Length.{Fits, unbounded, sanitize_for_diagnostics-Fits}

abbrev api : AddressApi
api = record {
  make_address = λ text. none;
  to_string = λ address. [];
  is_loopback_address = λ address. false;
  is_unspecified = λ bytes. false;
  is_loopback = λ bytes. false;
  is_link_local = λ bytes. false;
  is_multicast = λ bytes. false;
  is_site_local = λ bytes. false;
}

private_refused : classify_v4 true (v4_of 172 31 0 1) ≡ address_private
unfolding classify_v4
private_refused = refl

private_behind_nat64 : classify_v6 api true (spell nat64 10 0 0 1) ≡ address_private
unfolding classify_v6
private_behind_nat64 = refl

classify_v4-blocks_example : is_allowed (classify_v4 true (v4_of 8 8 8 8)) ≡ (
    if in_block (v4_of 8 8 8 8) loopback_block
    then true
    else not (in_blocks (v4_of 8 8 8 8) special_blocks))
classify_v4-blocks_example = classify_v4-blocks true (v4_of 8 8 8 8) (omega arith)

classify_v6-blocks_example : is_allowed (classify_v6 api true (spell nat64 10 0 0 1)) ≡ (
    if in_block (v4_of 10 0 0 1) loopback_block
    then opts_out nat64 true
    else not (in_blocks (v4_of 10 0 0 1) special_blocks))
classify_v6-blocks_example =
    classify_v6-blocks api true nat64 10 0 0 1 (omega arith) (omega arith) (omega arith)
      (omega arith)

-- A line feed, a right-to-left override and a stray byte.
abbrev hostile : Bytes
hostile = codes "a\nb" ++ 0xE2 ∷ 0x80 ∷ 0xAE ∷ 0xFF ∷ []

hostile_cleaned : sanitize_for_diagnostics hostile ≡ codes "a b ?"
unfolding sanitize_for_diagnostics
hostile_cleaned = refl

sanitize_for_diagnostics-IsClean_example : IsClean (sanitize_for_diagnostics hostile)
sanitize_for_diagnostics-IsClean_example = sanitize_for_diagnostics-IsClean hostile

sanitize_for_diagnostics-Fits_example :
    Fits 256 (unbounded hostile) (sanitize_for_diagnostics hostile)
sanitize_for_diagnostics-Fits_example = sanitize_for_diagnostics-Fits hostile
