-- ===== src/Regex/Utf8/Laws.antt =====
-- The decoder against the encoding of RFC 3629.
use mcp_cpp_sdk.Prelude.{
  ℕ, zero, suc, ◌+◌, ◌/◌, ◌%◌, ◌≤◌, ◌≡◌, refl, ap, false, List, [], ◌∷◌, ◌++◌, ltb, if◌then◌else◌,
  length, length-append, Bytes, All, arith,
}
use mcp_cpp_sdk.Regex.Ranges.{max_code_point}
use mcp_cpp_sdk.Regex.Utf8.{is_surrogate, decode_utf8, decode_from, decode_text}

-- The encoding of a scalar value: the lead byte, and the bytes behind it.
abbrev pub lead_byte : ℕ → ℕ
lead_byte c =
    if ltb c 0x80
    then c
    else if ltb c 0x800
    then 0xC0 + c / 64
    else if ltb c 0x10000
    then 0xE0 + c / 4096
    else 0xF0 + c / 262144

abbrev pub trail_bytes : ℕ → Bytes
trail_bytes c =
    if ltb c 0x80
    then []
    else if ltb c 0x800
    then (0x80 + c % 64) ∷ []
    else if ltb c 0x10000
    then (0x80 + (c / 64) % 64) ∷ (0x80 + c % 64) ∷ []
    else (0x80 + (c / 4096) % 64) ∷ (0x80 + (c / 64) % 64) ∷ (0x80 + c % 64) ∷ []

abbrev pub encode_text : List ℕ → Bytes
encode_text [] = []
encode_text (c ∷ cs) = lead_byte c ∷ (trail_bytes c ++ encode_text cs)

abbrev pub IsScalar : ℕ → Type 0
IsScalar c = (c ≤ max_code_point) × (is_surrogate c ≡ false)

-- Decoding undoes the encoding, whatever follows.
decode_utf8-encode :
    (c : ℕ) (text : Bytes)
    → IsScalar c
    → decode_utf8 (lead_byte c) (trail_bytes c ++ text) ≡ (c, text)
unfolding decode_utf8
decode_utf8-encode c text s = ground arith

-- What is decoded is always a scalar value, and the position moves forward.
pub decode_utf8-IsScalar :
    (lead : ℕ) (text : Bytes)
    → IsScalar (decode_utf8 lead text).0 × (length (decode_utf8 lead text).1 ≤ length text)
unfolding decode_utf8
decode_utf8-IsScalar lead text = ground arith

decode_from-encode :
    (cs : List ℕ) (fuel : ℕ)
    → All IsScalar cs
    → length (encode_text cs) ≤ fuel
    → decode_from fuel (encode_text cs) ≡ cs
unfolding decode_from
decode_from-encode [] fuel s h = refl
decode_from-encode (c ∷ cs) zero s h = absurd (omega arith)
decode_from-encode (c ∷ cs) (suc fuel) s h = rw (decode_utf8-encode c (encode_text cs) s.0) (
    ap (◌∷◌ c) (
      decode_from-encode cs fuel s.1
        (omega (arith, length-append (trail_bytes c) (encode_text cs)))))

-- The decoder of a whole text undoes the UTF-8 encoding of any scalar values.
pub decode_text-encode : (cs : List ℕ) → All IsScalar cs → decode_text (encode_text cs) ≡ cs
decode_text-encode cs s = decode_from-encode cs (length (encode_text cs)) s (omega arith)

-- One decoded code point for each round, and fuel of one round per byte never runs out: any more
-- fuel gives the same code points.
decode_from-fuel :
    (f g : ℕ) (text : Bytes)
    → length text ≤ f
    → length text ≤ g
    → decode_from f text ≡ decode_from g text
unfolding decode_from
decode_from-fuel f g [] h k = refl
decode_from-fuel zero g (b ∷ text) h k = absurd (omega arith)
decode_from-fuel (suc f) zero (b ∷ text) h k = absurd (omega arith)
decode_from-fuel (suc f) (suc g) (b ∷ text) h k =
    let shorter = (decode_utf8-IsScalar b text).1 in
    ap (◌∷◌ (decode_utf8 b text).0)
      (decode_from-fuel f g (decode_utf8 b text).1 (omega arith) (omega arith))

-- Whatever the bytes and the fuel, every code point that comes out is at most U+10FFFF and no
-- surrogate.
pub decode_text-IsScalar : (fuel : ℕ) (text : Bytes) → All IsScalar (decode_from fuel text)
unfolding decode_from
decode_text-IsScalar fuel [] = tt
decode_text-IsScalar zero (b ∷ text) = tt
decode_text-IsScalar (suc fuel) (b ∷ text) =
    ((decode_utf8-IsScalar b text).0, decode_text-IsScalar fuel (decode_utf8 b text).1)
