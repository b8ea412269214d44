-- ===== src/Auth/Policy/Sanitize/Clean.antt =====
-- What src/auth/metadata_policy.cpp leaves of a text that a peer sent.
use mcp_cpp_sdk.Prelude.{
  ℕ, zero, suc, ◌+◌, ◌*◌, ◌/◌, ◌%◌, ◌≤◌, ◌≡◌, ◌≢◌, ◌⊎◌, refl, sym, ap, subst, ◌∙◌, Bool, false,
  ◌&&◌, ◌||◌, Option, none, some, List, [], ◌∷◌, ◌++◌, ltb, ◌==◌, if-both, take, Bytes, codes,
  within, All, arith,
}
use mcp_cpp_sdk.Regex.Utf8.Laws.{lead_byte, trail_bytes, encode_text}
use mcp_cpp_sdk.Auth.Policy.Sanitize.{
  Utf8Sequence, continue_with, checked, decode_utf8, breaks_a_line, reorders_the_line, max_length,
  emit, more_bytes, clean_from, sanitize_for_diagnostics,
}

abbrev Between : ℕ → ℕ → ℕ → Type 0
Between lo hi c = (lo ≤ c) × (c ≤ hi)

-- A scalar value of Unicode that is no control character, no line or paragraph separator, and no
-- mark, embedding, override or isolate that sets the direction of text.
abbrev pub IsHarmless : ℕ → Type 0
IsHarmless c =
    Between 0x20 0x7E c
    ⊎ (Between 0xA0 0x61B c
        ⊎ (Between 0x61D 0x200D c
            ⊎ (Between 0x2010 0x2027 c
                ⊎ (Between 0x202F 0x2065 c
                    ⊎ (Between 0x206A 0xD7FF c ⊎ Between 0xE000 0x10FFFF c)))))

-- The UTF-8 encoding of harmless characters.
abbrev pub IsClean : Bytes → Type 0
IsClean text = (cs : List ℕ) × ((text ≡ encode_text cs) × All IsHarmless cs)

abbrev encode : ℕ → Bytes
encode c = lead_byte c ∷ trail_bytes c

abbrev IsScalarValue : ℕ → Type 0
IsScalarValue c = (c ≤ 0x10FFFF) × ((within 0xD800 0xDFFF c) ≡ false)

-- A sequence that is well-formed is the encoding of a scalar value.
abbrev Encodes : Bytes → Utf8Sequence → Type 0
Encodes text s =
    (s.length ≢ 0) → (take s.length text ≡ encode s.codepoint) × IsScalarValue s.codepoint

-- A continuation byte adds six bits.
continue_with-byte :
    (n codepoint byte value : ℕ) (text : Bytes)
    → continue_with (suc n) codepoint (byte ∷ text) ≡ some value
    → (byte / 64 ≡ 2) × (continue_with n (codepoint * 64 + byte % 64) text ≡ some value)
unfolding continue_with
continue_with-byte n codepoint byte value text =
    let rest = continue_with n (codepoint * 64 + byte % 64) text in
    if-both (λ o. (o ≡ some value) → (byte / 64 ≡ 2) × (rest ≡ some value)) (byte / 64 == 2) rest
      none (λ e h. (ground (arith, e), h)) (λ e h. ground (arith, h))

abbrev overlong : ℕ → ℕ → Bool
overlong n value =
    (n == 2 && ltb value 0x80) || ((n == 3 && ltb value 0x800) || (n == 4 && ltb value 0x10000))

abbrev Formed : ℕ → Option ℕ → Utf8Sequence → Type 0
Formed n o s =
    (value : ℕ) × ((o ≡ some value)
      × ((s ≡ record { length = n; codepoint = value })
          × ((overlong n value ≡ false) × IsScalarValue value)))

checked-Formed : (n : ℕ) (o : Option ℕ) → (checked n o).length ≢ 0 → Formed n o (checked n o)
checked-Formed n none ne = absurd (ne refl)
checked-Formed n (some value) ne =
    let P : Utf8Sequence → Type 0 = λ s. (s.length ≢ 0) → Formed n (some value) s in
    if-both P (overlong n value) _ _ (λ e ne. absurd (ne refl))
      (λ fits.
        if-both P (within 0xD800 0xDFFF value || ltb 0x10FFFF value) _ _ (λ e ne. absurd (ne refl))
          (λ e ne. (value, (refl, (refl, (fits, (ground (arith, e), ground (arith, e))))))))
      ne

some-eq : (a b : ℕ) → ◌≡◌ {A = Option ℕ} (some a) (some b) → a ≡ b
some-eq a b h = ap (λ o. elim o [ none ↦ a | some c ↦ c ]) h

two_bytes :
    (lead value : ℕ) (text : Bytes)
    → lead / 32 ≡ 6
    → continue_with 1 (lead % 32) text ≡ some value
    → overlong 2 value ≡ false
    → take 2 (lead ∷ text) ≡ encode value
unfolding continue_with
two_bytes lead value [] h e fits = ground (arith, e)
two_bytes lead value (a ∷ text) h e fits =
    let one = continue_with-byte 0 (lead % 32) a value text e in
    let sum = some-eq _ value one.1 in ground (arith, h, one.0, sum, fits)

three_bytes :
    (lead value : ℕ) (text : Bytes)
    → lead / 16 ≡ 14
    → continue_with 2 (lead % 16) text ≡ some value
    → overlong 3 value ≡ false
    → take 3 (lead ∷ text) ≡ encode value
unfolding continue_with
three_bytes lead value [] h e fits = ground (arith, e)
three_bytes lead value (a ∷ []) h e fits =
    ground (arith, (continue_with-byte 1 (lead % 16) a value [] e).1)
three_bytes lead value (a ∷ b ∷ text) h e fits =
    let one = continue_with-byte 1 (lead % 16) a value (b ∷ text) e in
    let two = continue_with-byte 0 (lead % 16 * 64 + a % 64) b value text one.1 in
    let sum = some-eq _ value two.1 in ground (arith, h, one.0, two.0, sum, fits)

four_bytes :
    (lead value : ℕ) (text : Bytes)
    → lead / 8 ≡ 30
    → continue_with 3 (lead % 8) text ≡ some value
    → overlong 4 value ≡ false
    → take 4 (lead ∷ text) ≡ encode value
unfolding continue_with
four_bytes lead value [] h e fits = ground (arith, e)
four_bytes lead value (a ∷ []) h e fits =
    ground (arith, (continue_with-byte 2 (lead % 8) a value [] e).1)
four_bytes lead value (a ∷ b ∷ []) h e fits =
    let one = continue_with-byte 2 (lead % 8) a value (b ∷ []) e in
    ground (arith, (continue_with-byte 1 (lead % 8 * 64 + a % 64) b value [] one.1).1)
four_bytes lead value (a ∷ b ∷ c ∷ text) h e fits =
    let one = continue_with-byte 2 (lead % 8) a value (b ∷ c ∷ text) e in
    let two = continue_with-byte 1 (lead % 8 * 64 + a % 64) b value (c ∷ text) one.1 in
    let three = continue_with-byte 0 ((lead % 8 * 64 + a % 64) * 64 + b % 64) c value text two.1 in
    let sum = some-eq _ value three.1 in ground (arith, h, one.0, two.0, three.0, sum, fits)

-- A branch of the decoder, by what its bytes are.
branch-Encodes :
    (n : ℕ) (o : Option ℕ) (text : Bytes)
    → ((value : ℕ) → o ≡ some value → overlong n value ≡ false → take n text ≡ encode value)
    → Encodes text (checked n o)
branch-Encodes n o text bytes ne =
    let (value, (found, (whole, (fits, scalar)))) = checked-Formed n o ne in
    subst (λ s. (take s.length text ≡ encode s.codepoint) × IsScalarValue s.codepoint) (sym whole)
      (bytes value found fits, scalar)

decode_utf8-Encodes : (lead : ℕ) (text : Bytes) → Encodes (lead ∷ text) (decode_utf8 (lead ∷ text))
unfolding decode_utf8
decode_utf8-Encodes lead text =
    let P = Encodes (lead ∷ text) in
    if-both P (ltb lead 0x80) _ _
      (λ e ne. (ground (arith, e), (ground (arith, e), ground (arith, e))))
      (λ _.
        if-both P (lead / 32 == 6) _ _
          (λ e. branch-Encodes 2 _ (lead ∷ text) (λ v. two_bytes lead v text (ground (arith, e))))
          (λ _.
            if-both P (lead / 16 == 14) _ _
              (λ e.
                branch-Encodes 3 _ (lead ∷ text) (λ v. three_bytes lead v text (ground (arith, e))))
              (λ _.
                if-both P (lead / 8 == 30) _ _
                  (λ e.
                    branch-Encodes 4 _ (lead ∷ text)
                      (λ v. four_bytes lead v text (ground (arith, e))))
                  (λ _ ne. absurd (ne refl)))))

harmless :
    (c : ℕ) → IsScalarValue c → (breaks_a_line c || reorders_the_line c) ≡ false → IsHarmless c
unfolding breaks_a_line reorders_the_line
harmless c s h = ground (arith, s.0, s.1, h)

append-IsClean :
    (c : ℕ) (text rest : Bytes)
    → text ≡ encode c
    → IsHarmless c
    → IsClean rest
    → IsClean (text ++ rest)
append-IsClean c text rest e h (cs, (same, all)) =
    (c ∷ cs, (ap (λ t. t ++ rest) e ∙ ap (λ t. encode c ++ t) same, (h, all)))

dots-IsClean : IsClean (codes "...")
dots-IsClean = (codes "...", (refl, (ground arith, (ground arith, (ground arith, tt)))))

emit-IsClean :
    (byte : ℕ) (value rest : Bytes)
    → IsClean rest
    → IsClean (emit (decode_utf8 (byte ∷ value)) (byte ∷ value) ++ rest)
unfolding emit
emit-IsClean byte value rest clean =
    let s = decode_utf8 (byte ∷ value) in
    let P : Bytes → Type 0 = λ t. IsClean (t ++ rest) in
    if-both P (s.length == 0) _ _
      (λ e. append-IsClean b'?' (codes "?") rest refl (ground arith) clean)
      (λ formed.
        if-both P (breaks_a_line s.codepoint || reorders_the_line s.codepoint) _ _
          (λ e. append-IsClean b' ' (codes " ") rest refl (ground arith) clean)
          (λ plain.
            let (bytes, scalar) = decode_utf8-Encodes byte value (λ e. ground (arith, e, formed)) in
            append-IsClean s.codepoint (take s.length (byte ∷ value)) rest bytes
              (harmless s.codepoint scalar plain) clean))

clean_from-IsClean : (left size : ℕ) (value : Bytes) → IsClean (clean_from left size value)
unfolding clean_from
clean_from-IsClean zero size [] = ([], (refl, tt))
clean_from-IsClean (suc left) size [] = ([], (refl, tt))
clean_from-IsClean (suc left) size (byte ∷ value) = clean_from-IsClean left size value
clean_from-IsClean zero size (byte ∷ value) =
    let decoded = decode_utf8 (byte ∷ value) in
    if-both IsClean (ltb max_length (size + suc (more_bytes decoded))) _ _ (λ e. dots-IsClean)
      (λ e. emit-IsClean byte value _ (clean_from-IsClean (more_bytes decoded) _ value))

-- Whatever the bytes, the sanitized text is the UTF-8 encoding of scalar values of Unicode, none of
-- which is a control character, a line or paragraph separator, or a character that sets the
-- direction of text.
pub sanitize_for_diagnostics-IsClean : (value : Bytes) → IsClean (sanitize_for_diagnostics value)
unfolding sanitize_for_diagnostics
sanitize_for_diagnostics-IsClean value = clean_from-IsClean 0 0 value
