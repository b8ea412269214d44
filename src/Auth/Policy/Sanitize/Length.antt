-- ===== src/Auth/Policy/Sanitize/Length.antt =====
-- How src/auth/metadata_policy.cpp bounds a text for a diagnostic.
use mcp_cpp_sdk.Prelude.{
  ℕ, zero, suc, ◌+◌, ◌-◌, ◌≤◌, ◌<◌, ◌≡◌, ◌≢◌, refl, sym, ap, subst, ◌∙◌, ◌||◌, ◌&&◌, ◌/◌, ◌%◌,
  within, Option, none, some, [], ◌∷◌, ◌++◌, ltb, ◌==◌, if-both, ltb-false, append_assoc, length,
  length-append, take, Bytes, codes, arith,
}
use mcp_cpp_sdk.Auth.Policy.Sanitize.{
  Utf8Sequence, checked, continue_with, decode_utf8, breaks_a_line, reorders_the_line, max_length,
  emit, more_bytes, clean_from, sanitize_for_diagnostics,
}

-- The text without a bound: what each sequence is replaced by, one after the other.
abbrev unbounded_from : ℕ → Bytes → Bytes
unbounded_from left [] = []
unbounded_from (suc left) (byte ∷ value) = unbounded_from left value
unbounded_from zero (byte ∷ value) =
    emit (decode_utf8 (byte ∷ value)) (byte ∷ value)
    ++ unbounded_from (more_bytes (decode_utf8 (byte ∷ value))) value

abbrev pub unbounded : Bytes → Bytes
unbounded value = unbounded_from 0 value

-- A whole text within a size, or three dots behind a front that has at most the size and is less than
-- four bytes short of it, where something is missing.
pub data Fits (size : ℕ) (whole text : Bytes) : Type 0 where
  uncut : text ≡ whole → length whole ≤ size → Fits size whole text
  cut :
      (front behind : Bytes)
      → whole ≡ front ++ behind
      → 0 < length behind
      → text ≡ front ++ codes "..."
      → length front ≤ size
      → size < length front + 4
      → Fits size whole text

length-take_le : (n : ℕ) (text : Bytes) → length (take n text) ≤ n
length-take_le zero text = omega arith
length-take_le (suc n) [] = omega arith
length-take_le (suc n) (c ∷ text) = omega (arith, length-take_le n text)

take-positive : (n c : ℕ) (text : Bytes) → n ≢ 0 → 0 < length (take n (c ∷ text))
take-positive zero c text ne = absurd (ne refl)
take-positive (suc n) c text ne = omega arith

length-emit : (s : Utf8Sequence) (text : Bytes) → length (emit s text) ≤ suc (more_bytes s)
unfolding emit
length-emit s text =
    let P : Bytes → Type 0 = λ t. length t ≤ suc (more_bytes s) in
    if-both P (s.length == 0) _ _ (λ e. omega arith)
      (λ e.
        if-both P (breaks_a_line s.codepoint || reorders_the_line s.codepoint) _ _
          (λ e. omega arith) (λ e'. ground (arith, e, length-take_le s.length text)))

emit-positive : (s : Utf8Sequence) (c : ℕ) (text : Bytes) → 0 < length (emit s (c ∷ text))
unfolding emit
emit-positive s c text =
    let P : Bytes → Type 0 = λ t. 0 < length t in
    if-both P (s.length == 0) _ _ (λ e. omega arith)
      (λ formed.
        if-both P (breaks_a_line s.codepoint || reorders_the_line s.codepoint) _ _
          (λ e. omega arith) (λ e'. take-positive s.length c text (λ e. ground (arith, e, formed))))

length-checked : (n : ℕ) (o : Option ℕ) → (checked n o).length ≤ n
length-checked n none = omega arith
length-checked n (some value) =
    let P : Utf8Sequence → Type 0 = λ s. s.length ≤ n in
    if-both P
      ((n == 2 && ltb value 0x80) || ((n == 3 && ltb value 0x800) || (n == 4 && ltb value 0x10000)))
      _ _ (λ e. omega arith)
      (λ e.
        if-both P (within 0xD800 0xDFFF value || ltb 0x10FFFF value) _ _ (λ e. omega arith)
          (λ e. omega arith))

length-decode_utf8 : (text : Bytes) → (decode_utf8 text).length ≤ 4
unfolding decode_utf8
length-decode_utf8 [] = omega arith
length-decode_utf8 (lead ∷ text) =
    let P : Utf8Sequence → Type 0 = λ s. s.length ≤ 4 in
    if-both P (ltb lead 0x80) _ _ (λ e. omega arith)
      (λ e.
        if-both P (lead / 32 == 6) _ _
          (λ e. omega (arith, length-checked 2 (continue_with 1 (lead % 32) text)))
          (λ e.
            if-both P (lead / 16 == 14) _ _
              (λ e. omega (arith, length-checked 3 (continue_with 2 (lead % 16) text)))
              (λ e.
                if-both P (lead / 8 == 30) _ _
                  (λ e. length-checked 4 (continue_with 3 (lead % 8) text)) (λ e. omega arith))))

-- What is appended in front takes its part of the size.
Fits-append :
    (size : ℕ) (front whole text : Bytes)
    → length front ≤ size
    → Fits (size - length front) whole text
    → Fits size (front ++ whole) (front ++ text)
Fits-append size front whole text le (uncut e bound) =
    uncut (ap (λ t. front ++ t) e) (omega (arith, le, bound, length-append front whole))
Fits-append size front whole text le (cut start behind e some_left e' bound full) =
    cut (front ++ start) behind (ap (λ t. front ++ t) e ∙ sym (append_assoc front start behind))
      some_left (ap (λ t. front ++ t) e' ∙ sym (append_assoc front start (codes "...")))
      (omega (arith, le, bound, length-append front start))
      (omega (arith, le, full, length-append front start))

clean_from-Fits :
    (left size : ℕ) (value : Bytes)
    → size ≤ max_length
    → Fits (max_length - size) (unbounded_from left value) (clean_from left size value)
unfolding clean_from
clean_from-Fits zero size [] h = uncut refl (omega arith)
clean_from-Fits (suc left) size [] h = uncut refl (omega arith)
clean_from-Fits (suc left) size (byte ∷ value) h = clean_from-Fits left size value h
clean_from-Fits zero size (byte ∷ value) h =
    let decoded = decode_utf8 (byte ∷ value) in
    let appended = emit decoded (byte ∷ value) in
    let whole = unbounded_from (more_bytes decoded) value in
    let rest = clean_from (more_bytes decoded) (size + length appended) value in
    if-both (Fits (max_length - size) (appended ++ whole))
      (ltb max_length (size + suc (more_bytes decoded))) _ _
      (λ e.
        cut [] (appended ++ whole) refl
          (omega (arith, emit-positive decoded byte value, length-append appended whole)) refl
          (omega arith) (ground (arith, e, length-decode_utf8 (byte ∷ value))))
      (λ e.
        let room = ltb-false max_length (size + suc (more_bytes decoded)) e in
        let short = length-emit decoded (byte ∷ value) in
        let within_size : size + length appended ≤ max_length = omega (arith, room, short) in
        let left_over : max_length - (size + length appended)
            ≡ max_length - size - length appended =
          omega arith in
        Fits-append (max_length - size) appended whole rest (omega (arith, within_size)) (
          subst (λ n. Fits n whole rest) left_over
            (clean_from-Fits (more_bytes decoded) (size + length appended) value within_size)))

-- The text for a diagnostic is the whole of what the sequences of the value are replaced by, one after
-- the other, and that has at most 256 bytes, or it is a front of that of 253 to 256 bytes, which is
-- not all of it, and three dots.
pub sanitize_for_diagnostics-Fits :
    (value : Bytes) → Fits 256 (unbounded value) (sanitize_for_diagnostics value)
unfolding sanitize_for_diagnostics
sanitize_for_diagnostics-Fits value = clean_from-Fits 0 0 value (omega arith)
