-- ===== src/Json/Scan.antt =====
-- How the scanner of src/detail/jsonrpc_envelope.hpp passes strings and bracketed values.
use mcp_cpp_sdk.Prelude.{
  ℕ, suc, ◌-◌, ◌≡◌, refl, ap, ◌∙◌, false, some, List, [], ◌∷◌, ◌++◌, append_assoc, ◌==◌,
  if◌then◌else◌, Bytes, All, arith,
}
use mcp_cpp_sdk.Json.Syntax.{
  quote, Part, plain, escaped, parts_text, string_text, Json, scalar, string, array, object, Items,
  no_item, item, Members, no_member, member, dump, items_text, more_items, members_text,
  more_members, IsScalarChar, IsPart, IsJson, AreItems, AreMembers, IsBlank, Gaps, AreGaps,
}
use mcp_cpp_sdk.Json.Depth.{outside, in_string, opens, closes, other, effect}
use mcp_cpp_sdk.Json.Envelope.{skip_string_from, skip_nested}

plain-facts : (c : ℕ) → IsPart (plain c) → ((c == 0x22) ≡ false) × ((c == 0x5C) ≡ false)
plain-facts c h = (ground (arith, h), ground (arith, h))

pub skip_string_from-parts :
    (ps : List Part) (text : Bytes)
    → All IsPart ps
    → skip_string_from false (parts_text ps ++ quote ∷ text) ≡ some text
unfolding skip_string_from
skip_string_from-parts [] text h = refl
skip_string_from-parts (plain c ∷ ps) text h =
    let (q, b) = plain-facts c h.0 in
    rw (skip_string_from, b, q) (skip_string_from-parts ps text h.1)
skip_string_from-parts (escaped c ∷ ps) text h = skip_string_from-parts ps text h.1

skip_nested-parts :
    (d : ℕ) (ps : List Part) (text : Bytes)
    → All IsPart ps
    → skip_nested in_string d (parts_text ps ++ quote ∷ text) ≡ skip_nested outside d text
unfolding skip_nested
skip_nested-parts d [] text h = refl
skip_nested-parts d (plain c ∷ ps) text h =
    let (q, b) = plain-facts c h.0 in
    rw (skip_nested, b, q, if◌then◌else◌) (skip_nested-parts d ps text h.1)
skip_nested-parts d (escaped c ∷ ps) text h = skip_nested-parts d ps text h.1

-- Inside brackets, a text that is balanced changes nothing.
abbrev pub Balanced : Bytes → Type 0
Balanced xs =
    (d : ℕ) (text : Bytes)
    → skip_nested outside (suc d) (xs ++ text) ≡ skip_nested outside (suc d) text

Balanced-nil : Balanced []
Balanced-nil d text = refl

Balanced-append : (xs ys : Bytes) → Balanced xs → Balanced ys → Balanced (xs ++ ys)
Balanced-append xs ys hx hy d text =
    ap (skip_nested outside (suc d)) (append_assoc xs ys text) ∙ hx d (ys ++ text) ∙ hy d text

Balanced-char : (c : ℕ) → effect c ≡ other → Balanced (c ∷ [])
unfolding skip_nested
Balanced-char c h d text = rw (skip_nested, h) refl

Balanced-cons : (c : ℕ) (xs : Bytes) → effect c ≡ other → Balanced xs → Balanced (c ∷ xs)
Balanced-cons c xs h hx = Balanced-append (c ∷ []) xs (Balanced-char c h) hx

Balanced-scalar : (xs : Bytes) → All IsScalarChar xs → Balanced xs
Balanced-scalar [] h = Balanced-nil
Balanced-scalar (c ∷ xs) h = Balanced-cons c xs (ground (arith, h.0)) (Balanced-scalar xs h.1)

Balanced-string : (ps : List Part) → All IsPart ps → Balanced (string_text ps)
unfolding skip_nested
Balanced-string ps h d text =
    ap (skip_nested in_string (suc d)) (append_assoc (parts_text ps) (quote ∷ []) text)
    ∙ skip_nested-parts (suc d) ps text h

Balanced-blank : (blank : Bytes) → All IsBlank blank → Balanced blank
Balanced-blank [] h = Balanced-nil
Balanced-blank (c ∷ blank) h =
    Balanced-cons c blank (ground (arith, h.0)) (Balanced-blank blank h.1)

-- A member with what stands behind it.
Balanced-member :
    (gaps : Gaps) (key : List Part) (value rest : Bytes)
    → AreGaps gaps
    → All IsPart key
    → Balanced value
    → Balanced rest
    → Balanced (
        gaps.before_key
        ++ (string_text key
            ++ (gaps.behind_key
                ++ b':' ∷ (gaps.before_value ++ (value ++ (gaps.behind_value ++ rest))))))
Balanced-member gaps key value rest (b1, (b2, (b3, b4))) h hv hr =
    Balanced-append gaps.before_key _ (Balanced-blank _ b1) (
      Balanced-append (string_text key) _ (Balanced-string key h) (
        Balanced-append gaps.behind_key _ (Balanced-blank _ b2) (
          Balanced-cons b':' _ refl (
            Balanced-append gaps.before_value _ (Balanced-blank _ b3) (
              Balanced-append value _ hv
                (Balanced-append gaps.behind_value rest (Balanced-blank _ b4) hr))))))

Balanced-item :
    (before value behind rest : Bytes)
    → All IsBlank before
    → All IsBlank behind
    → Balanced value
    → Balanced rest
    → Balanced (before ++ (value ++ (behind ++ rest)))
Balanced-item before value behind rest b1 b2 hv hr =
    Balanced-append before _ (Balanced-blank before b1)
      (Balanced-append value _ hv (Balanced-append behind rest (Balanced-blank behind b2) hr))

pub skip_nested-opens :
    (c d : ℕ) (text : Bytes)
    → effect c ≡ opens
    → skip_nested outside d (c ∷ text) ≡ skip_nested outside (suc d) text
unfolding skip_nested
skip_nested-opens c d text h = rw (skip_nested, h) refl

-- The last bracket ends the value, the others do not.
pub skip_nested-last :
    (c : ℕ) (text : Bytes) → effect c ≡ closes → skip_nested outside 1 (c ∷ text) ≡ some text
unfolding skip_nested
skip_nested-last c text h = rw (skip_nested, h) refl

skip_nested-closes :
    (c d : ℕ) (text : Bytes)
    → effect c ≡ closes
    → skip_nested outside (suc (suc d)) (c ∷ text) ≡ skip_nested outside (suc d) text
unfolding skip_nested
skip_nested-closes c d text h =
    let back : suc (suc d) - 1 ≡ suc d = omega arith in
    let goes : (suc (suc d) - 1 == 0) ≡ false = ground arith in
    rw (skip_nested, h, goes) (ap (λ n. skip_nested outside n text) back)

Balanced-nested :
    (first last : ℕ) (xs : Bytes)
    → effect first ≡ opens
    → effect last ≡ closes
    → Balanced xs
    → Balanced (first ∷ (xs ++ last ∷ []))
unfolding skip_nested
Balanced-nested first last xs ho hc h d text =
    skip_nested-opens first (suc d) ((xs ++ last ∷ []) ++ text) ho
    ∙ ap (skip_nested outside (suc (suc d))) (append_assoc xs (last ∷ []) text)
    ∙ h (suc d) (last ∷ text)
    ∙ skip_nested-closes last d text hc

mutual
  Balanced-dump : (value : Json) → IsJson value → Balanced (dump value)
  Balanced-dump (scalar c xs) h = Balanced-scalar (c ∷ xs) h
  Balanced-dump (string ps) h = Balanced-string ps h
  Balanced-dump (array items) h =
      Balanced-nested b'[' b']' (items_text items) refl refl (Balanced-items items h)
  Balanced-dump (object members) h =
      Balanced-nested b'{' b'}' (members_text members) refl refl (Balanced-members members h)

  pub Balanced-items : (items : Items) → AreItems items → Balanced (items_text items)
  Balanced-items (no_item blank) h = Balanced-blank blank h
  Balanced-items (item before value behind rest) (b1, (b2, (h, hs))) =
      Balanced-item before (dump value) behind (more_items rest) b1 b2 (Balanced-dump value h)
        (Balanced-more_items rest hs)

  Balanced-more_items : (items : Items) → AreItems items → Balanced (more_items items)
  Balanced-more_items (no_item blank) h = Balanced-blank blank h
  Balanced-more_items (item before value behind rest) (b1, (b2, (h, hs))) =
      Balanced-cons b',' _ refl (
        Balanced-item before (dump value) behind (more_items rest) b1 b2 (Balanced-dump value h)
          (Balanced-more_items rest hs))

  pub Balanced-members : (members : Members) → AreMembers members → Balanced (members_text members)
  Balanced-members (no_member blank) h = Balanced-blank blank h
  Balanced-members (member gaps key value rest) (g, (hk, (h, hs))) =
      Balanced-member gaps key (dump value) (more_members rest) g hk (Balanced-dump value h)
        (Balanced-more_members rest hs)

  Balanced-more_members : (members : Members) → AreMembers members → Balanced (more_members members)
  Balanced-more_members (no_member blank) h = Balanced-blank blank h
  Balanced-more_members (member gaps key value rest) (g, (hk, (h, hs))) =
      Balanced-cons b',' _ refl (
        Balanced-member gaps key (dump value) (more_members rest) g hk (Balanced-dump value h)
          (Balanced-more_members rest hs))
