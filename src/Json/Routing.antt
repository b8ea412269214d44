-- ===== src/Json/Routing.antt =====
-- `scan_jsonrpc_envelope` of src/detail/jsonrpc_envelope.hpp on the text of a JSON object.
use mcp_cpp_sdk.Prelude.{
  ℕ, zero, suc, ◌≤◌, ◌<◌, ◌≡◌, refl, ap, sym, subst, ◌∙◌, Bool, true, false, ◌||◌, List, [], ◌∷◌,
  ◌++◌, append_assoc, length, length-append, take, take-append, take-length, ◌==◌, if◌then◌else◌,
  Bytes, codes, bytes_eq, bytes_eq→eq, or_assoc, All, arith, Bool-cases, inl, inr,
}
use mcp_cpp_sdk.Json.Syntax.{
  quote, backslash, Part, plain, escaped, parts_text, string_text, Json, object, Members, no_member,
  member, dump, members_text, more_members, IsPart, IsJson, AreMembers, IsBlank, Gaps, AreGaps,
}
use mcp_cpp_sdk.Json.Envelope.{
  JsonRpcEnvelope, skip_json_whitespace, assign_member, after_value, member_value, after_key,
  has_backslash, key_of, scan_key, scan_member, found, after_step, scan_from, empty_envelope,
  scan_object, scan_start, scan_jsonrpc_envelope,
}
use mcp_cpp_sdk.Json.Scan.{skip_string_from-parts}
use mcp_cpp_sdk.Json.Values.{
  Ends, Ends-blank, skip_json_whitespace-blank, skip_json_value-dump, skip_json_whitespace-dump,
  dump-nonempty,
}

key_of-append : (xs text : Bytes) → key_of (xs ++ quote ∷ text) text ≡ xs
key_of-append xs text =
    ap (λ n. take n (xs ++ quote ∷ text)) (omega (arith, length-append xs (quote ∷ text)))
    ∙ take-length xs (quote ∷ text)

-- A key without escapes.
abbrev IsPlainPart : Part → Type 0
IsPlainPart (plain c) = (c == quote || c == backslash) ≡ false
IsPlainPart (escaped c) = ⊥

abbrev pub IsPlainKey : List Part → Type 0
IsPlainKey key = All IsPlainPart key

IsPlainKey-All : (key : List Part) → IsPlainKey key → All IsPart key
IsPlainKey-All [] h = tt
IsPlainKey-All (plain c ∷ key) h = (h.0, IsPlainKey-All key h.1)
IsPlainKey-All (escaped c ∷ key) h = absurd h.0

has_backslash-parts : (key : List Part) → IsPlainKey key → has_backslash (parts_text key) ≡ false
has_backslash-parts [] h = refl
has_backslash-parts (plain c ∷ key) h = ground (arith, h.0, has_backslash-parts key h.1)
has_backslash-parts (escaped c ∷ key) h = absurd h.0

abbrev pub PlainKeys : Members → Type 0
PlainKeys (no_member blank) = Unit
PlainKeys (member gaps key value rest) = IsPlainKey key × PlainKeys rest

-- A member from its key on, and what stands behind it.
abbrev member_text : Gaps → List Part → Json → Bytes → Bytes
member_text gaps key value text =
    string_text key
    ++ (gaps.behind_key
        ++ b':' ∷ (gaps.before_value ++ (dump value ++ (gaps.behind_value ++ text))))

member_value-dump :
    (envelope : JsonRpcEnvelope) (key : Bytes) (value : Json) (text : Bytes)
    → IsJson value
    → Ends text
    → member_value envelope key (dump value ++ text)
      ≡ after_value (assign_member envelope key (dump value)) (skip_json_whitespace text)
unfolding member_value
member_value-dump envelope key value text h e =
    rw (member_value, skip_json_value-dump value text h e, dump-nonempty value text, if◌then◌else◌)
      (ap (λ v. after_value (assign_member envelope key v) (skip_json_whitespace text))
        (take-append (dump value) text))

scan_key-parts :
    (envelope : JsonRpcEnvelope) (key : List Part) (text : Bytes)
    → IsPlainKey key
    → scan_key envelope (parts_text key ++ quote ∷ text)
      ≡ after_key envelope (parts_text key) (skip_json_whitespace text)
unfolding scan_key
scan_key-parts envelope key text h =
    rw
      (
        scan_key,
        skip_string_from-parts key text (IsPlainKey-All key h),
        key_of-append (parts_text key) text,
        has_backslash-parts key h,
        if◌then◌else◌,
      )
      refl

skips_colon : (text : Bytes) → skip_json_whitespace (b':' ∷ text) ≡ b':' ∷ text
unfolding skip_json_whitespace
skips_colon text = refl

-- A member is read up to what stands behind the whitespace behind its value.
scan_member-text :
    (envelope : JsonRpcEnvelope) (gaps : Gaps) (key : List Part) (value : Json) (text : Bytes)
    → AreGaps gaps
    → IsPlainKey key
    → IsJson value
    → Ends text
    → scan_member envelope (member_text gaps key value text)
      ≡ after_value
          (assign_member envelope (parts_text key) (dump value))
          (skip_json_whitespace text)
unfolding scan_member after_key
scan_member-text envelope gaps key value text (b1, (b2, (b3, b4))) hk h e =
    let behind = gaps.behind_value ++ text in
    let valued = gaps.before_value ++ (dump value ++ behind) in
    let name = parts_text key in
    let assigned = assign_member envelope name (dump value) in
    ap (scan_key envelope) (append_assoc name (quote ∷ []) (gaps.behind_key ++ b':' ∷ valued))
    ∙ scan_key-parts envelope key (gaps.behind_key ++ b':' ∷ valued) hk
    ∙ ap (after_key envelope name)
        (skip_json_whitespace-blank gaps.behind_key (b':' ∷ valued) b2 ∙ skips_colon valued)
    ∙ ap (member_value envelope name) (
        skip_json_whitespace-blank gaps.before_value (dump value ++ behind) b3
        ∙ skip_json_whitespace-dump value behind h)
    ∙ member_value-dump envelope name value behind h (Ends-blank gaps.behind_value text b4 e)
    ∙ ap (after_value assigned) (skip_json_whitespace-blank gaps.behind_value text b4)

-- What the members of an object say, in their order.
abbrev pub envelope_of : JsonRpcEnvelope → Members → JsonRpcEnvelope
envelope_of envelope (no_member blank) = envelope
envelope_of envelope (member gaps key value rest) =
    envelope_of (assign_member envelope (parts_text key) (dump value)) rest

-- The text of further members in front of another, from the first key on.
members_assoc :
    (gaps : Gaps) (key : List Part) (value : Json) (xs ys : Bytes)
    → (gaps.before_key ++ member_text gaps key value xs) ++ ys
      ≡ gaps.before_key ++ member_text gaps key value (xs ++ ys)
members_assoc gaps key value xs ys = simp append_assoc

length-append_le : (xs ys : Bytes) → length ys ≤ length (xs ++ ys)
length-append_le xs ys = omega (arith, length-append xs ys)

length-member_text :
    (gaps : Gaps) (key : List Part) (value : Json) (text : Bytes)
    → length text < length (member_text gaps key value text)
length-member_text gaps key value text =
    let a = gaps.behind_value ++ text in
    let b = gaps.before_value ++ (dump value ++ a) in
    omega (
      arith,
      length-append_le gaps.behind_value text,
      length-append_le (dump value) a,
      length-append_le gaps.before_value (dump value ++ a),
      length-append_le gaps.behind_key (b':' ∷ b),
      length-append_le (string_text key) (gaps.behind_key ++ b':' ∷ b),
    )

scan_from-members :
    (fuel : ℕ) (envelope : JsonRpcEnvelope) (gaps : Gaps) (key : List Part) (value : Json)
    (rest : Members) (text : Bytes)
    → AreGaps gaps
    → IsPlainKey key
    → IsJson value
    → PlainKeys rest
    → AreMembers rest
    → length (member_text gaps key value (more_members rest ++ b'}' ∷ text)) ≤ fuel
    → scan_from fuel envelope (member_text gaps key value (more_members rest ++ b'}' ∷ text))
      ≡ found (envelope_of (assign_member envelope (parts_text key) (dump value)) rest)
unfolding scan_from skip_json_whitespace
scan_from-members zero envelope gaps key value rest text g hk h hks hs le =
    let longer = length-member_text gaps key value (more_members rest ++ b'}' ∷ text) in
    absurd (omega (arith, le, longer))
scan_from-members (suc fuel) envelope gaps key value (no_member blank) text g hk h hks hs le =
    let assigned = assign_member envelope (parts_text key) (dump value) in
    ap (after_step (scan_from fuel)) (
      scan_member-text envelope gaps key value (blank ++ b'}' ∷ text) g hk h
        (Ends-blank blank (b'}' ∷ text) hs refl)
      ∙ ap (after_value assigned) (skip_json_whitespace-blank blank (b'}' ∷ text) hs))
scan_from-members (suc fuel) envelope gaps key value (member gaps' key' value' rest) text g hk h hks
      (g', (hk', (h', hs'))) le =
    let envelope' = assign_member envelope (parts_text key) (dump value) in
    let tail = more_members rest ++ b'}' ∷ text in
    let more =
      (gaps'.before_key ++ member_text gaps' key' value' (more_members rest)) ++ b'}' ∷ text in
    let split = members_assoc gaps' key' value' (more_members rest) (b'}' ∷ text) in
    let longer = length-member_text gaps key value (b',' ∷ more) in
    let shorter = length-append_le gaps'.before_key (member_text gaps' key' value' tail) in
    ap (after_step (scan_from fuel))
      (scan_member-text envelope gaps key value (b',' ∷ more) g hk h refl)
    ∙ ap (λ t. scan_from fuel envelope' (skip_json_whitespace t)) split
    ∙ ap (scan_from fuel envelope')
        (skip_json_whitespace-blank gaps'.before_key (member_text gaps' key' value' tail) g'.0)
    ∙ scan_from-members fuel envelope' gaps' key' value' rest text g' hks.0 h' hks.1 hs'
        (omega (arith, le, longer, shorter, ap length split))

-- The text of the last member `id`, and whether there is a member `result` or `error`.
abbrev pub last_id : Bytes → Members → Bytes
last_id id (no_member blank) = id
last_id id (member gaps key value rest) =
    last_id (if bytes_eq (parts_text key) (codes "id") then dump value else id) rest

abbrev pub is_answer : Bytes → Bool
is_answer key = bytes_eq key (codes "result") || bytes_eq key (codes "error")

abbrev pub answers : Members → Bool
answers (no_member blank) = false
answers (member gaps key value rest) = is_answer (parts_text key) || answers rest

abbrev Assigns : JsonRpcEnvelope → Bytes → Bytes → Type 0
Assigns e value key = assign_member e key value ≡ record {
  id = if bytes_eq key (codes "id") then value else e.id;
  has_result_or_error = e.has_result_or_error || is_answer key;
}

or-false : (b : Bool) → (b || false) ≡ b
or-false true = refl
or-false false = refl

or-true : (b : Bool) → (b || true) ≡ true
or-true true = refl
or-true false = refl

assign_member-both : (e : JsonRpcEnvelope) (key value : Bytes) → Assigns e value key
unfolding assign_member
assign_member-both e key value = elim (Bool-cases (bytes_eq key (codes "id"))) [
  | inl h ↦ subst (Assigns e value) (sym (bytes_eq→eq key (codes "id") h)) (
      ap (λ b. record { id = value; has_result_or_error = b })
        (sym (or-false e.has_result_or_error)))
  | inr h ↦ elim (Bool-cases (is_answer key)) [
    | inl a ↦
        rw (assign_member, h, a, if◌then◌else◌)
          (ap (λ b. record { id = e.id; has_result_or_error = b })
            (sym (or-true e.has_result_or_error)))
    | inr a ↦
        rw (assign_member, h, a, if◌then◌else◌)
          (ap (λ b. record { id = e.id; has_result_or_error = b })
            (sym (or-false e.has_result_or_error)))
  ]
]

envelope_of-members :
    (e : JsonRpcEnvelope) (members : Members)
    → envelope_of e members ≡ record {
      id = last_id e.id members;
      has_result_or_error = e.has_result_or_error || answers members;
    }
envelope_of-members e (no_member blank) =
    ap (λ b. record { id = e.id; has_result_or_error = b }) (sym (or-false e.has_result_or_error))
envelope_of-members e (member gaps key value rest) =
    let name = parts_text key in
    let id = if bytes_eq name (codes "id") then dump value else e.id in
    ap (λ e'. envelope_of e' rest) (assign_member-both e name (dump value))
    ∙ envelope_of-members
        (record { id = id; has_result_or_error = e.has_result_or_error || is_answer name }) rest
    ∙ ap (λ b. record { id = last_id id rest; has_result_or_error = b })
        (or_assoc e.has_result_or_error (is_answer name) (answers rest))

-- Behind the opening brace.
scan_object-members :
    (members : Members) (text : Bytes)
    → AreMembers members
    → PlainKeys members
    → scan_object (skip_json_whitespace (members_text members ++ b'}' ∷ text))
      ≡ found (record { id = last_id [] members; has_result_or_error = answers members })
unfolding scan_object skip_json_whitespace
scan_object-members (no_member blank) text h hk =
    ap scan_object (skip_json_whitespace-blank blank (b'}' ∷ text) h)
scan_object-members (member gaps key value rest) text (g, (hk', (h, hs))) hk =
    let core = member_text gaps key value (more_members rest ++ b'}' ∷ text) in
    ap (λ t. scan_object (skip_json_whitespace t))
      (members_assoc gaps key value (more_members rest) (b'}' ∷ text))
    ∙ ap scan_object (skip_json_whitespace-blank gaps.before_key core g.0)
    ∙ scan_from-members (suc (length core)) empty_envelope gaps key value rest text g hk.0 h hk.1 hs
        (omega arith)
    ∙ ap found (envelope_of-members empty_envelope (member gaps key value rest))

-- Of the text of an object whose members are well-formed and whose keys have no escapes, with any
-- whitespace between its tokens and in front of it and anything behind it, the scan returns the text of
-- the last member `id`, or nothing without one, and whether there is a member `result` or `error`.
pub scan_jsonrpc_envelope-dump :
    (before behind : Bytes) (members : Members)
    → All IsBlank before
    → AreMembers members
    → PlainKeys members
    → scan_jsonrpc_envelope (before ++ (dump (object members) ++ behind))
      ≡ found (record { id = last_id [] members; has_result_or_error = answers members })
unfolding scan_jsonrpc_envelope scan_start skip_json_whitespace
scan_jsonrpc_envelope-dump before behind members b h hk =
    ap scan_start (skip_json_whitespace-blank before (dump (object members) ++ behind) b)
    ∙ ap (λ t. scan_object (skip_json_whitespace t))
        (append_assoc (members_text members) (b'}' ∷ []) behind)
    ∙ scan_object-members members behind h hk
