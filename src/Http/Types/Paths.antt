-- ===== src/Http/Types/Paths.antt =====
-- Where the metadata document of src/transport/http_types.cpp is said to be.
use mcp_cpp_sdk.Prelude.{
  ◌≡◌, refl, ap, subst, sym, Bool, true, false, ◌||◌, some, List, [], ◌∷◌, ◌++◌, ◌∙◌, Bytes, codes,
  bytes_eq_refl, All, Option-cases, Bool-cases, arith, inl, inr, ◌≢◌,
}
use mcp_cpp_sdk.Http.Types.{
  SplitResource, is_slash, is_dots, split_resource, has_dots_from, validate_metadata_path,
  ProtectedResourceMetadataConfig, strip_slashes, path_of, protected_resource_metadata_path,
  protected_resource_metadata_url,
}
use mcp_cpp_sdk.Http.Types.Splits.{split_resource-again}

-- The segments of a path: what stands between its slashes.
abbrev pub segments_from : Bytes → Bytes → List Bytes
segments_from segment [] = segment ∷ []
segments_from segment (c ∷ text) = elim (is_slash c) [
  | true ↦ segment ∷ segments_from [] text
  | false ↦ segments_from (segment ++ c ∷ []) text
]

abbrev pub NotDots : Bytes → Type 0
NotDots segment = (segment ≢ codes ".") × (segment ≢ codes "..")

is_dots-NotDots : (segment : Bytes) → is_dots segment ≡ false → NotDots segment
is_dots-NotDots segment h = (
  λ e. ground (arith, e, bytes_eq_refl (codes ".")),
  λ e. ground (arith, e, bytes_eq_refl (codes "..")),
)

or_false : (a b : Bool) → (a || b) ≡ false → (a ≡ false) × (b ≡ false)
or_false true b h = ground arith
or_false false b h = (refl, h)

has_dots_from-All :
    (segment text : Bytes)
    → has_dots_from segment text ≡ false
    → All NotDots (segments_from segment text)
unfolding has_dots_from
has_dots_from-All segment [] h = (is_dots-NotDots segment h, tt)
has_dots_from-All segment (c ∷ text) h = elim (Bool-cases (is_slash c)) [
  | inl slash ↦
      let both = or_false (is_dots segment) (has_dots_from [] text) (ground (arith, slash, h)) in
      rw (slash, segments_from) (is_dots-NotDots segment both.0, has_dots_from-All [] text both.1)
  | inr other ↦
      rw (other, segments_from)
        (has_dots_from-All (segment ++ c ∷ []) text (ground (arith, other, h)))
]

-- The path starts with a slash.
pub record IsRooted (path : Bytes) : Type 0 where
  pub tail : Bytes
  pub rooted : path ≡ b'/' ∷ tail

validate_metadata_path-IsRooted :
    (path : Bytes) → validate_metadata_path path ≡ true → IsRooted path
unfolding validate_metadata_path
validate_metadata_path-IsRooted [] h = ground arith
validate_metadata_path-IsRooted (c ∷ path) h = record { tail = path; rooted = ground arith }

validate_metadata_path-All :
    (path : Bytes) → validate_metadata_path path ≡ true → All NotDots (segments_from [] path)
unfolding validate_metadata_path
validate_metadata_path-All [] h = ground arith
validate_metadata_path-All (c ∷ path) h = has_dots_from-All [] (c ∷ path) (ground arith)

path_of-configured :
    (explicit : Bytes) (r : SplitResource) (path : Bytes)
    → explicit ≢ []
    → path_of explicit r ≡ some path
    → (path ≡ explicit) × (validate_metadata_path explicit ≡ true)
unfolding path_of
path_of-configured [] r path ne h = absurd (ne refl)
path_of-configured (c ∷ explicit) r path ne h =
    elim (Bool-cases (validate_metadata_path (c ∷ explicit))) [
      | inl e ↦ (ground (arith, e, h), e)
      | inr e ↦ ground (arith, e, h)
    ]

path_of-IsRooted :
    (explicit : Bytes) (r : SplitResource) (path : Bytes)
    → path_of explicit r ≡ some path
    → IsRooted path
unfolding path_of
path_of-IsRooted [] r path h = record {
  tail = codes ".well-known/oauth-protected-resource" ++ strip_slashes r.path;
  rooted = ground (arith, h);
}
path_of-IsRooted (c ∷ explicit) r path h =
    let (same, valid) = path_of-configured (c ∷ explicit) r path (λ e. ground arith) h in
    subst IsRooted (sym same) (validate_metadata_path-IsRooted (c ∷ explicit) valid)

-- If the URL of the metadata document is computed, it and the resource can be split, and they have the
-- same origin.
pub protected_resource_metadata_url-origin :
    (metadata : ProtectedResourceMetadataConfig) (url : Bytes)
    → protected_resource_metadata_url metadata ≡ some url
    → (r : SplitResource) × (r' : SplitResource) × ((split_resource metadata.resource ≡ some r)
        × ((split_resource url ≡ some r') × (r'.origin ≡ r.origin)))
unfolding protected_resource_metadata_url protected_resource_metadata_path
protected_resource_metadata_url-origin metadata url h =
    elim (Option-cases (split_resource metadata.resource)) [
      | inl e ↦ ground (arith, e, h)
      | inr (r, e) ↦ elim (Option-cases (path_of metadata.path r)) [
        | inl none_path ↦ ground (arith, e, none_path, h)
        | inr (path, e') ↦
            let record { tail = tail; rooted = rooted } =
              path_of-IsRooted metadata.path r path e' in
            let (r', (reads, same)) = split_resource-again metadata.resource tail r e in
            let eq : url ≡ r.origin ++ b'/' ∷ tail = ground (arith, e, e', rooted, h) in
            (r, r', (e, (ap split_resource eq ∙ reads, same)))
      ]
    ]

-- If a path that is not empty is configured and a path is computed, it is the configured one, it starts
-- with a slash, and none of its segments is `.` or `..`.
pub protected_resource_metadata_path-configured :
    (metadata : ProtectedResourceMetadataConfig) (path : Bytes)
    → metadata.path ≢ []
    → protected_resource_metadata_path metadata ≡ some path
    → (path ≡ metadata.path) × (IsRooted path × All NotDots (segments_from [] path))
unfolding protected_resource_metadata_path path_of
protected_resource_metadata_path-configured metadata path ne h =
    elim (Option-cases (split_resource metadata.resource)) [
      | inl e ↦ ground (arith, e, h)
      | inr (r, e) ↦
          let (same, valid) = path_of-configured metadata.path r path ne (ground (arith, e, h)) in
          (
            same,
            (
              subst IsRooted (sym same) (validate_metadata_path-IsRooted metadata.path valid),
              subst (λ p. All NotDots (segments_from [] p)) (sym same)
                  (validate_metadata_path-All metadata.path valid),
            ),
          )
    ]
