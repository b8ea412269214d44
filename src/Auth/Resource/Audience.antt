-- ===== src/Auth/Resource/Audience.antt =====
-- Which metadata documents `require_resource_identifies_server` of src/auth/oauth.cpp accepts.
use mcp_cpp_sdk.Prelude.{
  ◌≡◌, ◌↔◌, ◌⊎◌, inl, inr, refl, sym, ap, ◌∙◌, Bool, true, false, not, ◌||◌, Option, none, some, [],
  ◌∷◌, ◌++◌, ◌==◌, if-both, if-true, if-false, Bool-cases, append-nil, length, drop, drop-append,
  Bytes, bytes_eq, bytes_eq→eq, bytes_eq_refl, arith,
}
use mcp_cpp_sdk.Http.Types.{is_empty, after_prefix}
use mcp_cpp_sdk.Http.Types.Splits.{after_prefix-eq}
use mcp_cpp_sdk.Auth.Policy.Origin.{has_char}
use mcp_cpp_sdk.Auth.Policy.Url.Front.{metadata_url_origin-Continues}
use mcp_cpp_sdk.Auth.Policy.Url.{metadata_url_origin}
use mcp_cpp_sdk.Auth.Resource.{
  without_slash, starts_segment, is_root, covers_path, identifies_by_path,
  resource_identifies_server, Requirement, meets, missing_resource, other_resource,
  require_resource_identifies_server,
}

-- A text that ends or goes on with a slash.
abbrev at_boundary : Bytes → Bool
at_boundary [] = true
at_boundary (c ∷ rest) = c == b'/'

-- A path covers another: it is empty but for a slash at its end, or the other goes on behind it, at
-- the boundary of a segment. The server's path has what follows it, its query and fragment.
abbrev Covers : Bytes → Bytes → Type 0
Covers path server_path =
    (without_slash path ≡ [])
    ⊎ ((tail : Bytes) × ((server_path ≡ without_slash path ++ tail) × (at_boundary tail ≡ true)))

-- The resource has no query and no fragment and the origin of the server, and its path covers the
-- server's.
pub record IsAudience (resource server_url : Bytes) : Type 0 where
  pub path : Bytes
  pub server_path : Bytes
  pub no_query : has_char b'?' resource ≡ false
  pub no_fragment : has_char b'#' resource ≡ false
  pub one_origin : metadata_url_origin resource ≡ metadata_url_origin server_url
  pub has_origin : is_empty (metadata_url_origin resource) ≡ false
  pub resource_parts : resource ≡ metadata_url_origin resource ++ path
  pub server_parts : server_url ≡ metadata_url_origin server_url ++ server_path
  pub covers : Covers path server_path

is_root_iff : (path : Bytes) → (is_root path ≡ true) ↔ (without_slash path ≡ [])
is_root_iff [] = ((λ h. refl), (λ h. refl))
is_root_iff (c ∷ []) = ground arith
is_root_iff (c ∷ d ∷ path) = ((λ h. ground (arith, h)), (λ h. ground (arith, h)))

after_prefix_self : (xs rest : Bytes) → after_prefix xs (xs ++ rest) ≡ some rest
after_prefix_self [] rest = refl
after_prefix_self (x ∷ xs) rest = ground (arith, after_prefix_self xs rest)

starts_segment-boundary :
    (behind : Option Bytes)
    → starts_segment behind ≡ true
    → (tail : Bytes) × ((behind ≡ some tail) × (at_boundary tail ≡ true))
starts_segment-boundary none h = ground (arith, h)
starts_segment-boundary (some []) h = ground (arith, h)
starts_segment-boundary (some (c ∷ rest)) h = (c ∷ rest, (refl, h))

covers_path-Covers :
    (path server_path : Bytes) → covers_path path server_path ≡ true → Covers path server_path
unfolding covers_path
covers_path-Covers path server_path =
    let P : Bool → Type 0 = λ b. (b ≡ true) → Covers path server_path in
    if-both P (is_root path) _ _ (λ e h. inl ((is_root_iff path).0 e))
      (λ e h.
        let one = bytes_eq server_path (without_slash path) in
        elim (Bool-cases one) [
          | inl same ↦ inr (
            [],
            (
              bytes_eq→eq server_path (without_slash path) same
                  ∙ sym (append-nil (without_slash path)),
              refl,
            ),
          )
          | inr other ↦
              let found =
                starts_segment-boundary (after_prefix (without_slash path) server_path)
                  (ground (arith, h, other)) in
              inr (
                found.0,
                (after_prefix-eq (without_slash path) server_path found.0 found.1.0, found.1.1),
              )
        ])

or_true : (a b : Bool) → b ≡ true → (a || b) ≡ true
or_true a b h = ground (arith, h)

path_tests-boundary :
    (front tail : Bytes)
    → at_boundary tail ≡ true
    → (bytes_eq (front ++ tail) front || starts_segment (after_prefix front (front ++ tail))) ≡ true
path_tests-boundary front [] h =
    ap (λ zs. bytes_eq zs front || starts_segment (after_prefix front (front ++ [])))
      (append-nil front)
    ∙ ap (λ b. b || starts_segment (after_prefix front (front ++ []))) (bytes_eq_refl front)
path_tests-boundary front (c ∷ rest) h =
    or_true (bytes_eq (front ++ c ∷ rest) front) _
      (ap starts_segment (after_prefix_self front (c ∷ rest)) ∙ h)

Covers-covers_path :
    (path server_path : Bytes) → Covers path server_path → covers_path path server_path ≡ true
unfolding covers_path
Covers-covers_path path server_path (inl root) =
    if-true _ _ (is_root path) ((is_root_iff path).1 root)
Covers-covers_path path server_path (inr (tail, (e, h))) =
    if-both (λ b. b ≡ true) (is_root path) _ _ (λ _. refl)
      (λ _.
        ap
          (λ zs.
            bytes_eq zs (without_slash path)
            || starts_segment (after_prefix (without_slash path) zs))
          e
        ∙ path_tests-boundary (without_slash path) tail h)

drop-parts : (origin rest url : Bytes) → url ≡ origin ++ rest → drop (length origin) url ≡ rest
drop-parts origin rest url e = ap (drop (length origin)) e ∙ drop-append origin rest

resource_identifies_server-IsAudience :
    (resource server_url : Bytes)
    → resource_identifies_server resource server_url ≡ true
    → (resource ≡ server_url) ⊎ IsAudience resource server_url
unfolding resource_identifies_server identifies_by_path
resource_identifies_server-IsAudience resource server_url =
    let origin = metadata_url_origin resource in
    let other = metadata_url_origin server_url in
    let P : Bool → Type 0 =
      λ b. (b ≡ true) → (resource ≡ server_url) ⊎ IsAudience resource server_url in
    if-both P (bytes_eq resource server_url) _ _ (λ e h. inl (bytes_eq→eq resource server_url e))
      (λ _.
        if-both P (has_char b'?' resource || has_char b'#' resource) _ _ (λ _ h. ground (arith, h))
          (λ plain.
            if-both P (is_empty origin || not (bytes_eq origin other)) _ _
              (λ _ h. ground (arith, h))
              (λ agree h.
                let front = metadata_url_origin-Continues resource in
                let back = metadata_url_origin-Continues server_url in
                inr (record {
                  path = front.0;
                  server_path = back.0;
                  no_query = ground (arith, plain);
                  no_fragment = ground (arith, plain);
                  one_origin = bytes_eq→eq origin other (ground (arith, agree));
                  has_origin = ground (arith, agree);
                  resource_parts = front.1;
                  server_parts = back.1;
                  covers = covers_path-Covers front.0 back.0 (
                      sym (
                        ap (λ zs. covers_path zs (drop (length other) server_url))
                          (drop-parts origin front.0 resource front.1)
                        ∙ ap (covers_path front.0) (drop-parts other back.0 server_url back.1))
                      ∙ h);
                }))))

IsAudience-accepted :
    (resource server_url : Bytes)
    → IsAudience resource server_url
    → resource_identifies_server resource server_url ≡ true
unfolding resource_identifies_server identifies_by_path
IsAudience-accepted resource server_url a =
    let origin = metadata_url_origin resource in
    let other = metadata_url_origin server_url in
    if-both (λ b. b ≡ true) (bytes_eq resource server_url) _ _ (λ _. refl)
      (λ _.
        if-false _ _ (has_char b'?' resource || has_char b'#' resource)
          (ground (arith, a.no_query, a.no_fragment))
        ∙ if-false _ _ (is_empty origin || not (bytes_eq origin other)) (
            ground
              (arith, a.has_origin, ap (bytes_eq origin) (sym a.one_origin) ∙ bytes_eq_refl origin))
        ∙ ap (λ zs. covers_path zs (drop (length other) server_url))
            (drop-parts origin a.path resource a.resource_parts)
        ∙ ap (covers_path a.path) (drop-parts other a.server_path server_url a.server_parts)
        ∙ Covers-covers_path a.path a.server_path a.covers)

-- A resource that is the server's URL, or whose audience the server is in.
abbrev pub Identifies : Bytes → Bytes → Type 0
Identifies resource server_url = (resource ≡ server_url) ⊎ IsAudience resource server_url

Identifies-accepted :
    (resource server_url : Bytes)
    → Identifies resource server_url
    → resource_identifies_server resource server_url ≡ true
unfolding resource_identifies_server
Identifies-accepted resource server_url (inl e) =
    if-true _ _ (bytes_eq resource server_url)
      (ap (bytes_eq resource) (sym e) ∙ bytes_eq_refl resource)
Identifies-accepted resource server_url (inr a) = IsAudience-accepted resource server_url a

abbrev is_met : Requirement → Bool
is_met meets = true
is_met (missing_resource server_url) = false
is_met (other_resource resource server_url) = false

-- A metadata document passes the check exactly if its resource is not empty and is the server's URL
-- itself, or else has no query or fragment, has the scheme and the authority of the server's URL,
-- byte for byte, in front, and behind them a path that is empty but for a slash, or that the rest of
-- the server's URL, its query and fragment included, is, but for a slash at the end of the path, or
-- starts with, up to a slash.
pub require_resource_identifies_server-Identifies :
    (resource server_url : Bytes)
    → (require_resource_identifies_server resource server_url ≡ meets)
      ↔ ((is_empty resource ≡ false) × Identifies resource server_url)
unfolding require_resource_identifies_server
require_resource_identifies_server-Identifies resource server_url =
    let P : Requirement → Type 0 =
      λ r. (r ≡ meets) ↔ ((is_empty resource ≡ false) × Identifies resource server_url) in
    if-both P (is_empty resource) _ _
      (λ e. ((λ h. ground (arith, ap is_met h)), (λ k. ground (arith, e, k.0))))
      (λ e.
        if-both P (not (resource_identifies_server resource server_url)) _ _
          (λ no. (
            (λ h. ground (arith, ap is_met h)),
            (λ k. ground (arith, no, Identifies-accepted resource server_url k.1)),
          ))
          (λ yes. (
            (λ h. (
              e,
              resource_identifies_server-IsAudience resource server_url (ground (arith, yes)),
            )),
            (λ k. refl),
          )))
