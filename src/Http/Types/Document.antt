-- ===== src/Http/Types/Document.antt =====
-- src/transport/http_types.cpp: the protected-resource metadata document. The text of a JSON string is
-- nlohmann::json's, a parameter, which is `none` for a text that is no UTF-8; the members of an object
-- are in the order of their names.
use mcp_cpp_sdk.Prelude.{Option, none, some, List, [], ◌∷◌, ◌++◌, Bytes, codes}
use mcp_cpp_sdk.Http.Types.{ProtectedResourceMetadataConfig}

abbrev pub quote_mark : Bytes
quote_mark = 0x22 ∷ []

module _ (quoted : Bytes → Option Bytes) where
  abbrev pub joined : Option Bytes → Option Bytes → Option Bytes
  joined none rest = none
  joined (some text) none = none
  joined (some text) (some rest) = some (text ++ rest)

  unfoldable pub more_texts : List Bytes → Option Bytes
  more_texts [] = some (codes "]")
  more_texts (text ∷ texts) = joined (some (codes ",")) (joined (quoted text) (more_texts texts))

  unfoldable pub array_text : List Bytes → Option Bytes
  unfolding more_texts
  array_text [] = some (codes "[]")
  array_text (text ∷ texts) = joined (some (codes "[")) (joined (quoted text) (more_texts texts))

  abbrev key_text : Bytes → Option Bytes
  key_text name = some (quote_mark ++ (name ++ (quote_mark ++ codes ":")))

  -- `authorization_servers`, in front of the member that is always there.
  unfoldable pub servers_member : List Bytes → Option Bytes
  unfolding array_text
  servers_member [] = some []
  servers_member (server ∷ servers) =
      joined (key_text (codes "authorization_servers"))
        (joined (array_text (server ∷ servers)) (some (codes ",")))

  unfoldable pub scopes_member : List Bytes → Option Bytes
  unfolding array_text
  scopes_member [] = some []
  scopes_member (scope ∷ scopes) =
      joined (some (codes ","))
        (joined (key_text (codes "scopes_supported")) (array_text (scope ∷ scopes)))

  unfoldable pub format_protected_resource_metadata : ProtectedResourceMetadataConfig → Option Bytes
  unfolding servers_member scopes_member
  format_protected_resource_metadata metadata = joined (some (codes "{")) (
      joined (servers_member metadata.authorization_servers) (
        joined (key_text (codes "resource")) (
          joined (quoted metadata.resource)
            (joined (scopes_member metadata.scopes_supported) (some (codes "}"))))))
