-- ===== src/Gateway/Headers.antt =====
-- internal/gateway/gateway.go: the identity headers of a request that is passed on and of the answer.
-- A header is a map from canonical names to values; what `ReverseProxy` copies and how a media type is
-- parsed are parameters.
use agent_identity_plane.Prelude.{
  ◌≡◌, refl, false, Bool, List, [], ◌∷◌, ◌++◌, Option, none, some, if◌then◌else◌,
}
use agent_identity_plane.Prelude.Text.{Text, text_eq, codes}
use agent_identity_plane.Prelude.Assoc.{Assoc, lookup, insert, erase, lookup-insert, lookup-erase}
use agent_identity_plane.Visor.{Mapping}

abbrev pub HttpHeader : Type 0
HttpHeader = Assoc (List Text)

abbrev pub header_client : Text
header_client = codes "X-Visor-Client-Id"

abbrev pub header_session : Text
header_session = codes "X-Visor-Session-Id"

abbrev pub header_chain : Text
header_chain = codes "X-Actor-Chain"

abbrev pub header_authorization : Text
header_authorization = codes "Authorization"

abbrev pub header_content_type : Text
header_content_type = codes "Content-Type"

-- `MappingContentType`
abbrev pub mapping_content_type : Text
mapping_content_type = codes "application/vnd.aip.visor-mapping+json"

-- `h.Set`
abbrev pub set_header : Text → Text → HttpHeader → HttpHeader
set_header k v h = insert k (v ∷ []) h

abbrev first_value : Option (List Text) → Text
first_value none = []
first_value (some []) = []
first_value (some (v ∷ vs)) = v

-- `h.Get`
abbrev pub get_header : Text → HttpHeader → Text
get_header k h = first_value (lookup k h)

-- `strings.Join(hops, " > ")`
unfoldable pub join_hops : List Text → Text
join_hops [] = []
join_hops (h ∷ []) = h
join_hops (h ∷ g ∷ hops) = h ++ (codes " > " ++ join_hops (g ∷ hops))

unfoldable pub apply_identity_headers : HttpHeader → Mapping → HttpHeader
unfolding join_hops
apply_identity_headers h m = set_header header_chain (join_hops m.hops) (
    set_header header_session m.session_id (
      set_header header_client m.client_id
        (erase header_chain (erase header_session (erase header_client h)))))

-- `Rewrite` on the header that the proxy is about to send.
unfoldable pub rewrite_header : HttpHeader → Mapping → HttpHeader
unfolding apply_identity_headers
rewrite_header out m = apply_identity_headers (erase header_authorization out) m

-- The media type of a value, where it parses.
module _ (parse_media_type : Text → Option Text) where
  abbrev is_mapping : Option Text → Bool
  is_mapping none = false
  is_mapping (some t) = text_eq t mapping_content_type

  -- `stripBackendMapping` on the header of a response that is there.
  unfoldable pub strip_backend_mapping : HttpHeader → HttpHeader
  strip_backend_mapping h = erase header_chain (
      erase header_session (
        erase header_client (
          if is_mapping (parse_media_type (get_header header_content_type h))
          then erase header_content_type h
          else h)))

-- None of the names that the gateway sets or takes away.
abbrev pub IsOther : Text → Type 0
IsOther k =
    (text_eq header_client k ≡ false)
    × (text_eq header_session k ≡ false)
    × (text_eq header_chain k ≡ false)
    × (text_eq header_authorization k ≡ false)

rewrite_header-other :
    (out : HttpHeader) (m : Mapping) (k : Text)
    → IsOther k
    → lookup k (rewrite_header out m) ≡ lookup k out
unfolding rewrite_header
rewrite_header-other out m k (client, session, chain, authorization) = rw lookup-insert (
    rw chain (
      rw lookup-insert (
        rw session (
          rw lookup-insert (
            rw client (
              rw lookup-erase (
                rw chain (
                  rw lookup-erase (
                    rw session (
                      rw lookup-erase
                        (rw client (rw lookup-erase (rw authorization refl)))))))))))))

-- Whatever the client has sent, the backend is sent the client, session and hops of the verified
-- mapping alone, no access token, and every other header as the proxy would send it.
pub rewrite_header-attests :
    (out : HttpHeader) (m : Mapping)
    → let h = rewrite_header out m in
      (lookup header_client h ≡ some (m.client_id ∷ []))
      × (lookup header_session h ≡ some (m.session_id ∷ []))
      × (lookup header_chain h ≡ some (join_hops m.hops ∷ []))
      × (lookup header_authorization h ≡ none)
      × ((k : Text) → IsOther k → lookup k h ≡ lookup k out)
unfolding rewrite_header apply_identity_headers text_eq
rewrite_header-attests out m = (
  rw (lookup-insert, lookup-insert, lookup-insert) refl,
  rw (lookup-insert, lookup-insert) refl,
  rw lookup-insert refl,
  rw
      (
        lookup-insert, lookup-insert, lookup-insert, lookup-erase, lookup-erase, lookup-erase,
        lookup-erase,
      )
      refl,
  rewrite_header-other out m,
)
