-- ===== src/Xray/Stream.antt =====
-- src/core/XrayStreamSettings.cpp: transport and security of an outbound.
use zarya.Prelude.{
  true, false, not, ◌&&◌, ◌||◌, List, [], ◌∷◌, map, Text, codes, text_eq, to_lower, trimmed, split,
  is_empty, arg, if◌then◌else◌,
}
use zarya.Json.{bool, str, arr, obj, Fields, end, insert, insert_text, of_list, is_empty_object}
use zarya.Profiles.Profile.{
  Profile, is_security_reality, is_security_tls, effective_server_name, effective_fingerprint,
}
use zarya.Routing.Generator.{kept_values}
use zarya.Xray.Support.{normalized_network}

-- A JSON object, or the text that was put into *errorMessage.
pub data Generated : Type 0 where
  generated : Fields → Generated
  failed : Text → Generated

abbrev pub bind : Generated → (Fields → Generated) → Generated
bind (generated f) next = next f
bind (failed text) next = failed text

-- A list under a key, if it has items.
unfoldable pub insert_texts : Text → List Text → Fields → Fields
insert_texts key texts f =
    if is_empty texts then f else insert key (arr (of_list (map str texts))) f

abbrev pub or_text : Text → Text → Text
or_text [] default = default
or_text (c ∷ s) default = c ∷ s

unfoldable pub build_tls_settings : Profile → Fields
build_tls_settings p =
    let server_name = or_text (effective_server_name p) (trimmed p.address) in
    let named = insert_text (codes "serverName") server_name end in
    let printed = insert_text (codes "fingerprint") (effective_fingerprint p) named in
    let allowed =
      if p.allow_insecure then insert (codes "allowInsecure") (bool true) printed else printed in
    insert_texts (codes "alpn") (kept_values (split (trimmed p.alpn) b',')) allowed

unfoldable pub build_reality_settings : Profile → Fields
build_reality_settings p =
    insert (codes "spiderX") (str (or_text (trimmed p.spider_x) (codes "/"))) (
      insert (codes "shortId") (str (trimmed p.short_id)) (
        insert (codes "publicKey") (str (trimmed p.public_key)) (
          insert (codes "serverName") (str (effective_server_name p)) (
            insert (codes "fingerprint") (str (effective_fingerprint p))
              (insert (codes "show") (bool false) end)))))

unfoldable pub build_ws_settings : Profile → Fields
build_ws_settings p =
    let ws_settings = insert (codes "path") (str (or_text (trimmed p.path) (codes "/"))) end in
    let host = or_text (trimmed p.host) (effective_server_name p) in
    if is_empty host
    then ws_settings
    else insert (codes "headers") (obj (insert (codes "Host") (str host) end)) ws_settings

unfoldable pub build_grpc_settings : Profile → Fields
build_grpc_settings p =
    insert_text (codes "serviceName") (or_text (trimmed p.service_name) (trimmed p.path)) end

unfoldable pub apply_transport_layer : Profile → Text → Fields → Generated
apply_transport_layer p network settings =
    let stream = insert (codes "network") (str network) settings in
    if text_eq network (codes "ws")
    then generated (insert (codes "wsSettings") (obj (build_ws_settings p)) stream)
    else if text_eq network (codes "grpc")
    then (if is_empty_object (build_grpc_settings p)
        then failed (codes "gRPC requires service name.")
        else generated (insert (codes "grpcSettings") (obj (build_grpc_settings p)) stream))
    else if not (text_eq network (codes "tcp"))
    then failed (arg (codes "Unsupported network type: %1") (network ∷ []))
    else generated stream

unfoldable pub apply_reality : Profile → Text → Fields → Generated
apply_reality p network settings =
    if text_eq network (codes "ws")
    then failed (codes "REALITY cannot be used with WebSocket transport.")
    else if not (text_eq network (codes "tcp")) && not (text_eq network (codes "grpc"))
    then failed (codes "REALITY requires network tcp or grpc.")
    else if is_empty (trimmed p.public_key) || is_empty (effective_server_name p)
    then failed (codes "REALITY requires public key and server name.")
    else generated (
        insert (codes "realitySettings") (obj (build_reality_settings p))
          (insert (codes "security") (str (codes "reality")) settings))

unfoldable pub normalized_security : Profile → Text
normalized_security p = to_lower (trimmed p.security)

unfoldable pub apply_security_layer : Profile → Text → Fields → Generated
apply_security_layer p network settings =
    let security = normalized_security p in
    if is_security_reality p
    then apply_reality p network settings
    else if is_security_tls p || text_eq security (codes "tls")
    then generated (
        insert (codes "tlsSettings") (obj (build_tls_settings p))
          (insert (codes "security") (str (codes "tls")) settings))
    else if not (is_empty security) && not (text_eq security (codes "none"))
    then failed (arg (codes "Unsupported security type: %1") (p.security ∷ []))
    else generated settings

-- Both layers in turn; an error of the first leaves the second out.
unfoldable pub generate : Profile → Generated
generate p =
    let network = normalized_network p in
    bind (apply_transport_layer p network end) (apply_security_layer p network)
