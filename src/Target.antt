-- ===== src/Target.antt =====
-- src/target.rs: the WebSocket URL and the base of the response URLs, made from one target URL.
-- The `url` crate is a parameter; the work on the path is the source's own.
pub mod Paths
pub mod Schemes
pub mod Tests
use prometheus_ws_proxy_clie.Base.{
  ℕ, Bool, true, false, not, ◌&&◌, ◌||◌, Option, none, some, Result, ok, err, ok_or, ◌>>=◌, ◌>>◌,
  List, [], ◌∷◌, ◌++◌, Bytes, codes, bytes_eq, ◌==◌, if◌then◌else◌,
}
use prometheus_ws_proxy_clie.Protocol.{validate_uid}
use prometheus_ws_proxy_clie.Error.{BoxError, url, message, or_field_limit}

-- `str::trim_end_matches('/')`
abbrev pub trim_cons : ℕ → Bytes → Bytes
trim_cons c [] = if c == b'/' then [] else c ∷ []
trim_cons c (d ∷ ds) = c ∷ d ∷ ds

unfoldable pub trim_end_slashes : Bytes → Bytes
trim_end_slashes [] = []
trim_end_slashes (c ∷ cs) = trim_cons c (trim_end_slashes cs)

-- `str::strip_suffix`
unfoldable pub strip_suffix : Bytes → Bytes → Option Bytes
strip_suffix suffix [] = if bytes_eq [] suffix then some [] else none
strip_suffix suffix (c ∷ cs) =
    let rest : Option Bytes = elim (strip_suffix suffix cs) [
      | none ↦ none
      | some kept ↦ some (c ∷ kept)
    ] in
    if bytes_eq (c ∷ cs) suffix then some [] else rest

abbrev is_some : Option Bytes → Bool
is_some none = false
is_some (some _) = true

abbrev or_empty : Option Bytes → Bytes
or_empty none = []
or_empty (some s) = s

-- `str::ends_with`
abbrev pub ends_with : Bytes → Bytes → Bool
ends_with s suffix = is_some (strip_suffix suffix s)

abbrev is_empty : Bytes → Bool
is_empty [] = true
is_empty _ = false

unfoldable pub with_trailing_slash : Bytes → Bytes
unfolding strip_suffix
with_trailing_slash path =
    let path' = if is_empty path then codes "/" else path in
    if ends_with path' (codes "/") then path' else path' ++ codes "/"

-- Whether a trimmed path names the WebSocket endpoint.
abbrev pub is_ws_path : Bytes → Bool
is_ws_path trimmed = ends_with trimmed (codes "/ws") || bytes_eq trimmed (codes "ws")

-- The base path and the WebSocket path of a trimmed path, and of a URL's path.
unfoldable pub split_trimmed : Bytes → Bytes × Bytes
unfolding strip_suffix with_trailing_slash
split_trimmed trimmed =
    if is_ws_path trimmed
    then (
      with_trailing_slash (or_empty (strip_suffix (codes "/ws") trimmed)),
      with_trailing_slash trimmed,
    )
    else (with_trailing_slash trimmed, with_trailing_slash trimmed ++ codes "ws/")

unfoldable pub split_path : Bytes → Bytes × Bytes
unfolding trim_end_slashes split_trimmed
split_path path = split_trimmed (trim_end_slashes path)

-- The `url` crate. `with_segments` is `path_segments_mut`, then `pop_if_empty`, then a `push` of
-- each segment; it fails for a URL that cannot be a base.
pub record UrlLib (Url : Type 0) : Type 0 where
  pub parse_url : Bytes → Option Url
  pub scheme : Url → Bytes
  pub path : Url → Bytes
  pub clear_fragment : Url → Url
  pub clear_query : Url → Url
  pub set_scheme : Bytes → Url → Option Url
  pub set_path : Bytes → Url → Url
  pub with_segments : List Bytes → Url → Option Url

pub record Target (Url : Type 0) : Type 0 where
  pub ws_url : Url
  pub response_base : Url

-- The schemes for the WebSocket and for HTTP.
unfoldable pub target_schemes : Bytes → Option (Bytes × Bytes)
target_schemes scheme =
    if bytes_eq scheme (codes "http")
    then some (codes "ws", codes "http")
    else if bytes_eq scheme (codes "https")
    then some (codes "wss", codes "https")
    else if bytes_eq scheme (codes "ws")
    then some (codes "ws", codes "http")
    else if bytes_eq scheme (codes "wss")
    then some (codes "wss", codes "https")
    else none

module _ {Url : Type 0} (lib : UrlLib Url) where
  open lib use {
    parse_url, scheme, path, clear_fragment, clear_query, set_scheme, set_path, with_segments,
  }

  -- The URLs for the given schemes and paths.
  unfoldable pub assemble : Url → Bytes × Bytes → Bytes × Bytes → Result BoxError (Target Url)
  assemble source (ws_scheme, http_scheme) (base_path, ws_path) = do
    ws_url ← ok_or (set_scheme ws_scheme source) (message "invalid WS scheme")
    response_base ← ok_or (set_scheme http_scheme source) (message "invalid HTTP scheme")
    ok (record {
      ws_url = set_path ws_path ws_url;
      response_base = set_path base_path response_base;
    })

  -- `Target::parse`
  unfoldable pub parse : Bytes → Result BoxError (Target Url)
  unfolding target_schemes split_path assemble
  parse value = do
    source ← ok_or (parse_url value) url
    schemes ← ok_or (target_schemes (scheme source)) (message "unsupported target URL scheme")
    let cleared = clear_query (clear_fragment source)
    assemble cleared schemes (split_path (path cleared))

  -- `Target::response_url`
  unfoldable pub response_url : Target Url → Bytes → Result BoxError Url
  unfolding validate_uid
  response_url target uid = do
    or_field_limit (validate_uid uid)
    ok_or (with_segments (codes "response" ∷ uid ∷ [] ∷ []) target.response_base)
        (message "target URL cannot be a base")
