-- ===== src/Links/Resolve.antt =====
-- `resolve_link`, with `_split` before it, and the text of a canonical URL.
use data_processing.Prelude.{String, Option, none, some, List, [], ◌∷◌, str_eq, if◌then◌else◌, ◌<>◌}
use data_processing.Links.{
  Query, UrlParts, UrlLibrary, ResolvedLink, lookup, gelbooru_hosts, danbooru_family, e621_family,
  gelbooru_family, pixiv, sankaku, pawchive,
}
use data_processing.Links.Path.{path_segments, path_text}

-- The functions of `_HOST_RESOLVERS`.
pub data Family : Type 0 where
  of_danbooru of_e621 of_pixiv of_sankaku of_pawchive : Family

abbrev pub host_resolvers : List (String × Family)
host_resolvers =
    ("danbooru.donmai.us", of_danbooru)
    ∷ ("aibooru.online", of_danbooru)
    ∷ ("www.aibooru.online", of_danbooru)
    ∷ ("e621.net", of_e621)
    ∷ ("e926.net", of_e621)
    ∷ ("www.pixiv.net", of_pixiv)
    ∷ ("pixiv.net", of_pixiv)
    ∷ ("sankaku.app", of_sankaku)
    ∷ ("chan.sankakucomplex.com", of_sankaku)
    ∷ ("www.pawchive.pw", of_pawchive)
    ∷ ("pawchive.pw", of_pawchive)
    ∷ []

unfoldable pub call_family : Family → String → List String → Query → Option ResolvedLink
call_family of_danbooru host path query = danbooru_family host path
call_family of_e621 host path query = e621_family host path
call_family of_pixiv host path query = pixiv path query
call_family of_sankaku host path query = sankaku path
call_family of_pawchive host path query = pawchive path

unfoldable pub call_resolver : Option Family → String → List String → Query → Option ResolvedLink
unfolding call_family
call_resolver none host path query = none
call_resolver (some f) host path query = call_family f host path query

-- `resolve_link`, once the URL is split.
unfoldable pub resolve_parts : Option String → String → List String → Query → Option ResolvedLink
unfolding call_resolver lookup
resolve_parts (some platform) host path query = gelbooru_family platform host query
resolve_parts none host path query = call_resolver (lookup host host_resolvers) host path query

unfoldable pub resolve_place : String → List String → Query → Option ResolvedLink
unfolding resolve_parts lookup
resolve_place host path query = resolve_parts (lookup host gelbooru_hosts) host path query

unfoldable pub fields_text : List (String × String) → String
fields_text [] = ""
fields_text ((k, v) ∷ []) = k <> "=" <> v
fields_text ((k, v) ∷ f ∷ fs) = k <> "=" <> v <> "&" <> fields_text (f ∷ fs)

unfoldable pub query_text : List (String × String) → String
query_text [] = ""
query_text (f ∷ fs) = "?" <> fields_text (f ∷ fs)

-- The field `canonical_url`.
unfoldable pub canonical_url : ResolvedLink → String
unfolding path_text query_text fields_text
canonical_url link =
    "https://"
    <> link.canonical.host
    <> path_text link.canonical.path
    <> query_text link.canonical.query

module _ (lib : UrlLibrary) where
  split_host : UrlParts → Option String → Option (String × List String × Query)
  unfolding path_segments
  split_host parts none = none
  split_host parts (some hostname) =
      if str_eq parts.scheme "https"
      then if str_eq hostname ""
        then none
        else some (lib.lower hostname, path_segments parts.path, lib.parse_qs parts.query)
      else none

  -- `_split`
  unfoldable pub split : String → Option (String × List String × Query)
  unfolding split_host
  split url = elim (lib.urlsplit (lib.strip url)) [
    | none ↦ none
    | some parts ↦ split_host parts parts.hostname
  ]

  unfoldable pub resolve_link : String → Option ResolvedLink
  unfolding split resolve_place
  resolve_link url = elim (split url) [
    | none ↦ none
    | some place ↦ resolve_place place.0 place.1 place.2
  ]
