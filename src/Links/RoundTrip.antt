-- ===== src/Links/RoundTrip.antt =====
-- A canonical URL is read back as the link that it stands for.
use data_processing.Prelude.{
  String, Option, none, some, List, [], ◌∷◌, false, ◌≡◌, refl, sym, ap, ◌∙◌, subst, str_eq, arith,
}
use data_processing.Links.{
  Query, UrlLibrary, ResolvedLink, lookup, without_locales, gelbooru_hosts, pixiv_link, pixiv,
  sankaku_link, sankaku,
}
use data_processing.Links.Text.{is_digits, is_sankaku_id}
use data_processing.Links.TextLaws.{str_eq-false}
use data_processing.Links.Path.{without, path_text, path_segments-path_text}
use data_processing.Links.Again.{Found, Again, query_of, pixiv-Again, sankaku-Again}
use data_processing.Links.Resolve.{
  Family, call_family, call_resolver, resolve_parts, resolve_link, split, canonical_url,
  fields_text, resolve_place, host_resolvers, of_danbooru, of_e621, of_pixiv, of_sankaku,
  of_pawchive,
}
use data_processing.Links.Forms.{
  Found-map, HasForm-Again, danbooru-Found, e621-Found, gelbooru-Found, pixiv-HasForm,
  sankaku-HasForm, pawchive-Found,
}

resolver-Found :
    (f : Family) (host : String) (path : List String) (query : Query)
    → lookup host gelbooru_hosts ≡ none
    → lookup host host_resolvers ≡ some f
    → Found (call_family f host path query) Again
unfolding call_family pixiv sankaku
resolver-Found of_danbooru host path query g r = danbooru-Found host path g r
resolver-Found of_e621 host path query g r = e621-Found host path g r
resolver-Found of_pixiv host path query g r =
    Found-map _ (HasForm-Again is_digits pixiv_link pixiv-Again)
      (pixiv-HasForm (without ("en" ∷ []) path) query)
resolver-Found of_sankaku host path query g r =
    Found-map _ (HasForm-Again is_sankaku_id sankaku_link sankaku-Again)
      (sankaku-HasForm (without_locales path))
resolver-Found of_pawchive host path query g r = pawchive-Found path

call_resolver-Found :
    (o : Option Family) (host : String) (path : List String) (query : Query)
    → lookup host gelbooru_hosts ≡ none
    → lookup host host_resolvers ≡ o
    → Found (call_resolver o host path query) Again
unfolding call_resolver
call_resolver-Found none host path query g r = tt
call_resolver-Found (some f) host path query g r = resolver-Found f host path query g r

resolve_parts-Found :
    (o : Option String) (host : String) (path : List String) (query : Query)
    → lookup host gelbooru_hosts ≡ o
    → Found (resolve_parts o host path query) Again
unfolding resolve_parts
resolve_parts-Found none host path query g =
    call_resolver-Found (lookup host host_resolvers) host path query g refl
resolve_parts-Found (some platform) host path query g = gelbooru-Found host platform query g

-- A link that is found at a place has a canonical place at which the same link is found.
pub resolve_place-Found :
    (host : String) (path : List String) (query : Query)
    → Found (resolve_place host path query) Again
unfolding resolve_place
resolve_place-Found host path query =
    resolve_parts-Found (lookup host gelbooru_hosts) host path query refl

-- What the library answers for the canonical URL of the link: that it has these parts.
pub record ReadsBack (lib : UrlLibrary) (link : ResolvedLink) : Type 0 where
  pub splits :
      lib.urlsplit (lib.strip (canonical_url link))
      ≡ some (record {
        scheme = "https";
        hostname = some link.canonical.host;
        path = path_text link.canonical.path;
        query = fields_text link.canonical.query;
      })
  pub lowers : lib.lower link.canonical.host ≡ link.canonical.host
  pub parses : lib.parse_qs (fields_text link.canonical.query) ≡ query_of link.canonical.query

no_host : (path : List String) (query : Query) → resolve_place "" path query ≡ none
unfolding resolve_place
no_host path query = refl

has_host :
    (host : String) (path : List String) (query : Query) (link : ResolvedLink)
    → resolve_place host path query ≡ some link
    → str_eq host "" ≡ false
has_host host path query link h =
    str_eq-false host "" λ e.
      ground (arith, sym (no_host path query) ∙ ap (λ u. resolve_place u path query) (sym e) ∙ h)

split-canonical_url :
    (lib : UrlLibrary) (link : ResolvedLink)
    → ReadsBack lib link
    → Again link
    → split lib (canonical_url link)
      ≡ some (link.canonical.host, link.canonical.path, query_of link.canonical.query)
unfolding split
split-canonical_url lib link r a = ground (
  arith,
  r.splits,
  r.lowers,
  r.parses,
  has_host _ _ _ link a.0,
  path_segments-path_text link.canonical.path a.1,
)

Again-resolve_link :
    (lib : UrlLibrary) (link : ResolvedLink)
    → ReadsBack lib link
    → Again link
    → resolve_link lib (canonical_url link) ≡ some link
unfolding resolve_link
Again-resolve_link lib link r a =
    ap
      (λ o. elim o as (λ _. Option ResolvedLink) [
        | none ↦ none
        | some place ↦ resolve_place place.0 place.1 place.2
      ])
      (split-canonical_url lib link r a)
    ∙ a.0

resolve_link-Found : (lib : UrlLibrary) (url : String) → Found (resolve_link lib url) Again
unfolding resolve_link
resolve_link-Found lib url = found (split lib url)
  where
    found :
        (o : Option (String × List String × Query))
        → Found (elim o [ none ↦ none | some place ↦ resolve_place place.0 place.1 place.2 ]) Again
    found none = tt
    found (some place) = resolve_place-Found place.0 place.1 place.2

-- Where a URL is resolved to a link, and the URL library reads the link's canonical URL back as its
-- parts, the canonical URL is resolved to the same link.
pub resolve_link-canonical_url :
    (lib : UrlLibrary) (url : String) (link : ResolvedLink)
    → resolve_link lib url ≡ some link
    → ReadsBack lib link
    → resolve_link lib (canonical_url link) ≡ some link
resolve_link-canonical_url lib url link h r =
    Again-resolve_link lib link r (subst (λ o. Found o Again) h (resolve_link-Found lib url))
