-- ===== src/Links.antt =====
-- link_resolution.py: the URL of a post at a supported site is read into a platform, an operation and
-- a target. `LinkResolutionError` is `none`, whatever its message.
pub mod Text
pub mod Path
pub mod Resolve
pub mod TextLaws
pub mod Again
pub mod Forms
pub mod RoundTrip
use data_processing.Prelude.{
  ℕ, String, Option, none, some, List, [], ◌∷◌, Bool, true, false, not, ◌&&◌, ◌||◌, str_eq,
  if◌then◌else◌, ◌<>◌,
}
use data_processing.RemoteSync.Types.{AdapterOperation, fetch_post}
use data_processing.Links.Text.{is_digits, is_service, is_sankaku_id, is_locale, remove_suffix}
use data_processing.Links.Path.{path_segments, without}

-- What `parse_qs` gives: the values of each key, in their order.
abbrev pub Query : Type 0
Query = List (String × List String)

-- What `urlsplit` gives.
pub record UrlParts : Type 0 where
  pub scheme : String
  pub hostname : Option String
  pub path : String
  pub query : String

-- The functions of `str` and `urllib.parse` that the resolver calls; `none` is a ValueError.
pub record UrlLibrary : Type 0 where
  pub strip : String → String
  pub lower : String → String
  pub urlsplit : String → Option UrlParts
  pub parse_qs : String → Query

-- A canonical URL, which is always one of https: its host, its path and its query.
pub record CanonicalUrl : Type 0 where
  pub host : String
  pub path : List String
  pub query : List (String × String)

-- `ResolvedLink`, less the note, which no resolver sets.
pub record ResolvedLink : Type 0 where
  pub platform : String
  pub operation : AdapterOperation
  pub target : String
  pub canonical : CanonicalUrl

-- A dictionary, and `dict.get`.
unfoldable pub lookup {ℓ} : {A : Type ℓ} → String → List (String × A) → Option A
lookup key [] = none
lookup key ((k, a) ∷ rest) = if str_eq k key then some a else lookup key rest

-- The value at [-1], or the empty text.
unfoldable pub last_value : Option (List String) → String
last_value none = ""
last_value (some []) = ""
last_value (some (v ∷ [])) = v
last_value (some (v ∷ w ∷ vs)) = last_value (some (w ∷ vs))

unfoldable pub post_id : String → Option String
unfolding is_digits
post_id value = if is_digits value then some value else none

-- The link of a post whose page is /posts/<id>.
abbrev pub posts_link : String → String → String → ResolvedLink
posts_link platform host id = record {
  platform = platform;
  operation = fetch_post;
  target = id;
  canonical = record { host = host; path = "posts" ∷ id ∷ []; query = [] };
}

-- A page of the old form /post/show/<id> is the page /posts/<id>.
unfoldable pub show_page : List String → List String
show_page (a ∷ b ∷ c ∷ []) =
    if str_eq a "post" && str_eq b "show" then "posts" ∷ c ∷ [] else a ∷ b ∷ c ∷ []
show_page segments = segments

found_post : String → String → Option String → Option ResolvedLink
found_post platform host none = none
found_post platform host (some id) = some (posts_link platform host id)

unfoldable pub posts_page : String → String → List String → Option ResolvedLink
unfolding found_post remove_suffix post_id
posts_page platform host (kind ∷ id ∷ []) =
    if str_eq kind "posts"
    then found_post platform host (post_id (remove_suffix ".json" id))
    else none
posts_page platform host _ = none

abbrev pub danbooru_hosts : List (String × String)
danbooru_hosts =
    ("danbooru.donmai.us", "danbooru")
    ∷ ("aibooru.online", "aibooru")
    ∷ ("www.aibooru.online", "aibooru")
    ∷ []

abbrev pub e621_hosts : List (String × String)
e621_hosts = ("e621.net", "e621") ∷ ("e926.net", "e926") ∷ []

abbrev pub gelbooru_hosts : List (String × String)
gelbooru_hosts =
    ("gelbooru.com", "gelbooru")
    ∷ ("safebooru.org", "safebooru")
    ∷ ("rule34.xxx", "rule34")
    ∷ ("www.rule34.xxx", "rule34")
    ∷ ("api.rule34.xxx", "rule34")
    ∷ []

-- The page of a post, at a platform of the table; each caller has looked its host up before.
unfoldable pub family :
    List (String × String) → List String → String → List String → Option ResolvedLink
unfolding lookup posts_page show_page without
family hosts locales host path = elim (lookup host hosts) [
  | none ↦ none
  | some platform ↦ posts_page platform host (show_page (without locales path))
]

unfoldable pub danbooru_family : String → List String → Option ResolvedLink
unfolding family
danbooru_family = family danbooru_hosts ("en" ∷ "ja" ∷ [])

unfoldable pub e621_family : String → List String → Option ResolvedLink
unfolding family
e621_family = family e621_hosts ("en" ∷ [])

abbrev pub gelbooru_link : String → String → String → ResolvedLink
gelbooru_link platform host id = record {
  platform = platform;
  operation = fetch_post;
  target = id;
  canonical = record {
    host = if str_eq platform "rule34" then "rule34.xxx" else host;
    path = "index.php" ∷ [];
    query = ("page", "post") ∷ ("s", "view") ∷ ("id", id) ∷ [];
  };
}

unfoldable pub query_post_id : Query → Option String
unfolding lookup last_value post_id
query_post_id query =
    let page = last_value (lookup "page" query) in
    let view = last_value (lookup "s" query) in
    let id = last_value (lookup "id" query) in
    if not (str_eq page "post" && str_eq view "view") || str_eq id "" then none else post_id id

unfoldable pub gelbooru_family : String → String → Query → Option ResolvedLink
unfolding query_post_id
gelbooru_family platform host query = elim (query_post_id query) [
  | none ↦ none
  | some id ↦ some (gelbooru_link platform host id)
]

abbrev pub pixiv_link : String → ResolvedLink
pixiv_link id = record {
  platform = "pixiv";
  operation = fetch_post;
  target = id;
  canonical = record { host = "www.pixiv.net"; path = "artworks" ∷ id ∷ []; query = [] };
}

unfoldable pub found_pixiv : Option String → Option ResolvedLink
found_pixiv none = none
found_pixiv (some id) = some (pixiv_link id)

unfoldable pub is_filled : Option (List String) → Bool
is_filled none = false
is_filled (some []) = false
is_filled (some (v ∷ vs)) = true

unfoldable pub pixiv_page : List String → Query → Option ResolvedLink
unfolding found_pixiv is_filled last_value lookup post_id
pixiv_page (kind ∷ id ∷ []) query =
    if str_eq kind "artworks" then found_pixiv (post_id id) else none
pixiv_page (kind ∷ []) query =
    if str_eq kind "member_illust.php" && is_filled (lookup "illust_id" query)
    then found_pixiv (post_id (last_value (lookup "illust_id" query)))
    else none
pixiv_page _ query = none

unfoldable pub pixiv : List String → Query → Option ResolvedLink
unfolding pixiv_page without
pixiv path query = pixiv_page (without ("en" ∷ []) path) query

abbrev pub sankaku_link : String → ResolvedLink
sankaku_link id = record {
  platform = "sankaku";
  operation = fetch_post;
  target = id;
  canonical = record { host = "sankaku.app"; path = "posts" ∷ id ∷ []; query = [] };
}

unfoldable pub without_locales : List String → List String
unfolding is_locale
without_locales [] = []
without_locales (s ∷ rest) = if is_locale s then without_locales rest else s ∷ without_locales rest

unfoldable pub sankaku_page : List String → Option ResolvedLink
unfolding remove_suffix is_sankaku_id
sankaku_page (kind ∷ page ∷ []) =
    let id = remove_suffix ".json" page in
    if not (str_eq kind "posts")
    then none
    else if is_sankaku_id id
    then some (sankaku_link id)
    else none
sankaku_page _ = none

unfoldable pub sankaku : List String → Option ResolvedLink
unfolding sankaku_page without_locales
sankaku path = sankaku_page (without_locales path)

abbrev pub pawchive_link : String → String → String → ResolvedLink
pawchive_link service user id = record {
  platform = "pawchive";
  operation = fetch_post;
  target = service <> ":" <> user <> ":" <> id;
  canonical = record {
    host = "pawchive.pw";
    path = service ∷ "user" ∷ user ∷ "post" ∷ id ∷ [];
    query = [];
  };
}

unfoldable pub pawchive : List String → Option ResolvedLink
unfolding is_service is_digits
pawchive (service ∷ user_word ∷ user ∷ post_word ∷ id ∷ []) =
    if not (str_eq user_word "user" && str_eq post_word "post")
    then none
    else if is_service service && is_digits user && is_digits id
    then some (pawchive_link service user id)
    else none
pawchive _ = none
