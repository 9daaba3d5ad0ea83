-- ===== src/Links/Again.antt =====
-- The canonical URL of each form of link leads to this link.
use data_processing.Prelude.{
  String, Option, none, some, List, [], ◌∷◌, true, false, ◌≡◌, refl, sym, ap, subst, str_eq, eq_iff,
  arith, Bool-cases, inl, inr, All,
}
use data_processing.Links.{
  Query, ResolvedLink, lookup, posts_link, show_page, posts_page, family, last_value,
  without_locales, sankaku_page, post_id, gelbooru_link, gelbooru_hosts, danbooru_hosts, e621_hosts,
  gelbooru_family, query_post_id, danbooru_family, e621_family, pixiv_link, pixiv_page, pixiv,
  sankaku_link, sankaku, pawchive_link, pawchive,
}
use data_processing.Links.Text.{is_digits, is_service, is_sankaku_id, is_locale}
use data_processing.Links.TextLaws.{
  is_digits-differs, remove_suffix-is_digits, remove_suffix-is_sankaku_id, is_digits-is_segment,
  is_service-is_segment, is_sankaku_id-is_segment, is_sankaku_id-is_locale,
}
use data_processing.Links.Path.{without, is_segment}
use data_processing.Links.Resolve.{resolve_place, host_resolvers, of_danbooru, of_e621}

abbrev pub Found : Option ResolvedLink → (ResolvedLink → Type 0) → Type 0
Found none P = Unit
Found (some link) P = P link

-- What is found at a page of a post: the id is numeric.
abbrev pub IsPost : String → String → ResolvedLink → Type 0
IsPost platform host link =
    (is_digits link.target ≡ true) × (link ≡ posts_link platform host link.target)

posts_page-IsPost :
    (platform host : String) (path : List String)
    → Found (posts_page platform host path) (IsPost platform host)
unfolding posts_page post_id
posts_page-IsPost platform host [] = tt
posts_page-IsPost platform host (a ∷ []) = tt
posts_page-IsPost platform host (a ∷ b ∷ []) = ground arith
posts_page-IsPost platform host (a ∷ b ∷ c ∷ path) = tt

pub family-IsPost :
    (hosts : List (String × String)) (locales : List String) (host platform : String)
    (path : List String)
    → lookup host hosts ≡ some platform
    → Found (family hosts locales host path) (IsPost platform host)
unfolding family
family-IsPost hosts locales host platform path h =
    ground (arith, h, posts_page-IsPost platform host (show_page (without locales path)))

posts_link-again :
    (hosts : List (String × String)) (locales : List String) (host platform id : String)
    → lookup host hosts ≡ some platform
    → without locales ("posts" ∷ id ∷ []) ≡ "posts" ∷ id ∷ []
    → is_digits id ≡ true
    → family hosts locales host ("posts" ∷ id ∷ []) ≡ some (posts_link platform host id)
unfolding family posts_page post_id
posts_link-again hosts locales host platform id h w d =
    ground (arith, h, w, d, remove_suffix-is_digits id d)

-- The words of a path that are no ids.
keeps_id :
    (locales : List String) (id : String)
    → is_digits id ≡ true
    → All (λ w. is_digits w ≡ false) locales
    → without locales (id ∷ []) ≡ id ∷ []
unfolding without
keeps_id [] id d h = refl
keeps_id (w ∷ ws) id d h = ground (arith, keeps_id ws id d h.1, is_digits-differs id w d h.0)

abbrev pub query_of : List (String × String) → Query
query_of [] = []
query_of ((k, v) ∷ rest) = (k, v ∷ []) ∷ query_of rest

-- The place of the canonical URL is resolved to this link, and its path has no empty segment.
abbrev pub Again : ResolvedLink → Type 0
Again link =
    (resolve_place link.canonical.host link.canonical.path (query_of link.canonical.query)
      ≡ some link)
    × All (λ p. is_segment p ≡ true) link.canonical.path

pub danbooru-Again :
    (host platform id : String)
    → lookup host gelbooru_hosts ≡ none
    → lookup host host_resolvers ≡ some of_danbooru
    → lookup host danbooru_hosts ≡ some platform
    → is_digits id ≡ true
    → Again (posts_link platform host id)
unfolding resolve_place danbooru_family without is_digits is_segment
danbooru-Again host platform id g r h d = (
  ground (
    arith,
    g,
    r,
    posts_link-again danbooru_hosts ("en" ∷ "ja" ∷ []) host platform id h
        (ap (λ p. "posts" ∷ p) (keeps_id ("en" ∷ "ja" ∷ []) id d (refl, (refl, tt)))) d,
  ),
  (refl, (is_digits-is_segment id d, tt)),
)

pub e621-Again :
    (host platform id : String)
    → lookup host gelbooru_hosts ≡ none
    → lookup host host_resolvers ≡ some of_e621
    → lookup host e621_hosts ≡ some platform
    → is_digits id ≡ true
    → Again (posts_link platform host id)
unfolding resolve_place e621_family without is_digits is_segment
e621-Again host platform id g r h d = (
  ground (
    arith,
    g,
    r,
    posts_link-again e621_hosts ("en" ∷ []) host platform id h
        (ap (λ p. "posts" ∷ p) (keeps_id ("en" ∷ []) id d (refl, tt))) d,
  ),
  (refl, (is_digits-is_segment id d, tt)),
)

pub pixiv-Again : (id : String) → is_digits id ≡ true → Again (pixiv_link id)
unfolding resolve_place pixiv pixiv_page post_id without is_digits lookup is_segment
pixiv-Again id d = (
  ground (arith, keeps_id ("en" ∷ []) id d (refl, tt), d),
  (refl, (is_digits-is_segment id d, tt)),
)

pub sankaku-Again : (id : String) → is_sankaku_id id ≡ true → Again (sankaku_link id)
unfolding resolve_place sankaku sankaku_page without_locales lookup is_locale is_segment
sankaku-Again id d = (
  ground (arith, d, is_sankaku_id-is_locale id d, remove_suffix-is_sankaku_id id d),
  (refl, (is_sankaku_id-is_segment id d, tt)),
)

pub pawchive-Again :
    (service user id : String)
    → is_service service ≡ true
    → is_digits user ≡ true
    → is_digits id ≡ true
    → Again (pawchive_link service user id)
unfolding resolve_place pawchive lookup is_segment
pawchive-Again service user id s u i = (
  ground (arith, s, u, i),
  (
    is_service-is_segment service s,
    (refl, (is_digits-is_segment user u, (refl, (is_digits-is_segment id i, tt)))),
  ),
)

rule34-Again : (host id : String) → is_digits id ≡ true → Again (gelbooru_link "rule34" host id)
unfolding resolve_place gelbooru_family query_post_id post_id lookup last_value is_digits is_segment
rule34-Again host id d = (ground (arith, d, is_digits-differs id "" d refl), (refl, tt))

pub gelbooru-Again :
    (host platform id : String)
    → lookup host gelbooru_hosts ≡ some platform
    → is_digits id ≡ true
    → Again (gelbooru_link platform host id)
unfolding resolve_place gelbooru_family query_post_id post_id lookup last_value is_digits is_segment
gelbooru-Again host platform id h d = elim (Bool-cases (str_eq platform "rule34")) [
  | inl e ↦
      subst (λ p. Again (gelbooru_link p host id)) (sym ((eq_iff platform "rule34").0 e))
        (rule34-Again host id d)
  | inr e ↦ (ground (arith, e, h, d, is_digits-differs id "" d refl), (refl, tt))
]
