-- ===== src/Links/Forms.antt =====
-- What each resolver finds has one of the forms of links.
use data_processing.Prelude.{
  String, Option, none, some, List, [], ◌∷◌, Bool, true, false, not, ◌&&◌, ◌≡◌, refl, sym, subst,
  str_eq, arith, if◌then◌else◌, Option-cases, inl, inr,
}
use data_processing.Links.{
  Query, ResolvedLink, lookup, posts_link, show_page, posts_page, family, sankaku_page, post_id,
  gelbooru_link, gelbooru_hosts, danbooru_hosts, e621_hosts, gelbooru_family, query_post_id,
  danbooru_family, e621_family, pixiv_link, pixiv_page, sankaku_link, pawchive_link, pawchive,
}
use data_processing.Links.Text.{is_digits, is_service, is_sankaku_id}
use data_processing.Links.Path.{without}
use data_processing.Links.Again.{
  Found, Again, danbooru-Again, e621-Again, pawchive-Again, gelbooru-Again, family-IsPost,
}
use data_processing.Links.Resolve.{host_resolvers, of_danbooru, of_e621}

pub Found-map :
    {P Q : ResolvedLink → Type 0} (o : Option ResolvedLink)
    → ((link : ResolvedLink) → P link → Q link)
    → Found o P
    → Found o Q
Found-map none f h = tt
Found-map (some link) f h = f link h

Found-if :
    (P : ResolvedLink → Type 0) (b : Bool) (o o' : Option ResolvedLink)
    → (b ≡ true → Found o P)
    → (b ≡ false → Found o' P)
    → Found (if b then o else o') P
Found-if P true o o' h k = h refl
Found-if P false o o' h k = k refl

-- A link with an id that the expression of its site accepts, and the form that it has.
abbrev pub HasForm : (String → Bool) → (String → ResolvedLink) → ResolvedLink → Type 0
HasForm accepts form link = (accepts link.target ≡ true) × (link ≡ form link.target)

pub HasForm-Again :
    (accepts : String → Bool) (form : String → ResolvedLink)
    → ((id : String) → accepts id ≡ true → Again (form id))
    → (link : ResolvedLink) → HasForm accepts form link
    → Again link
HasForm-Again accepts form again link h = subst (λ l. Again l) (sym h.1) (again link.target h.0)

-- What each resolver finds can be found again.
pub danbooru-Found :
    (host : String) (path : List String)
    → lookup host gelbooru_hosts ≡ none
    → lookup host host_resolvers ≡ some of_danbooru
    → Found (danbooru_family host path) Again
unfolding danbooru_family family
danbooru-Found host path g r = elim (Option-cases (lookup host danbooru_hosts)) [
  | inl e ↦
      subst
        (λ o.
          Found
            (elim o [
              | none ↦ none
              | some platform ↦
                  posts_page platform host (show_page (without ("en" ∷ "ja" ∷ []) path))
            ])
            Again)
        (sym e) tt
  | inr (platform, e) ↦
      Found-map _
        (HasForm-Again is_digits (posts_link platform host)
          (λ id. danbooru-Again host platform id g r e))
        (family-IsPost danbooru_hosts ("en" ∷ "ja" ∷ []) host platform path e)
]

pub e621-Found :
    (host : String) (path : List String)
    → lookup host gelbooru_hosts ≡ none
    → lookup host host_resolvers ≡ some of_e621
    → Found (e621_family host path) Again
unfolding e621_family family
e621-Found host path g r = elim (Option-cases (lookup host e621_hosts)) [
  | inl e ↦
      subst
        (λ o.
          Found
            (elim o [
              | none ↦ none
              | some platform ↦ posts_page platform host (show_page (without ("en" ∷ []) path))
            ])
            Again)
        (sym e) tt
  | inr (platform, e) ↦
      Found-map _
        (HasForm-Again is_digits (posts_link platform host)
          (λ id. e621-Again host platform id g r e))
        (family-IsPost e621_hosts ("en" ∷ []) host platform path e)
]

gelbooru-HasForm :
    (host platform : String) (query : Query)
    → Found (gelbooru_family platform host query) (HasForm is_digits (gelbooru_link platform host))
unfolding gelbooru_family query_post_id post_id
gelbooru-HasForm host platform query = ground arith

pub gelbooru-Found :
    (host platform : String) (query : Query)
    → lookup host gelbooru_hosts ≡ some platform
    → Found (gelbooru_family platform host query) Again
gelbooru-Found host platform query h =
    Found-map _
      (HasForm-Again is_digits (gelbooru_link platform host)
        (λ id. gelbooru-Again host platform id h))
      (gelbooru-HasForm host platform query)

pub pixiv-HasForm :
    (path : List String) (query : Query)
    → Found (pixiv_page path query) (HasForm is_digits pixiv_link)
unfolding pixiv_page post_id
pixiv-HasForm [] query = tt
pixiv-HasForm (a ∷ []) query = ground arith
pixiv-HasForm (a ∷ b ∷ []) query = ground arith
pixiv-HasForm (a ∷ b ∷ c ∷ path) query = tt

pub sankaku-HasForm :
    (path : List String) → Found (sankaku_page path) (HasForm is_sankaku_id sankaku_link)
unfolding sankaku_page
sankaku-HasForm [] = tt
sankaku-HasForm (a ∷ []) = tt
sankaku-HasForm (a ∷ b ∷ []) = ground arith
sankaku-HasForm (a ∷ b ∷ c ∷ path) = tt

pub pawchive-Found : (path : List String) → Found (pawchive path) Again
unfolding pawchive
pawchive-Found (a ∷ b ∷ c ∷ d ∷ e ∷ []) =
    Found-if Again (not (str_eq b "user" && str_eq d "post")) none _ (λ _. tt)
      λ _.
        Found-if Again (is_service a && is_digits c && is_digits e) (some (pawchive_link a c e))
          none
          (λ h. pawchive-Again a c e (ground (arith, h)) (ground (arith, h)) (ground (arith, h)))
          (λ _. tt)
pawchive-Found _ = tt
