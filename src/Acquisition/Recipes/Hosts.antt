-- ===== src/Acquisition/Recipes/Hosts.antt =====
-- The hosts that the recipes of the built-in policies reach.
use Prim.Native.String.{count}
use data_processing.Prelude.{
  ℕ, String, Option, none, some, List, [], ◌∷◌, not, ◌≡◌, inl, inr, ◌≤◌, refl, sym, ap, ◌∙◌, subst,
  arith, All, str_eq, ◌==◌, if◌then◌else◌, map, either_way,
}
use data_processing.Effect.{Outcome, returned, raised, unfinished}
use data_processing.Effect.Triple.{Post, Post-weaken}
use data_processing.Acquisition.{Problem, request_policy_error, uncaught}
use data_processing.Acquisition.Policies.{
  SplitResult, RequestLibrary, strip_dots, validate_destination,
}
use data_processing.Acquisition.Transfer.{ResumeState, TransferBudget}
use data_processing.Acquisition.Engine.{Engine}
use data_processing.Acquisition.Engine.Attempts.{transfer}
use data_processing.Acquisition.Engine.Keeps.{IsTrusted}
use data_processing.Acquisition.Engine.Keeps.Whole.{transfer-IsBounded}
use data_processing.Acquisition.Recipes.{
  MediaRequestPolicy, IdentityMaterial, MediaRecipe, pixiv_policy, e621_policy, check_hosts,
  danbooru_fields, danbooru_policy, media_request_policy_for_platform, new_recipe, recipe_fields,
  recipe_of, recipe_for, recipe,
}

-- The redirects of a policy may go where its requests may.
SameHosts : Outcome Problem MediaRequestPolicy → Type 0
SameHosts (returned policy) = policy.redirect_hosts ≡ policy.allowed_hosts
SameHosts (raised x) = Unit
SameHosts unfinished = Unit

AllSameHosts : Option (Outcome Problem MediaRequestPolicy) → Type 0
unfolding SameHosts
AllSameHosts none = Unit
AllSameHosts (some o) = SameHosts o

danbooru_policy-SameHosts :
    (urls : RequestLibrary) (provider base_host : String) (media_hosts : List String)
    → SameHosts (danbooru_policy urls provider base_host media_hosts)
unfolding danbooru_policy danbooru_fields SameHosts
danbooru_policy-SameHosts urls provider base_host [] = tt
danbooru_policy-SameHosts urls provider base_host (host ∷ rest) =
    either_way SameHosts (str_eq provider "") _ _ tt (built (check_hosts urls hosts))
  where
    hosts : List String
    hosts = map (λ h. strip_dots urls (urls.lower h)) (base_host ∷ host ∷ rest)

    built :
        (o : Outcome Problem (Unit {0}))
        → SameHosts (elim o as (λ _. Outcome Problem MediaRequestPolicy) [
          | returned u ↦ returned (danbooru_fields provider base_host hosts)
          | raised e ↦ raised e
          | unfinished ↦ unfinished
        ])
    built (returned u) = refl
    built (raised e) = tt
    built unfinished = tt

platform-AllSameHosts :
    (urls : RequestLibrary) (platform : String)
    → AllSameHosts (media_request_policy_for_platform urls platform)
unfolding media_request_policy_for_platform AllSameHosts SameHosts pixiv_policy e621_policy
platform-AllSameHosts urls platform = either_way AllSameHosts (str_eq platform "pixiv") _ _ refl (
    either_way AllSameHosts (str_eq platform "danbooru") _ _
      (danbooru_policy-SameHosts urls "danbooru" "danbooru.donmai.us" ("cdn.donmai.us" ∷ []))
      (either_way AllSameHosts (str_eq platform "aibooru") _ _
        (danbooru_policy-SameHosts urls "aibooru" "aibooru.online"
          ("safe.aibooru.online" ∷ "general.aibooru.online" ∷ "aibooru.download" ∷ []))
        (either_way AllSameHosts (str_eq platform "e621") _ _ refl (
          either_way AllSameHosts (str_eq platform "gelbooru") _ _
            (danbooru_policy-SameHosts urls "gelbooru" "gelbooru.com" ("img4.gelbooru.com" ∷ []))
            (either_way AllSameHosts (str_eq platform "rule34") _ _
              (danbooru_policy-SameHosts urls "rule34" "rule34.xxx" ("api-cdn.rule34.xxx" ∷ []))
              (either_way AllSameHosts (str_eq platform "safebooru") _ _
                (danbooru_policy-SameHosts urls "safebooru" "safebooru.org" ("safebooru.org" ∷ []))
                tt))))))

-- A URL that the hosts of the policy allow.
abbrev pub Reaches : RequestLibrary → List String → String → Type 0
Reaches urls hosts url =
    (parsed : SplitResult) × (validate_destination urls url hosts ≡ returned parsed)

module _ (urls : RequestLibrary) (digest : IdentityMaterial → String)
    (policy : MediaRequestPolicy) where
  -- What is true of a recipe for this URL.
  Recipe : String → Outcome Problem MediaRecipe → Type 0
  Recipe url (returned r) =
      (r.request.url ≡ url) × (r.request.redirect_hosts ≡ policy.redirect_hosts)
  Recipe url (raised x) = Unit
  Recipe url unfinished = Unit

  new_recipe-Recipe :
      (url : String) (r : MediaRecipe)
      → r.request.url ≡ url
      → r.request.redirect_hosts ≡ policy.redirect_hosts
      → Recipe url (new_recipe urls digest policy r)
  unfolding Recipe new_recipe
  new_recipe-Recipe url r p q =
      either_way (Recipe url) (r.media_occurrence_id == 0) (raised (uncaught "ValueError")) _ tt (
        either_way (Recipe url) (not (count r.request.request_identity == 64))
          (raised (uncaught "ValueError")) (returned r) tt (p, q))

  recipe_of-Recipe :
      (id : ℕ) (variant_key url hostname operation : String)
      → Recipe url (recipe_of urls digest policy id variant_key url hostname operation)
  unfolding recipe_of recipe_fields
  recipe_of-Recipe id variant_key url hostname operation =
      new_recipe-Recipe url (recipe_fields urls digest policy id variant_key url hostname operation)
        refl refl

  recipe_for-Recipe :
      (id : ℕ) (variant_key url : String) (parsed : SplitResult)
      → Recipe url (recipe_for urls digest policy id variant_key url parsed)
  unfolding Recipe recipe_for
  recipe_for-Recipe id variant_key url parsed = named parsed.hostname
    where
      operated :
          (hostname : String) (o : Outcome Problem String)
          → Recipe url (elim o as (λ _. Outcome Problem MediaRecipe) [
            | returned operation ↦
                recipe_of urls digest policy id variant_key url hostname operation
            | raised e ↦ raised e
            | unfinished ↦ unfinished
          ])
      operated hostname (returned operation) =
          recipe_of-Recipe id variant_key url hostname operation
      operated hostname (raised e) = tt
      operated hostname unfinished = tt

      named :
          (h : Option String)
          → Recipe url (elim h as (λ _. Outcome Problem MediaRecipe) [
            | none ↦ raised (request_policy_error "invalid_host")
            | some hostname ↦
                if str_eq variant_key ""
                then raised (request_policy_error "invalid_variant")
                else elim (policy.operation_for_variant variant_key) [
                  | returned operation ↦
                      recipe_of urls digest policy id variant_key url hostname operation
                  | raised e ↦ raised e
                  | unfinished ↦ unfinished
                ]
          ])
      named none = tt
      named (some hostname) =
          either_way (Recipe url) (str_eq variant_key "") _ _ tt
            (operated hostname (policy.operation_for_variant variant_key))

  -- A recipe is for a URL that the policy allows, with the policy's hosts for redirects.
  recipe-Reaches :
      (id : ℕ) (variant_key url : String) (r : MediaRecipe)
      → recipe urls digest policy id variant_key url ≡ returned r
      → Reaches urls policy.allowed_hosts r.request.url
        × (r.request.redirect_hosts ≡ policy.redirect_hosts)
  unfolding Recipe recipe
  recipe-Reaches id variant_key url r h =
      validated (validate_destination urls url policy.allowed_hosts) refl h
    where
      of_parsed :
          (parsed : SplitResult)
          → validate_destination urls url policy.allowed_hosts ≡ returned parsed
          → Recipe url (returned r)
          → Reaches urls policy.allowed_hosts r.request.url
            × (r.request.redirect_hosts ≡ policy.redirect_hosts)
      of_parsed parsed v (p, q) = (
        (
          parsed,
          subst (λ z. validate_destination urls z policy.allowed_hosts ≡ returned parsed) (sym p) v,
        ),
        q,
      )

      validated :
          (o : Outcome Problem SplitResult)
          → validate_destination urls url policy.allowed_hosts ≡ o
          → elim o as (λ _. Outcome Problem MediaRecipe) [
            | returned parsed ↦ recipe_for urls digest policy id variant_key url parsed
            | raised e ↦ raised e
            | unfinished ↦ unfinished
          ]
            ≡ returned r
          → Reaches urls policy.allowed_hosts r.request.url
            × (r.request.redirect_hosts ≡ policy.redirect_hosts)
      validated (returned parsed) v g =
          of_parsed parsed v (subst (Recipe url) g (recipe_for-Recipe id variant_key url parsed))
      validated (raised e) v g = absurd (ground (arith, g))
      validated unfinished v g = absurd (ground (arith, g))

-- A transfer of a recipe of a built-in policy, whose budget is not exceeded at the start, asks the client
-- only for URLs that `validate_destination` accepts for the hosts of that policy, however it ends.
pub transfer-Reaches :
    {W : Type 0} (e : Engine W) (digest : IdentityMaterial → String) (platform : String)
    (policy : MediaRequestPolicy) (id : ℕ) (variant_key url : String) (r : MediaRecipe)
    (resume : Option ResumeState) (budget : TransferBudget) (world : W)
    → media_request_policy_for_platform e.urls platform ≡ some (returned policy)
    → recipe e.urls digest policy id variant_key url ≡ returned r
    → e.recipe ≡ r.request
    → budget.used_bytes ≤ budget.max_bytes
    → Post
        (λ _ s. All (Reaches e.urls policy.allowed_hosts) s.requested)
        (λ _ s. All (Reaches e.urls policy.allowed_hosts) s.requested)
        (transfer e resume budget world)
unfolding AllSameHosts SameHosts
transfer-Reaches {W} e digest platform policy id variant_key url r resume budget world h g q le =
    Post-weaken (transfer e resume budget world) (λ _ s b. all s.requested b.2)
      (λ _ s b. all s.requested b.2) (transfer-IsBounded e resume budget world le)
  where
    same_hosts : policy.redirect_hosts ≡ policy.allowed_hosts
    same_hosts = subst AllSameHosts h (platform-AllSameHosts e.urls platform)

    of_recipe :
        Reaches e.urls policy.allowed_hosts r.request.url
        × (r.request.redirect_hosts ≡ policy.redirect_hosts)
    of_recipe = recipe-Reaches e.urls digest policy id variant_key url r g

    hosts : e.recipe.redirect_hosts ≡ policy.allowed_hosts
    hosts = ap (λ x. x.redirect_hosts) q ∙ of_recipe.1 ∙ same_hosts

    reaches : (u : String) → IsTrusted e u → Reaches e.urls policy.allowed_hosts u
    reaches u (inl p) =
        subst (Reaches e.urls policy.allowed_hosts) (sym (p ∙ ap (λ x. x.url) q)) of_recipe.0
    reaches u (inr t) = subst (λ z. Reaches e.urls z u) hosts t

    all : (us : List String) → All (IsTrusted e) us → All (Reaches e.urls policy.allowed_hosts) us
    all [] t = tt
    all (u ∷ us) t = (reaches u t.0, all us t.1)
