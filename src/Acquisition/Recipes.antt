-- ===== src/Acquisition/Recipes.antt =====
-- acquisition/policies.py: the policies of the providers, and the recipes that they give.
pub mod Hosts
use Prim.Native.String.{count}
use data_processing.Prelude.{
  ℕ, String, Option, none, some, List, [], ◌∷◌, Bool, true, false, not, ◌||◌, map, str_eq, ◌<>◌,
  ◌==◌, if◌then◌else◌,
}
use data_processing.Effect.{Outcome, returned, raised, unfinished}
use data_processing.Acquisition.{Problem, request_policy_error, uncaught}
use data_processing.Acquisition.Policies.{
  classify_status, SplitResult, RequestLibrary, ResponseExpectations, is_member, strip_dots,
  parsed_https_url, validate_destination,
}
use data_processing.Acquisition.Transfer.{RequestRecipe}

pub record PolicyIdentity : Type 0 where
  pub key : String
  pub version : String

-- `MediaRequestPolicy`, with the methods that its classes override.
pub record MediaRequestPolicy : Type 0 where
  pub identity : PolicyIdentity
  pub provider : String
  pub allowed_hosts : List String
  pub redirect_hosts : List String
  pub headers : List (String × String)
  pub response_expectations : ResponseExpectations
  pub credential_reference : Option String
  pub operation_for_variant : String → Outcome Problem String
  pub declared_exact_claims_apply : String → Bool

-- What the request's identity is the digest of. The digest sorts the names of the headers, and takes the
-- target as a digest of its own.
pub record IdentityMaterial : Type 0 where
  pub policy : PolicyIdentity
  pub provider : String
  pub operation : String
  pub occurrence : ℕ
  pub variant : String
  pub target : String
  pub host : String
  pub header_names : List String
  pub credential_reference : Option String

-- `RequestRecipe`, with the part that the transfer engine reads.
pub record MediaRecipe : Type 0 where
  pub policy : PolicyIdentity
  pub operation : String
  pub media_occurrence_id : ℕ
  pub variant_key : String
  pub request : RequestRecipe

unfoldable pub is_exact_variant : String → Bool
unfolding is_member
is_exact_variant variant_key = is_member variant_key ("primary" ∷ "original" ∷ [])

unfoldable pub pixiv_operation : String → Outcome Problem String
pixiv_operation variant_key =
    returned (if str_eq variant_key "archive" then "download-ugoira-archive" else "download-image")

unfoldable pub listed_operation : List String → String → Outcome Problem String
unfolding is_member
listed_operation variants variant_key =
    if not (is_member variant_key variants)
    then raised (request_policy_error "invalid_variant")
    else returned ("download-" <> variant_key)

unfoldable pub archive_expectations : ResponseExpectations
archive_expectations = record {
  content_type_prefixes = "image/" ∷ "video/" ∷ "application/zip" ∷ "application/octet-stream" ∷ [];
  allow_missing_content_type = true;
}

-- `PixivMediaPolicy`
unfoldable pub pixiv_policy : MediaRequestPolicy
unfolding archive_expectations pixiv_operation is_exact_variant
pixiv_policy = record {
  identity = record { key = "pixiv-media"; version = "pixiv-media-v1" };
  provider = "pixiv";
  allowed_hosts = "i.pximg.net" ∷ [];
  redirect_hosts = "i.pximg.net" ∷ [];
  headers = ("Referer", "https://app-api.pixiv.net/") ∷ [];
  response_expectations = archive_expectations;
  credential_reference = none;
  operation_for_variant = pixiv_operation;
  declared_exact_claims_apply = is_exact_variant;
}

-- The hosts `static1.e621.net` to `static9.e621.net`
unfoldable pub e621_media_hosts : List String
e621_media_hosts =
    map (λ digit. "static" <> digit <> ".e621.net")
      ("1" ∷ "2" ∷ "3" ∷ "4" ∷ "5" ∷ "6" ∷ "7" ∷ "8" ∷ "9" ∷ [])

-- `E621_USER_AGENT` of adapters/e621/config.py
abbrev pub e621_user_agent : String
e621_user_agent = "data-processing-tools/0.1 (metadata-only e621 catalog)"

-- `E621MediaPolicy`
unfoldable pub e621_policy : MediaRequestPolicy
unfolding e621_media_hosts listed_operation
e621_policy = record {
  identity = record { key = "e621-media"; version = "e621-media-v1" };
  provider = "e621";
  allowed_hosts = e621_media_hosts;
  redirect_hosts = e621_media_hosts;
  headers = ("User-Agent", e621_user_agent) ∷ ("Referer", "https://e621.net/") ∷ [];
  response_expectations = record {
    content_type_prefixes = "image/" ∷ "video/" ∷ [];
    allow_missing_content_type = false;
  };
  credential_reference = none;
  operation_for_variant = listed_operation ("original" ∷ "sample" ∷ "preview" ∷ []);
  declared_exact_claims_apply = λ variant_key. str_eq variant_key "original";
}

-- The fields that `DanbooruMediaPolicy` sets.
unfoldable pub danbooru_fields : String → String → List String → MediaRequestPolicy
unfolding archive_expectations listed_operation is_exact_variant
danbooru_fields provider base_host hosts = record {
  identity = record { key = provider <> "-media"; version = "danbooru-media-v1" };
  provider = provider;
  allowed_hosts = hosts;
  redirect_hosts = hosts;
  headers = ("Referer", "https://" <> base_host <> "/") ∷ [];
  response_expectations = archive_expectations;
  credential_reference = none;
  operation_for_variant = listed_operation ("primary" ∷ "original" ∷ "sample" ∷ "preview" ∷ []);
  declared_exact_claims_apply = is_exact_variant;
}

module _ (urls : RequestLibrary) where
  -- The loop that tests the hosts of a policy.
  unfoldable pub check_hosts : List String → Outcome Problem (Unit {0})
  unfolding parsed_https_url
  check_hosts [] = returned tt
  check_hosts (host ∷ rest) =
      let later = check_hosts rest in
      elim (parsed_https_url urls ("https://" <> host <> "/")) [
        | returned parsed ↦ later
        | raised e ↦ raised e
        | unfinished ↦ unfinished
      ]

  -- `DanbooruMediaPolicy`, with its default version.
  unfoldable pub danbooru_policy :
      String → String → List String → Outcome Problem MediaRequestPolicy
  unfolding strip_dots check_hosts danbooru_fields
  danbooru_policy provider base_host [] = raised (uncaught "ValueError")
  danbooru_policy provider base_host (host ∷ rest) =
      let hosts = map (λ h. strip_dots urls (urls.lower h)) (base_host ∷ host ∷ rest) in
      if str_eq provider "" then raised (uncaught "ValueError") else elim (check_hosts hosts) [
        | raised e ↦ raised e
        | unfinished ↦ unfinished
        | returned u ↦ returned (danbooru_fields provider base_host hosts)
      ]

  -- `media_request_policy_for_platform`, with the policies of `_BUILTIN_POLICIES`.
  unfoldable pub media_request_policy_for_platform :
      String → Option (Outcome Problem MediaRequestPolicy)
  unfolding pixiv_policy e621_policy danbooru_policy
  media_request_policy_for_platform platform =
      if str_eq platform "pixiv"
      then some (returned pixiv_policy)
      else if str_eq platform "danbooru"
      then some (danbooru_policy "danbooru" "danbooru.donmai.us" ("cdn.donmai.us" ∷ []))
      else if str_eq platform "aibooru"
      then some (
          danbooru_policy "aibooru" "aibooru.online"
            ("safe.aibooru.online" ∷ "general.aibooru.online" ∷ "aibooru.download" ∷ []))
      else if str_eq platform "e621"
      then some (returned e621_policy)
      else if str_eq platform "gelbooru"
      then some (danbooru_policy "gelbooru" "gelbooru.com" ("img4.gelbooru.com" ∷ []))
      else if str_eq platform "rule34"
      then some (danbooru_policy "rule34" "rule34.xxx" ("api-cdn.rule34.xxx" ∷ []))
      else if str_eq platform "safebooru"
      then some (danbooru_policy "safebooru" "safebooru.org" ("safebooru.org" ∷ []))
      else none

  module _ (digest : IdentityMaterial → String) (policy : MediaRequestPolicy) where
    -- The tests of the recipe's constructor.
    unfoldable pub new_recipe : MediaRecipe → Outcome Problem MediaRecipe
    new_recipe r =
        if r.media_occurrence_id == 0
        then raised (uncaught "ValueError")
        else if not (count r.request.request_identity == 64)
        then raised (uncaught "ValueError")
        else returned r

    unfoldable pub recipe_fields : ℕ → String → String → String → String → MediaRecipe
    recipe_fields media_occurrence_id variant_key selected_url hostname operation = record {
      policy = policy.identity;
      operation = operation;
      media_occurrence_id = media_occurrence_id;
      variant_key = variant_key;
      request = record {
        provider = policy.provider;
        request_identity = digest (record {
          policy = policy.identity;
          provider = policy.provider;
          operation = operation;
          occurrence = media_occurrence_id;
          variant = variant_key;
          target = selected_url;
          host = urls.lower hostname;
          header_names = map (λ h. h.0) policy.headers;
          credential_reference = policy.credential_reference;
        });
        url = selected_url;
        headers = policy.headers;
        credential_reference = policy.credential_reference;
        response = policy.response_expectations;
        redirect_hosts = policy.redirect_hosts;
        status_classifier = classify_status;
      };
    }

    unfoldable pub recipe_of : ℕ → String → String → String → String → Outcome Problem MediaRecipe
    unfolding new_recipe recipe_fields
    recipe_of media_occurrence_id variant_key selected_url hostname operation =
        new_recipe (recipe_fields media_occurrence_id variant_key selected_url hostname operation)

    unfoldable pub recipe_for : ℕ → String → String → SplitResult → Outcome Problem MediaRecipe
    unfolding recipe_of
    recipe_for media_occurrence_id variant_key selected_url parsed = elim parsed.hostname [
      | none ↦ raised (request_policy_error "invalid_host")
      | some hostname ↦
          if str_eq variant_key ""
          then raised (request_policy_error "invalid_variant")
          else elim (policy.operation_for_variant variant_key) [
            | returned operation ↦
                recipe_of media_occurrence_id variant_key selected_url hostname operation
            | raised e ↦ raised e
            | unfinished ↦ unfinished
          ]
    ]

    -- `recipe`
    unfoldable pub recipe : ℕ → String → String → Outcome Problem MediaRecipe
    unfolding validate_destination recipe_for
    recipe media_occurrence_id variant_key selected_url =
        elim (validate_destination urls selected_url policy.allowed_hosts) [
          | returned parsed ↦ recipe_for media_occurrence_id variant_key selected_url parsed
          | raised e ↦ raised e
          | unfinished ↦ unfinished
        ]
