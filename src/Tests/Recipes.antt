-- ===== src/Tests/Recipes.antt =====
-- A recipe of a built-in policy, and its transfer.
use data_processing.Prelude.{
  ℕ, String, none, some, true, [], ◌∷◌, ◌≡◌, ◌<>◌, refl, arith, All, str_eq, if◌then◌else◌,
}
use data_processing.Effect.{returned}
use data_processing.Effect.Triple.{Post}
use data_processing.Acquisition.Policies.{RequestLibrary, classify_status}
use data_processing.Acquisition.Engine.{Engine}
use data_processing.Acquisition.Engine.Attempts.{transfer}
use data_processing.Acquisition.Recipes.{
  IdentityMaterial, MediaRecipe, pixiv_policy, media_request_policy_for_platform, recipe,
}
use data_processing.Acquisition.Recipes.Hosts.{Reaches, transfer-Reaches}
use data_processing.Tests.Transfers.{example_library, example_split, example_engine, example_budget}

abbrev image_url : String
image_url = "https://i.pximg.net/a.png"

abbrev pixiv_library : RequestLibrary
pixiv_library = record example_library {
  urlsplit = λ url.
      if str_eq url image_url
      then some (record example_split { hostname = some "i.pximg.net" })
      else none;
}

abbrev eight : String
eight = "01234567"

-- A digest of 64 characters.
abbrev example_digest : IdentityMaterial → String
example_digest material = eight <> eight <> eight <> eight <> eight <> eight <> eight <> eight

abbrev image_recipe : MediaRecipe
image_recipe = record {
  policy = record { key = "pixiv-media"; version = "pixiv-media-v1" };
  operation = "download-image";
  media_occurrence_id = 7;
  variant_key = "original";
  request = record {
    provider = "pixiv";
    request_identity = eight <> eight <> eight <> eight <> eight <> eight <> eight <> eight;
    url = image_url;
    headers = ("Referer", "https://app-api.pixiv.net/") ∷ [];
    credential_reference = none;
    response = record {
      content_type_prefixes =
          "image/" ∷ "video/" ∷ "application/zip" ∷ "application/octet-stream" ∷ [];
      allow_missing_content_type = true;
    };
    redirect_hosts = "i.pximg.net" ∷ [];
    status_classifier = classify_status;
  };
}

recipe_test :
    recipe pixiv_library example_digest pixiv_policy 7 "original" image_url ≡ returned image_recipe
unfolding recipe pixiv_policy
recipe_test = refl

platform_test :
    media_request_policy_for_platform pixiv_library "pixiv" ≡ some (returned pixiv_policy)
unfolding media_request_policy_for_platform
platform_test = refl

abbrev pixiv_engine : Engine ℕ
pixiv_engine = record example_engine { urls = pixiv_library; recipe = image_recipe.request }

transfer-Reaches_example :
    Post
      (λ _ s. All (Reaches pixiv_library pixiv_policy.allowed_hosts) s.requested)
      (λ _ s. All (Reaches pixiv_library pixiv_policy.allowed_hosts) s.requested)
      (transfer pixiv_engine none example_budget 0)
transfer-Reaches_example =
    transfer-Reaches pixiv_engine example_digest "pixiv" pixiv_policy 7 "original" image_url
      image_recipe none example_budget 0 platform_test recipe_test refl (omega arith)
