-- ===== src/Tests/Urls.antt =====
-- Links at concrete inputs.
use data_processing.Prelude.{String, some, [], ◌∷◌, ◌≡◌, refl, str_eq, if◌then◌else◌}
use data_processing.Links.{UrlParts, UrlLibrary, ResolvedLink, posts_link, danbooru_family}
use data_processing.Links.Resolve.{canonical_url, fields_text, resolve_link, resolve_place}
use data_processing.Links.Again.{Found, Again}
use data_processing.Links.RoundTrip.{ReadsBack, resolve_link-canonical_url, resolve_place-Found}

abbrev old_url : String
old_url = "https://danbooru.donmai.us/en/post/show/42"

abbrev parts_of : String → UrlParts
parts_of path = record {
  scheme = "https";
  hostname = some "danbooru.donmai.us";
  path = path;
  query = "";
}

-- A library that knows the two URLs of the test.
abbrev example_library : UrlLibrary
example_library = record {
  strip = λ s. s;
  lower = λ s. s;
  urlsplit =
      λ url. some (parts_of (if str_eq url old_url then "/en/post/show/42" else "/posts/42"));
  parse_qs = λ s. [];
}

abbrev example_link : ResolvedLink
example_link = posts_link "danbooru" "danbooru.donmai.us" "42"

resolved_test : resolve_link example_library old_url ≡ some example_link
unfolding resolve_link danbooru_family
resolved_test = refl

canonical_test : canonical_url example_link ≡ "https://danbooru.donmai.us/posts/42"
unfolding canonical_url
canonical_test = refl

reads_back : ReadsBack example_library example_link
unfolding canonical_url fields_text
reads_back = record { splits = refl; lowers = refl; parses = refl }

resolve_link-canonical_url_example :
    resolve_link example_library (canonical_url example_link) ≡ some example_link
resolve_link-canonical_url_example =
    resolve_link-canonical_url example_library old_url example_link resolved_test reads_back

resolve_place-Found_example :
    Found (resolve_place "danbooru.donmai.us" ("posts" ∷ "42" ∷ []) []) Again
resolve_place-Found_example = resolve_place-Found "danbooru.donmai.us" ("posts" ∷ "42" ∷ []) []
