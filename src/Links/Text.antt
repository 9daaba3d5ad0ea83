-- ===== src/Links/Text.antt =====
-- The texts of URLs: the regular expressions of link_resolution.py, and the segments of a path.
use Prim.Native.String.{String, ◌∷◌}
use Prim.Native.Char.{Char, code}
use data_processing.Prelude.{
  ℕ, suc, Bool, true, false, ◌&&◌, ◌||◌, leb, ◌==◌, str_eq, if◌then◌else◌,
}

in_range : ℕ → ℕ → Char → Bool
in_range low high c = leb low (code c) && leb (code c) high

unfoldable pub is_digit : Char → Bool
unfolding in_range
is_digit = in_range 48 57

unfoldable pub is_lower : Char → Bool
unfolding in_range
is_lower = in_range 97 122

unfoldable pub is_alphanumeric : Char → Bool
unfolding in_range is_digit is_lower
is_alphanumeric c = is_digit c || in_range 65 90 c || is_lower c

-- `[a-z0-9_-]`
unfoldable pub is_service_char : Char → Bool
unfolding is_digit is_lower
is_service_char c = is_lower c || is_digit c || code c == 95 || code c == 45

-- `(...)*$`, which is also met before a line feed that ends the text.
unfoldable pub all_to_end : (Char → Bool) → String → Bool
all_to_end p String.[] = true
all_to_end p (c ∷ String.[]) = p c || code c == 10
all_to_end p (c ∷ d ∷ s) = p c && all_to_end p (d ∷ s)

-- `^[1-9][0-9]*$`
unfoldable pub is_digits : String → Bool
unfolding in_range all_to_end is_digit
is_digits String.[] = false
is_digits (c ∷ s) = in_range 49 57 c && all_to_end is_digit s

-- `^[a-z][a-z0-9_-]*$`
unfoldable pub is_service : String → Bool
unfolding all_to_end is_lower is_service_char
is_service String.[] = false
is_service (c ∷ s) = is_lower c && all_to_end is_service_char s

-- The characters before the line feed that may end the text.
unfoldable pub size : String → ℕ
size String.[] = 0
size (c ∷ String.[]) = if code c == 10 then 0 else 1
size (c ∷ d ∷ s) = suc (size (d ∷ s))

-- `^[A-Za-z0-9]{4,32}$`
unfoldable pub is_sankaku_id : String → Bool
unfolding all_to_end is_alphanumeric size
is_sankaku_id s = all_to_end is_alphanumeric s && leb 4 (size s) && leb (size s) 32

-- `[a-z]{2}(?:-[a-z]{2})?`, of the whole text
unfoldable pub is_locale : String → Bool
unfolding is_lower
is_locale (a ∷ b ∷ String.[]) = is_lower a && is_lower b
is_locale (a ∷ b ∷ c ∷ d ∷ e ∷ String.[]) =
    is_lower a && is_lower b && code c == 45 && is_lower d && is_lower e
is_locale _ = false

-- `removesuffix`
unfoldable pub remove_suffix : String → String → String
remove_suffix suffix String.[] = ""
remove_suffix suffix (c ∷ s) = if str_eq (c ∷ s) suffix then "" else c ∷ remove_suffix suffix s
