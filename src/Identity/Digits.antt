-- ===== src/Identity/Digits.antt =====
-- discovery/support.py: references to candidates, as texts of ASCII characters.
use Prim.Native.String.{String, ◌∷◌}
use Prim.Native.Char.{code}
use data_processing.Prelude.{
  ℕ, Option, none, some, Bool, true, false, ◌&&◌, ◌+◌, ◌-◌, ◌*◌, ◌==◌, str_eq, if◌then◌else◌,
}
use data_processing.Links.Text.{is_digit}
use data_processing.Identity.{CandidateKind, of_account, of_attribution, of_post}

-- The text before the first colon and the text after it, where it has one: `partition(":")`.
unfoldable pub partition : String → Option (String × String)
partition String.[] = none
partition (c ∷ s) =
    let rest = partition s in
    if code c == 58 then some ("", s) else elim rest [ none ↦ none | some (a, b) ↦ some (c ∷ a, b) ]

unfoldable pub all_digits : String → Bool
unfolding is_digit
all_digits String.[] = true
all_digits (c ∷ s) = is_digit c && all_digits s

-- `isdigit`
unfoldable pub is_number : String → Bool
unfolding all_digits is_digit
is_number String.[] = false
is_number (c ∷ s) = is_digit c && all_digits s

-- `int` of a text of digits, after the digits read before
unfoldable pub number_from : ℕ → String → ℕ
number_from n String.[] = n
number_from n (c ∷ s) = number_from (n * 10 + (code c - 48)) s

unfoldable pub parse_kind : String → Option CandidateKind
parse_kind kind =
    if str_eq kind "account"
    then some of_account
    else if str_eq kind "attribution"
    then some of_attribution
    else if str_eq kind "post"
    then some of_post
    else none

parse_parts : Option (String × String) → Option (CandidateKind × ℕ)
unfolding parse_kind is_number number_from
parse_parts none = none
parse_parts (some (kind, raw_id)) =
    if is_number raw_id
    then elim (parse_kind kind) [ none ↦ none | some k ↦ some (k, number_from 0 raw_id) ]
    else none

-- `none` is the `ValueError`.
unfoldable pub parse_match_ref : String → Option (CandidateKind × ℕ)
unfolding parse_parts partition
parse_match_ref value = parse_parts (partition value)
