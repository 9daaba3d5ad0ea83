-- ===== src/Links/TextLaws.antt =====
-- What the regular expressions of link_resolution.py exclude.
use Prim.Native.String.{String, ◌∷◌}
use Prim.Native.Char.{Char, code}
use data_processing.Prelude.{
  ℕ, Bool, true, false, ◌≡◌, ◌≢◌, refl, ap, sym, ◌∙◌, str_eq, eq_iff, arith, Bool-cases,
  if◌then◌else◌, inl, inr,
}
use data_processing.Links.Path.{no_slash, is_segment}
use data_processing.Links.Text.{
  is_service, is_service_char, all_to_end, is_digit, is_alphanumeric, is_lower, is_digits,
  is_sankaku_id, is_locale, size, remove_suffix,
}

-- Two different texts are not equal by the test.
pub str_eq-false : (s t : String) → s ≢ t → str_eq s t ≡ false
str_eq-false s t h = elim (Bool-cases (str_eq s t)) [
  | inl e ↦ absurd (h ((eq_iff s t).0 e))
  | inr e ↦ e
]

-- The texts that `is_digits` accepts are none of the words that it does not accept.
pub is_digits-differs :
    (s t : String) → is_digits s ≡ true → is_digits t ≡ false → str_eq s t ≡ false
is_digits-differs s t h k = str_eq-false s t λ e. ground (arith, sym h ∙ ap is_digits e ∙ k)

abbrev first_code : String → ℕ
first_code String.[] = 0
first_code (c ∷ s) = code c

no_dot : (c : Char) (s : String) → code c ≢ 46 → str_eq (c ∷ s) ".json" ≡ false
no_dot c s h = str_eq-false (c ∷ s) ".json" λ e. h (ap first_code e)

-- Text without a full stop has no suffix ".json".
remove_suffix-to_end :
    (p : Char → Bool) (s : String)
    → ((c : Char) → p c ≡ true → code c ≢ 46)
    → all_to_end p s ≡ true
    → remove_suffix ".json" s ≡ s
unfolding all_to_end remove_suffix
remove_suffix-to_end p String.[] dot h = refl
remove_suffix-to_end p (c ∷ String.[]) dot h =
    ap (λ b. if b then "" else c ∷ "") (no_dot c "" (ground (arith, dot c)))
remove_suffix-to_end p (c ∷ d ∷ s) dot h =
    ap (λ b. if b then "" else c ∷ remove_suffix ".json" (d ∷ s))
      (no_dot c (d ∷ s) (ground (arith, dot c)))
    ∙ ap (λ u. c ∷ u) (remove_suffix-to_end p (d ∷ s) dot (ground arith))

digit-dot : (c : Char) → is_digit c ≡ true → code c ≢ 46
unfolding is_digit
digit-dot c h = ground arith

alphanumeric-dot : (c : Char) → is_alphanumeric c ≡ true → code c ≢ 46
unfolding is_alphanumeric
alphanumeric-dot c h = ground arith

pub remove_suffix-is_digits : (s : String) → is_digits s ≡ true → remove_suffix ".json" s ≡ s
unfolding is_digits remove_suffix
remove_suffix-is_digits String.[] h = refl
remove_suffix-is_digits (c ∷ s) h =
    ap (λ b. if b then "" else c ∷ remove_suffix ".json" s) (no_dot c s (ground arith))
    ∙ ap (λ u. c ∷ u) (remove_suffix-to_end is_digit s digit-dot (ground arith))

pub remove_suffix-is_sankaku_id :
    (s : String) → is_sankaku_id s ≡ true → remove_suffix ".json" s ≡ s
unfolding is_sankaku_id
remove_suffix-is_sankaku_id s h =
    remove_suffix-to_end is_alphanumeric s alphanumeric-dot (ground arith)

-- An id of Sankaku is never dropped as a locale.
pub is_sankaku_id-is_locale : (s : String) → is_sankaku_id s ≡ true → is_locale s ≡ false
unfolding is_sankaku_id is_locale size all_to_end is_alphanumeric
is_sankaku_id-is_locale String.[] h = ground arith
is_sankaku_id-is_locale (a ∷ String.[]) h = ground arith
is_sankaku_id-is_locale (a ∷ b ∷ String.[]) h = ground arith
is_sankaku_id-is_locale (a ∷ b ∷ c ∷ String.[]) h = ground arith
is_sankaku_id-is_locale (a ∷ b ∷ c ∷ d ∷ String.[]) h = ground arith
is_sankaku_id-is_locale (a ∷ b ∷ c ∷ d ∷ e ∷ String.[]) h = ground arith
is_sankaku_id-is_locale (a ∷ b ∷ c ∷ d ∷ e ∷ f ∷ s) h = refl

to_end-no_slash :
    (p : Char → Bool) (s : String)
    → ((c : Char) → p c ≡ true → code c ≢ 47)
    → all_to_end p s ≡ true
    → no_slash s ≡ true
unfolding all_to_end no_slash
to_end-no_slash p String.[] slash h = refl
to_end-no_slash p (c ∷ String.[]) slash h = ground (arith, slash c)
to_end-no_slash p (c ∷ d ∷ s) slash h =
    ground (arith, slash c, to_end-no_slash p (d ∷ s) slash (ground arith))

digit-slash : (c : Char) → is_digit c ≡ true → code c ≢ 47
unfolding is_digit
digit-slash c h = ground arith

alphanumeric-slash : (c : Char) → is_alphanumeric c ≡ true → code c ≢ 47
unfolding is_alphanumeric
alphanumeric-slash c h = ground arith

service-slash : (c : Char) → is_service_char c ≡ true → code c ≢ 47
unfolding is_service_char
service-slash c h = ground arith

abbrev is_filled : String → Bool
is_filled String.[] = false
is_filled (c ∷ s) = true

filled : (c : Char) (s : String) → str_eq (c ∷ s) "" ≡ false
filled c s = str_eq-false (c ∷ s) "" λ e. ground (arith, ap is_filled e)

pub is_digits-is_segment : (s : String) → is_digits s ≡ true → is_segment s ≡ true
unfolding is_digits is_segment
is_digits-is_segment String.[] h = ground arith
is_digits-is_segment (c ∷ s) h =
    ground (arith, filled c s, to_end-no_slash is_digit s digit-slash (ground arith))

pub is_service-is_segment : (s : String) → is_service s ≡ true → is_segment s ≡ true
unfolding is_service is_segment is_lower
is_service-is_segment String.[] h = ground arith
is_service-is_segment (c ∷ s) h =
    ground (arith, filled c s, to_end-no_slash is_service_char s service-slash (ground arith))

pub is_sankaku_id-is_segment : (s : String) → is_sankaku_id s ≡ true → is_segment s ≡ true
unfolding is_sankaku_id is_segment size
is_sankaku_id-is_segment String.[] h = ground arith
is_sankaku_id-is_segment (c ∷ s) h =
    ground
      (arith, filled c s, to_end-no_slash is_alphanumeric (c ∷ s) alphanumeric-slash (ground arith))
