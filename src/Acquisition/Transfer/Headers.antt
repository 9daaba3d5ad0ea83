-- ===== src/Acquisition/Transfer/Headers.antt =====
-- The text of a Content-Range header that `_CONTENT_RANGE` matches.
use Prim.Native.String.append
use Prim.Native.String.{◌∷◌ as ◌:>◌}
use Prim.Native.Char.{Char, char, code}
use text.Mathlib.TextEquality.{Char-path}
use data_processing.Prelude.{
  ℕ, String, Option, none, some, Bool, true, false, ◌≡◌, ◌⊎◌, inl, inr, refl, sym, ap, ◌∙◌, subst,
  ◌≤◌, ◌+◌, ◌*◌, ◌-◌, ◌<>◌, ◌==◌, str_eq, eq_iff, ==_iff, if◌then◌else◌, arith,
}
use data_processing.Acquisition.Transfer.{
  digits, after_char, after_bytes, range_total, content_range, ◌>>=◌,
}
use data_processing.Links.Text.{is_digit}

-- The digits 0 to 9, and nothing else.
abbrev pub AreDigits : String → Type 0
AreDigits String.[] = Unit
AreDigits (c :> s) = (48 ≤ code c) × (code c ≤ 57) × AreDigits s

abbrev pub IsNonempty : String → Type 0
IsNonempty String.[] = ⊥
IsNonempty (c :> s) = Unit

-- Ten to the power of the length.
abbrev pub power : String → ℕ
power String.[] = 1
power (c :> s) = 10 * power s

-- The value of digits, each by its place.
abbrev pub place_value : String → ℕ
place_value String.[] = 0
place_value (c :> s) = (code c - 48) * power s + place_value s

-- The text is the decimal notation of the number, in which zeros may stand first.
abbrev pub IsDecimal : String → ℕ → Type 0
IsDecimal s n = IsNonempty s × AreDigits s × (n ≡ place_value s)

-- The text `bytes <start>-<end>/<total>`
abbrev pub IsRange : String → ℕ → ℕ → ℕ → Type 0
IsRange text start end total =
    (a : String) × (b : String) × (c : String) × (text
      ≡ "bytes " <> (a <> ("-" <> (b <> ("/" <> c)))))
    × IsDecimal a start
    × IsDecimal b end
    × IsDecimal c total

-- The digits that are read from the start of a text, with what follows them.
abbrev Reads : String → ℕ → Bool → ℕ → String → Type 0
Reads s n seen v rest =
    (d : String) × (s ≡ d <> rest)
    × AreDigits d
    × (v ≡ n * power d + place_value d)
    × ((seen ≡ true) ⊎ IsNonempty d)

pub one_more : (n x p w : ℕ) → (n * 10 + x) * p + w ≡ n * (10 * p) + (x * p + w)
one_more n x p w = grind arith

digit_low : (c : Char) → is_digit c ≡ true → 48 ≤ code c
unfolding is_digit
digit_low c h = ground (arith, h)

digit_high : (c : Char) → is_digit c ≡ true → code c ≤ 57
unfolding is_digit
digit_high c h = ground (arith, h)

digits-Reads :
    (s : String) (n : ℕ) (seen : Bool) (v : ℕ) (rest : String)
    → digits s n seen ≡ some (v, rest)
    → Reads s n seen v rest
unfolding digits
digits-Reads String.[] n seen v rest h =
    ("", ground (arith, h, append.nil rest), tt, ground (arith, h), inl (ground (arith, h)))
digits-Reads (c :> s) n seen v rest h =
    starts (is_digit c) refl (digits-Reads s (n * 10 + (code c - 48)) true v rest)
  where
    starts :
        (b : Bool)
        → is_digit c ≡ b
        → (digits s (n * 10 + (code c - 48)) true ≡ some (v, rest)
            → Reads s (n * 10 + (code c - 48)) true v rest)
        → Reads (c :> s) n seen v rest
    starts true e ih =
        let (d, split, all, value, more) = ih (ground (arith, h, e)) in
        (
          c :> d,
          ap (λ x. c :> x) split ∙ sym (append.cons c d rest),
          (digit_low c e, digit_high c e, all),
          value ∙ one_more n (code c - 48) (power d) (place_value d),
          inr tt,
        )
    starts false e ih = (
      "",
      ground (arith, h, e) ∙ sym (append.nil rest),
      tt,
      ground (arith, h, e),
      inl (ground (arith, h, e)),
    )

after_char_lem : (c : Char) (s t : String) → after_char (code c) s ≡ some t → s ≡ c :> t
unfolding after_char
after_char_lem c String.[] t h = absurd (ground (arith, h))
after_char_lem c (d :> s) t h = starts (code d == code c) refl
  where
    starts : (b : Bool) → (code d == code c) ≡ b → d :> s ≡ c :> t
    starts true e =
        let same : s ≡ t = ground (arith, h, e) in
        λ i. Char-path d c ((==_iff (code d) (code c)).0 e) i :> same i
    starts false e = absurd (ground (arith, h, e))

bound :
    {A B : Type 0} (o : Option A) (f : A → Option B) (b : B)
    → (o >>= f) ≡ some b
    → (a : A) × (o ≡ some a) × (f a ≡ some b)
bound none f b h = absurd (ground (arith, h))
bound (some a) f b h = (a, refl, h)

-- A literal text before another.
pub bytes_before :
    (t : String)
    → "bytes " <> t
      ≡ char 98 tt
        :> (char 121 tt :> (char 116 tt :> (char 101 tt :> (char 115 tt :> (char 32 tt :> t)))))
bytes_before t =
    append.cons (char 98 tt) "ytes " t
    ∙ ap (λ x. char 98 tt :> x)
        (append.cons (char 121 tt) "tes " t
          ∙ ap (λ x. char 121 tt :> x)
              (append.cons (char 116 tt) "es " t
                ∙ ap (λ x. char 116 tt :> x)
                    (append.cons (char 101 tt) "s " t
                      ∙ ap (λ x. char 101 tt :> x)
                          (append.cons (char 115 tt) " " t
                            ∙ ap (λ x. char 115 tt :> x)
                                (append.cons (char 32 tt) "" t
                                  ∙ ap (λ x. char 32 tt :> x) (append.nil t))))))

after_bytes_lem : (s t : String) → after_bytes s ≡ some t → s ≡ "bytes " <> t
unfolding after_bytes
after_bytes_lem s t h =
    let (s1, e1, h1) = bound (after_char 98 s) _ t h in
    let (s2, e2, h2) = bound (after_char 121 s1) _ t h1 in
    let (s3, e3, h3) = bound (after_char 116 s2) _ t h2 in
    let (s4, e4, h4) = bound (after_char 101 s3) _ t h3 in
    let (s5, e5, h5) = bound (after_char 115 s4) _ t h4 in
    after_char_lem (char 98 tt) s s1 e1
    ∙ ap (λ x. char 98 tt :> x)
        (after_char_lem (char 121 tt) s1 s2 e2
          ∙ ap (λ x. char 121 tt :> x)
              (after_char_lem (char 116 tt) s2 s3 e3
                ∙ ap (λ x. char 116 tt :> x)
                    (after_char_lem (char 101 tt) s3 s4 e4
                      ∙ ap (λ x. char 101 tt :> x)
                          (after_char_lem (char 115 tt) s4 s5 e5
                            ∙ ap (λ x. char 115 tt :> x) (after_char_lem (char 32 tt) s5 t h5)))))
    ∙ sym (bytes_before t)

pub one_before : (c : Char) (t : String) → (c :> "") <> t ≡ c :> t
one_before c t = append.cons c "" t ∙ ap (λ x. c :> x) (append.nil t)

-- A separator of one character.
after_one : (c : Char) (s t : String) → after_char (code c) s ≡ some t → s ≡ (c :> "") <> t
after_one c s t h = after_char_lem c s t h ∙ sym (one_before c t)

pub append_nil_right : (s : String) → s <> "" ≡ s
append_nil_right String.[] = append.nil ""
append_nil_right (c :> s) = append.cons c s "" ∙ ap (λ x. c :> x) (append_nil_right s)

-- A number of `\d+` is the decimal notation of its value.
digits-IsDecimal :
    (s : String) (v : ℕ) (rest : String)
    → digits s 0 false ≡ some (v, rest)
    → (d : String) × (s ≡ d <> rest) × IsDecimal d v
digits-IsDecimal s v rest h =
    let (d, split, all, value, more) = digits-Reads s 0 false v rest h in
    (
      d,
      split,
      (elim more [ inl e ↦ absurd (ground (arith, e)) | inr q ↦ q ], all, omega (arith, value)),
    )

range_total_lem : (s : String) (n : ℕ) → range_total s ≡ some (some n) → IsDecimal s n
unfolding range_total
range_total_lem s n h = number (digits s 0 false) refl (ground (arith, h))
  where
    number :
        (o : Option (ℕ × String))
        → digits s 0 false ≡ o
        → elim o as (λ _. Option (Option ℕ)) [
          | none ↦ none
          | some (m, rest) ↦ if str_eq rest "" then some (some m) else none
        ]
          ≡ some (some n)
        → IsDecimal s n
    number none e k = absurd (ground (arith, k))
    number (some (m, rest)) e k =
        let empty : rest ≡ "" = (eq_iff rest "").0 (ground (arith, k)) in
        let (d, split, decimal) = digits-IsDecimal s m rest e in
        subst (λ x. IsDecimal x n) (sym (split ∙ ap (λ r. d <> r) empty ∙ append_nil_right d))
          (subst (λ x. IsDecimal d x) (ground (arith, k)) decimal)

-- What `_CONTENT_RANGE` matches, with a total, is the text of the range.
pub content_range-IsRange :
    (text : String) (start end total : ℕ)
    → content_range text ≡ some (start, end, some total)
    → IsRange text start end total
unfolding content_range
content_range-IsRange text start end total h =
    let (t, e1, h1) = bound (after_bytes text) _ _ h in
    let ((start', u), e2, h2) = bound (digits t 0 false) _ _ h1 in
    let (v, e3, h3) = bound (after_char 45 u) _ _ h2 in
    let ((end', w), e4, h4) = bound (digits v 0 false) _ _ h3 in
    let (x, e5, h5) = bound (after_char 47 w) _ _ h4 in
    let (total', e6, h6) = bound (range_total x) _ _ h5 in
    let (a, split_a, is_start) = digits-IsDecimal t start' u e2 in
    let (b, split_b, is_end) = digits-IsDecimal v end' w e4 in
    (
      a,
      b,
      x,
      after_bytes_lem text t e1
          ∙ ap (λ r. "bytes " <> r)
              (split_a
                ∙ ap (λ r. a <> r)
                    (after_one (char 45 tt) u v e3
                      ∙ ap (λ r. "-" <> r)
                          (split_b ∙ ap (λ r. b <> r) (after_one (char 47 tt) w x e5)))),
      subst (λ n. IsDecimal a n) (ground (arith, h6)) is_start,
      subst (λ n. IsDecimal b n) (ground (arith, h6)) is_end,
      range_total_lem x total (e6 ∙ ap some (ground (arith, h6))),
    )
