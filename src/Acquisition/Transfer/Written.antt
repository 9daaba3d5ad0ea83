-- ===== src/Acquisition/Transfer/Written.antt =====
-- `_CONTENT_RANGE` matches the text of each range.
use Prim.Native.String.append
use Prim.Native.String.{◌∷◌ as ◌:>◌}
use Prim.Native.Char.{Char, char, code}
use data_processing.Prelude.{
  ℕ, String, Option, some, true, false, ◌≡◌, inl, inr, refl, sym, ap, ◌∙◌, subst, ◌≤◌, ◌+◌, ◌*◌,
  ◌-◌, ◌<>◌, str_eq, eq_iff, Bool-cases, arith,
}
use data_processing.Acquisition.Transfer.{
  digits, after_char, after_bytes, range_total, content_range, ◌>>=◌,
}
use data_processing.Acquisition.Transfer.Headers.{
  AreDigits, power, place_value, IsDecimal, IsRange, bytes_before, one_before, one_more,
  append_nil_right,
}
use data_processing.Links.Text.{is_digit}

-- No digit stands first.
abbrev Stops : String → Type 0
Stops String.[] = Unit
Stops (c :> s) = is_digit c ≡ false

is_digit-true : (c : Char) → 48 ≤ code c → code c ≤ 57 → is_digit c ≡ true
unfolding is_digit
is_digit-true c h k = ground (arith, h, k)

stopped : (rest : String) (n : ℕ) → Stops rest → digits rest n true ≡ some (n, rest)
unfolding digits
stopped String.[] n h = refl
stopped (c :> s) n h = ground (arith, h)

digits-rest :
    (d rest : String) (n : ℕ)
    → AreDigits d
    → Stops rest
    → digits (d <> rest) n true ≡ some (n * power d + place_value d, rest)
unfolding digits
digits-rest String.[] rest n h k =
    ap (λ x. digits x n true) (append.nil rest)
    ∙ stopped rest n k
    ∙ ap (λ v. some (v, rest)) (omega arith)
digits-rest (c :> d) rest n h k =
    ap (λ x. digits x n true) (append.cons c d rest)
    ∙ ground (arith, is_digit-true c h.0 h.1, digits-rest d rest (n * 10 + (code c - 48)) h.2 k)
    ∙ ap (λ v. some (v, rest)) (one_more n (code c - 48) (power d) (place_value d))

zero_more : (x y : ℕ) → 0 * x + y ≡ y
zero_more x y = grind arith

-- The decimal notation of a number is read as the number.
digits-decimal :
    (d rest : String) (v : ℕ)
    → IsDecimal d v
    → Stops rest
    → digits (d <> rest) 0 false ≡ some (v, rest)
unfolding digits
digits-decimal String.[] rest v h k = absurd h.0
digits-decimal (c :> d) rest v h k =
    let m : ℕ = 0 * 10 + (code c - 48) in
    let read : digits (c :> (d <> rest)) 0 false ≡ some (m * power d + place_value d, rest) =
      ground (arith, is_digit-true c h.1.0 h.1.1, digits-rest d rest m h.1.2 k) in
    let same : m * power d + place_value d ≡ v =
      one_more 0 (code c - 48) (power d) (place_value d)
      ∙ zero_more (10 * power d) (place_value (c :> d))
      ∙ sym h.2 in
    ap (λ x. digits x 0 false) (append.cons c d rest) ∙ read ∙ ap (λ n. some (n, rest)) same

not_star : (s : String) → AreDigits s → str_eq s "*" ≡ false
not_star s h = elim (Bool-cases (str_eq s "*")) [
  | inl e ↦ absurd (ground (arith, subst AreDigits ((eq_iff s "*").0 e) h))
  | inr e ↦ e
]

range_total-decimal : (s : String) (v : ℕ) → IsDecimal s v → range_total s ≡ some (some v)
unfolding range_total
range_total-decimal s v h =
    let read : digits s 0 false ≡ some (v, "") =
      ap (λ x. digits x 0 false) (sym (append_nil_right s)) ∙ digits-decimal s "" v h tt in
    ground (arith, not_star s h.1, read, (eq_iff "" "").1 refl)

after_bytes-bytes : (t : String) → after_bytes ("bytes " <> t) ≡ some t
unfolding after_bytes after_char
after_bytes-bytes t = ap after_bytes (bytes_before t)

after_char-one : (c : Char) (t : String) → after_char (code c) ((c :> "") <> t) ≡ some t
unfolding after_char
after_char-one c t = ap (after_char (code c)) (one_before c t) ∙ ground arith

step :
    {A B : Type 0} (o : Option A) (a : A) (f : A → Option B) (b : B)
    → o ≡ some a
    → f a ≡ some b
    → (o >>= f) ≡ some b
step o a f b e h = ap (λ x. x >>= f) e ∙ h

minus-Stops : (s : String) → Stops ("-" <> s)
unfolding is_digit
minus-Stops s = subst Stops (sym (one_before (char 45 tt) s)) refl

slash-Stops : (s : String) → Stops ("/" <> s)
unfolding is_digit
slash-Stops s = subst Stops (sym (one_before (char 47 tt) s)) refl

pub content_range-range :
    (text : String) (start end total : ℕ)
    → IsRange text start end total
    → content_range text ≡ some (start, end, some total)
unfolding content_range
content_range-range text start end total (a, b, c, e, is_start, is_end, is_total) =
    let rest : String = b <> ("/" <> c) in
    ap content_range e
    ∙ step (after_bytes ("bytes " <> (a <> ("-" <> rest)))) (a <> ("-" <> rest)) _ _
        (after_bytes-bytes (a <> ("-" <> rest)))
        (step (digits (a <> ("-" <> rest)) 0 false) (start, "-" <> rest) _ _
          (digits-decimal a ("-" <> rest) start is_start (minus-Stops rest))
          (step (after_char 45 ("-" <> rest)) rest _ _ (after_char-one (char 45 tt) rest) (
            step (digits rest 0 false) (end, "/" <> c) _ _
              (digits-decimal b ("/" <> c) end is_end (slash-Stops c))
              (step (after_char 47 ("/" <> c)) c _ _ (after_char-one (char 47 tt) c) (
                step (range_total c) (some total) _ _ (range_total-decimal c total is_total)
                  refl)))))
