-- ===== src/Acquisition/Policies/Destination.antt =====
-- Which destinations `validate_destination` accepts.
use mathlib.Core.List.{Memᴰ}
use mathlib.Core.List.Memᴰ
use data_processing.Prelude.{
  ℕ, String, Option, none, some, List, [], ◌∷◌, true, false, ◌≡◌, ◌≢◌, ◌⊎◌, inl, inr, ◌↔◌, refl,
  sym, ap, subst, arith, str_eq, eq_iff, Bool-cases, Option-cases,
}
use data_processing.Effect.{returned, unfinished}
use data_processing.Acquisition.Policies.{
  SplitResult, RequestLibrary, is_member, is_other_port, is_given, check_host, check_parsed,
  parsed_https_url, strip_dots, check_allowed, validate_destination,
}

pub validate_destination-ends :
    (urls : RequestLibrary) (url : String) (hosts : List String)
    → validate_destination urls url hosts ≢ unfinished
unfolding validate_destination parsed_https_url check_parsed check_host check_allowed
validate_destination-ends urls url hosts h = ground (arith, h)

is_member-Mem : (s : String) (xs : List String) → is_member s xs ≡ true → Memᴰ s xs
unfolding is_member
is_member-Mem s [] h = absurd (ground (arith, h))
is_member-Mem s (x ∷ xs) h = elim (Bool-cases (str_eq s x)) [
  | inl e ↦ Memᴰ.head ((eq_iff s x).0 e)
  | inr e ↦ Memᴰ.tail (is_member-Mem s xs (ground (arith, h, e)))
]

Mem-is_member : (s : String) (xs : List String) → Memᴰ s xs → is_member s xs ≡ true
unfolding is_member
Mem-is_member s [] h = absurd (Memᴰ.not-nil h)
Mem-is_member s (x ∷ xs) h = elim (Memᴰ.cases_cons h) [
  | inl e ↦ ground (arith, (eq_iff s x).1 e)
  | inr t ↦ ground (arith, Mem-is_member s xs t)
]

module _ (urls : RequestLibrary) (hosts : List String) where
  open urls use {urlsplit, is_ip_address, lower}

  -- HTTPS, to a named host of these, without user-info, another port or a fragment.
  abbrev pub Safe : SplitResult → Type 0
  Safe parsed =
      (host : String) × (parsed.hostname ≡ some host)
      × (host ≢ "")
      × (is_ip_address host ≡ false)
      × Memᴰ (strip_dots urls (lower host)) hosts
      × (lower parsed.scheme ≡ "https")
      × (parsed.username ≡ none)
      × (parsed.password ≡ none)
      × ((parsed.port ≡ none) ⊎ (parsed.port ≡ some 443))
      × (parsed.fragment ≡ "")

  -- The same, as the tests of the code.
  abbrev Passes : SplitResult → String → Type 0
  Passes parsed host =
      (parsed.hostname ≡ some host)
      × (str_eq host "" ≡ false)
      × (is_ip_address host ≡ false)
      × (is_member (strip_dots urls (lower host)) hosts ≡ true)
      × (str_eq (lower parsed.scheme) "https" ≡ true)
      × (is_given urls parsed.username ≡ false)
      × (is_given urls parsed.password ≡ false)
      × (is_other_port urls parsed.port ≡ false)
      × (str_eq parsed.fragment "" ≡ true)

  validate_destination-Passes :
      (url : String) (parsed : SplitResult) (host : String)
      → parsed.hostname ≡ some host
      → validate_destination urls url hosts ≡ returned parsed
      → (urlsplit url ≡ some parsed) × Passes parsed host
  unfolding validate_destination parsed_https_url check_parsed check_host check_allowed
  validate_destination-Passes url parsed host e h = ground (arith, e, h)

  Passes-validate_destination :
      (url : String) (parsed : SplitResult) (host : String)
      → urlsplit url ≡ some parsed
      → Passes parsed host
      → validate_destination urls url hosts ≡ returned parsed
  unfolding validate_destination parsed_https_url check_parsed check_host check_allowed
  Passes-validate_destination url parsed host u p = ground (arith, u, p)

  named :
      (url : String) (parsed : SplitResult)
      → validate_destination urls url hosts ≡ returned parsed
      → parsed.hostname ≢ none
  unfolding validate_destination parsed_https_url check_parsed check_host check_allowed
  named url parsed h e = ground (arith, h, e)

  no_text : (o : Option String) → is_given urls o ≡ false → o ≡ none
  unfolding is_given
  no_text none h = refl
  no_text (some s) h = absurd (ground (arith, h))

  https_port : (o : Option ℕ) → is_other_port urls o ≡ false → (o ≡ none) ⊎ (o ≡ some 443)
  unfolding is_other_port
  https_port none h = inl refl
  https_port (some n) h = inr (ap some (ground (arith, h)))

  port-https : (o : Option ℕ) → (o ≡ none) ⊎ (o ≡ some 443) → is_other_port urls o ≡ false
  unfolding is_other_port
  port-https o (inl e) = subst (λ z. is_other_port urls z ≡ false) (sym e) refl
  port-https o (inr e) = subst (λ z. is_other_port urls z ≡ false) (sym e) refl

  differ : (s t : String) → s ≢ t → str_eq s t ≡ false
  differ s t n = elim (Bool-cases (str_eq s t)) [
    | inl e ↦ absurd (n ((eq_iff s t).0 e))
    | inr e ↦ e
  ]

  Passes-Safe : (parsed : SplitResult) (host : String) → Passes parsed host → Safe parsed
  Passes-Safe parsed host (h, n, i, m, s, u, w, p, f) = (
    host,
    h,
    (λ e. ground (arith, n, (eq_iff host "").1 e)),
    i,
    is_member-Mem _ hosts m,
    (eq_iff (lower parsed.scheme) "https").0 s,
    no_text parsed.username u,
    no_text parsed.password w,
    https_port parsed.port p,
    (eq_iff parsed.fragment "").0 f,
  )

  Safe-Passes : (parsed : SplitResult) (t : Safe parsed) → Passes parsed t.0
  unfolding is_given
  Safe-Passes parsed (host, h, n, i, m, s, u, w, p, f) = (
    h,
    differ host "" n,
    i,
    Mem-is_member _ hosts m,
    (eq_iff (lower parsed.scheme) "https").1 s,
    subst (λ z. is_given urls z ≡ false) (sym u) refl,
    subst (λ z. is_given urls z ≡ false) (sym w) refl,
    port-https parsed.port p,
    (eq_iff parsed.fragment "").1 f,
  )

  -- `validate_destination` accepts a URL exactly where the URL library reads it as an HTTPS URL of an
  -- allowed host that is no IP address, with no user-info, no other port than 443 and no fragment.
  pub validate_destination-Safe :
      (url : String) (parsed : SplitResult)
      → (validate_destination urls url hosts ≡ returned parsed)
        ↔ ((urlsplit url ≡ some parsed) × Safe parsed)
  validate_destination-Safe url parsed = (
    (λ h. elim (Option-cases parsed.hostname) [
      | inl e ↦ absurd (named url parsed h e)
      | inr (host, e) ↦
          let (u, p) = validate_destination-Passes url parsed host e h in
          (u, Passes-Safe parsed host p)
    ]),
    (λ q. Passes-validate_destination url parsed q.1.0 q.0 (Safe-Passes parsed q.1)),
  )
