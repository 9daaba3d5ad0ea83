-- ===== src/Identity/Closure/Loop.antt =====
-- The loop `while changed` ends, and no edge leads out of what it gives.
use data_processing.Prelude.{
  ℕ, zero, suc, List, [], ◌∷◌, Bool, true, false, ◌≡◌, ◌≤◌, ◌<◌, ◌+◌, refl, sym, ap, ◌∙◌, subst,
  inl, inr, if◌then◌else◌, arith, length, All, Bool-cases,
}
use data_processing.Effect.{Outcome, returned, raised, unfinished}
use data_processing.RemoteSync.Types.{Exception}
use data_processing.Identity.Rebuild.{Edge, close_over, include, is_inside, sweep}
use data_processing.Identity.Closure.{
  Includes, absorbed, absorbed-Includes, absorbed_inside, is_inside_mono, is_settled,
  sweep-Includes, sweep-cons,
}

-- How many edges do not lie inside.
unfoldable pub outside : List ℕ → List Edge → ℕ
unfolding is_inside
outside involved [] = 0
outside involved (edge ∷ edges) =
    (if is_inside involved edge then 0 else 1) + outside involved edges

outside-cons :
    (edge : Edge) (edges : List Edge) (involved : List ℕ)
    → outside involved (edge ∷ edges)
      ≡ (if is_inside involved edge then 0 else 1) + outside involved edges
unfolding outside
outside-cons edge edges involved = refl

outside_mono :
    (edges : List Edge) (xs ys : List ℕ) → Includes xs ys → outside ys edges ≤ outside xs edges
unfolding outside
outside_mono [] xs ys i = omega arith
outside_mono (edge ∷ edges) xs ys i =
    ground (arith, outside_mono edges xs ys i, is_inside_mono edge xs ys i)

outside-length : (edges : List Edge) (involved : List ℕ) → outside involved edges ≤ length edges
unfolding outside
outside-length [] involved = omega arith
outside-length (edge ∷ edges) involved = ground (arith, outside-length edges involved)

not_inside :
    (edge : Edge) (involved : List ℕ)
    → is_settled involved edge ≡ false
    → is_inside involved edge ≡ false
unfolding is_settled
not_inside edge involved h = ground (arith, h)

-- A pass that changes something leaves fewer edges outside.
sweep_changed :
    (edges : List Edge) (involved : List ℕ)
    → (sweep edges (involved, false)).1 ≡ true
    → outside (sweep edges (involved, false)).0 edges < outside involved edges
sweep_changed [] involved h = unfold sweep in absurd (ground (arith, h))
sweep_changed (edge ∷ edges) involved h = elim (Bool-cases (is_settled involved edge)) [
  | inl e ↦
      let q : sweep (edge ∷ edges) (involved, false) ≡ sweep edges (involved, false) =
        ground (arith, e, sweep-cons edge edges involved false) in
      let k : (sweep edges (involved, false)).1 ≡ true =
        ap (λ (p : List ℕ × Bool). p.1) (sym q) ∙ h in
      subst (λ (p : List ℕ × Bool). outside p.0 (edge ∷ edges) < outside involved (edge ∷ edges))
        (sym q)
        (ground (
          arith,
          outside-cons edge edges involved,
          outside-cons edge edges (sweep edges (involved, false)).0,
          sweep_changed edges involved k,
          is_inside_mono edge involved (sweep edges (involved, false)).0
              (sweep-Includes edges involved false),
        ))
  | inr e ↦
      let q : sweep (edge ∷ edges) (involved, false) ≡ sweep edges (absorbed edge involved, true) =
        ground (arith, e, sweep-cons edge edges involved false) in
      let more = sweep-Includes edges (absorbed edge involved) true in
      subst (λ (p : List ℕ × Bool). outside p.0 (edge ∷ edges) < outside involved (edge ∷ edges))
        (sym q)
        (ground (
          arith,
          outside-cons edge edges involved,
          outside-cons edge edges (sweep edges (absorbed edge involved, true)).0,
          not_inside edge involved e,
          is_inside_mono edge (absorbed edge involved)
              (sweep edges (absorbed edge involved, true)).0 more (absorbed_inside edge involved),
          outside_mono edges involved (sweep edges (absorbed edge involved, true)).0
              (λ a i. more a (absorbed-Includes edge involved a i)),
        ))
]

stays_changed : (edges : List Edge) (involved : List ℕ) → (sweep edges (involved, true)).1 ≡ true
unfolding sweep
stays_changed [] involved = refl
stays_changed (edge ∷ edges) involved = ground (
  arith,
  stays_changed edges involved,
  stays_changed edges (include edge.target (include edge.subject involved)),
)

abbrev pub AllSettled : List ℕ → List Edge → Type 0
AllSettled involved edges = All (λ e. is_settled involved e ≡ true) edges

-- A pass that changes nothing finds every edge settled.
sweep_unchanged :
    (edges : List Edge) (involved : List ℕ)
    → (sweep edges (involved, false)).1 ≡ false
    → AllSettled involved edges
sweep_unchanged [] involved h = tt
sweep_unchanged (edge ∷ edges) involved h = elim (Bool-cases (is_settled involved edge)) [
  | inl e ↦ (
    e,
    sweep_unchanged edges involved (
        ground
          (arith, e, h, ap (λ (p : List ℕ × Bool). p.1) (sweep-cons edge edges involved false))),
  )
  | inr e ↦ absurd (
      ground (
        arith,
        e,
        h,
        ap (λ (p : List ℕ × Bool). p.1) (sweep-cons edge edges involved false),
        stays_changed edges (absorbed edge involved),
      ))
]

-- The loop returns a list with the accounts it began with, and every edge is settled.
abbrev pub Closed : List Edge → List ℕ → Outcome Exception (List ℕ) → Type 0
Closed edges start (returned involved) = Includes start involved × AllSettled involved edges
Closed edges start (raised e) = ⊥
Closed edges start unfinished = ⊥

Closed-from :
    (edges : List Edge) (xs ys : List ℕ) (o : Outcome Exception (List ℕ))
    → Includes xs ys
    → Closed edges ys o
    → Closed edges xs o
Closed-from edges xs ys (returned zs) i c = ((λ a h. c.0 a (i a h)), c.1)
Closed-from edges xs ys (raised e) i c = c
Closed-from edges xs ys unfinished i c = c

close_within :
    (fuel : ℕ) (edges : List Edge) (involved : List ℕ)
    → outside involved edges < fuel
    → Closed edges involved (close_over fuel edges involved)
unfolding close_over
close_within zero edges involved l = absurd (omega (arith, l))
close_within (suc fuel) edges involved l = elim (Bool-cases (sweep edges (involved, false)).1) [
  | inl e ↦
      subst
        (λ b. Closed edges involved (
          if b then close_over fuel edges (sweep edges (involved, false)).0 else returned involved))
        (sym e)
        (Closed-from edges involved (sweep edges (involved, false)).0 _
          (sweep-Includes edges involved false)
          (close_within fuel edges (sweep edges (involved, false)).0
            (omega (arith, l, sweep_changed edges involved e))))
  | inr e ↦
      subst
        (λ b. Closed edges involved (
          if b then close_over fuel edges (sweep edges (involved, false)).0 else returned involved))
        (sym e) ((λ a h. h), sweep_unchanged edges involved e)
]

-- One pass more than there are edges is enough: the loop ends, what it started with is in the result,
-- and no edge has one end in the result and the other outside.
pub close_over-Closed :
    (edges : List Edge) (involved : List ℕ)
    → Closed edges involved (close_over (suc (length edges)) edges involved)
close_over-Closed edges involved =
    close_within (suc (length edges)) edges involved (omega (arith, outside-length edges involved))
