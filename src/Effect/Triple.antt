-- ===== src/Effect/Triple.antt =====
-- Total-correctness triples for steps. `unfinished` meets no postcondition, so that a triple also
-- states that the step ends.
use data_processing.Prelude.{◌≡◌, refl, Bool, true, false, if◌then◌else◌}
use data_processing.Effect.{
  Outcome, returned, raised, unfinished, Step, of_outcome, and_then, ◌>>=◌,
}

module _ {ℓ} {X S A : Type ℓ} where
  -- `Q` of what is returned, `E` of what is raised, each with the state that is left.
  abbrev pub Post : (A → S → Type 0) → (X → S → Type 0) → Outcome X A × S → Type 0
  Post Q E (returned a, s) = Q a s
  Post Q E (raised e, s) = E e s
  Post Q E (unfinished, s) = ⊥

  pub record Triple (P : S → Type 0) (m : Step X S A) (Q : A → S → Type 0) (E : X → S → Type 0)
      : Type ℓ where
    pub at : (s : S) → P s → Post Q E (m s)

  pub Post-weaken :
      {Q Q' : A → S → Type 0} {E E' : X → S → Type 0} (r : Outcome X A × S)
      → ((a : A) (s : S) → Q a s → Q' a s)
      → ((e : X) (s : S) → E e s → E' e s)
      → Post Q E r
      → Post Q' E' r
  Post-weaken (returned a, s) f g h = f a s h
  Post-weaken (raised e, s) f g h = g e s h
  Post-weaken (unfinished, s) f g h = h

  pub Triple-weaken :
      {P P' : S → Type 0} {Q Q' : A → S → Type 0} {E E' : X → S → Type 0} {m : Step X S A}
      → ((s : S) → P' s → P s)
      → ((a : A) (s : S) → Q a s → Q' a s)
      → ((e : X) (s : S) → E e s → E' e s)
      → Triple P m Q E
      → Triple P' m Q' E'
  Triple-weaken {m} before f g t = record {
    at = λ s p. Post-weaken (m s) f g (t.at s (before s p));
  }

  -- A fact that does not speak of the state may be assumed.
  pub Triple-assume :
      {P : S → Type 0} {Q : A → S → Type 0} {E : X → S → Type 0} {m : Step X S A} (F : Type 0)
      → (F → Triple P m Q E)
      → Triple (λ s. P s × F) m Q E
  Triple-assume F t = record { at = λ s p. (t p.1).at s p.0 }

  -- And it is kept.
  Triple-with :
      {P : S → Type 0} {Q : A → S → Type 0} {E : X → S → Type 0} {m : Step X S A} {F : Type 0}
      → Triple P m Q E
      → F
      → Triple P m (λ a s. Q a s × F) (λ e s. E e s × F)
  Triple-with t f = Triple-weaken (λ s p. p) (λ a s q. (q, f)) (λ e s q. (q, f)) t

  pub Triple-keep :
      {P : S → Type 0} {Q : A → S → Type 0} {E : X → S → Type 0} {m : Step X S A} (F : Type 0)
      → Triple P m Q E
      → Triple (λ s. P s × F) m (λ a s. Q a s × F) (λ e s. E e s × F)
  Triple-keep F t = Triple-assume F (λ f. Triple-with t f)

module _ {ℓ} {X S A B : Type ℓ} where
  Post-and_then :
      {Q : A → S → Type 0} {R : B → S → Type 0} {E : X → S → Type 0} (r : Outcome X A × S)
      (f : A → Step X S B)
      → Post Q E r
      → ((a : A) → Triple (Q a) (f a) R E)
      → Post R E (and_then r f)
  Post-and_then (returned a, s) f h k = (k a).at s h
  Post-and_then (raised e, s) f h k = h
  Post-and_then (unfinished, s) f h k = h

  pub Triple-bind :
      {P : S → Type 0} {Q : A → S → Type 0} {R : B → S → Type 0} {E : X → S → Type 0}
      (m : Step X S A) (f : A → Step X S B)
      → Triple P m Q E
      → ((a : A) → Triple (Q a) (f a) R E)
      → Triple P (m >>= f) R E
  unfolding ◌>>=◌
  Triple-bind m f h k = record { at = λ s p. Post-and_then (m s) f (h.at s p) k }

  -- The same where what `m` raises satisfies less.
  pub Triple-bind_weak :
      {P : S → Type 0} {Q : A → S → Type 0} {R : B → S → Type 0} {E E' : X → S → Type 0}
      (m : Step X S A) (f : A → Step X S B)
      → Triple P m Q E'
      → ((e : X) (s : S) → E' e s → E e s)
      → ((a : A) → Triple (Q a) (f a) R E)
      → Triple P (m >>= f) R E
  Triple-bind_weak m f h weak k = Triple-bind m f (Triple-weaken (λ s p. p) (λ a s q. q) weak h) k

module _ {ℓ} {X S A : Type ℓ} {P : S → Type 0} {Q : A → S → Type 0} {E : X → S → Type 0} where
  pub Triple-if :
      (b : Bool) (m n : Step X S A)
      → (b ≡ true → Triple P m Q E)
      → (b ≡ false → Triple P n Q E)
      → Triple P (if b then m else n) Q E
  Triple-if true m n hm hn = hm refl
  Triple-if false m n hm hn = hn refl

  -- The outcome of a call that leaves the state alone.
  pub Triple-of_outcome :
      (o : Outcome X A) → ((s : S) → P s → Post Q E (o, s)) → Triple P (of_outcome o) Q E
  Triple-of_outcome o h = record { at = h }
