-- ===== src/Effect.antt =====
-- How Python statements that read and write objects, and that may raise, are modelled: a step takes
-- the state and gives its outcome with the state that it leaves, also where it raises.
pub mod Triple

module _ {ℓ} (X A : Type ℓ) where
  -- `unfinished` is the outcome of a loop whose fuel ran out.
  pub data Outcome : Type ℓ where
    returned : A → Outcome
    raised : X → Outcome
    unfinished : Outcome

  -- What a call of code outside the model gives: a value, or an exception.
  pub data Answer : Type ℓ where
    answered : A → Answer
    failed : X → Answer

abbrev pub from_answer {ℓ} : {X A : Type ℓ} → Answer X A → Outcome X A
from_answer (answered a) = returned a
from_answer (failed e) = raised e

abbrev pub Step {ℓ} : (X S A : Type ℓ) → Type ℓ
Step X S A = S → Outcome X A × S

module _ {ℓ} {X S A : Type ℓ} where
  abbrev pub pure : A → Step X S A
  pure a s = (returned a, s)

  abbrev pub raise : X → Step X S A
  raise e s = (raised e, s)

  abbrev pub of_outcome : Outcome X A → Step X S A
  of_outcome o s = (o, s)

module _ {ℓ} {X S A B : Type ℓ} where
  abbrev pub and_then : Outcome X A × S → (A → Step X S B) → Outcome X B × S
  and_then (returned a, s) f = f a s
  and_then (raised e, s) f = (raised e, s)
  and_then (unfinished, s) f = (unfinished, s)

  infixl 10 ◌>>=◌ ◌>>◌
  unfoldable pub ◌>>=◌ : Step X S A → (A → Step X S B) → Step X S B
  ◌>>=◌ m f s = and_then (m s) f

  abbrev pub ◌>>◌ : Step X S A → Step X S B → Step X S B
  m >> n = m >>= λ _. n
