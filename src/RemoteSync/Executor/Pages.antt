-- ===== src/RemoteSync/Executor/Pages.antt =====
-- The loop over pages, whatever the provider answers.
use data_processing.Prelude.{ℕ, zero, suc, ◌+◌, ◌≤◌, ◌<◌, ◌≡◌, refl, ◌∙◌, Option, none, some, arith}
use data_processing.Effect.{pure}
use data_processing.Effect.Triple.{Post, Post-weaken, Triple, Triple-bind}
use data_processing.RemoteSync.Types.{
  Exception, AdapterRequest, Continuation, ResponseEnvelope, NormalizedPage,
}
use data_processing.RemoteSync.Session.{BudgetTracker, Session, Run}
use data_processing.RemoteSync.Gate.{GateSettings}
use data_processing.RemoteSync.Executor.{Calls, goes_on, pages, execute}
use data_processing.RemoteSync.Executor.Contract.{CallsKeep}
use data_processing.RemoteSync.Executor.Turn.{Within, Ready, Turned, next_page-Turned}

module _ {S : Type 0} (J : ℕ → S → Type 0) (K : ResponseEnvelope → ℕ → S → Type 0)
    (gate : GateSettings) (calls : Calls S) (keep : CallsKeep J K gate calls) where
  -- After the loop from the budget `b`: at least one page is committed.
  pub record Done (b : BudgetTracker) (s : Session S) : Type 0 where
    pub ended : Within J gate b s
    pub progress : b.pages < s.pages

  later_Done :
      (b b' : BudgetTracker) (s : Session S)
      → b'.limits ≡ b.limits
      → b.requests + 1 ≤ b'.requests
      → b'.pages ≡ b.pages + 1
      → Done b' s
      → Done b s
  later_Done b b' s l r p h = record {
    ended = record {
      sound = h.ended.sound;
      within = h.ended.within;
      same_limits = h.ended.same_limits ∙ l;
      grown = ground (arith, h.ended.grown);
      paid = ground (arith, h.ended.paid);
    };
    progress = ground (arith, h.progress);
  }

  later_Within :
      (b b' : BudgetTracker) (s : Session S)
      → b'.limits ≡ b.limits
      → b.requests + 1 ≤ b'.requests
      → b'.pages ≡ b.pages + 1
      → Within J gate b' s
      → Within J gate b s
  later_Within b b' s l r p h = record {
    sound = h.sound;
    within = h.within;
    same_limits = h.same_limits ∙ l;
    grown = ground (arith, h.grown);
    paid = ground (arith, h.paid);
  }

  after_page :
      (b : BudgetTracker) (rp : AdapterRequest × NormalizedPage)
      (more : Continuation → Run S (Option Continuation))
      → ((c : Continuation) (b' : BudgetTracker)
          → b'.limits ≡ b.limits
          → b.requests < b'.requests
          → Triple (Ready J gate b') (more c) (λ _. Done b') (λ _. Within J gate b'))
      → (next : Option Continuation)
      → Triple {X = Exception}
          (Turned J gate b rp)
          (elim next [ none ↦ pure rp.1.continuation | some c ↦ more c ])
          (λ _. Done b)
          (λ _. Within J gate b)
  after_page b rp more later none = record {
    at = λ s h. record { ended = h.0; progress = ground arith };
  }
  after_page b rp more later (some c) = record {
    at = λ s h.
        Post-weaken {Q' = λ _. Done b} {E' = λ _. Within J gate b} (more c s)
          (λ _ s'. later_Done b s.budget s' h.0.same_limits h.1 h.2)
          (λ _ s'. later_Within b s.budget s' h.0.same_limits h.1 h.2)
          ((later c s.budget h.0.same_limits (ground arith)).at s (h.0.sound, h.0.within, refl));
  }

  pages-Done :
      (fuel : ℕ) (b : BudgetTracker) (c : Option Continuation)
      → b.limits.requests < b.requests + fuel
      → Triple (Ready J gate b) (pages calls gate fuel c) (λ _. Done b) (λ _. Within J gate b)
  unfolding pages
  pages-Done zero b c enough = record { at = λ s h. absurd (ground (arith, h.0.within)) }
  pages-Done (suc fuel) b c enough =
      Triple-bind _ _ (next_page-Turned J K gate calls keep b c) λ (request, page).
        after_page b (request, page) (λ c'. pages calls gate fuel (some c'))
          (λ c' b' l r. pages-Done fuel b' (some c') (ground arith))
          (goes_on calls gate request page page.continuation)

  -- The fuel of `execute` is enough.
  pub execute-Done :
      (b : BudgetTracker) (c : Option Continuation)
      → Triple (Ready J gate b) (execute calls gate c) (λ _. Done b) (λ _. Within J gate b)
  unfolding execute
  execute-Done b c = record {
    at = λ s h. (pages-Done (suc s.limits.requests) b c (ground arith)).at s h;
  }

  -- Whatever the provider answers, `execute` ends, from a session that is sound and within its budget
  -- `b` and with callbacks as the contract wants them: it returns after at least one page, or it
  -- raises; and in both cases each page that it counts is paid for by a request of its own, all counts
  -- are within the limits, which are unchanged, and any two requests are at least the gate's interval
  -- apart.
  pub execute-ends :
      (b : BudgetTracker) (c : Option Continuation) (s : Session S)
      → Ready J gate b s
      → Post (λ _. Done b) (λ _. Within J gate b) (execute calls gate c s)
  execute-ends b c s h = (execute-Done b c).at s h
