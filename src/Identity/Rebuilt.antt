-- ===== src/Identity/Rebuilt.antt =====
-- `rebuild_identity_component` as a whole: it ends, it does not raise, and the identities after it are
-- the classes of the pairs that remain.
use data_processing.Prelude.{ℕ, suc, Option, List, [], ◌≡◌, sym, ◌∙◌, subst, arith, length}
use data_processing.Effect.{Outcome, returned, raised, unfinished, and_then, ◌>>=◌}
use data_processing.RemoteSync.Types.{Exception}
use data_processing.Lineage.Leads.{Connected, back, join}
use data_processing.Identity.{Tables}
use data_processing.Identity.Closure.Loop.{Closed, close_over-Closed}
use data_processing.Identity.Components.{Places, insert_components-Places}
use data_processing.Identity.Forest.Components.{Classes, Collected, components_of-Collected}
use data_processing.Identity.Groups.{Connected-mono, Grouped}
use data_processing.Identity.Involved.{member_involved, subject_involved, target_involved}
use data_processing.Identity.Kept.{kept_touched, length-ends_of, same_side}
use data_processing.Identity.Rebuild.{
  Edge, close_over, delete_identities, delete_members, edges_of, ends_of, first_involved,
  insert_components, involved_components, old_members, rebuild_identity_component, rebuild_involved,
}
use data_processing.Identity.Rebuilding.{
  Setting, cleared, components, components-IsGrouped, in_components-end, kept, rebuilt-Grouped,
  start-Placing,
}
use data_processing.Identity.Remaining.{Lessens}

abbrev pub Rebuilds : List (ℕ × ℕ) → Tables → Outcome Exception (Unit {0}) × Tables → Type 0
Rebuilds less before (returned u, after) =
    Grouped less after.members after.identities
    × (after.account_candidates ≡ before.account_candidates)
Rebuilds less before (raised e, after) = ⊥
Rebuilds less before (unfinished, after) = ⊥

module _ (pairs : List (ℕ × ℕ)) (edges : List Edge) (subject : ℕ) (target : Option ℕ)
    (involved : List ℕ) (st : Tables) (x : Setting pairs edges subject target involved st) where
  -- The rows of the components, and then the identities without members.
  after_rows :
      (R : ℕ → ℕ) (classes : Classes (ends_of (kept involved edges)) R)
      (o : Outcome Exception (Unit {0}) × Tables)
      → Places
          (Connected (ends_of edges))
          (old_members subject target st.members)
          R
          (components R (kept involved edges))
          (cleared involved st)
          o
      → Rebuilds (ends_of edges) st (and_then o (λ _. delete_identities))
  unfolding delete_identities
  after_rows R classes (returned y, u) p =
      (rebuilt-Grouped pairs edges subject target involved st x R classes u p, p.candidates)
  after_rows R classes (raised y, u) p = p
  after_rows R classes (unfinished, u) p = p

  collected : Collected (ends_of (kept involved edges)) (involved_components (kept involved edges))
  unfolding involved_components
  collected =
      components_of-Collected (suc (length (kept involved edges))) (ends_of (kept involved edges))
        (omega (arith, length-ends_of (kept involved edges)))

  -- Roots that the same component has connect its accounts.
  roots_connect :
      (R : ℕ → ℕ)
      → Classes (ends_of (kept involved edges)) R
      → (a b : ℕ) → R a ≡ R b
      → Connected (ends_of edges) a b
  roots_connect R classes a b h =
      Connected-mono (λ u v m. (kept_touched involved edges u v m).0)
        (join (classes.linked a) (
          subst (λ r. Connected (ends_of (kept involved edges)) r b) (sym h)
            (back (classes.linked b))))

  pub rebuild_involved-Rebuilds :
      Rebuilds
        (ends_of edges)
        st
        (rebuild_involved edges (old_members subject target st.members) involved st)
  unfolding rebuild_involved ◌>>=◌ delete_members
  rebuild_involved-Rebuilds =
      let c = collected in
      let rows =
        insert_components-Places (Connected (ends_of edges)) (old_members subject target st.members)
          c.roots (kept involved edges) [] (components c.roots (kept involved edges))
          (cleared involved st) (roots_connect c.roots c.classes)
          (components-IsGrouped c.roots (kept involved edges))
          (λ a h. sym (in_components-end c.roots (kept involved edges) a) ∙ h)
          (start-Placing pairs edges subject target involved st x c.roots c.classes) in
      subst
        (λ (o : Outcome Exception (List (ℕ × List ℕ))). Rebuilds (ends_of edges) st (
          and_then (o, cleared involved st)
            (λ cs.
              insert_components (kept involved edges) (old_members subject target st.members) [] cs
              >>= λ _. delete_identities)))
        (sym c.result) (after_rows c.roots c.classes _ rows)

-- The involved accounts that the loop finds.
Closed-Rebuilds :
    (pairs : List (ℕ × ℕ)) (edges : List Edge) (subject : ℕ) (target : Option ℕ) (st : Tables)
    (o : Outcome Exception (List ℕ))
    → Grouped pairs st.members st.identities
    → Lessens pairs (ends_of edges) subject target
    → Closed edges (first_involved subject target st.members) o
    → Rebuilds
        (ends_of edges)
        st
        (and_then (o, st) (rebuild_involved edges (old_members subject target st.members)))
Closed-Rebuilds pairs edges subject target st (returned involved) g l c =
    rebuild_involved-Rebuilds pairs edges subject target involved st (record {
      grouped = g;
      lessens = l;
      settled = c.1;
      encloses = record {
        has_subject = c.0 subject (subject_involved subject target st.members);
        has_target = λ t e. c.0 t (target_involved subject target st.members t e);
        closed = λ u v m. same_side involved edges u v c.1 m;
      };
      all_involved = λ a i h k. c.0 a (member_involved subject target st.members a i h k);
    })
Closed-Rebuilds pairs edges subject target st (raised y) g l c = absurd c
Closed-Rebuilds pairs edges subject target st unfinished g l c = absurd c

-- Where the identities are the classes of pairs, and the confirmed candidates that there are now have
-- these pairs or these without the pair of both accounts, `rebuild_identity_component` returns, and
-- the identities are then the classes of the pairs of these candidates.
pub rebuild_identity_component-Rebuilds :
    (pairs : List (ℕ × ℕ)) (subject : ℕ) (target : Option ℕ) (st : Tables)
    → Grouped pairs st.members st.identities
    → Lessens pairs
        (ends_of (edges_of st.account_candidates.decisions st.account_candidates.candidates))
        subject
        target
    → Rebuilds
        (ends_of (edges_of st.account_candidates.decisions st.account_candidates.candidates))
        st
        (rebuild_identity_component subject target st)
unfolding rebuild_identity_component ◌>>=◌
rebuild_identity_component-Rebuilds pairs subject target st g l =
    let edges = edges_of st.account_candidates.decisions st.account_candidates.candidates in
    Closed-Rebuilds pairs edges subject target st
      (close_over (suc (length edges)) edges (first_involved subject target st.members)) g l
      (close_over-Closed edges (first_involved subject target st.members))
