-- ===== src/RemoteSync/Service/Keeps.antt =====
-- The callbacks of the service leave the runs of the catalog alone, and are such as the executor
-- relies on.
use data_processing.Prelude.{
  ◌≤◌, ℕ, ◌+◌, ◌≡◌, refl, sym, subst, ◌≢◌, Option, none, some, List, String, arith,
}
use data_processing.Effect.{Outcome, returned, raised, unfinished, Answer, of_outcome}
use data_processing.Effect.Triple.{Post, Triple, Triple-bind, Triple-bind_weak, Triple-weaken}
use data_processing.RemoteSync.Types.{
  Exception, AdapterOperation, Continuation, ResponseEnvelope, record_count,
}
use data_processing.RemoteSync.Session.{BudgetTracker, Session, Run}
use data_processing.RemoteSync.Budget
use data_processing.RemoteSync.Budget.Admission.{IsWithin}
use data_processing.RemoteSync.Gate.{GateSettings}
use data_processing.RemoteSync.Gate.Sound.{Sound}
use data_processing.RemoteSync.Executor.{RetainedPage}
use data_processing.RemoteSync.Executor.Contract.{count_page, CallsKeep}
use data_processing.RemoteSync.Service.{
  Origin, on_catalog, on_origin, on_store, transaction, write_transaction, operation_object_kind,
}
use data_processing.RemoteSync.Service.Sync.{
  Service, write_response, retain_response, record_origin, save_position, save_checkpoint,
  commit_body, commit_page, calls_of,
}
use data_processing.Persistence.Tables.{
  Db, RunRow, RawRecord, RemoteRequestRecord, RemoteCheckpointRecord,
}
use data_processing.Persistence.Runs.{
  Write, validate_request, record_remote_request, save_remote_checkpoint,
}
use data_processing.Persistence.Raw.{Anchor, store_raw}

validate_request-ends : (r : RemoteRequestRecord) → validate_request r ≢ unfinished
unfolding validate_request
validate_request-ends r = ground arith

operation_object_kind-ends : (o : AdapterOperation) → operation_object_kind o ≢ unfinished
unfolding operation_object_kind
operation_object_kind-ends o = ground arith

module _ {C : Type 0} (runs : List RunRow) where
  abbrev pub Same : Db C → Type 0
  Same db = db.runs ≡ runs

  -- A write that keeps the runs, whether it returns or raises.
  abbrev Keeps : {A : Type 0} → Write C A → Type 0
  Keeps m = Triple Same m (λ _. Same) (λ _. Same)

  outcome-Keeps : {A : Type 0} (o : Outcome Exception A) → o ≢ unfinished → Keeps (of_outcome o)
  outcome-Keeps (returned a) h = record { at = λ db p. p }
  outcome-Keeps (raised e) h = record { at = λ db p. p }
  outcome-Keeps unfinished h = absurd (h refl)

  store_raw-Keeps :
      (sha256 : List ℕ → String) (r : RawRecord) (a : Anchor) → Keeps (store_raw sha256 r a)
  unfolding store_raw
  store_raw-Keeps sha256 r a = record { at = λ db h. ground arith }

  request-Keeps : (r : RemoteRequestRecord) → Keeps (record_remote_request r)
  unfolding record_remote_request
  request-Keeps r = record { at = λ db h. ground arith }

  catalog-Keeps : (f : C → Answer Exception (Unit {0}) × C) → Keeps (on_catalog f)
  unfolding on_catalog
  catalog-Keeps f = record { at = λ db h. ground arith }

  origin-Keeps :
      (o : Option (Origin C)) (hook : Origin C → C → Answer Exception (Unit {0}) × C)
      → Keeps (on_origin o hook)
  unfolding on_origin
  origin-Keeps none hook = record { at = λ db h. h }
  origin-Keeps (some o) hook = catalog-Keeps (hook o)

  checkpoint-Keeps : (c : RemoteCheckpointRecord) → Keeps (save_remote_checkpoint c)
  unfolding save_remote_checkpoint
  checkpoint-Keeps c = record { at = λ db h. ground arith }

  transaction-Keeps : {A : Type 0} (m : Write C A) → Keeps m → Keeps (write_transaction m)
  unfolding write_transaction
  transaction-Keeps m k = record { at = λ db h. ground (arith, k.at db h) }

  module _ (service : Service C) where
    write_response-Keeps :
        (run_id attempt : ℕ) (response : ResponseEnvelope)
        → Keeps (write_response service run_id attempt response)
    unfolding write_response
    write_response-Keeps run_id attempt response =
        Triple-bind _ _ (outcome-Keeps _ (validate_request-ends _)) λ checked.
          Triple-bind _ _ (request-Keeps checked) λ request_id.
            Triple-bind _ _ (outcome-Keeps _ (operation_object_kind-ends _))
              λ kind. store_raw-Keeps _ _ _

    pub retain_response-Keeps :
        (run_id attempt : ℕ) (response : ResponseEnvelope)
        → Keeps (retain_response service run_id response attempt)
    unfolding retain_response
    retain_response-Keeps run_id attempt response = record {
      at = λ db h.
          ground
            (arith, (transaction-Keeps _ (write_response-Keeps run_id attempt response)).at db h);
    }

    -- The budget of the session while a page is committed.
    abbrev pub Committing : ℕ → BudgetTracker → Session (Db C) → Type 0
    Committing gap b s = Sound gap (λ _ db. Same db) s × IsWithin s.budget × (s.budget ≡ b)

    on_store-Committing :
        {A : Type 0} (gap : ℕ) (b : BudgetTracker) (m : Write C A)
        → Keeps m
        → Triple (Committing gap b) (on_store m) (λ _. Committing gap b) (λ _. Committing gap b)
    unfolding on_store
    on_store-Committing gap b m k = record { at = λ s h. ground (arith, k.at s.store h.0.stored) }

    save_position-Committing :
        (gap : ℕ) (b : BudgetTracker) (run_id : ℕ) (page : RetainedPage) (c : Option Continuation)
        → Triple
            (Committing gap b)
            (save_position service run_id page c)
            (λ _. Committing gap b)
            (λ _. Committing gap b)
    unfolding save_position
    save_position-Committing gap b run_id page none = record { at = λ s h. h }
    save_position-Committing gap b run_id page (some c) = record {
      at = λ s h.
          (Triple-bind _ _ (on_store-Committing gap b _ (checkpoint-Keeps _))
              (λ _. record { at = λ s' h'. h' })).at
            s h;
    }

    counted-Committing :
        (gap : ℕ) (b : BudgetTracker) (n : ℕ)
        → Triple
            (Committing gap b)
            (Budget.commit_page n)
            (λ _. Committing gap (count_page b n))
            (λ _. Committing gap b)
    unfolding Budget.commit_page
    counted-Committing gap b n = record { at = λ s h. ground arith }

    -- A commit that raises after the page is counted keeps the count, and none of the tables.
    abbrev pub Refused : ℕ → BudgetTracker → Session (Db C) → Type 0
    Refused gap b s =
        Sound gap (λ _ db. Same db) s
        × IsWithin s.budget
        × (s.requests ≡ b.requests)
        × (s.limits ≡ b.limits)
        × (s.pages ≤ b.pages + 1)

    not_counted :
        (gap : ℕ) (b : BudgetTracker) (s : Session (Db C)) → Committing gap b s → Refused gap b s
    not_counted gap b s h = (h.0, h.1, ground arith, ground arith, ground arith)

    commit_body-Committing :
        (gap : ℕ) (b : BudgetTracker) (run_id : ℕ) (page : RetainedPage)
        → Triple
            (Committing gap b)
            (commit_body service run_id page)
            (λ _. Committing gap (count_page b (record_count page.page)))
            (λ _. Refused gap b)
    unfolding commit_body save_checkpoint record_origin
    commit_body-Committing gap b run_id page =
        Triple-bind_weak _ _ (on_store-Committing gap b _ (catalog-Keeps _))
          (λ e s. not_counted gap b s)
          λ _.
            Triple-bind_weak _ _ (on_store-Committing gap b _ (origin-Keeps _ _))
              (λ e s. not_counted gap b s)
              λ _.
                Triple-bind_weak _ _ (counted-Committing gap b (record_count page.page))
                  (λ e s. not_counted gap b s)
                  λ _.
                    Triple-weaken (λ s p. p) (λ a s q. q)
                      (λ e s h. (h.0, h.1, ground arith, ground arith, ground arith))
                      (save_position-Committing gap (count_page b (record_count page.page)) run_id
                        page page.page.continuation)

    roll_back-Committing :
        {A : Type 0} (gap : ℕ) (b b' : BudgetTracker) (m : Run (Db C) A)
        → Triple (Committing gap b) m (λ _. Committing gap b') (λ _. Refused gap b)
        → Triple (Committing gap b) (transaction m) (λ _. Committing gap b') (λ _. Refused gap b)
    unfolding transaction
    roll_back-Committing gap b b' m t = record { at = λ s h. ground (arith, t.at s h) }

    pub calls-CallsKeep :
        (gate : GateSettings) (run_id : ℕ)
        → CallsKeep (λ _ db. Same db) (λ _ _ _. Unit) gate (calls_of service run_id)
    unfolding calls_of commit_page
    calls-CallsKeep gate run_id = record {
      mono = λ n db h. h;
      retains = λ response n db h.
          ground (arith, (retain_response-Keeps run_id (n + 1) response).at db h);
      commits = λ b page.
          Triple-weaken (λ s h. (h.0, subst (λ t. IsWithin t) (sym h.1) h.2, h.1))
            (λ a s q. (q.0, q.2, q.1)) (λ e s q. q)
            (roll_back-Committing gate.minimum_interval_seconds b
              (count_page b (record_count page.page)) (commit_body service run_id page)
              (commit_body-Committing gate.minimum_interval_seconds b run_id page));
    }

    -- From a session that is sound and within the budget `b`, `commit_page` ends. If it returns, it has
    -- counted one page with its records within the limits; if it raises, it has charged no request and
    -- is still within the limits. The runs of the catalog are as before in both cases.
    pub commit_page-counts :
        (gap : ℕ) (b : BudgetTracker) (run_id : ℕ) (page : RetainedPage) (s : Session (Db C))
        → Committing gap b s
        → Post
            (λ _. Committing gap (count_page b (record_count page.page)))
            (λ _. Refused gap b)
            (commit_page service run_id page s)
    unfolding commit_page
    commit_page-counts gap b run_id page s h =
        (roll_back-Committing gap b (count_page b (record_count page.page))
            (commit_body service run_id page) (commit_body-Committing gap b run_id page)).at
          s h
