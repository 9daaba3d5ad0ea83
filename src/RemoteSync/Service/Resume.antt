-- ===== src/RemoteSync/Service/Resume.antt =====
-- What a run may be resumed from.
use data_processing.Prelude.{
  ℕ, String, Option, none, some, List, Bool, ◌&&◌, true, ◌≡◌, ◌≢◌, ◌⊎◌, ◌==◌, refl, sym, ap, ◌∙◌,
  str_eq, eq_iff, arith, ==_iff,
}
use data_processing.Effect.{Outcome, returned}
use data_processing.RemoteSync.Types.{Exception, AdapterOperation, Continuation}
use data_processing.RemoteSync.Stored.{from_json}
use data_processing.RemoteSync.Service.Sync.{
  Service, some_continuation, may_resume, is_compatible, is_of_run, last_of_run, resume_from,
  resume_continuation,
}
use data_processing.Persistence.Tables.{
  Db, RunRow, CheckpointRow, Finish, complete, paused, find, same_operation, operation_code,
  same_transport,
}
use data_processing.Persistence.Runs.{is_run, platform_id}
use data_processing.Persistence.Rows.{find-holds}
use data_processing.Persistence.Last.{IsIn, IsLast, find-IsIn, find-reverse-IsLast, IsLast-weaken}

all_true :
    (a b c d e f g : Bool)
    → (a && b && c && d && e && f && g) ≡ true
    → (a ≡ true) × (b ≡ true) × (c ≡ true) × (d ≡ true) × (e ≡ true) × (f ≡ true) × (g ≡ true)
all_true a b c d e f g h = ground arith

abbrev pub HasEnded : Option Finish → Type 0
HasEnded none = ⊥
HasEnded (some f) = (f.status ≡ complete) ⊎ (f.status ≡ paused)

module _ {C : Type 0} (service : Service C) where
  -- The run has ended and not failed, and it asked the same of the same adapter, for the same platform
  -- and over the same transport, over which the checkpoint was made too.
  pub record IsResumable (platforms : List (String × ℕ)) (run : RunRow) (row : CheckpointRow)
      : Type 0 where
    pub ended : HasEnded run.finish
    pub same_platform : platform_id service.adapter.instance_key platforms ≡ some run.platform_id
    pub same_target : run.declared.target ≡ service.target
    pub same_operation : run.declared.operation ≡ service.operation
    pub same_version : run.declared.adapter_version ≡ service.adapter.adapter_version
    pub same_schema : run.declared.schema_version ≡ service.adapter.schema_version
    pub same_transport : run.declared.transport ≡ service.adapter.transport_identity
    pub checkpoint_transport : row.saved.transport ≡ service.adapter.transport_identity

  code_operation : (a b : AdapterOperation) → operation_code a ≡ operation_code b → a ≡ b
  unfolding operation_code
  code_operation a b h = ground arith

  equal_transport : (a b : Option (String × String)) → same_transport a b ≡ true → a ≡ b
  unfolding same_transport
  equal_transport none none h = refl
  equal_transport (some (a, b)) (some (c, d)) h = ground (arith, h, (eq_iff a c).0, (eq_iff b d).0)
  equal_transport none (some d) h = absurd (ground (arith, h))
  equal_transport (some a) none h = absurd (ground (arith, h))

  -- The continuation is read from the last checkpoint of the run with this id, which may be resumed.
  abbrev pub Taken : ℕ → Continuation → Db C → Type 0
  Taken parent c db =
      (run : RunRow) × (row : CheckpointRow) × IsIn run db.runs
      × (run.run_id ≡ parent)
      × IsLast (λ r. r.saved.remote_run_id ≡ parent) row db.checkpoints
      × (from_json service.json row.saved.continuation_json ≡ returned c)
      × IsResumable db.platforms run row

  no_platform :
      (c : Continuation) (run : RunRow) (row : CheckpointRow)
      → resume_from service (some run) (some row) none ≢ returned (some c)
  unfolding resume_from
  no_platform c run row = ground arith

  no_row :
      (c : Continuation) (run : RunRow) (platform : Option ℕ)
      → resume_from service (some run) none platform ≢ returned (some c)
  unfolding resume_from
  no_row c run platform = ground arith

  no_run :
      (c : Continuation) (row : Option CheckpointRow) (platform : Option ℕ)
      → resume_from service none row platform ≢ returned (some c)
  unfolding resume_from
  no_run c row platform = ground arith

  read_one :
      (c : Continuation) (o : Outcome Exception Continuation)
      → some_continuation service o ≡ returned (some c)
      → o ≡ returned c
  unfolding some_continuation
  read_one c o h = ground arith

  -- The tests of `_resume_continuation`, one after the other.
  resume_from-passed :
      (c : Continuation) (run : RunRow) (row : CheckpointRow) (id : ℕ)
      → resume_from service (some run) (some row) (some id) ≡ returned (some c)
      → (may_resume service run.finish ≡ true)
        × (is_compatible service run row (some id) ≡ true)
        × (from_json service.json row.saved.continuation_json ≡ returned c)
  unfolding resume_from
  resume_from-passed c run row id h =
      let read : some_continuation service (from_json service.json row.saved.continuation_json)
          ≡ returned (some c) =
        ground arith in
      (
        ground arith,
        ground arith,
        read_one c (from_json service.json row.saved.continuation_json) read,
      )

  may_resume-HasEnded : (f : Option Finish) → may_resume service f ≡ true → HasEnded f
  unfolding may_resume
  may_resume-HasEnded f h = ground arith

  is_compatible-parts :
      (run : RunRow) (row : CheckpointRow) (id : ℕ)
      → is_compatible service run row (some id) ≡ true
      → ((run.platform_id == id) ≡ true)
        × (same_operation run.declared.operation service.operation ≡ true)
        × (str_eq run.declared.target service.target ≡ true)
        × (str_eq run.declared.adapter_version service.adapter.adapter_version ≡ true)
        × (str_eq run.declared.schema_version service.adapter.schema_version ≡ true)
        × (same_transport run.declared.transport service.adapter.transport_identity ≡ true)
        × (same_transport row.saved.transport service.adapter.transport_identity ≡ true)
  unfolding is_compatible
  is_compatible-parts run row id h =
      all_true (run.platform_id == id) (same_operation run.declared.operation service.operation)
        (str_eq run.declared.target service.target)
        (str_eq run.declared.adapter_version service.adapter.adapter_version)
        (str_eq run.declared.schema_version service.adapter.schema_version)
        (same_transport run.declared.transport service.adapter.transport_identity)
        (same_transport row.saved.transport service.adapter.transport_identity) h

  compatible-IsResumable :
      (platforms : List (String × ℕ)) (run : RunRow) (row : CheckpointRow) (id : ℕ)
      → platform_id service.adapter.instance_key platforms ≡ some id
      → may_resume service run.finish ≡ true
      → is_compatible service run row (some id) ≡ true
      → IsResumable platforms run row
  unfolding same_operation
  compatible-IsResumable platforms run row id known e h =
      let parts = is_compatible-parts run row id h in
      let adapter = service.adapter in
      record {
        ended = may_resume-HasEnded run.finish e;
        same_platform = known ∙ ap some (sym ((==_iff _ _).0 parts.0));
        same_operation =
            code_operation run.declared.operation service.operation ((==_iff _ _).0 parts.1);
        same_target = (eq_iff run.declared.target service.target).0 parts.2;
        same_version = (eq_iff run.declared.adapter_version adapter.adapter_version).0 parts.3;
        same_schema = (eq_iff run.declared.schema_version adapter.schema_version).0 parts.4;
        same_transport = equal_transport run.declared.transport adapter.transport_identity parts.5;
        checkpoint_transport =
            equal_transport row.saved.transport adapter.transport_identity parts.6;
      }

  -- What the last checkpoint of the code is.
  last_of_run-IsLast :
      (parent : ℕ) (rows : List CheckpointRow) (row : CheckpointRow)
      → last_of_run service parent rows ≡ some row
      → IsLast (λ r. r.saved.remote_run_id ≡ parent) row rows
  unfolding last_of_run is_of_run
  last_of_run-IsLast parent rows row h =
      IsLast-weaken (λ r. is_of_run service parent r ≡ true) (λ r. r.saved.remote_run_id ≡ parent)
        row rows (λ r. (==_iff r.saved.remote_run_id parent).0)
        (λ r. (==_iff r.saved.remote_run_id parent).1)
        (find-reverse-IsLast (is_of_run service parent) rows row h)

  found_run :
      (parent : ℕ) (run : RunRow) (rows : List RunRow)
      → find (is_run parent) rows ≡ some run
      → run.run_id ≡ parent
  unfolding is_run
  found_run parent run rows h = (==_iff run.run_id parent).0 (find-holds (is_run parent) rows run h)

  resume_from-Taken :
      (parent : ℕ) (c : Continuation) (db : Db C) (run : Option RunRow) (row : Option CheckpointRow)
      (platform : Option ℕ)
      → find (is_run parent) db.runs ≡ run
      → last_of_run service parent db.checkpoints ≡ row
      → platform_id service.adapter.instance_key db.platforms ≡ platform
      → resume_from service run row platform ≡ returned (some c)
      → Taken parent c db
  resume_from-Taken parent c db (some run) (some row) (some id) f l k h =
      let p = resume_from-passed c run row id h in
      (
        run,
        row,
        find-IsIn (is_run parent) db.runs run f,
        found_run parent run db.runs f,
        last_of_run-IsLast parent db.checkpoints row l,
        p.2,
        compatible-IsResumable db.platforms run row id k p.0 p.1,
      )
  resume_from-Taken parent c db (some run) (some row) none f l k h =
      absurd (no_platform c run row h)
  resume_from-Taken parent c db (some run) none platform f l k h = absurd (no_row c run platform h)
  resume_from-Taken parent c db none row platform f l k h = absurd (no_run c row platform h)

  -- A continuation with which a run is resumed is what is read from the text of the last checkpoint in the
  -- table that belongs to the run that was named. That run is in its table, has ended and not failed, and has this target,
  -- operation, adapter version and schema version, the adapter's platform and its transport; the
  -- checkpoint has this transport too.
  pub resume-Taken :
      (parent : ℕ) (c : Continuation) (db : Db C)
      → resume_continuation service (some parent) db ≡ (returned (some c), db)
      → Taken parent c db
  unfolding resume_continuation
  resume-Taken parent c db h = resume_from-Taken parent c db _ _ _ refl refl refl (ap (λ r. r.0) h)
