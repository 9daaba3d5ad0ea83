-- ===== src/Persistence/Raw.antt =====
-- persistence/remote.py: `store_raw`, which retains the bytes of a response once for each digest, and
-- an observation of them for each import run, remote request, or source.
use data_processing.Prelude.{
  ℕ, suc, String, Option, none, some, List, [], ◌∷◌, ◌++◌, Bool, true, false, not, ◌&&◌, ◌||◌,
  length, str_eq, ◌==◌, if◌then◌else◌,
}
use data_processing.Effect.{Outcome, returned, raised, pure, of_outcome, ◌>>=◌, ◌>>◌}
use data_processing.RemoteSync.Types.{Exception, value_error, other}
use data_processing.Persistence.Tables.{
  Db, RequestRow, RawRecord, PayloadRow, RawRow, find, update, same_transport, same_text, same_id,
}
use data_processing.Persistence.Runs.{Write, platform_id}

-- The ids that anchor an observation: an import run, or a remote run with one of its requests.
pub record Anchor : Type 0 where
  pub import_run_id : Option ℕ
  pub remote_run_id : Option ℕ
  pub remote_request_id : Option ℕ

is_some_id : Option ℕ → Bool
is_some_id none = false
is_some_id (some n) = true

-- The first two guards.
unfoldable pub check_anchor : Anchor → Outcome Exception (Unit {0})
unfolding is_some_id
check_anchor a =
    if is_some_id a.import_run_id && is_some_id a.remote_run_id
    then raised (value_error "raw observation cannot belong to import and remote runs")
    else if is_some_id a.remote_run_id
    then if is_some_id a.remote_request_id
      then returned tt
      else raised (value_error "remote raw observation requires both run and request ids")
    else if is_some_id a.remote_request_id
    then raised (value_error "remote raw observation requires both run and request ids")
    else returned tt

-- The platform of the record, which must be known where there is one.
unfoldable pub record_platform : Option String → List (String × ℕ) → Outcome Exception (Option ℕ)
unfolding platform_id
record_platform none platforms = returned none
record_platform (some platform) platforms = elim (platform_id platform platforms) [
  | none ↦ raised (value_error "unknown catalog platform")
  | some id ↦ returned (some id)
]

unfoldable pub is_request : ℕ → RequestRow → Bool
is_request request_id row = row.request_id == request_id

-- The request that anchors the observation belongs to its run and has its transport.
unfoldable pub check_request :
    Anchor → Option (String × String) → List RequestRow → Outcome Exception (Unit {0})
unfolding is_request find same_id same_transport
check_request a transport requests = elim a.remote_request_id [
  | none ↦ returned tt
  | some request_id ↦ elim (find (is_request request_id) requests) [
    | none ↦ raised (value_error "remote request does not belong to the supplied run")
    | some row ↦
        if not (same_id (some row.recorded.remote_run_id) a.remote_run_id)
        then raised (value_error "remote request does not belong to the supplied run")
        else if same_transport row.recorded.transport transport
        then returned tt
        else raised (value_error "raw observation transport identity does not match its request")
  ]
]

unfoldable pub is_digest : String → PayloadRow → Bool
is_digest sha256 row = str_eq row.sha256 sha256

-- The row in which an observation with this anchor and content is looked for. An anchorless one
-- is told by its source, object and content.
unfoldable pub is_observation : Anchor → Option ℕ → String → Option String → ℕ → RawRow → Bool
unfolding same_id same_text
is_observation a platform object_kind native_id payload_id row = elim a.remote_request_id [
  | some request_id ↦ same_id row.remote_request_id (some request_id)
  | none ↦ elim a.import_run_id [
    | some import_run_id ↦
        same_id row.import_run_id (some import_run_id)
        && str_eq row.object_kind object_kind
        && same_text row.native_id native_id
        && row.payload_id == payload_id
    | none ↦
        same_id row.import_run_id none
        && same_id row.remote_run_id none
        && same_id row.remote_request_id none
        && same_id row.platform_id platform
        && str_eq row.object_kind object_kind
        && same_text row.native_id native_id
        && row.payload_id == payload_id
  ]
]

is_some_text : Option String → Bool
is_some_text none = false
is_some_text (some s) = true

-- The row with which an insertion is in conflict. For an import run a missing native id is in conflict
-- with nothing, since SQL tells any two nulls apart.
unfoldable pub is_conflict : Anchor → Option ℕ → String → Option String → ℕ → RawRow → Bool
unfolding is_observation is_some_text
is_conflict a platform object_kind native_id payload_id row = elim a.remote_request_id [
  | some request_id ↦ is_observation a platform object_kind native_id payload_id row
  | none ↦ elim a.import_run_id [
    | none ↦ is_observation a platform object_kind native_id payload_id row
    | some import_run_id ↦
        is_some_text native_id && is_observation a platform object_kind native_id payload_id row
  ]
]

-- An anchorless observation needs a source.
unfoldable pub check_source : Anchor → Option ℕ → Outcome Exception (Unit {0})
unfolding is_some_id
check_source a platform =
    if is_some_id a.remote_request_id || is_some_id a.import_run_id || is_some_id platform
    then returned tt
    else raised (value_error "anchorless raw observations require a declared source platform")

-- `sha256` is the digest of `hashlib`.
module _ {C : Type 0} (sha256 : List ℕ → String) where
  unfoldable pub keep_payload : List ℕ → Write C ℕ
  unfolding is_digest find
  keep_payload payload db = elim (find (is_digest (sha256 payload)) db.payloads) [
    | some row ↦ (returned row.payload_id, db)
    | none ↦ (
      returned (suc (length db.payloads)),
      record db {
        payloads =
            db.payloads
            ++ record {
              payload_id = suc (length db.payloads);
              sha256 = sha256 payload;
              payload = payload;
            }
              ∷ [];
      },
    )
  ]

  unfoldable pub new_raw : RawRecord → Anchor → Option ℕ → ℕ → Db C → RawRow
  new_raw r a platform payload_id db = record {
    raw_observation_id = suc (length db.raws);
    payload_id = payload_id;
    import_run_id = a.import_run_id;
    platform_id = platform;
    object_kind = r.object_kind;
    native_id = r.native_id;
    remote_run_id = a.remote_run_id;
    remote_request_id = a.remote_request_id;
  }

  unfoldable pub insert_raw : RawRecord → Anchor → Option ℕ → ℕ → Write C (Unit {0})
  unfolding is_conflict new_raw find
  insert_raw r a platform payload_id db =
      elim (find (is_conflict a platform r.object_kind r.native_id payload_id) db.raws) [
        | some row ↦ (returned tt, db)
        | none ↦
            (returned tt, record db { raws = db.raws ++ new_raw r a platform payload_id db ∷ [] })
      ]

  unfoldable pub find_raw : RawRecord → Anchor → Option ℕ → ℕ → Write C ℕ
  unfolding is_observation find
  find_raw r a platform payload_id db =
      elim (find (is_observation a platform r.object_kind r.native_id payload_id) db.raws) [
        | some row ↦ (returned row.raw_observation_id, db)
        | none ↦ (raised (other "RuntimeError"), db)
      ]

  -- The request is given the id of its observation.
  unfoldable pub link_request : Anchor → ℕ → Write C (Unit {0})
  unfolding is_request update
  link_request a raw_id db = elim a.remote_request_id [
    | none ↦ (returned tt, db)
    | some request_id ↦ (
      returned tt,
      record db {
        requests =
            update (is_request request_id) (λ row. record row { raw_observation_id = some raw_id })
              db.requests;
      },
    )
  ]

  unfoldable pub store_raw : RawRecord → Anchor → Write C ℕ
  unfolding check_anchor record_platform check_request check_source keep_payload insert_raw find_raw
      link_request ◌>>=◌
  store_raw r a db =
      (do
        of_outcome (check_anchor a)
        platform ← of_outcome (record_platform r.platform db.platforms)
        of_outcome (check_request a r.transport db.requests)
        payload_id ← keep_payload r.payload
        of_outcome (check_source a platform)
        insert_raw r a platform payload_id
        raw_id ← find_raw r a platform payload_id
        link_request a raw_id
        pure raw_id)
        db
