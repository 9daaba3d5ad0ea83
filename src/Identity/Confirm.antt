-- ===== src/Identity/Confirm.antt =====
-- discovery/review.py: `confirm_identity`.
use data_processing.Prelude.{
  ℕ, suc, Option, none, some, List, [], ◌∷◌, ◌++◌, map, Bool, false, ◌&&◌, not, str_eq, ◌==◌,
  if◌then◌else◌,
}
use data_processing.Effect.{returned, raised, pure, raise, ◌>>=◌, ◌>>◌}
use data_processing.RemoteSync.Types.{value_error, other}
use data_processing.Persistence.Tables.{find, update}
use data_processing.Identity.{
  AccountEnds, AccountRow, Candidate, Change, Member, Reference, identity_of, is_candidate, new_id,
}

unfoldable pub is_reference : ℕ → Reference → Bool
is_reference id row = row.platform_reference_id == id

-- `WHERE platform_id = ? AND native_account_id = ?`
unfoldable pub is_account : Reference → AccountRow → Bool
is_account reference row =
    row.platform_id == reference.platform_id
    && str_eq row.native_account_id reference.native_identifier

unfoldable pub target_row : Reference → ℕ → AccountRow
target_row reference id = record {
  account_id = id;
  platform_id = reference.platform_id;
  native_account_id = reference.native_identifier;
  canonical_url = some reference.canonical_target_url;
  availability = "unknown";
}

-- `INSERT INTO accounts ... ON CONFLICT DO NOTHING`, and the id of the account after it.
unfoldable pub insert_account : Reference → Change ℕ
unfolding target_row find is_account new_id
insert_account reference s = elim (find (is_account reference) s.accounts) [
  | some row ↦ (returned row.account_id, s)
  | none ↦
      let id = new_id (map (λ (r : AccountRow). r.account_id) s.accounts) in
      (returned id, record s { accounts = s.accounts ++ target_row reference id ∷ [] })
]

-- The target becomes the account, in the reference and in the candidate. A candidate whose target is
-- its subject fails a check of the table.
unfoldable pub resolve_target : Candidate AccountEnds → ℕ → ℕ → Change (Unit {0})
unfolding update is_reference is_candidate
resolve_target candidate reference_id target s =
    if candidate.ends.subject_account_id == target then (raised (other "IntegrityError"), s) else (
      returned tt,
      record s {
        references =
            update (is_reference reference_id) (λ r. record r { resolved_account_id = some target })
              s.references;
        account_candidates = record s.account_candidates {
          candidates =
              update (is_candidate candidate.candidate_id)
                (λ c. record c {
                  ends = record c.ends {
                    target_account_id = some target;
                    target_reference_id = none;
                  };
                })
                s.account_candidates.candidates;
        };
      },
    )

unfoldable pub reference_found : Candidate AccountEnds → ℕ → Option Reference → Change ℕ
unfolding ◌>>=◌ insert_account resolve_target
reference_found candidate reference_id none =
    raise (value_error "account candidate has no compatible target")
reference_found candidate reference_id (some reference) =
    if str_eq reference.object_kind "account"
    then if str_eq reference.identifier_kind "stable_id"
      then (do
        target ← insert_account reference
        resolve_target candidate reference_id target
        pure target)
      else raise (value_error "target account reference does not expose a stable native ID")
    else raise (value_error "account candidate has no compatible target")

-- The reference with its platform, which a foreign key lets exist.
unfoldable pub reference_of : Option ℕ → List Reference → Option Reference
unfolding find is_reference
reference_of none rows = none
reference_of (some id) rows = find (is_reference id) rows

-- The account that the candidate has as its target, or the one that its reference stands for.
unfoldable pub target_from : Candidate AccountEnds → Option ℕ → Option ℕ → Change ℕ
unfolding reference_found reference_of
target_from candidate (some target) reference_id s = (returned target, s)
target_from candidate none (some id) s =
    reference_found candidate id (reference_of (some id) s.references) s
target_from candidate none none s =
    (raised (value_error "account candidate has no compatible target"), s)

unfoldable pub target_of : Candidate AccountEnds → Change ℕ
unfolding target_from
target_of candidate =
    target_from candidate candidate.ends.target_account_id candidate.ends.target_reference_id

-- `a or b`, where 0 counts as nothing.
unfoldable pub or_else : Option ℕ → Option ℕ → Option ℕ
or_else (some (suc n)) b = some (suc n)
or_else _ b = b

-- Whether both accounts have an identity, and not the same one.
unfoldable pub conflict : Option ℕ → Option ℕ → Bool
conflict (some a) (some b) = not (a == b)
conflict _ _ = false

unfoldable pub identity_for : Option ℕ → Change ℕ
unfolding new_id
identity_for (some id) s = (returned id, s)
identity_for none s = (
  returned (new_id s.identities),
  record s { identities = s.identities ++ new_id s.identities ∷ [] },
)

-- `INSERT ... ON CONFLICT(account_id) DO NOTHING`
unfoldable pub add_member : Member → List Member → List Member
unfolding identity_of
add_member row rows = elim (identity_of row.account_id rows) [
  | some id ↦ rows
  | none ↦ rows ++ row ∷ []
]

unfoldable pub insert_member : Member → Change (Unit {0})
unfolding add_member
insert_member row s = (returned tt, record s { members = add_member row s.members })

unfoldable pub member_row : ℕ → ℕ → ℕ → ℕ → Member
member_row identity account candidate_id decision_id = record {
  identity_id = identity;
  account_id = account;
  account_candidate_id = candidate_id;
  decision_id = some decision_id;
}

-- `confirm_identity`, once the target is known.
unfoldable pub join_identity : ℕ → ℕ → ℕ → ℕ → Change ℕ
unfolding ◌>>=◌ conflict or_else identity_for insert_member member_row identity_of
join_identity subject target candidate_id decision_id s =
    if conflict (identity_of subject s.members) (identity_of target s.members)
    then (
      raised (value_error "identity conflict: accounts already belong to different identities"),
      s,
    )
    else (do
      identity ←
          identity_for (or_else (identity_of subject s.members) (identity_of target s.members))
      insert_member (member_row identity subject candidate_id decision_id)
      insert_member (member_row identity target candidate_id decision_id)
      pure identity)
        s

unfoldable pub confirm_identity : Candidate AccountEnds → ℕ → Change ℕ
unfolding ◌>>=◌ target_of join_identity
confirm_identity candidate decision_id = do
  target ← target_of candidate
  join_identity candidate.ends.subject_account_id target candidate.candidate_id decision_id
