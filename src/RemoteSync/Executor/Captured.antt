-- ===== src/RemoteSync/Executor/Captured.antt =====
-- The response that the gate returns is found among the captured ones.
use data_processing.Prelude.{ℕ, ◌≡◌, some, List, [], ◌∷◌, ◌++◌, arith}
use data_processing.RemoteSync.Types.{ResponseEnvelope}
use data_processing.RemoteSync.Executor.{find_captured}

-- The last entry of a captured list is the one that is found for its object.
pub find_captured-append_last :
    (response : ResponseEnvelope) (raw_id : ℕ) (captured : List (ResponseEnvelope × ℕ))
    → find_captured response.object (captured ++ (response, raw_id) ∷ []) ≡ some raw_id
unfolding find_captured
find_captured-append_last response raw_id [] = ground arith
find_captured-append_last response raw_id ((r, i) ∷ rest) =
    rw (find_captured-append_last response raw_id rest)
