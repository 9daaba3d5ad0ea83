-- ===== src/Prelude/Text.antt =====
-- Text: the first characters of a string.
use Prim.Native.Nat.{ℕ, zero, suc}
use Prim.Native.String.{String, ◌∷◌}

-- `s[:n]`
unfoldable pub first_chars : ℕ → String → String
first_chars zero s = ""
first_chars (suc n) String.[] = ""
first_chars (suc n) (c ∷ s) = c ∷ first_chars n s
