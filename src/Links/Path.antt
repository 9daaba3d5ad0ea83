-- ===== src/Links/Path.antt =====
-- The path of a URL, as the resolver reads it.
use Prim.Native.String.append
use Prim.Native.Char.{Char, char, code}
use data_processing.Prelude.{
  String, Bool, true, false, ◌||◌, List, [], ◌∷◌, ◌==◌, str_eq, if◌then◌else◌, ◌<>◌, ◌≡◌, refl, ap,
  ◌∙◌, All, arith,
}

cons_head : Char → List String → List String
cons_head c [] = String.◌∷◌ c "" ∷ []
cons_head c (p ∷ ps) = String.◌∷◌ c p ∷ ps

-- `path.split("/")`
unfoldable pub pieces : String → List String
unfolding cons_head
pieces String.[] = "" ∷ []
pieces (String.◌∷◌ c s) = if code c == 47 then "" ∷ pieces s else cons_head c (pieces s)

unfoldable pub non_empty : List String → List String
non_empty [] = []
non_empty (p ∷ ps) = if str_eq p "" then non_empty ps else p ∷ non_empty ps

-- The segments that are not empty.
unfoldable pub path_segments : String → List String
unfolding pieces non_empty
path_segments path = non_empty (pieces path)

is_any : List String → String → Bool
is_any [] s = false
is_any (w ∷ ws) s = str_eq s w || is_any ws s

-- `[segment for segment in path if segment not in words]`
unfoldable pub without : List String → List String → List String
unfolding is_any
without words [] = []
without words (s ∷ rest) = if is_any words s then without words rest else s ∷ without words rest

-- A text without a slash.
unfoldable pub no_slash : String → Bool
no_slash String.[] = true
no_slash (String.◌∷◌ c s) = if code c == 47 then false else no_slash s

unfoldable pub is_segment : String → Bool
unfolding no_slash
is_segment s = if str_eq s "" then false else no_slash s

-- The path of these segments, as a canonical URL has it.
unfoldable pub path_text : List String → String
path_text [] = ""
path_text (p ∷ ps) = "/" <> (p <> path_text ps)

pieces-segment :
    (p s : String) (ps : List String)
    → no_slash p ≡ true
    → pieces s ≡ "" ∷ ps
    → pieces (p <> s) ≡ p ∷ ps
unfolding pieces no_slash
pieces-segment String.[] s ps h e = ap pieces (append.nil s) ∙ e
pieces-segment (String.◌∷◌ c p) s ps h e =
    ap pieces (append.cons c p s) ∙ ground (arith, pieces-segment p s ps (ground arith) e)

abbrev slash_char : Char
slash_char = char 47 tt

slash : (s : String) → "/" <> s ≡ String.◌∷◌ slash_char s
slash s = append.cons (char 47 tt) "" s ∙ ap (String.◌∷◌ (char 47 tt)) (append.nil s)

pieces-path_text :
    (ps : List String) → All (λ p. is_segment p ≡ true) ps → pieces (path_text ps) ≡ "" ∷ ps
unfolding pieces is_segment path_text
pieces-path_text [] h = refl
pieces-path_text (p ∷ ps) h =
    ap pieces (slash (p <> path_text ps))
    ∙ ap (λ l. "" ∷ l)
        (pieces-segment p (path_text ps) ps (ground (arith, h.0)) (pieces-path_text ps h.1))

non_empty-segments : (ps : List String) → All (λ p. is_segment p ≡ true) ps → non_empty ps ≡ ps
unfolding non_empty is_segment
non_empty-segments [] h = refl
non_empty-segments (p ∷ ps) h = ground (arith, h.0, non_empty-segments ps h.1)

-- The segments of a path are read back from its text.
pub path_segments-path_text :
    (ps : List String) → All (λ p. is_segment p ≡ true) ps → path_segments (path_text ps) ≡ ps
unfolding path_segments non_empty
path_segments-path_text ps h = ap non_empty (pieces-path_text ps h) ∙ non_empty-segments ps h
