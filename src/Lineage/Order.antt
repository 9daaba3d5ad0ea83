-- ===== src/Lineage/Order.antt =====
-- The order of Python's tuples of a text and a number; texts are ordered by their code points.
use Prim.Native.Char.{code}
use text.Mathlib.TextEquality.{Char-path}
use data_processing.Prelude.{
  ℕ, String, Bool, true, false, ◌&&◌, ◌||◌, ◌≡◌, inl, inr, refl, sym, ◌∙◌, subst, arith, ltb, ◌==◌,
  str_eq, eq_iff, Bool-cases,
}
use data_processing.Lineage.{NodeOrder}

unfoldable pub text_before : String → String → Bool
text_before String.[] String.[] = false
text_before String.[] (String.◌∷◌ d t) = true
text_before (String.◌∷◌ c s) String.[] = false
text_before (String.◌∷◌ c s) (String.◌∷◌ d t) =
    let later = text_before s t in ltb (code c) (code d) || ((code c == code d) && later)

unfoldable pub node_before : String × ℕ → String × ℕ → Bool
unfolding text_before
node_before (k, i) (l, j) = text_before k l || (str_eq k l && ltb i j)

unfoldable pub same_node : String × ℕ → String × ℕ → Bool
same_node (k, i) (l, j) = str_eq k l && (i == j)

text_irrefl : (s : String) → text_before s s ≡ false
unfolding text_before
text_irrefl String.[] = refl
text_irrefl (String.◌∷◌ c s) = ground (arith, text_irrefl s)

text_trans :
    (s t u : String) → text_before s t ≡ true → text_before t u ≡ true → text_before s u ≡ true
unfolding text_before
text_trans String.[] String.[] u h k = absurd (ground (arith, h))
text_trans String.[] (String.◌∷◌ d t) String.[] h k = absurd (ground (arith, k))
text_trans String.[] (String.◌∷◌ d t) (String.◌∷◌ e u) h k = refl
text_trans (String.◌∷◌ c s) String.[] u h k = absurd (ground (arith, h))
text_trans (String.◌∷◌ c s) (String.◌∷◌ d t) String.[] h k = absurd (ground (arith, k))
text_trans (String.◌∷◌ c s) (String.◌∷◌ d t) (String.◌∷◌ e u) h k =
    ground (arith, h, k, text_trans s t u)

text_eq : (s t : String) → text_before s t ≡ false → text_before t s ≡ false → s ≡ t
unfolding text_before
text_eq String.[] String.[] h k = refl
text_eq String.[] (String.◌∷◌ d t) h k = absurd (ground (arith, h))
text_eq (String.◌∷◌ c s) String.[] h k = absurd (ground (arith, k))
text_eq (String.◌∷◌ c s) (String.◌∷◌ d t) h k =
    let e : code c ≡ code d = ground (arith, h, k) in
    let f : s ≡ t = text_eq s t (ground (arith, h, e)) (ground (arith, k, e)) in
    λ i. String.◌∷◌ (Char-path c d e i) (f i)

text_self : (s : String) → str_eq s s ≡ true
text_self s = (eq_iff s s).1 refl

pub node_total :
    (a b : String × ℕ) → same_node a b ≡ false → node_before a b ≡ false → node_before b a ≡ true
unfolding same_node node_before
node_total (k, i) (l, j) h g = elim (Bool-cases (text_before l k)) [
  | inl e ↦ ground (arith, e)
  | inr e ↦
      let q : k ≡ l = text_eq k l (ground (arith, g)) e in
      let t : str_eq k l ≡ true = (eq_iff k l).1 q in
      let u : str_eq l k ≡ true = (eq_iff l k).1 (sym q) in ground (arith, e, t, u, h, g)
]

pub same_node_refl : (a : String × ℕ) → same_node a a ≡ true
unfolding same_node
same_node_refl (k, i) = ground (arith, text_self k)

pub same_node_eq : (a b : String × ℕ) → same_node a b ≡ true → a ≡ b
unfolding same_node
same_node_eq (k, i) (l, j) h =
    let p : k ≡ l = (eq_iff k l).0 (ground (arith, h)) in
    let q : i ≡ j = ground (arith, h) in λ x. (p x, q x)

pub node_irrefl : (a : String × ℕ) → node_before a a ≡ false
unfolding node_before
node_irrefl (k, i) = ground (arith, text_irrefl k)

pub node_trans :
    (a b c : String × ℕ) → node_before a b ≡ true → node_before b c ≡ true → node_before a c ≡ true
unfolding node_before
node_trans (k, i) (l, j) (m, n) h g = elim (Bool-cases (str_eq k l)) [
  | inl e ↦
      let p : k ≡ l = (eq_iff k l).0 e in
      elim (Bool-cases (str_eq l m)) [
        | inl f ↦
            let q : l ≡ m = (eq_iff l m).0 f in
            ground (arith, h, g, e, f, below k l p, below l m q, (eq_iff k m).1 (p ∙ q))
        | inr f ↦
            let later : text_before k m ≡ true =
              subst (λ z. text_before z m ≡ true) (sym p) (ground (arith, g, f)) in
            ground (arith, later)
      ]
  | inr e ↦ elim (Bool-cases (str_eq l m)) [
    | inl f ↦
        let q : l ≡ m = (eq_iff l m).0 f in
        let later : text_before k m ≡ true =
          subst (λ z. text_before k z ≡ true) q (ground (arith, h, e)) in
        ground (arith, later)
    | inr f ↦
        let later : text_before k m ≡ true =
          text_trans k l m (ground (arith, h, e)) (ground (arith, g, f)) in
        ground (arith, later)
  ]
]
  where
    below : (s t : String) → s ≡ t → text_before s t ≡ false
    below s t p = subst (λ z. text_before s z ≡ false) p (text_irrefl s)

unfoldable pub tuple_order : ℕ → NodeOrder (String × ℕ)
unfolding same_node node_before
tuple_order limit = record {
  same = same_node;
  before = node_before;
  recursion_limit = limit;
  same_refl = same_node_refl;
  eq_of_same = same_node_eq;
  before_irrefl = node_irrefl;
  before_trans = node_trans;
  before_total = node_total;
}
