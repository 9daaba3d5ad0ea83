-- ===== src/Persistence/Rows.antt =====
-- Tables as lists of rows: what is found after a row is added or updated.
use data_processing.Prelude.{
  String, Option, none, some, List, [], ◌∷◌, ◌++◌, Bool, true, ◌≡◌, refl, ◌+◌, str_eq, eq_iff,
  arith,
}
use data_processing.RemoteSync.Types.{AdapterOperation}
use data_processing.Persistence.Tables.{find, update, row_count, same_transport, same_operation}

module _ {A : Type 0} (p : A → Bool) where
  pub find-append :
      (rows : List A) (row : A)
      → find p rows ≡ none
      → p row ≡ true
      → find p (rows ++ row ∷ []) ≡ some row
  unfolding find
  find-append [] row h k = ground arith
  find-append (r ∷ rows) row h k = ground (arith, find-append rows row (ground arith) k)

  -- A row that is found passes the test.
  pub find-holds : (rows : List A) (row : A) → find p rows ≡ some row → p row ≡ true
  unfolding find
  find-holds [] row h = ground arith
  find-holds (r ∷ rows) row h = ground (arith, find-holds rows row)

  -- What is found after the update of the rows that pass a test is the first of them, updated.
  pub find-update :
      (f : A → A) (rows : List A) (row : A)
      → ((r : A) → p r ≡ true → p (f r) ≡ true)
      → find p rows ≡ some row
      → find p (update p f rows) ≡ some (f row)
  unfolding find update
  find-update f [] row keeps h = ground arith
  find-update f (r ∷ rows) row keeps h = ground (arith, keeps r, find-update f rows row keeps)

  -- No row more passes the test after rows are updated.
  pub row_count-update :
      (q : A → Bool) (f : A → A) (rows : List A)
      → ((r : A) → q r ≡ true → p (f r) ≡ p r)
      → row_count p (update q f rows) ≡ row_count p rows
  unfolding row_count update
  row_count-update q f [] keeps = refl
  row_count-update q f (r ∷ rows) keeps = ground (arith, keeps r, row_count-update q f rows keeps)

  pub row_count-none : (rows : List A) → find p rows ≡ none → row_count p rows ≡ 0
  unfolding row_count find
  row_count-none [] h = refl
  row_count-none (r ∷ rows) h = ground (arith, row_count-none rows)

  pub row_count-append :
      (rows : List A) (row : A)
      → row_count p (rows ++ row ∷ []) ≡ row_count p rows + row_count p (row ∷ [])
  unfolding row_count
  row_count-append [] row = ground arith
  row_count-append (r ∷ rows) row = ground (arith, row_count-append rows row)

pub str_eq_refl : (s : String) → str_eq s s ≡ true
str_eq_refl s = (eq_iff s s).1 refl

pub same_transport_refl : (t : Option (String × String)) → same_transport t t ≡ true
unfolding same_transport
same_transport_refl none = refl
same_transport_refl (some (a, b)) = ground (arith, str_eq_refl a, str_eq_refl b)

pub same_operation_refl : (o : AdapterOperation) → same_operation o o ≡ true
unfolding same_operation
same_operation_refl o = ground arith
