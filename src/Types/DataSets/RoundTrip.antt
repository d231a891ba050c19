-- ===== src/Types/DataSets/RoundTrip.antt =====
-- Typed data sets are read back, and nothing else is read.
use srad.Prelude.{
  ℕ, suc, ◌≡◌, refl, sym, ap, ap₂, ◌∙◌, ◌↔◌, Bool, true, false, List, [], ◌∷◌, ◌++◌, ==_iff, Result,
  ok, err, ◌>>◌, guard, map, length, list_eq, nat_eq, append-nil, append_assoc, arith,
}
use srad.Types.Text.{Text}
use srad.Types.Payload.{DataSet}
use srad.Types.DataType.{code}
use srad.Types.DataSets.{
  DataSetColumn, DataSetError, DataSetRow, names, datatypes, check_names, check_types, check_schema,
  unwrap_or_default, add_rows, add_row, read_rows, into_data_set, init, empty, typed_from_data_set,
  typed_from_value, typed_to_value, data_set_to_value, data_set_from_value,
}

guard_iff :
    (b : Bool) (e : DataSetError) (k : Result DataSetError (Unit {0}))
    → ((guard b e >> k) ≡ ok tt) ↔ ((b ≡ true) × (k ≡ ok tt))
guard_iff true e k = ground arith
guard_iff false e k = ground arith

then_iff :
    {A : Type 0} (m : Result DataSetError (Unit {0})) (k : Result DataSetError A) (x : A)
    → ((m >> k) ≡ ok x) ↔ ((m ≡ ok tt) × (k ≡ ok x))
then_iff (ok tt) k x = ground arith
then_iff (err e) k x = ground arith

check_names_iff :
    (i : ℕ) (actual : List Text) (cs : List DataSetColumn)
    → length actual ≡ length cs
    → (check_names i actual cs ≡ ok tt) ↔ (actual ≡ names cs)
unfolding check_names
check_names_iff i [] [] l = ground arith
check_names_iff i [] (c ∷ cs) l = absurd (omega (arith, l))
check_names_iff i (a ∷ actual) [] l = absurd (omega (arith, l))
check_names_iff i (a ∷ actual) (c ∷ cs) l =
    let h : (list_eq.beq a c.name ≡ true) ↔ (a ≡ c.name) = list_eq.beq_iff a c.name in
    let t = check_names_iff (suc i) actual cs (omega (arith, l)) in
    let g = guard_iff (list_eq.beq a c.name) _ (check_names (suc i) actual cs) in
    (
      λ e. let p = g.0 e in ap₂ ◌∷◌ (h.0 (p.0)) (t.0 (p.1)),
      λ e. g.1 (h.1 (ground (arith, e)), t.1 (ground (arith, e))),
    )

check_types_iff :
    (i : ℕ) (actual : List ℕ) (cs : List DataSetColumn)
    → length actual ≡ length cs
    → (check_types i actual cs ≡ ok tt) ↔ (actual ≡ map code (datatypes cs))
unfolding check_types
check_types_iff i [] [] l = ground arith
check_types_iff i [] (c ∷ cs) l = absurd (omega (arith, l))
check_types_iff i (a ∷ actual) [] l = absurd (omega (arith, l))
check_types_iff i (a ∷ actual) (c ∷ cs) l =
    ground (arith, ==_iff a (code c.datatype), check_types_iff (suc i) actual cs (omega (arith, l)))

length-names : (cs : List DataSetColumn) → length (names cs) ≡ length cs
length-names [] = refl
length-names (c ∷ cs) = ap suc (length-names cs)

length-types : (cs : List DataSetColumn) → length (map code (datatypes cs)) ≡ length cs
length-types [] = refl
length-types (c ∷ cs) = ap suc (length-types cs)

-- The columns of a data set are those of the type of its rows.
abbrev pub HasSchema : List DataSetColumn → DataSet → Type 0
HasSchema cs ds =
    (unwrap_or_default ds.num_of_columns ≡ length cs)
    × (ds.columns ≡ names cs)
    × (ds.types ≡ map code (datatypes cs))

check_schema_iff :
    (cs : List DataSetColumn) (ds : DataSet) → (check_schema cs ds ≡ ok tt) ↔ HasSchema cs ds
unfolding check_schema
check_schema_iff cs ds = (
  λ e.
      let n = (guard_iff _ _ _).0 e in
      let c = (guard_iff _ _ _).0 (n.1) in
      let t = (guard_iff _ _ _).0 (c.1) in
      let r = (then_iff _ _ _).0 (t.1) in
      (
        (==_iff _ _).0 (n.0),
        (check_names_iff 0 ds.columns cs ((==_iff _ _).0 (c.0))).0 (r.0),
        (check_types_iff 0 ds.types cs ((==_iff _ _).0 (t.0))).0 (r.1),
      ),
  λ h.
      let c : length ds.columns ≡ length cs = ap length (h.1) ∙ length-names cs in
      let t : length ds.types ≡ length cs = ap length (h.2) ∙ length-types cs in
      (guard_iff _ _ _).1 (
        (==_iff _ _).1 (h.0),
        (guard_iff _ _ _).1 (
          (==_iff _ _).1 c,
          (guard_iff _ _ _).1 (
            (==_iff _ _).1 t,
            (then_iff _ _ _).1 (
              (check_names_iff 0 ds.columns cs c).1 (h.1),
              (check_types_iff 0 ds.types cs t).1 (h.2),
            ),
          ),
        ),
      ),
)

module _ {R : Type 0} (row : DataSetRow R) where
  add_rows_all :
      (rs : List R) (ds : DataSet)
      → add_rows row rs ds ≡ record ds { rows = ds.rows ++ map row.into_row rs }
  unfolding add_row
  add_rows_all [] ds = ap (λ x. record ds { rows = x }) (sym (append-nil ds.rows))
  add_rows_all (r ∷ rs) ds =
      add_rows_all rs (record ds { rows = ds.rows ++ row.into_row r ∷ [] })
      ∙ ap (λ x. record ds { rows = x })
          (append_assoc ds.rows (row.into_row r ∷ []) (map row.into_row rs))

  read_rows-map :
      (rs : List R)
      → ((r : R) → row.try_from_row (row.into_row r) ≡ ok r)
      → read_rows row (map row.into_row rs) ≡ ok rs
  unfolding read_rows
  read_rows-map [] h = refl
  read_rows-map (r ∷ rs) h = rw (h r, read_rows-map rs h) refl

  -- Rows are read from a data set exactly when its columns are those of the type of the rows, in
  -- their number, their names and their datatypes, and each of its rows is read, in order.
  pub typed_from_data_set_iff :
      (ds : DataSet) (rs : List R)
      → (typed_from_data_set row ds ≡ ok rs)
        ↔ (HasSchema row.columns ds × (read_rows row ds.rows ≡ ok rs))
  unfolding typed_from_data_set
  typed_from_data_set_iff ds rs =
      let t = then_iff (check_schema row.columns ds) (read_rows row ds.rows) rs in
      let s = check_schema_iff row.columns ds in
      (λ e. let p = t.0 e in (s.0 (p.0), p.1), λ p. t.1 (s.1 (p.0), p.1))

  -- Rows of a type that reads each row back from what it writes: data sets of them, put into a
  -- metric's value, are read back from it.
  pub typed_from_value-typed_to_value :
      (rs : List R)
      → ((r : R) → row.try_from_row (row.into_row r) ≡ ok r)
      → typed_from_value row (typed_to_value row rs) ≡ ok rs
  unfolding typed_from_value typed_to_value into_data_set init data_set_to_value data_set_from_value
  typed_from_value-typed_to_value rs h =
      let cs = row.columns in
      let e : into_data_set row rs
          ≡ record (init (names cs) (datatypes cs) empty) { rows = map row.into_row rs } =
        add_rows_all rs (init (names cs) (datatypes cs) empty) in
      (typed_from_data_set_iff (into_data_set row rs) rs).1
        (rw e ((length-names cs, refl, refl), read_rows-map rs h))
