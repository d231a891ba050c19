-- ===== src/App/Metrics/Complete.antt =====
-- When the metric of a birth is accepted.
use srad.Prelude.{
  ℕ, ◌≡◌, refl, Bool, true, Option, none, some, Result, ok, err, ◌>>=◌, ok_or, arith, ◌↔◌, ◌∙◌, ap,
  false, List, [], ◌∷◌, All,
}
use srad.Types.Text.{Text}
use srad.Types.DataType.{DataType, from_code, code, from_code_iff}
use srad.Types.Payload.{Metric, Value, PropertySet, fields, value}
use srad.Types.Properties.{Properties, from_proto, PropertySetError}
use srad.App.Metrics.{
  birth_details, details_from_metric, details_properties, details_value, missing_timestamp,
  missing_name, datatype_of, missing_datatype, invalid_properties, MetricBirthDetails,
  MetricDetails, get_metric_birth_details_from_birth_metrics, collect,
}

-- What is read of a property set that may be there.
abbrev pub Readable : Option PropertySet → Type 0
Readable none = Unit
Readable (some s) = (p : Properties) × (from_proto s ≡ ok p)

abbrev pub HasValue : Option Value → Option Bool → Type 0
HasValue (some v) n = Unit
HasValue none n = n ≡ some true

-- A computation with a result.
abbrev pub Succeeds : {E A : Type 0} → Result E A → Type 0
Succeeds {A = A} r = (a : A) × (r ≡ ok a)

then-Succeeds :
    {E A B : Type 0} (r : Result E A) (f : A → Result E B)
    → Succeeds r
    → ((a : A) → Succeeds (f a))
    → Succeeds (r >>= f)
then-Succeeds (ok a) f s k = k a
then-Succeeds (err e) f (a, p) k = ground (arith, p)

read_properties : (s : Option PropertySet) → Readable s → Succeeds (details_properties s)
unfolding details_properties
read_properties none r = (none, refl)
read_properties (some s) (p, e) = (some p, rw (details_properties, e) refl)

read_value : (v : Option Value) (n : Option Bool) → HasValue v n → Succeeds (details_value v n)
unfolding details_value
read_value (some v) n h = (some v, refl)
read_value none n h = (none, ground arith)

given : {E A : Type 0} (o : Option A) (e : E) (a : A) → o ≡ some a → Succeeds (ok_or o e)
given none e a p = ground (arith, p)
given (some b) e a p = (b, refl)

read_details :
    (m : Metric) (t : ℕ)
    → (fields m).timestamp ≡ some t
    → HasValue (value m) (fields m).is_null
    → Readable (fields m).properties
    → Succeeds (details_from_metric m)
unfolding details_from_metric
read_details m t e v p =
    then-Succeeds (ok_or (fields m).timestamp missing_timestamp) _ (given _ missing_timestamp t e)
      λ _.
        then-Succeeds (details_value (value m) (fields m).is_null) _
          (read_value (value m) (fields m).is_null v)
          λ _.
            then-Succeeds (details_properties (fields m).properties) _
              (read_properties (fields m).properties p) λ _. (_, refl)

-- A metric with a name, a datatype, a time, a value or the mark of a null, and properties that can
-- be read, is accepted.
pub birth_details-accepts :
    (m : Metric) (n : Text) (c t : ℕ) (d : DataType)
    → (fields m).name ≡ some n
    → (fields m).datatype ≡ some c
    → from_code c ≡ some d
    → (fields m).timestamp ≡ some t
    → HasValue (value m) (fields m).is_null
    → Readable (fields m).properties
    → Succeeds (birth_details m)
unfolding birth_details
birth_details-accepts m n c t d en ec ed et v p =
    let r = read_details m t et v p in
    rw ec (
      then-Succeeds (datatype_of (from_code c)) _ (rw ed (d, refl)) λ _.
        then-Succeeds (ok_or (fields m).name missing_name) _ (given _ missing_name n en)
          λ _. then-Succeeds (details_from_metric m) _ r λ _. (_, refl))

-- A metric with a name, a known datatype, a time, a value or the mark of a null, and properties that
-- can be read, if it has any.
pub record IsComplete (m : Metric) : Type 0 where
  pub named : (n : Text) × ((fields m).name ≡ some n)
  pub typed : (d : DataType) × ((fields m).datatype ≡ some (code d))
  pub timed : (t : ℕ) × ((fields m).timestamp ≡ some t)
  pub valued : HasValue (value m) (fields m).is_null
  pub readable : Readable (fields m).properties

then_inverse :
    {E A B : Type 0} (r : Result E A) (f : A → Result E B) (b : B)
    → (r >>= f) ≡ ok b
    → (a : A) × (r ≡ ok a) × (f a ≡ ok b)
then_inverse (ok a) f b e = (a, refl, e)
then_inverse (err x) f b e = cc

ok_or_inverse : {E A : Type 0} (o : Option A) (x : E) (a : A) → ok_or o x ≡ ok a → o ≡ some a
ok_or_inverse none x a e = cc
ok_or_inverse (some b) x a e = ground (arith, e)

datatype_of_inverse : (o : Option DataType) (d : DataType) → datatype_of o ≡ ok d → o ≡ some d
datatype_of_inverse none d e = cc
datatype_of_inverse (some b) d e = ground (arith, e)

value_inverse :
    (v : Option Value) (n : Option Bool) (x : Option Value)
    → details_value v n ≡ ok x
    → HasValue v n
unfolding details_value
value_inverse (some v) n x e = tt
value_inverse none (some true) x e = refl
value_inverse none (some false) x e = cc
value_inverse none none x e = cc

properties_inverse :
    (s : Option PropertySet) (x : Option Properties) → details_properties s ≡ ok x → Readable s
unfolding details_properties
properties_inverse none x e = tt
properties_inverse (some s) x e = read_inverse (from_proto s) refl e
  where
    read_inverse :
        (r : Result PropertySetError Properties)
        → from_proto s ≡ r
        → (elim r [ ok p ↦ ok (some p) | err y ↦ err invalid_properties ]) ≡ ok x
        → (p : Properties) × (from_proto s ≡ ok p)
    read_inverse (ok p) f g = (p, f)
    read_inverse (err y) f g = cc

birth_details-IsComplete :
    (m : Metric) (x : MetricBirthDetails × MetricDetails) → birth_details m ≡ ok x → IsComplete m
unfolding birth_details details_from_metric
birth_details-IsComplete m x e =
    let c = then_inverse (ok_or (fields m).datatype missing_datatype) _ x e in
    let d = then_inverse (datatype_of (from_code (c.0))) _ x (c.2) in
    let n = then_inverse (ok_or (fields m).name missing_name) _ x (d.2) in
    let r = then_inverse (details_from_metric m) _ x (n.2) in
    let t = then_inverse (ok_or (fields m).timestamp missing_timestamp) _ (r.0) (r.1) in
    let v = then_inverse (details_value (value m) (fields m).is_null) _ (r.0) (t.2) in
    let p = then_inverse (details_properties (fields m).properties) _ (r.0) (v.2) in
    record {
      named = (n.0, ok_or_inverse _ missing_name (n.0) (n.1));
      typed = (
        d.0,
        ok_or_inverse _ missing_datatype (c.0) (c.1)
            ∙ ap some ((from_code_iff (c.0) (d.0)).0 (datatype_of_inverse _ (d.0) (d.1))),
      );
      timed = (t.0, ok_or_inverse _ missing_timestamp (t.0) (t.1));
      valued = value_inverse _ _ (v.0) (v.1);
      readable = properties_inverse _ (p.0) (p.1);
    }

IsComplete-birth_details : (m : Metric) → IsComplete m → Succeeds (birth_details m)
IsComplete-birth_details m h =
    birth_details-accepts m (h.named.0) (code (h.typed.0)) (h.timed.0) (h.typed.0) (h.named.1)
      (h.typed.1) ((from_code_iff _ (h.typed.0)).1 refl) (h.timed.1) h.valued h.readable

-- The metrics of a birth are read exactly when each of them is complete.
pub metrics_read_iff :
    (ms : List Metric)
    → Succeeds (get_metric_birth_details_from_birth_metrics ms) ↔ All IsComplete ms
unfolding get_metric_birth_details_from_birth_metrics
metrics_read_iff [] = (λ s. tt, λ h. ([], refl))
metrics_read_iff (m ∷ ms) = (
  λ (xs, e).
      let x = then_inverse (birth_details m) _ xs e in
      let y = then_inverse (collect birth_details ms) _ xs (x.2) in
      (birth_details-IsComplete m (x.0) (x.1), (metrics_read_iff ms).0 (y.0, y.1)),
  λ h.
      then-Succeeds (birth_details m) _ (IsComplete-birth_details m h.0) λ x.
        then-Succeeds (collect birth_details ms) _ ((metrics_read_iff ms).1 h.1) λ y. (_, refl),
)
