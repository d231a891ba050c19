-- ===== src/App/Payloads/Accepts.antt =====
-- Which payloads are accepted, and what is read from them.
use srad.Prelude.{
  ℕ, ◌<◌, ◌≡◌, ◌≢◌, ◌↔◌, ◌⊎◌, inl, inr, refl, sym, ◌∙◌, ap, true, Option, none, some, List, [], ◌∷◌,
  ok, All, list_eq, nat_eq, arith, false, if_cases,
}
use srad.Types.Text
use srad.Types.Text.{Text}
use srad.Types.Payload.{Payload, Metric, Value, fields, value}
use srad.App.Metrics.{
  bdseq_from_payload_metrics, get_metric_birth_details_from_birth_metrics, bdseq_value, is_bdseq,
  i64_from_value, in_u8_range,
}
use srad.App.Metrics.Complete.{IsComplete, metrics_read_iff}
use srad.App.Payloads.{NBirth, nbirth_from_payload}

-- The steps under which a payload is an NBIRTH.
abbrev pub IsBirthOf : Payload → NBirth → Type 0
IsBirthOf p b =
    (p.seq ≡ some 0)
    × (p.timestamp ≡ some b.timestamp)
    × (bdseq_from_payload_metrics p.metrics ≡ ok b.bdseq)
    × (get_metric_birth_details_from_birth_metrics p.metrics ≡ ok b.metrics_details)

accepted : (p : Payload) (b : NBirth) → IsBirthOf p b → nbirth_from_payload p ≡ ok b
unfolding nbirth_from_payload
accepted p b h = rw (h.0, h.1, h.2, h.3) refl

sound : (p : Payload) (b : NBirth) → nbirth_from_payload p ≡ ok b → IsBirthOf p b
unfolding nbirth_from_payload
sound p b h = ground arith

pub nbirth_from_payload_steps :
    (p : Payload) (b : NBirth) → (nbirth_from_payload p ≡ ok b) ↔ IsBirthOf p b
nbirth_from_payload_steps p b = (sound p b, accepted p b)

-- The first metric that is called `bdSeq` has the value `q`, a `u8` in a long value.
abbrev pub HasBdseq : ℕ → List Metric → Type 0
HasBdseq q [] = ⊥
HasBdseq q (m ∷ ms) =
    (((fields m).name ≡ some Text.bdseq) × (value m ≡ some (Value.long_value q)) × (q < 256))
    ⊎ (((fields m).name ≢ some Text.bdseq) × HasBdseq q ms)

same_text : (a b : Text) → some a ≡ some b → a ≡ b
same_text a b e = ground (arith, e)

named : (o : Option Text) → (is_bdseq o ≡ true) ↔ (o ≡ some Text.bdseq)
named none = ground arith
named (some n) =
    let h : (list_eq.beq n Text.bdseq ≡ true) ↔ (n ≡ Text.bdseq) = list_eq.beq_iff n Text.bdseq in
    (λ e. ap some (h.0 e), λ e. h.1 (same_text n Text.bdseq e))

value_iff :
    (v : Option Value) (q : ℕ)
    → (bdseq_value v ≡ ok q) ↔ ((v ≡ some (Value.long_value q)) × (q < 256))
unfolding bdseq_value i64_from_value in_u8_range
value_iff v q = (λ e. ground arith, λ e. ground arith)

bdseq_iff : (q : ℕ) (ms : List Metric) → (bdseq_from_payload_metrics ms ≡ ok q) ↔ HasBdseq q ms
unfolding bdseq_from_payload_metrics
bdseq_iff q [] = (λ e. cc, λ h. elim h [ ])
bdseq_iff q (m ∷ ms) =
    let n = named (fields m).name in
    if_cases (λ r. (r ≡ ok q) ↔ HasBdseq q (m ∷ ms)) (is_bdseq (fields m).name) _ _
      (λ e.
        let v = value_iff (value m) q in
        (
          λ f. inl (n.0 e, (v.0 f).0, (v.0 f).1),
          λ h. elim h [ inl x ↦ v.1 (x.1, x.2) | inr y ↦ absurd (y.0 (n.0 e)) ],
        ))
      (λ e.
        let rest = bdseq_iff q ms in
        (
          λ f. inr (λ g. let t : true ≡ false = sym (n.1 g) ∙ e in ground (arith, t), rest.0 f),
          λ h. elim h [
            | inl x ↦ let t : true ≡ false = sym (n.1 (x.0)) ∙ e in ground (arith, t)
            | inr y ↦ rest.1 (y.1)
          ],
        ))

-- What a payload is read as: the `bdSeq` and the time of the NBIRTH.
abbrev pub IsRead : Payload → ℕ → ℕ → Type 0
IsRead p q t = (b : NBirth) × (nbirth_from_payload p ≡ ok b) × (b.bdseq ≡ q) × (b.timestamp ≡ t)

-- A payload is accepted as an NBIRTH, with this `bdSeq` and this time, exactly when its sequence
-- number is 0, the time is its own, the first metric that is called `bdSeq` has that `bdSeq`, a `u8`
-- in a long value, and each of its metrics has a name, a known datatype, a time, a value or the mark
-- of a null, and properties that can be read, if it has any.
pub nbirth_from_payload_iff :
    (p : Payload) (q t : ℕ)
    → IsRead p q t ↔ (
        (p.seq ≡ some 0) × (p.timestamp ≡ some t) × HasBdseq q p.metrics × All IsComplete p.metrics)
nbirth_from_payload_iff p q t = (
  λ (b, e, f, g).
      let h = sound p b e in
      (
        h.0,
        h.1 ∙ ap some g,
        (bdseq_iff q p.metrics).0 (h.2 ∙ ap ok f),
        (metrics_read_iff p.metrics).0 (b.metrics_details, h.3),
      ),
  λ h.
      let d = (metrics_read_iff p.metrics).1 (h.3) in
      let b : NBirth = record { bdseq = q; timestamp = t; metrics_details = d.0 } in
      (b, accepted p b (h.0, h.1, (bdseq_iff q p.metrics).1 (h.2), d.1), refl, refl),
)
