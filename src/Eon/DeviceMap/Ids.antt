-- ===== src/Eon/DeviceMap/Ids.antt =====
-- The ids of the devices of a node.
use srad.Prelude.{
  ℕ, suc, ◌%◌, ◌<◌, ◌≡◌, refl, sym, ap, subst, true, false, none, List, [], ◌∷◌, ◌++◌, ◌==◌, ==_iff,
  Result, ok, err, contains, Unique, Unique-append, nat_eq, list_eq, lookup, insert, insert-append,
  Assoc, length, is_some, if_cases, arith, Bool-cases, inl, inr,
}
use native.Mathlib.Nat.{mod-lt}
use srad.Types.Text.{Text}
use srad.Eon.Ids.Free.{next_free-IsFree}
use srad.Eon.Birth.{two_32}
use srad.Eon.DeviceMap.{
  DeviceMap, DeviceMapEntry, generate_device_id, add_device, insert_device, object_id_node,
  DeviceRegistrationError,
}

abbrev pub ids : Assoc Text DeviceMapEntry → List ℕ
ids [] = []
ids ((name, e) ∷ es) = e.id ∷ ids es

-- The ids of the devices are taken.
abbrev pub Within : List ℕ → Assoc Text DeviceMapEntry → Type 0
Within taken [] = Unit
Within taken ((name, e) ∷ es) = (contains e.id taken ≡ true) × Within taken es

-- No two devices have the same id, each id is taken, and that of the node is not.
pub record Identified (m : DeviceMap) : Type 0 where
  pub unique : Unique (ids m.devices)
  pub taken : Within m.device_ids m.devices
  pub not_node : contains object_id_node m.device_ids ≡ false

Within-fresh :
    (i : ℕ) (taken : List ℕ) (es : Assoc Text DeviceMapEntry)
    → contains i taken ≡ false
    → Within taken es
    → contains i (ids es) ≡ false
unfolding contains
Within-fresh i taken [] c w = refl
Within-fresh i taken ((n, e) ∷ es) c w =
    ground (arith, Within-fresh i taken es c w.1, differ e.id i taken w.0 c)
  where
    differ : (a b : ℕ) (l : List ℕ) → contains a l ≡ true → contains b l ≡ false → (a == b) ≡ false
    differ a b l p q = elim (Bool-cases (a == b)) [
      | inr f ↦ f
      | inl f ↦ ground (arith, subst (λ k. contains k l ≡ true) ((==_iff a b).0 f) p, q)
    ]

Within-more :
    (i : ℕ) (taken : List ℕ) (es : Assoc Text DeviceMapEntry)
    → Within taken es
    → Within (i ∷ taken) es
unfolding contains
Within-more i taken [] w = tt
Within-more i taken ((n, e) ∷ es) w = (ground (arith, w.0), Within-more i taken es w.1)

ids-append :
    (es : Assoc Text DeviceMapEntry) (name : Text) (e : DeviceMapEntry)
    → ids (es ++ (name, e) ∷ []) ≡ ids es ++ e.id ∷ []
ids-append [] name e = refl
ids-append ((n, x) ∷ es) name e = ap (λ l. x.id ∷ l) (ids-append es name e)

Within-append :
    (taken : List ℕ) (es : Assoc Text DeviceMapEntry) (name : Text) (e : DeviceMapEntry)
    → contains e.id taken ≡ true
    → Within taken es
    → Within taken (es ++ (name, e) ∷ [])
Within-append taken [] name e c w = (c, tt)
Within-append taken ((n, x) ∷ es) name e c w = (w.0, Within-append taken es name e c w.1)

-- An entry with a free id is added.
inserted-Identified :
    (name : Text) (i : ℕ) (m : DeviceMap)
    → lookup name m.devices ≡ none
    → contains i (object_id_node ∷ m.device_ids) ≡ false
    → Identified m
    → Identified (insert_device name (i, record m { device_ids = i ∷ m.device_ids }))
unfolding contains
inserted-Identified name i m l c h =
    let e : DeviceMapEntry = record { id = i; channel = m.next_task } in
    let f : contains i m.device_ids ≡ false = ground arith in
    let p : insert name e m.devices ≡ m.devices ++ (name, e) ∷ [] =
      insert-append name e m.devices l in
    record {
      unique =
          subst (λ x. Unique (ids x)) (sym p)
            (subst Unique (sym (ids-append m.devices name e)) (
              Unique-append i (ids m.devices) (Within-fresh i m.device_ids m.devices f h.taken)
                h.unique));
      taken = subst (Within (i ∷ m.device_ids)) (sym p) (
          Within-append (i ∷ m.device_ids) m.devices name e (ground arith)
            (Within-more i m.device_ids m.devices h.taken));
      not_node = ground (arith, h.not_node);
    }

abbrev pub IdentifiedIf : Result DeviceRegistrationError (ℕ × DeviceMap) → Type 0
IdentifiedIf (ok (k, m)) = Identified m
IdentifiedIf (err e) = Unit

pub add_device-Identified :
    (hash : Text → ℕ) (name : Text) (m : DeviceMap)
    → suc (length m.device_ids) < two_32
    → Identified m
    → IdentifiedIf (add_device hash name m)
unfolding add_device generate_device_id
add_device-Identified hash name m s h =
    if_cases IdentifiedIf (is_some (lookup name m.devices)) _ _ (λ e. tt)
      λ e.
        let f =
          next_free-IsFree two_32 (hash name % two_32) (object_id_node ∷ m.device_ids)
            (mod-lt (hash name) (omega arith)) s in
        inserted-Identified name _ m (ground arith) f.free h
