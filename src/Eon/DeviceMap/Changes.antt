-- ===== src/Eon/DeviceMap/Changes.antt =====
-- Devices that are added and removed keep their ids apart.
use srad.Prelude.{
  ℕ, suc, ◌+◌, ◌≤◌, ◌<◌, ◌≡◌, refl, ap, subst, ◌∙◌, true, false, some, List, [], ◌∷◌, ◌==◌, ==_iff,
  Result, ok, err, contains, remove, Unique, nat_eq, list_eq, lookup, Assoc, length, is_some,
  if_cases, arith, Bool-cases, Option-cases, inl, inr,
}
use srad.Types.Text.{Text}
use srad.Eon.Birth.{two_32}
use srad.Eon.Templates.{TemplateRegistry}
use srad.Eon.DeviceMap.{
  DeviceMap, DeviceMapEntry, DeviceRegistrationError, new, add_device, generate_device_id,
  remove_device, remove_device_id, without, object_id_node,
}
use srad.Eon.DeviceMap.Ids.{ids, Within, Identified, IdentifiedIf, add_device-Identified}

contains-remove_other :
    (a b : ℕ) (l : List ℕ) → (a == b) ≡ false → contains b (remove a l) ≡ contains b l
unfolding contains remove
contains-remove_other a b [] n = refl
contains-remove_other a b (p ∷ l) n = elim (Bool-cases (p == a)) [
  | inl e ↦ rw (remove, e) (ground (arith, contains-remove_other a b l n, e, n))
  | inr e ↦ rw (remove, e) (ground (arith, contains-remove_other a b l n))
]

contains-remove_none :
    (a b : ℕ) (l : List ℕ) → contains b l ≡ false → contains b (remove a l) ≡ false
unfolding contains remove
contains-remove_none a b [] n = refl
contains-remove_none a b (p ∷ l) n = elim (Bool-cases (p == a)) [
  | inl e ↦ rw (remove, e) (contains-remove_none a b l (ground arith))
  | inr e ↦ rw (remove, e) (ground (arith, contains-remove_none a b l, n))
]

-- The entries that are left keep their ids, if none of them is that which is given back.
without-fresh :
    (i : ℕ) (name : Text) (taken : List ℕ) (es : Assoc Text DeviceMapEntry)
    → contains i (ids es) ≡ false
    → Within taken es
    → Within (remove i taken) (without name es)
unfolding without contains
without-fresh i name taken [] c w = tt
without-fresh i name taken ((n, e) ∷ es) c w =
    let r = without-fresh i name taken es (ground arith) w.1 in
    if_cases (Within (remove i taken)) (list_eq.beq n name) _ _ (λ f. r)
      (λ f. (contains-remove_other i e.id taken (ground arith) ∙ w.0, r))

lookup-ids :
    (name : Text) (e : DeviceMapEntry) (es : Assoc Text DeviceMapEntry)
    → lookup name es ≡ some e
    → contains e.id (ids es) ≡ true
unfolding lookup contains
lookup-ids name e [] l = ground arith
lookup-ids name e ((n, x) ∷ es) l = elim (Bool-cases (list_eq.beq n name)) [
  | inl f ↦
      let q : x ≡ e = ground (arith, f, l) in ground (arith, ap (λ (y : DeviceMapEntry). y.id) q)
  | inr f ↦ ground (arith, lookup-ids name e es (ground (arith, f, l)))
]

without-Within :
    (name : Text) (e : DeviceMapEntry) (taken : List ℕ) (es : Assoc Text DeviceMapEntry)
    → lookup name es ≡ some e
    → Unique (ids es)
    → Within taken es
    → Within (remove e.id taken) (without name es)
unfolding without lookup contains
without-Within name e taken [] l u w = tt
without-Within name e taken ((n, x) ∷ es) l u w = elim (Bool-cases (list_eq.beq n name)) [
  | inl f ↦
      let q : x ≡ e = ground (arith, f, l) in
      rw (without, f)
        (without-fresh e.id name taken es
          (subst (λ (y : DeviceMapEntry). contains y.id (ids es) ≡ false) q u.0) w.1)
  | inr f ↦
      let k : lookup name es ≡ some e = ground (arith, f, l) in
      rw (without, f)
        (
          contains-remove_other e.id x.id taken (
                ground
                  (arith, u.0, lookup-ids name e es k, ==_iff e.id x.id, twin e.id x.id (ids es)))
              ∙ w.0,
          without-Within name e taken es k u.1 w.1,
        )
]
  where
    twin : (a b : ℕ) (l : List ℕ) → a ≡ b → contains a l ≡ contains b l
    twin a b l p = ap (λ k. contains k l) p

without-ids :
    (i : ℕ) (name : Text) (es : Assoc Text DeviceMapEntry)
    → contains i (ids es) ≡ false
    → contains i (ids (without name es)) ≡ false
unfolding without contains
without-ids i name [] c = refl
without-ids i name ((n, e) ∷ es) c =
    if_cases (λ x. contains i (ids x) ≡ false) (list_eq.beq n name) _ _
      (λ f. without-ids i name es (ground arith)) (λ f. ground (arith, without-ids i name es, c))

without-Unique :
    (name : Text) (es : Assoc Text DeviceMapEntry)
    → Unique (ids es)
    → Unique (ids (without name es))
unfolding without
without-Unique name [] u = tt
without-Unique name ((n, e) ∷ es) u =
    if_cases (λ x. Unique (ids x)) (list_eq.beq n name) _ _ (λ f. without-Unique name es u.1)
      (λ f. (without-ids e.id name es u.0, without-Unique name es u.1))

remove_device-Identified :
    (name : Text) (m : DeviceMap) → Identified m → Identified (remove_device name m)
unfolding remove_device remove_device_id
remove_device-Identified name m h = elim (Option-cases (lookup name m.devices)) [
  | inl e ↦ rw (remove_device, e) h
  | inr (x, e) ↦
      rw (remove_device, e)
        (record {
          unique = without-Unique name m.devices h.unique;
          taken = without-Within name x m.device_ids m.devices e h.unique h.taken;
          not_node = contains-remove_none x.id object_id_node m.device_ids h.not_node;
        })
]

-- What a user does to the devices of a node.
pub data DeviceChange : Type 0 where
  adds : Text → DeviceChange
  removes : Text → DeviceChange

abbrev pub or_same : DeviceMap → Result DeviceRegistrationError (ℕ × DeviceMap) → DeviceMap
or_same m (ok (k, m')) = m'
or_same m (err e) = m

abbrev pub changed : (Text → ℕ) → List DeviceChange → DeviceMap → DeviceMap
changed hash [] m = m
changed hash (adds name ∷ cs) m = changed hash cs (or_same m (add_device hash name m))
changed hash (removes name ∷ cs) m = changed hash cs (remove_device name m)

same-Identified :
    (m : DeviceMap) (r : Result DeviceRegistrationError (ℕ × DeviceMap))
    → Identified m
    → IdentifiedIf r
    → Identified (or_same m r)
same-Identified m (ok (k, m')) h i = i
same-Identified m (err e) h i = h

remove-length : (i : ℕ) (l : List ℕ) → length (remove i l) ≤ length l
unfolding remove
remove-length i [] = omega arith
remove-length i (x ∷ l) = elim (Bool-cases (x == i)) [
  | inl e ↦ rw (remove, e) (omega (arith, remove-length i l))
  | inr e ↦ rw (remove, e) (omega (arith, remove-length i l))
]

added-length :
    (hash : Text → ℕ) (name : Text) (m : DeviceMap)
    → length (or_same m (add_device hash name m)).device_ids ≤ suc (length m.device_ids)
unfolding add_device generate_device_id
added-length hash name m =
    if_cases (λ r. length (or_same m r).device_ids ≤ suc (length m.device_ids))
      (is_some (lookup name m.devices)) _ _ (λ e. omega arith) (λ e. omega arith)

removed-length :
    (name : Text) (m : DeviceMap) → length (remove_device name m).device_ids ≤ length m.device_ids
unfolding remove_device remove_device_id
removed-length name m = elim (Option-cases (lookup name m.devices)) [
  | inl e ↦ rw (remove_device, e) (omega arith)
  | inr (x, e) ↦ rw (remove_device, e) (remove-length x.id m.device_ids)
]

changed-from :
    (hash : Text → ℕ) (cs : List DeviceChange) (m : DeviceMap)
    → suc (length m.device_ids + length cs) < two_32
    → Identified m
    → Identified (changed hash cs m)
changed-from hash [] m l h = h
changed-from hash (adds name ∷ cs) m l h =
    changed-from hash cs (or_same m (add_device hash name m))
      (omega (arith, l, added-length hash name m))
      (same-Identified m (add_device hash name m) h
        (add_device-Identified hash name m (omega (arith, l)) h))
changed-from hash (removes name ∷ cs) m l h =
    changed-from hash cs (remove_device name m) (omega (arith, l, removed-length name m))
      (remove_device-Identified name m h)

-- Whatever devices are added to a node and removed from it, in whatever order, less often than there
-- are ids, and whatever the hashes of their names are: no two devices have the same id, and none
-- has that of the node.
pub changed-Identified :
    (hash : Text → ℕ) (templates : TemplateRegistry) (cs : List DeviceChange)
    → suc (length cs) < two_32
    → Identified (changed hash cs (new templates))
unfolding new contains
changed-Identified hash templates cs l =
    changed-from hash cs (new templates) (omega (arith, l))
      (record { unique = tt; taken = tt; not_node = refl })
