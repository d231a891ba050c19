-- ===== src/App/Node/Invariant.antt =====
-- The invariant of a node, and what the handlers of births, deaths and rebirth requests keep.
use srad.Prelude.{
  ℕ, ◌+◌, ◌-◌, ◌≤◌, ◌<◌, ◌≡◌, refl, true, false, Option, some, [], ◌∷◌, ltb, leb, ◌==◌, not, ◌&&◌,
  ◌⊎◌, inl, inr, ok, err, Assoc, map_values, AllValues, arith, Returns, Bool-cases, Option-cases,
  Returns-imp, Result,
}
use srad.Types.Text.{Text}
use srad.App.Resequencer
use srad.App.Resequencer.{Resequencer}
use srad.App.Resequencer.Invariant.{
  IsWellFormed, reset-IsWellFormed, set_next_sequence-IsWellFormed,
}
use srad.App.Rebirth.{RebirthReason, evaluate_rebirth_reason}
use srad.App.Payloads.{NBirth}
use srad.App.Device.{MetricStore, Device, stale, device_set_stale, StateUpdateError}
use srad.App.Node.{
  Node, Clock, is_birthed, set_stale, go_stale, publish_rebirth, issue_rebirth, handle_birth,
  become_birthed, birth_outcome, notify_birth,
}

abbrev pub IsStale : {Store : Type 0} → Device Store → Type 0
IsStale d = d.lifecycle_state ≡ stale

-- A stale node buffers nothing, runs no timer, and has only stale devices.
pub record Inv {Store : Type 0} (n : Node Store) : Type 0 where
  pub well_formed : IsWellFormed n.resequencer
  pub no_buffer : n.lifecycle_state ≡ stale → n.resequencer.buffer ≡ []
  pub no_timer : n.lifecycle_state ≡ stale → n.resequence_timeout_task ≡ false
  pub stale_devices : n.lifecycle_state ≡ stale → AllValues IsStale n.devices

-- At most one rebirth command was published; if one was, the cooldown had passed.
abbrev pub Publishes : {Store : Type 0} → Clock → Node Store → Node Store → Type 0
Publishes clock n n' =
    ((n'.published ≡ n.published) × (n'.last_rebirth ≡ n.last_rebirth))
    ⊎ ((n'.published ≡ n.id ∷ n.published)
        × (n'.last_rebirth ≡ clock.now)
        × (n.last_rebirth + n.config.rebirth_config.rebirth_cooldown ≤ clock.now))

-- What every handler guarantees.
pub record Handles {Store : Type 0} (clock : Clock) (n n' : Node Store) : Type 0 where
  pub inv : Inv n'
  pub id : n'.id ≡ n.id
  pub config : n'.config ≡ n.config
  pub publishes : Publishes clock n n'

module _ (M : MetricStore) where
  open M use {Store}

  pub all-IsStale :
      (ds : Assoc Text (Device Store)) → AllValues IsStale (map_values (device_set_stale M) ds)
  unfolding device_set_stale
  all-IsStale [] = tt
  all-IsStale ((k, d) ∷ ds) = (refl, all-IsStale ds)

  go_stale-Inv : (t : ℕ) (n : Node Store) → Inv (go_stale M t n)
  unfolding go_stale
  go_stale-Inv t n = record {
    well_formed = reset-IsWellFormed n.resequencer;
    no_buffer = λ e. refl;
    no_timer = λ e. refl;
    stale_devices = λ e. all-IsStale n.devices;
  }

  -- A node that a handler makes stale is reset; else it is left as it was.
  pub set_stale_cases :
      (P : Node Store → Type 0) (t : ℕ) (n : Node Store)
      → P n
      → P (go_stale M t n)
      → P (set_stale M t n)
  unfolding set_stale
  set_stale_cases P t n same gone = elim (Bool-cases (not (is_birthed n.lifecycle_state))) [
    | inl e ↦ rw e same
    | inr e ↦ elim (Bool-cases (ltb t n.birth_timestamp)) [
      | inl f ↦ rw (e, f) same
      | inr f ↦ rw (e, f) gone
    ]
  ]

  pub set_stale-Handles :
      (clock : Clock) (t : ℕ) (n : Node Store) → Inv n → Handles clock n (set_stale M t n)
  set_stale-Handles clock t n h =
      set_stale_cases (λ n'. Handles clock n n') t n
        (record { inv = h; id = refl; config = refl; publishes = inl (refl, refl) })
        (record {
          inv = go_stale-Inv t n;
          id = unfold go_stale in refl;
          config = unfold go_stale in refl;
          publishes = unfold go_stale in inl (refl, refl);
        })

  -- The cooldown had passed and the configuration allows the reason; else nothing happens.
  pub issue_rebirth_cases :
      (P : Option (Node Store) → Type 0) (clock : Clock) (reason : RebirthReason) (n : Node Store)
      → n.last_rebirth ≤ clock.now
      → ((evaluate_rebirth_reason n.config.rebirth_config reason ≡ false)
            ⊎ (clock.now < n.last_rebirth + n.config.rebirth_config.rebirth_cooldown)
          → P (some n))
      → (n.last_rebirth + n.config.rebirth_config.rebirth_cooldown ≤ clock.now
          → evaluate_rebirth_reason n.config.rebirth_config reason ≡ true
          → P (some (publish_rebirth M clock (true, record n { last_rebirth = clock.now }))))
      → P (issue_rebirth M clock reason n)
  unfolding issue_rebirth
  issue_rebirth_cases P clock reason n l same published =
      elim (Bool-cases (evaluate_rebirth_reason n.config.rebirth_config reason)) [
        | inr e ↦ let s = same (inl e) in rw e s
        | inl e ↦
            let early : ltb clock.now n.last_rebirth ≡ false = ground arith in
            elim (Bool-cases
              (ltb (clock.now - n.last_rebirth) n.config.rebirth_config.rebirth_cooldown)) [
                | inl f ↦ let s = same (inr (ground (arith, f, l))) in rw (e, early, f) s
                | inr f ↦ let s = published (ground arith) e in rw (e, early, f) s
              ]
      ]

  pub eval_rebirth_cases :
      (P : Option (Node Store) → Type 0) (clock : Clock) (reason : RebirthReason) (n : Node Store)
      → n.last_rebirth ≤ clock.now
      → P (some n)
      → (n.last_rebirth + n.config.rebirth_config.rebirth_cooldown ≤ clock.now
          → evaluate_rebirth_reason n.config.rebirth_config reason ≡ true
          → P (some (publish_rebirth M clock (true, record n { last_rebirth = clock.now }))))
      → P (issue_rebirth M clock reason n)
  eval_rebirth_cases P clock reason n l same published =
      issue_rebirth_cases P clock reason n l (λ c. same) published

  published-Handles :
      (clock : Clock) (n : Node Store)
      → Inv n
      → n.last_rebirth + n.config.rebirth_config.rebirth_cooldown ≤ clock.now
      → Handles clock n (publish_rebirth M clock (true, record n { last_rebirth = clock.now }))
  unfolding publish_rebirth
  published-Handles clock n h c =
      let m : Node Store = record n { last_rebirth = clock.now } in
      set_stale_cases (λ n'. Handles clock n (record n' { published = n.id ∷ n.published }))
        clock.stamp m
        (record {
          inv = record {
            well_formed = h.well_formed;
            no_buffer = h.no_buffer;
            no_timer = h.no_timer;
            stale_devices = h.stale_devices;
          };
          id = refl;
          config = refl;
          publishes = inr (refl, refl, c);
        })
        (let g = go_stale-Inv clock.stamp m in
          unfold go_stale in
          record {
            inv = record {
              well_formed = g.well_formed;
              no_buffer = g.no_buffer;
              no_timer = g.no_timer;
              stale_devices = g.stale_devices;
            };
            id = refl;
            config = refl;
            publishes = inr (refl, refl, c);
          })

  -- A rebirth request for any reason, at a time that is not before the last one, does not panic,
  -- keeps the invariant, the identity and the configuration, and publishes at most one rebirth
  -- command, and none before the cooldown has passed.
  pub issue_rebirth-Handles :
      (clock : Clock) (reason : RebirthReason) (n : Node Store)
      → n.last_rebirth ≤ clock.now
      → Inv n
      → Returns (Handles clock n) (issue_rebirth M clock reason n)
  issue_rebirth-Handles clock reason n l h =
      eval_rebirth_cases (Returns (Handles clock n)) clock reason n l
        (record { inv = h; id = refl; config = refl; publishes = inl (refl, refl) })
        (λ c e. published-Handles clock n h c)

  become_birthed-Handles :
      (clock : Clock) (b : NBirth) (n : Node Store) → Inv n → Handles clock n (become_birthed M b n)
  unfolding become_birthed
  become_birthed-Handles clock b n h = record {
    inv = record {
      well_formed =
          set_next_sequence-IsWellFormed 1 (Resequencer.reset n.resequencer) (omega arith)
            (reset-IsWellFormed n.resequencer);
      no_buffer = λ e. refl;
      no_timer = λ e. refl;
      stale_devices = λ e. cc;
    };
    id = refl;
    config = refl;
    publishes = inl (refl, refl);
  }

  -- The store may change on the way.
  with_store-Inv : (s : Option Store) (n : Node Store) → Inv n → Inv (record n { store = s })
  with_store-Inv s n h = record {
    well_formed = h.well_formed;
    no_buffer = h.no_buffer;
    no_timer = h.no_timer;
    stale_devices = h.stale_devices;
  }

  with_store-Handles :
      (clock : Clock) (s : Option Store) (n n' : Node Store)
      → Handles clock (record n { store = s }) n'
      → Handles clock n n'
  with_store-Handles clock s n n' h = record {
    inv = h.inv;
    id = h.id;
    config = h.config;
    publishes = h.publishes;
  }

  birth_outcome-Handles :
      (clock : Clock) (b : NBirth) (n : Node Store) (o : Store × Result StateUpdateError (Unit {0}))
      → n.last_rebirth ≤ clock.now
      → Inv n
      → Returns (Handles clock n) (birth_outcome M clock b n o)
  birth_outcome-Handles clock b n (s, ok u) l h =
      let m : Node Store = record n { store = some s } in
      with_store-Handles clock (some s) n (become_birthed M b m)
        (become_birthed-Handles clock b m (with_store-Inv (some s) n h))
  birth_outcome-Handles clock b n (s, err e) l h =
      let m : Node Store = record n { store = some s } in
      Returns-imp (issue_rebirth M clock RebirthReason.invalid_payload m)
        (with_store-Handles clock (some s) n)
        (issue_rebirth-Handles clock RebirthReason.invalid_payload m l
          (with_store-Inv (some s) n h))

  notify_birth-Handles :
      (clock : Clock) (b : NBirth) (n : Node Store)
      → n.last_rebirth ≤ clock.now
      → Inv n
      → Returns (Handles clock n) (notify_birth M clock b n)
  unfolding notify_birth
  notify_birth-Handles clock b n l h = elim (Option-cases n.store) [
    | inl e ↦ rw (e, Returns) (become_birthed-Handles clock b n h)
    | inr (s, e) ↦
        rw (e, Returns)
          (birth_outcome-Handles clock b n (M.update_from_birth s b.metrics_details) l h)
  ]

  pub handle_birth-Handles :
      (clock : Clock) (b : NBirth) (n : Node Store)
      → n.last_rebirth ≤ clock.now
      → Inv n
      → Returns (Handles clock n) (handle_birth M clock b n)
  unfolding handle_birth
  handle_birth-Handles clock b n l h = elim (Bool-cases (leb b.timestamp n.birth_timestamp)) [
    | inl e ↦
        rw (e, Returns) (record { inv = h; id = refl; config = refl; publishes = inl (refl, refl) })
    | inr e ↦ elim (Bool-cases (is_birthed n.lifecycle_state && n.bdseq == b.bdseq)) [
      | inl f ↦ rw (e, f, Returns) (become_birthed-Handles clock b n h)
      | inr f ↦ rw (e, f, Returns) (notify_birth-Handles clock b n l h)
    ]
  ]
