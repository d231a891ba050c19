-- ===== src/App/Node/Quiet.antt =====
-- Steps that publish nothing, and what the handler of deaths keeps.
use srad.Prelude.{
  ℕ, ◌+◌, ◌≤◌, ◌≡◌, refl, sym, ap, ap₂, subst, ◌∙◌, ◌∷◌, ◌==◌, inl, inr, Returns, Bool-cases,
  Returns-imp,
}
use srad.App.Rebirth.{RebirthReason}
use srad.App.Device.{MetricStore}
use srad.App.Node.{
  Node, Clock, set_stale, go_stale, issue_rebirth, handle_death, cancel_reorder_timeout,
}
use srad.App.Node.Invariant.{
  Inv, Handles, Publishes, set_stale_cases, set_stale-Handles, issue_rebirth-Handles,
}

-- Nothing was published on the way.
pub record Quiet {Store : Type 0} (n n' : Node Store) : Type 0 where
  pub id : n'.id ≡ n.id
  pub config : n'.config ≡ n.config
  pub published : n'.published ≡ n.published
  pub last_rebirth : n'.last_rebirth ≡ n.last_rebirth

pub Quiet-Handles :
    {Store : Type 0} (clock : Clock) (n n' : Node Store) → Quiet n n' → Inv n' → Handles clock n n'
Quiet-Handles clock n n' q h = record {
  inv = h;
  id = q.id;
  config = q.config;
  publishes = inl (q.published, q.last_rebirth);
}

pub Quiet-then :
    {Store : Type 0} (clock : Clock) (n n' n'' : Node Store)
    → Quiet n n'
    → Handles clock n' n''
    → Handles clock n n''
Quiet-then clock n n' n'' q h = record {
  inv = h.inv;
  id = h.id ∙ q.id;
  config = h.config ∙ q.config;
  publishes = publishes h.publishes;
}
  where
    publishes : Publishes clock n' n'' → Publishes clock n n''
    publishes (inl (p, l)) = inl (p ∙ q.published, l ∙ q.last_rebirth)
    publishes (inr (p, l, c)) = inr (
      p ∙ ap₂ ◌∷◌ q.id q.published,
      l,
      subst (λ x. x ≤ clock.now)
          (ap₂ ◌+◌ q.last_rebirth (ap (λ x. x.rebirth_config.rebirth_cooldown) q.config)) c,
    )

module _ (M : MetricStore) where
  open M use {Store}

  pub set_stale-Quiet : (t : ℕ) (n : Node Store) → Quiet n (set_stale M t n)
  set_stale-Quiet t n =
      set_stale_cases M (λ n'. Quiet n n') t n
        (record { id = refl; config = refl; published = refl; last_rebirth = refl })
        (unfold go_stale in
          record { id = refl; config = refl; published = refl; last_rebirth = refl })

  cancelled-Inv : (n : Node Store) → Inv n → Inv (cancel_reorder_timeout n)
  unfolding cancel_reorder_timeout
  cancelled-Inv n h = record {
    well_formed = h.well_formed;
    no_buffer = h.no_buffer;
    no_timer = λ e. refl;
    stale_devices = h.stale_devices;
  }

  pub handle_death-Handles :
      (clock : Clock) (bdseq t : ℕ) (n : Node Store)
      → n.last_rebirth ≤ clock.now
      → Inv n
      → Returns (Handles clock n) (handle_death M clock bdseq t n)
  unfolding handle_death
  handle_death-Handles clock bdseq t n l h =
      let m : Node Store = cancel_reorder_timeout n in
      let n' : Node Store = set_stale M t m in
      let q = set_stale-Quiet t m in
      let i = (set_stale-Handles M clock t m (cancelled-Inv n h)).inv in
      let q' : Quiet n n' = record {
        id = q.id;
        config = q.config;
        published = q.published;
        last_rebirth = q.last_rebirth;
      } in
      elim (Bool-cases (bdseq == n'.bdseq)) [
        | inl e ↦ rw (e, Returns) (Quiet-Handles clock n n' q' i)
        | inr e ↦
            rw (e, Returns)
              (Returns-imp (issue_rebirth M clock RebirthReason.out_of_sync_bdseq n')
                (λ x. Quiet-then clock n n' x q')
                (issue_rebirth-Handles M clock RebirthReason.out_of_sync_bdseq n'
                  (subst (λ x. x ≤ clock.now) (sym q.last_rebirth) l) i))
      ]
