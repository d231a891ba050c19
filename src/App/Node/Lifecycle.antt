-- ===== src/App/Node/Lifecycle.antt =====
-- The births that change a node's state.
use srad.Prelude.{
  ◌<◌, ◌≡◌, refl, false, Option, none, some, [], leb, ◌==◌, ◌&&◌, ok, err, arith, Returns, Result,
  if_cases,
}
use srad.App.Resequencer
use srad.App.Resequencer.{Resequencer}
use srad.App.Resequencer.Invariant.{parts}
use srad.App.Payloads.{NBirth}
use srad.App.Device.{MetricStore, birthed, StateUpdateError}
use srad.App.Node.{
  Node, Clock, is_birthed, handle_birth, become_birthed, birth_outcome, notify_birth,
}

module _ (M : MetricStore) where
  open M use {Store}

  -- The store of the node, if it has one, takes the metrics of the birth.
  abbrev pub Accepts : NBirth → Option Store → Type 0
  Accepts b none = Unit
  Accepts b (some s) = (M.update_from_birth s b.metrics_details).1 ≡ ok tt

  -- The node is birthed by `b`: it expects the sequence number 1, buffers nothing and runs no timer.
  pub record BirthedBy (b : NBirth) (n n' : Node Store) : Type 0 where
    pub lifecycle_state : n'.lifecycle_state ≡ birthed
    pub birth_timestamp : n'.birth_timestamp ≡ b.timestamp
    pub bdseq : n'.bdseq ≡ b.bdseq
    pub resequencer : n'.resequencer ≡ parts Resequencer.good [] 1
    pub no_timer : n'.resequence_timeout_task ≡ false
    pub devices : n'.devices ≡ n.devices
    pub published : n'.published ≡ n.published

  become_birthed-BirthedBy :
      (b : NBirth) (n : Node Store) (s : Option Store)
      → BirthedBy b n (become_birthed M b (record n { store = s }))
  unfolding become_birthed
  become_birthed-BirthedBy b n s = record {
    lifecycle_state = refl;
    birth_timestamp = refl;
    bdseq = refl;
    resequencer = refl;
    no_timer = refl;
    devices = refl;
    published = refl;
  }

  outcome-BirthedBy :
      (clock : Clock) (b : NBirth) (n : Node Store) (r : Store × Result StateUpdateError (Unit {0}))
      → r.1 ≡ ok tt
      → Returns (BirthedBy b n) (birth_outcome M clock b n r)
  outcome-BirthedBy clock b n (s, ok _) e = become_birthed-BirthedBy b n (some s)
  outcome-BirthedBy clock b n (s, err x) e = cc

  notify-BirthedBy :
      (clock : Clock) (b : NBirth) (n : Node Store) (o : Option Store)
      → n.store ≡ o
      → Accepts b o
      → Returns (BirthedBy b n) (notify_birth M clock b n)
  unfolding notify_birth
  notify-BirthedBy clock b n none e a = rw (e, Returns) (become_birthed-BirthedBy b n n.store)
  notify-BirthedBy clock b n (some s) e a =
      rw (e, Returns) (outcome-BirthedBy clock b n (M.update_from_birth s b.metrics_details) a)

  -- A birth that is newer than the last one, whose metrics the node's store takes, makes the node
  -- birthed, whatever it was before: it expects the sequence number 1, buffers nothing, runs no
  -- reorder timer, and has published nothing.
  pub handle_birth-BirthedBy :
      (clock : Clock) (b : NBirth) (n : Node Store)
      → n.birth_timestamp < b.timestamp
      → Accepts b n.store
      → Returns (BirthedBy b n) (handle_birth M clock b n)
  unfolding handle_birth
  handle_birth-BirthedBy clock b n l a =
      let old : leb b.timestamp n.birth_timestamp ≡ false = ground arith in
      rw old (
        if_cases (Returns (BirthedBy b n)) (is_birthed n.lifecycle_state && n.bdseq == b.bdseq) _ _
          (λ e. become_birthed-BirthedBy b n n.store)
          (λ e. notify-BirthedBy clock b n n.store refl a))
