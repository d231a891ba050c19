-- ===== src/App/Node/Death.antt =====
-- What a death leaves of a node.
use srad.Prelude.{
  ℕ, ◌≤◌, ◌<◌, ◌≡◌, refl, sym, ap, ap₂, ◌∙◌, ==_iff, not, true, false, ◌≢◌, ◌⊎◌, inl, inr, ◌+◌, ◌∷◌,
  [], ltb, ◌==◌, arith, Returns, if_cases, AllValues,
}
use srad.App.Resequencer
use srad.App.Resequencer.{Resequencer}
use srad.App.Resequencer.Invariant.{parts}
use srad.App.Rebirth.{RebirthReason, evaluate_rebirth_reason}
use srad.App.Device.{LifecycleState, MetricStore, birthed, stale}
use srad.App.Node.{
  Node, Clock, is_birthed, set_stale, go_stale, publish_rebirth, issue_rebirth, handle_death,
  cancel_reorder_timeout,
}
use srad.App.Node.Invariant.{IsStale, all-IsStale, set_stale_cases, issue_rebirth_cases}

module _ (M : MetricStore) where
  open M use {Store}

  -- The node was left by its session: it is stale with all its devices, and buffers nothing.
  pub record DiedAt (t : ℕ) (n n' : Node Store) : Type 0 where
    pub lifecycle_state : n'.lifecycle_state ≡ stale
    pub stale_timestamp : n'.stale_timestamp ≡ t
    pub resequencer : n'.resequencer ≡ parts Resequencer.good [] 0
    pub no_timer : n'.resequence_timeout_task ≡ false
    pub devices : AllValues IsStale n'.devices
    pub published : n'.published ≡ n.published

  went-DiedAt : (t : ℕ) (n : Node Store) → DiedAt t n (go_stale M t (cancel_reorder_timeout n))
  unfolding go_stale cancel_reorder_timeout
  went-DiedAt t n = record {
    lifecycle_state = refl;
    stale_timestamp = refl;
    resequencer = refl;
    no_timer = refl;
    devices = all-IsStale M n.devices;
    published = refl;
  }

  -- A death that a node meets while it is birthed, not older than its birth; and any other.
  abbrev pub Dies : ℕ → Node Store → Type 0
  Dies t n = (n.lifecycle_state ≡ birthed) × (n.birth_timestamp ≤ t)

  abbrev pub Survives : ℕ → Node Store → Type 0
  Survives t n = (n.lifecycle_state ≡ stale) ⊎ (t < n.birth_timestamp)

  -- The node is stale, or nothing has changed but that the timer is stopped.
  abbrev pub Settled : ℕ → Node Store → Node Store → Type 0
  Settled t n n' = (Dies t n × DiedAt t n n') ⊎ (Survives t n × (n' ≡ cancel_reorder_timeout n))

  -- Whether a rebirth may be asked for.
  abbrev pub MayAsk : Clock → Node Store → Type 0
  MayAsk clock n =
      (n.config.rebirth_config.out_of_sync_bdseq ≡ true)
      × (n.last_rebirth + n.config.rebirth_config.rebirth_cooldown ≤ clock.now)

  abbrev pub MayNotAsk : Clock → Node Store → Type 0
  MayNotAsk clock n =
      (n.config.rebirth_config.out_of_sync_bdseq ≡ false)
      ⊎ (clock.now < n.last_rebirth + n.config.rebirth_config.rebirth_cooldown)

  -- One rebirth command was published, and its time is kept.
  abbrev pub Asked : Clock → Node Store → Node Store → Type 0
  Asked clock n n' = (n'.published ≡ n.id ∷ n.published) × (n'.last_rebirth ≡ clock.now)

  -- What a death of the session `bdseq` leaves.
  abbrev pub Death : Clock → ℕ → ℕ → Node Store → Node Store → Type 0
  Death clock bdseq t n n' =
      ((bdseq ≡ n.bdseq) × Settled t n n')
      ⊎ (((bdseq ≢ n.bdseq) × MayAsk clock n × Asked clock n n')
          ⊎ ((bdseq ≢ n.bdseq) × MayNotAsk clock n × Settled t n n'))

  is_stale : (l : LifecycleState) → not (is_birthed l) ≡ true → l ≡ stale
  is_stale birthed e = cc
  is_stale stale e = refl

  not_stale : (l : LifecycleState) → not (is_birthed l) ≡ false → l ≡ birthed
  not_stale birthed e = refl
  not_stale stale e = cc

  -- What the first half of the handler keeps.
  record Keeps (n m : Node Store) : Type 0 where
    bdseq : m.bdseq ≡ n.bdseq
    id : m.id ≡ n.id
    config : m.config ≡ n.config
    published : m.published ≡ n.published
    last_rebirth : m.last_rebirth ≡ n.last_rebirth

  Half : ℕ → Node Store → Node Store → Type 0
  Half t n m = Settled t n m × Keeps n m

  died-Half :
      (t : ℕ) (n : Node Store) → Dies t n → Half t n (go_stale M t (cancel_reorder_timeout n))
  unfolding go_stale cancel_reorder_timeout Half
  died-Half t n d = (
    inl (d, went-DiedAt t n),
    record { bdseq = refl; id = refl; config = refl; published = refl; last_rebirth = refl },
  )

  survived-Half : (t : ℕ) (n : Node Store) → Survives t n → Half t n (cancel_reorder_timeout n)
  unfolding cancel_reorder_timeout Half
  survived-Half t n d = (
    inr (d, refl),
    record { bdseq = refl; id = refl; config = refl; published = refl; last_rebirth = refl },
  )

  set_stale-Half : (t : ℕ) (n : Node Store) → Half t n (set_stale M t (cancel_reorder_timeout n))
  unfolding set_stale cancel_reorder_timeout
  set_stale-Half t n =
      if_cases (Half t n) (not (is_birthed n.lifecycle_state)) _ _
        (λ e. survived-Half t n (inl (is_stale n.lifecycle_state e)))
        (λ e.
          if_cases (Half t n) (ltb t n.birth_timestamp) _ _
            (λ f. survived-Half t n (inr (ground (arith, f))))
            (λ f. died-Half t n (not_stale n.lifecycle_state e, ground (arith, f))))

  publish_rebirth-Asked :
      (clock : Clock) (m : Node Store)
      → Asked clock m (publish_rebirth M clock (true, record m { last_rebirth = clock.now }))
  unfolding publish_rebirth
  publish_rebirth-Asked clock m =
      set_stale_cases M (λ n'. Asked clock m (record n' { published = m.id ∷ m.published }))
        clock.stamp (record m { last_rebirth = clock.now }) (refl, refl)
        (unfold go_stale in (refl, refl))

  asked :
      (clock : Clock) (n m : Node Store)
      → Keeps n m
      → m.last_rebirth + m.config.rebirth_config.rebirth_cooldown ≤ clock.now
      → evaluate_rebirth_reason m.config.rebirth_config RebirthReason.out_of_sync_bdseq ≡ true
      → MayAsk clock n
  unfolding evaluate_rebirth_reason
  asked clock n m k c e = (
    sym (ap (λ x. x.rebirth_config.out_of_sync_bdseq) k.config) ∙ e,
    omega (arith, c, k.last_rebirth, ap (λ x. x.rebirth_config.rebirth_cooldown) k.config),
  )

  not_asked :
      (clock : Clock) (n m : Node Store)
      → Keeps n m
      → (evaluate_rebirth_reason m.config.rebirth_config RebirthReason.out_of_sync_bdseq ≡ false)
        ⊎ (clock.now < m.last_rebirth + m.config.rebirth_config.rebirth_cooldown)
      → MayNotAsk clock n
  unfolding evaluate_rebirth_reason
  not_asked clock n m k (inl e) =
      inl (sym (ap (λ x. x.rebirth_config.out_of_sync_bdseq) k.config) ∙ e)
  not_asked clock n m k (inr c) =
      inr (omega (arith, c, k.last_rebirth, ap (λ x. x.rebirth_config.rebirth_cooldown) k.config))

  -- The second half, when the death is of another session.
  rebirth-Death :
      (clock : Clock) (bdseq t : ℕ) (n m : Node Store)
      → n.last_rebirth ≤ clock.now
      → bdseq ≢ n.bdseq
      → Half t n m
      → Returns (Death clock bdseq t n) (issue_rebirth M clock RebirthReason.out_of_sync_bdseq m)
  unfolding Half
  rebirth-Death clock bdseq t n m l b h =
      issue_rebirth_cases M (Returns (Death clock bdseq t n)) clock RebirthReason.out_of_sync_bdseq
        m (omega (arith, l, h.1.last_rebirth)) (λ c. inr (inr (b, not_asked clock n m h.1 c, h.0)))
        (λ c e.
          let a = publish_rebirth-Asked clock m in
          inr (inl (b, asked clock n m h.1 c e, (a.0 ∙ ap₂ ◌∷◌ h.1.id h.1.published, a.1))))

  -- A death that reaches a node at a time that is not before its last rebirth request. If it is of
  -- the session that the node is in, no rebirth is asked for: a node that is birthed, no later than
  -- the death, becomes stale with all its devices, buffers nothing and stops the timer, and any
  -- other only stops the timer. If it is of another session, then one rebirth command is published
  -- when the configuration allows it and the cooldown has passed, and else the node is left as by
  -- a death of its own session.
  pub handle_death-Death :
      (clock : Clock) (bdseq t : ℕ) (n : Node Store)
      → n.last_rebirth ≤ clock.now
      → Returns (Death clock bdseq t n) (handle_death M clock bdseq t n)
  unfolding handle_death Half
  handle_death-Death clock bdseq t n l =
      let h = set_stale-Half t n in
      if_cases (Returns (Death clock bdseq t n))
        (bdseq == (set_stale M t (cancel_reorder_timeout n)).bdseq) _ _
        (λ e. inl ((==_iff bdseq _).0 e ∙ h.1.bdseq, h.0))
        (λ e.
          rebirth-Death clock bdseq t n (set_stale M t (cancel_reorder_timeout n)) l
            (λ f. ground (arith, e, f, h.1.bdseq)) h)
