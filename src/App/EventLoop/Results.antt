-- ===== src/App/EventLoop/Results.antt =====
-- The result of an attempt keeps the invariant of the application's session.
use srad.Prelude.{
  ℕ, ◌≡◌, refl, sym, subst, ◌∙◌, true, false, Option, List, ◌++◌, inl, inr, not, ◌==◌, ==_iff,
  Result, ok, err, contains, remove, nat_eq, list_eq, arith, if_cases,
}
use srad.Types.Message.{StatePayload}
use srad.App.Application.{AppEvent}
use srad.App.EventLoop.{
  AppEventLoop, on_session_established, on_session_failed, on_result, finished,
}
use srad.App.EventLoop.Tasks.{SessionError, Call, Task}
use srad.App.EventLoop.Calls.{Announced, Tasked-calls}
use srad.App.EventLoop.Steps.{EndedWith}
use srad.App.EventLoop.Session.{Inv, Progress, UpTo-remove, contains-remove, contains-remove_other}

module _ (encode_state : StatePayload → List ℕ) where
  -- The task of the attempt has ended, with these other tasks and all these calls.
  abbrev pub ended : ℕ → List Task → List Call → AppEventLoop → AppEventLoop
  ended attempt xs cs a = record a { pending = remove attempt a.pending; tasks = xs; calls = cs }

  -- The attempt is not the latest.
  earlier-Inv :
      (attempt : ℕ) (a : AppEventLoop) (xs : List Task) (cs : List Call)
      (r : Result SessionError (Unit {0}))
      → (attempt == a.session_attempt) ≡ false
      → EndedWith encode_state a.host_id attempt a.session_attempt a.will_timestamp a.calls a.tasks
          (xs, cs, r)
      → Inv encode_state a
      → Inv encode_state (ended attempt xs (cs ++ a.calls) a)
  earlier-Inv attempt a xs cs r e d h = record {
    connected = h.connected;
    published = h.published;
    idle = h.idle;
    bounded = UpTo-remove a.session_attempt attempt a.pending h.bounded;
    latest = contains-remove_other attempt a.session_attempt a.pending e ∙ h.latest;
    willed = d.extends.same_will ∙ h.willed;
    stamped = d.extends.stamped h.stamped;
    tasked =
        Tasked-calls encode_state a.host_id a.session_attempt a.will_timestamp a.calls
          (cs ++ a.calls) xs d.extends.was_will d.tasked;
    runs =
        λ f. elim (h.runs f) [ inl x ↦ inl (d.others e ∙ x) | inr y ↦ inr (d.extends.announced y) ];
    announced = λ f. d.extends.announced (h.announced f);
  }

  -- A result of the latest attempt.
  finished-Inv :
      (now : ℕ) (r : Result SessionError (Unit {0})) (a : AppEventLoop)
      → Inv encode_state a
      → a.client_online ≡ true
      → a.online ≡ false
      → a.session_in_flight ≡ false
      → (r ≡ ok tt → Announced a.will_timestamp a.calls)
      → Inv encode_state (finished now r a).1 × Progress (finished now r a).1
  unfolding on_session_established on_session_failed
  finished-Inv now (ok u) a h c o f s = (
    record {
      connected = λ e. c;
      published = refl;
      idle = λ e. ground arith;
      bounded = h.bounded;
      latest = h.latest;
      willed = h.willed;
      stamped = h.stamped;
      tasked = h.tasked;
      runs = h.runs;
      announced = λ e. s refl;
    },
    ground arith,
  )
  finished-Inv now (err e) a h c o f s = (
    record {
      connected = h.connected;
      published = sym o;
      idle = h.idle;
      bounded = h.bounded;
      latest = h.latest;
      willed = h.willed;
      stamped = h.stamped;
      tasked = h.tasked;
      runs = h.runs;
      announced = h.announced;
    },
    ground arith,
  )

  latest-Inv :
      (attempt : ℕ) (a : AppEventLoop) (xs : List Task) (cs : List Call)
      (r : Result SessionError (Unit {0}))
      → (attempt == a.session_attempt) ≡ true
      → a.session_in_flight ≡ true
      → EndedWith encode_state a.host_id attempt a.session_attempt a.will_timestamp a.calls a.tasks
          (xs, cs, r)
      → Inv encode_state a
      → Inv encode_state (record (ended attempt xs (cs ++ a.calls) a) { session_in_flight = false })
  latest-Inv attempt a xs cs r e f d h = record {
    connected = h.connected;
    published = h.published;
    idle = λ f. ground arith;
    bounded = UpTo-remove a.session_attempt attempt a.pending h.bounded;
    latest =
        subst (λ k. contains k (remove attempt a.pending) ≡ false)
          ((==_iff attempt a.session_attempt).0 e) (contains-remove attempt a.pending);
    willed = d.extends.same_will ∙ h.willed;
    stamped = d.extends.stamped h.stamped;
    tasked =
        Tasked-calls encode_state a.host_id a.session_attempt a.will_timestamp a.calls
          (cs ++ a.calls) xs d.extends.was_will d.tasked;
    runs = λ f. ground arith;
    announced = λ f. d.extends.announced (h.announced f);
  }

  pub result-Inv :
      (now attempt : ℕ) (a : AppEventLoop) (xs : List Task) (cs : List Call)
      (r : Result SessionError (Unit {0}))
      → contains attempt a.pending ≡ true
      → EndedWith encode_state a.host_id attempt a.session_attempt a.will_timestamp a.calls a.tasks
          (xs, cs, r)
      → Inv encode_state a
      → Progress a
      → Inv encode_state (on_result now attempt r (ended attempt xs (cs ++ a.calls) a)).1
        × Progress (on_result now attempt r (ended attempt xs (cs ++ a.calls) a)).1
  unfolding on_result
  result-Inv now attempt a xs cs r c d h p =
      if_cases (λ (o : Option AppEvent × AppEventLoop). Inv encode_state (o.1) × Progress (o.1))
        (not (attempt == a.session_attempt)) _ _
        (λ e. (earlier-Inv attempt a xs cs r (ground arith) d h, p))
        λ e.
          let q : (attempt == a.session_attempt) ≡ true = ground arith in
          let k : attempt ≡ a.session_attempt = (==_iff attempt a.session_attempt).0 q in
          let f : a.session_in_flight ≡ true =
            sym h.latest ∙ subst (λ k. contains k a.pending ≡ true) k c in
          let i = latest-Inv attempt a xs cs r q f d h in
          if_cases (λ (o : Option AppEvent × AppEventLoop). Inv encode_state (o.1) × Progress (o.1))
            (not a.client_online) _ _ (λ g. (i, ground arith))
            (λ g.
              finished-Inv now r
                (record (ended attempt xs (cs ++ a.calls) a) { session_in_flight = false }) i
                (ground arith) (h.idle f).0 refl (λ o. d.succeeds o k (h.runs f)))
