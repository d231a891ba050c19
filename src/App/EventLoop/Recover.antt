-- ===== src/App/EventLoop/Recover.antt =====
-- The application's loop recovers while there is a connection.
use srad.Prelude.{
  ℕ, suc, ◌<◌, ◌≡◌, refl, ◌∙◌, true, false, Option, List, [], ◌∷◌, not, ◌||◌, ◌==◌, Result, ok,
  is_some, contains, nat_eq, arith, if_cases, Bool-cases, inl, inr,
}
use srad.Types.Text.{Text}
use srad.Types.Payload.{Payload}
use srad.Types.Message.{StatePayload}
use srad.App.Application.{AppEvent}
use srad.App.EventLoop.{
  AppEventLoop, try_online, poll_round, session_result, retry_time, on_result,
  on_session_established, session_topics,
}
use srad.App.EventLoop.Tasks.{
  Task, establishes, announces, republishes, disconnects, Ended, end_task, establish,
}
use srad.App.EventLoop.Session.{Inv, Progress, two_64}
use srad.App.EventLoop.Rounds.{round-Inv}

module _ (encode_state : StatePayload → List ℕ)
    (decode_payload : List ℕ → Result Text Payload) where
  -- At the time of a retry, what was due is due no more.
  retried : AppEventLoop → AppEventLoop
  retried a = (poll_round encode_state decode_payload retry_time a).1

  retried-due :
      (a : AppEventLoop)
      → (is_some (retried a).retry_at ≡ false) × ((retried a).client_online ≡ a.client_online)
  unfolding retried poll_round try_online session_topics
  retried-due a =
      if_cases
        (λ (o : Option AppEvent × AppEventLoop).
          (is_some o.1.retry_at ≡ false) × (o.1.client_online ≡ a.client_online))
        (not (is_some a.retry_at)) _ _ (λ e. (ground arith, refl))
        λ e.
          if_cases
            (λ (b : AppEventLoop).
              (is_some b.retry_at ≡ false) × (b.client_online ≡ a.client_online))
            (not a.client_online || (a.online || a.session_in_flight)) _ _ (λ f. (refl, refl))
            (λ f. (refl, refl))

  -- The latest attempt succeeds, if it runs.
  end_task-ok : (k : ℕ) (xs : List Task) → (end_task k (ok tt) (ok tt) xs).2 ≡ ok tt
  unfolding end_task establish
  end_task-ok k [] = refl
  end_task-ok k (establishes j topic fs t ∷ xs) =
      if_cases (λ (r : Ended). r.2 ≡ ok tt) (j == k) _ _ (λ e. refl) (λ e. end_task-ok k xs)
  end_task-ok k (announces j topic t ∷ xs) =
      if_cases (λ (r : Ended). r.2 ≡ ok tt) (j == k) _ _ (λ e. refl) (λ e. end_task-ok k xs)
  end_task-ok k (republishes topic t ∷ xs) = end_task-ok k xs
  end_task-ok k (disconnects ∷ xs) = end_task-ok k xs

  succeeds-online :
      (now : ℕ) (b : AppEventLoop)
      → Inv encode_state b
      → b.client_online ≡ true
      → (b.online || b.session_in_flight) ≡ true
      → (poll_round encode_state decode_payload
          (session_result now b.session_attempt (ok tt) (ok tt))
          b).1.online
        ≡ true
  unfolding poll_round on_result on_session_established
  succeeds-online now b h c o = elim (Bool-cases b.session_in_flight) [
    | inl f ↦
        let l : contains b.session_attempt b.pending ≡ true = h.latest ∙ f in
        let q : (b.session_attempt == b.session_attempt) ≡ true = ground arith in
        let e = end_task-ok b.session_attempt b.tasks in rw (l, e, q, c) refl
    | inr f ↦
        let l : contains b.session_attempt b.pending ≡ false = h.latest ∙ f in rw l (ground arith)
  ]

  -- While there is a connection, whatever has happened before: the time of a retry, and then the
  -- success of the latest attempt, leave the application online.
  pub poll_round-online :
      (now : ℕ) (a : AppEventLoop)
      → suc a.session_attempt < two_64
      → Inv encode_state a
      → Progress a
      → a.client_online ≡ true
      → let b : AppEventLoop = (poll_round encode_state decode_payload retry_time a).1 in
        (poll_round encode_state decode_payload
          (session_result now b.session_attempt (ok tt) (ok tt))
          b).1.online
        ≡ true
  unfolding retried
  poll_round-online now a r h p c =
      let i = round-Inv encode_state decode_payload retry_time a tt r h p in
      let d = retried-due a in
      succeeds-online now (poll_round encode_state decode_payload retry_time a).1 i.0 (d.1 ∙ c)
        (ground (arith, i.1, d.0, d.1, c))
