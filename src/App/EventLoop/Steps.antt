-- ===== src/App/EventLoop/Steps.antt =====
-- What the steps of the tasks keep: a call, and the end of an attempt.
use srad.Prelude.{
  ℕ, zero, suc, ◌≡◌, refl, ap, ◌∙◌, Bool, true, false, List, [], ◌∷◌, ◌++◌, ◌||◌, ◌==◌, ==_iff, ◌⊎◌,
  inl, inr, Result, ok, err, arith, Bool-cases, if_cases,
}
use srad.Types.Text.{Text}
use srad.Types.Topic.{StateTopic, TopicFilter}
use srad.Types.Message.{StatePayload}
use srad.App.EventLoop.Tasks.{
  Call, subscribe_many, publish_state_message, Task, establishes, announces, disconnects,
  republishes, call_task, establish, end_task, keep, end_with, SessionError, Ended,
}
use srad.App.EventLoop.Calls.{
  has_task, Announced, Timed, Tasked, Extends, no_call, subscribed, published, subscribed_published,
}

or_runs :
    (b c d : Bool) (P : Type 0)
    → (c ≡ true → (d ≡ true) ⊎ P)
    → (b || c) ≡ true
    → ((b || d) ≡ true) ⊎ P
or_runs true c d P f e = inl refl
or_runs false c d P f e = f e

module _ (encode_state : StatePayload → List ℕ) (host : Text) where
  -- What one call of a task leaves.
  pub record Called (n w : ℕ) (cs : List Call) (xs : List Task) (r : List Task × List Call)
      : Type 0 where
    pub extends : Extends encode_state host w cs (r.1 ++ cs)
    pub tasked : Tasked encode_state host n w cs (r.0)
    pub runs : has_task n xs ≡ true → (has_task n (r.0) ≡ true) ⊎ Announced w (r.1 ++ cs)

  pub call_task-Called :
      (i n w : ℕ) (cs : List Call) (xs : List Task)
      → Tasked encode_state host n w cs xs
      → Called n w cs xs (call_task i xs)
  unfolding call_task
  call_task-Called i n w cs [] h = record {
    extends = no_call encode_state host w cs;
    tasked = tt;
    runs = λ e. inl e;
  }
  call_task-Called zero n w cs (establishes k topic topics t ∷ xs) h = record {
    extends = subscribed encode_state host w cs topics;
    tasked = h;
    runs = λ e. inl e;
  }
  call_task-Called zero n w cs (announces k topic t ∷ xs) h = record {
    extends = published encode_state host w cs topic t h.0.2;
    tasked = h.1;
    runs = λ e. elim (Bool-cases (k == n)) [
      | inl f ↦ inr (inl (h.0.1 ((==_iff k n).0 f)))
      | inr f ↦ inl (ground (arith, e, f))
    ];
  }
  call_task-Called zero n w cs (republishes topic t ∷ xs) h = record {
    extends = published encode_state host w cs topic t h.0;
    tasked = h.1;
    runs = λ e. inl e;
  }
  call_task-Called zero n w cs (disconnects ∷ xs) h = record {
    extends = record {
      was_will = λ t i. i;
      stamped = λ i. i;
      same_will = refl;
      announced = λ i. i;
    };
    tasked = h;
    runs = λ e. inl e;
  }
  call_task-Called (suc i) n w cs (establishes k topic topics t ∷ xs) h =
      let c = call_task-Called i n w cs xs h.1 in
      record {
        extends = c.extends;
        tasked = (h.0, c.tasked);
        runs = λ e. or_runs (k == n) (has_task n xs) _ _ c.runs e;
      }
  call_task-Called (suc i) n w cs (announces k topic t ∷ xs) h =
      let c = call_task-Called i n w cs xs h.1 in
      record {
        extends = c.extends;
        tasked = (h.0, c.tasked);
        runs = λ e. or_runs (k == n) (has_task n xs) _ _ c.runs e;
      }
  call_task-Called (suc i) n w cs (republishes topic t ∷ xs) h =
      let c = call_task-Called i n w cs xs h.1 in
      record { extends = c.extends; tasked = (h.0, c.tasked); runs = c.runs }
  call_task-Called (suc i) n w cs (disconnects ∷ xs) h =
      let c = call_task-Called i n w cs xs h in
      record { extends = c.extends; tasked = c.tasked; runs = c.runs }

  -- What the end of the task of the attempt `k` leaves: if it succeeds and the attempt is the latest,
  -- whose task had its STATE to publish or had published it, the STATE has been published.
  pub record EndedWith (k n w : ℕ) (cs : List Call) (xs : List Task) (r : Ended) : Type 0 where
    pub extends : Extends encode_state host w cs (r.1 ++ cs)
    pub tasked : Tasked encode_state host n w cs (r.0)
    pub others : (k == n) ≡ false → has_task n (r.0) ≡ has_task n xs
    pub succeeds :
        r.2 ≡ ok tt → k ≡ n → (has_task n xs ≡ true) ⊎ Announced w cs → Announced w (r.1 ++ cs)

  -- The task of another attempt, or of none, that stands before.
  kept-EndedWith :
      (k n w : ℕ) (cs : List Call) (x : Task) (xs : List Task) (r : Ended)
      → (Tasked encode_state host n w cs (r.0) → Tasked encode_state host n w cs (x ∷ r.0))
      → ((k == n) ≡ false
          → has_task n (r.0) ≡ has_task n xs
          → has_task n (x ∷ r.0) ≡ has_task n (x ∷ xs))
      → (k ≡ n → has_task n (x ∷ xs) ≡ true → has_task n xs ≡ true)
      → EndedWith k n w cs xs r
      → EndedWith k n w cs (x ∷ xs) (keep x r)
  kept-EndedWith k n w cs x xs (ys, ds, r) t o s h = record {
    extends = h.extends;
    tasked = t h.tasked;
    others = λ e. o e (h.others e);
    succeeds = λ e f g. h.succeeds e f (elim g [ inl a ↦ inl (s f a) | inr b ↦ inr b ]);
  }

  -- The attempt's own task, with its calls.
  ended-EndedWith :
      (k n w j t : ℕ) (cs ds : List Call) (x : Task) (xs : List Task)
      (r : Result SessionError (Unit {0}))
      → j ≡ k
      → Extends encode_state host w cs (ds ++ cs)
      → Tasked encode_state host n w cs xs
      → has_task n (x ∷ xs) ≡ ((j == n) || has_task n xs)
      → (r ≡ ok tt → k ≡ n → Announced w (ds ++ cs))
      → EndedWith k n w cs (x ∷ xs) (xs, ds, r)
  ended-EndedWith k n w j t cs ds x xs r e c h o s = record {
    extends = c;
    tasked = h;
    others = λ f. ground (arith, o, f, e);
    succeeds = λ f g i. s f g;
  }

  established-EndedWith :
      (k n w j t : ℕ) (cs : List Call) (topic : StateTopic) (fs : List TopicFilter) (xs : List Task)
      (s p : Result Text (Unit {0}))
      → j ≡ k
      → Timed encode_state host n w cs j t
      → Tasked encode_state host n w cs xs
      → EndedWith k n w cs (establishes j topic fs t ∷ xs) (end_with xs (establish topic fs t s p))
  unfolding establish
  established-EndedWith k n w j t cs topic fs xs (err x) p e m h =
      ended-EndedWith k n w j t cs (subscribe_many fs ∷ []) (establishes j topic fs t) xs _ e
        (subscribed encode_state host w cs fs) h refl (λ f g. cc)
  established-EndedWith k n w j t cs topic fs xs (ok u) p e m h =
      ended-EndedWith k n w j t cs
        (publish_state_message topic (StatePayload.online t) ∷ subscribe_many fs ∷ [])
        (establishes j topic fs t) xs _ e
        (subscribed_published encode_state host w cs fs topic t m.2) h refl
        (λ f g. inl (m.1 (e ∙ g)))

  apart : (j k n : ℕ) → (j == k) ≡ false → k ≡ n → (j == n) ≡ false
  apart j k n e f = ground (arith, e, f)

  pub end_task-EndedWith :
      (k n w : ℕ) (s p : Result Text (Unit {0})) (cs : List Call) (xs : List Task)
      → Tasked encode_state host n w cs xs
      → EndedWith k n w cs xs (end_task k s p xs)
  unfolding end_task
  end_task-EndedWith k n w s p cs [] h = record {
    extends = no_call encode_state host w cs;
    tasked = tt;
    others = λ e. refl;
    succeeds = λ e f g. elim g [ inl a ↦ absurd (ground (arith, a)) | inr b ↦ b ];
  }
  end_task-EndedWith k n w s p cs (establishes j topic fs t ∷ xs) h =
      if_cases (EndedWith k n w cs (establishes j topic fs t ∷ xs)) (j == k) _ _
        (λ e. established-EndedWith k n w j t cs topic fs xs s p ((==_iff j k).0 e) h.0 h.1)
        (λ e.
          kept-EndedWith k n w cs (establishes j topic fs t) xs (end_task k s p xs) (λ i. (h.0, i))
            (λ f i. ap (λ b. (j == n) || b) i) (λ f i. ground (arith, apart j k n e f, i))
            (end_task-EndedWith k n w s p cs xs h.1))
  end_task-EndedWith k n w s p cs (announces j topic t ∷ xs) h =
      if_cases (EndedWith k n w cs (announces j topic t ∷ xs)) (j == k) _ _
        (λ e.
          ended-EndedWith k n w j t cs (publish_state_message topic (StatePayload.online t) ∷ [])
            (announces j topic t) xs _ ((==_iff j k).0 e)
            (published encode_state host w cs topic t h.0.2) h.1 refl
            (λ f g. inl (h.0.1 ((==_iff j k).0 e ∙ g))))
        (λ e.
          kept-EndedWith k n w cs (announces j topic t) xs (end_task k s p xs) (λ i. (h.0, i))
            (λ f i. ap (λ b. (j == n) || b) i) (λ f i. ground (arith, apart j k n e f, i))
            (end_task-EndedWith k n w s p cs xs h.1))
  end_task-EndedWith k n w s p cs (republishes topic t ∷ xs) h =
      kept-EndedWith k n w cs (republishes topic t) xs (end_task k s p xs) (λ i. (h.0, i))
        (λ f i. i) (λ f i. i) (end_task-EndedWith k n w s p cs xs h.1)
  end_task-EndedWith k n w s p cs (disconnects ∷ xs) h =
      kept-EndedWith k n w cs disconnects xs (end_task k s p xs) (λ i. i) (λ f i. i) (λ f i. i)
        (end_task-EndedWith k n w s p cs xs h)
