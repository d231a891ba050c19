-- ===== src/App/EventLoop/Session.antt =====
-- The invariant of the application's session.
use srad.Prelude.{
  ℕ, suc, ◌≤◌, ◌<◌, ◌≡◌, refl, sym, subst, true, false, some, List, [], ◌∷◌, not, ◌||◌, ◌==◌, ◌⊎◌,
  is_some, contains, remove, nat_eq, list_eq, arith, if_cases, Bool-cases, inl, inr,
}
use srad.Types.Message.{StatePayload, new_app}
use srad.App.EventLoop.{AppEventLoop, try_online, next_attempt, Input, shutdown, session_topics}
use srad.App.EventLoop.Calls.{
  latest_will, has_task, Announced, WasWill, Stamped, latest-WasWill, Timed, Tasked, Tasked-next,
}

abbrev pub two_64 : ℕ
two_64 = 18446744073709551616

-- None of the attempts whose tasks run is later than the latest.
abbrev pub UpTo : ℕ → List ℕ → Type 0
UpTo n [] = Unit
UpTo n (p ∷ ps) = (p ≤ n) × UpTo n ps

pub UpTo-mono : (n m : ℕ) (ps : List ℕ) → n ≤ m → UpTo n ps → UpTo m ps
UpTo-mono n m [] l h = tt
UpTo-mono n m (p ∷ ps) l h = (omega (arith, l, h.0), UpTo-mono n m ps l h.1)

pub UpTo-remove : (n a : ℕ) (ps : List ℕ) → UpTo n ps → UpTo n (remove a ps)
unfolding remove
UpTo-remove n a [] h = tt
UpTo-remove n a (p ∷ ps) h = elim (Bool-cases (p == a)) [
  | inl e ↦ rw (remove, e) (UpTo-remove n a ps h.1)
  | inr e ↦ rw (remove, e) (h.0, UpTo-remove n a ps h.1)
]

pub contains-UpTo : (n : ℕ) (ps : List ℕ) → UpTo n ps → contains (suc n) ps ≡ false
unfolding contains
contains-UpTo n [] h = refl
contains-UpTo n (p ∷ ps) h = ground (arith, h.0, contains-UpTo n ps h.1)

pub contains-remove : (a : ℕ) (ps : List ℕ) → contains a (remove a ps) ≡ false
unfolding contains remove
contains-remove a [] = refl
contains-remove a (p ∷ ps) = elim (Bool-cases (p == a)) [
  | inl e ↦ rw (remove, e) (contains-remove a ps)
  | inr e ↦ rw (remove, e) (ground (arith, contains-remove a ps, e))
]

pub contains-remove_other :
    (a b : ℕ) (ps : List ℕ) → (a == b) ≡ false → contains b (remove a ps) ≡ contains b ps
unfolding contains remove
contains-remove_other a b [] n = refl
contains-remove_other a b (p ∷ ps) n = elim (Bool-cases (p == a)) [
  | inl e ↦ rw (remove, e) (ground (arith, contains-remove_other a b ps n, e, n))
  | inr e ↦ rw (remove, e) (ground (arith, contains-remove_other a b ps n))
]

-- Nothing to wait for is left out: a connected application is online, tries to be, or will.
abbrev pub Progress : AppEventLoop → Type 0
Progress a =
    (not a.client_online || (a.online || (is_some a.retry_at || a.session_in_flight))) ≡ true

-- What is not the end of the application.
abbrev pub GoesOn : Input → Type 0
GoesOn (shutdown es) = ⊥
GoesOn _ = Unit

module _ (encode_state : StatePayload → List ℕ) where
  -- The application is online, and its STATE published, only on a connection and while its latest
  -- attempt does not run. An attempt that runs is the latest, or an earlier one whose result is no
  -- longer wanted. The will of the client is the host's, each online STATE has the time of a will
  -- that was set before it, and when the application is online, one with the time of the will that
  -- the client has was published since.
  pub record Inv (a : AppEventLoop) : Type 0 where
    pub connected : a.online ≡ true → a.client_online ≡ true
    pub published : a.published_online_state ≡ a.online
    pub idle : a.session_in_flight ≡ true → (a.online ≡ false) × (a.client_online ≡ true)
    pub bounded : UpTo a.session_attempt a.pending
    pub latest : contains a.session_attempt a.pending ≡ a.session_in_flight
    pub willed : latest_will a.calls ≡ some (new_app encode_state a.host_id a.will_timestamp)
    pub stamped : Stamped encode_state a.host_id a.calls
    pub tasked : Tasked encode_state a.host_id a.session_attempt a.will_timestamp a.calls a.tasks
    pub runs :
        a.session_in_flight ≡ true
        → (has_task a.session_attempt a.tasks ≡ true) ⊎ Announced a.will_timestamp a.calls
    pub announced : a.online ≡ true → Announced a.will_timestamp a.calls

  pub will-WasWill :
      (a : AppEventLoop) → Inv a → WasWill encode_state a.host_id a.will_timestamp a.calls
  will-WasWill a h = latest-WasWill encode_state a.host_id a.will_timestamp a.calls h.willed

  pub next_attempt-room : (n : ℕ) → suc n < two_64 → next_attempt n ≡ suc n
  unfolding next_attempt
  next_attempt-room n h = omega (arith, h)

  pub try_online-Inv :
      (a : AppEventLoop)
      → suc a.session_attempt < two_64
      → Inv a
      → Inv (try_online a) × Progress (try_online a)
  unfolding try_online session_topics contains
  try_online-Inv a r h =
      if_cases (λ (b : AppEventLoop). Inv b × Progress b)
        (not a.client_online || (a.online || (is_some a.retry_at || a.session_in_flight))) _ _
        (λ e. (h, e))
        (λ e. (
          record {
            connected = h.connected;
            published = h.published;
            idle = λ f. ground arith;
            bounded =
                subst (λ k. UpTo k (k ∷ a.pending)) (sym (next_attempt-room a.session_attempt r))
                  (
                    omega arith,
                    UpTo-mono a.session_attempt (suc a.session_attempt) a.pending (omega arith)
                        h.bounded,
                  );
            latest = ground arith;
            willed = h.willed;
            stamped = h.stamped;
            tasked =
                subst
                  (λ k.
                    Timed encode_state a.host_id k a.will_timestamp a.calls k a.will_timestamp
                    × Tasked encode_state a.host_id k a.will_timestamp a.calls a.tasks)
                  (sym (next_attempt-room a.session_attempt r))
                  (
                    (omega arith, λ e. refl, will-WasWill a h),
                    Tasked-next encode_state a.host_id a.session_attempt a.will_timestamp
                        a.will_timestamp a.calls a.tasks h.tasked,
                  );
            runs = λ f. inl (ground arith);
            announced = λ f. ground arith;
          },
          ground arith,
        ))
