-- ===== src/Eon/Sequence.antt =====
-- The sequence numbers and the death certificates of what an edge node publishes.
pub mod Devices
pub mod Births
pub mod Accepted
pub mod Registry
pub mod Sessions
pub mod Hosts
pub mod Run
pub mod Retry
pub mod Command
use srad.Prelude.{
  ℕ, ◌+◌, ◌%◌, ◌<◌, ◌≡◌, refl, sym, subst, ap, ◌∙◌, Bool, true, false, Option, none, some, List, [],
  ◌∷◌, not, Result, ok, err, arith, if_cases, Bool-cases, inl, inr, Option-cases, is_some,
  if◌then◌else◌,
}
use srad.Types.Text
use srad.Types.Text.{Text}
use srad.Types.Payload
use srad.Types.Payload.{Payload, Value, Metric}
use srad.Types.Topic.{NodeTopic, NodeMessage, nbirth, ndeath, ndata, ncmd}
use srad.Types.Message.{LastWill}
use srad.App.Metrics.{bdseq_from_payload_metrics}
use srad.Eon.State.{
  EonState, EonStateInner, get_next_seq, set_dead, ready_to_birth, generate_death_payload,
  create_last_will, Core, World, Call, subscribe_many, publish_node_message,
  try_publish_node_message, publish_device_message, try_publish_device_message, disconnect,
  disconnect_with_will, set_last_will, asked, with_state, StateError,
}

-- What a call does to the sequence: a birth of the node starts it, and any other message that has a
-- number goes on.
pub data Numbering : Type 0 where
  unnumbered : Numbering
  starts : Payload → Numbering
  goes_on : ℕ → Numbering

abbrev pub numbered : Option ℕ → Numbering
numbered none = unnumbered
numbered (some seq) = goes_on seq

abbrev pub numbering_of_node : NodeMessage → Payload → Numbering
numbering_of_node nbirth p = starts p
numbering_of_node ndeath p = numbered p.seq
numbering_of_node ndata p = numbered p.seq
numbering_of_node ncmd p = numbered p.seq

abbrev pub numbering : Call → Numbering
numbering (publish_node_message t p) = numbering_of_node t.message_type p
numbering (try_publish_node_message t p) = numbering_of_node t.message_type p
numbering (publish_device_message t p) = numbered p.seq
numbering (try_publish_device_message t p) = numbered p.seq
numbering _ = unnumbered

-- The latest number.
abbrev pub latest : List Call → Option ℕ
latest [] = none
latest (c ∷ cs) =
    let rest = latest cs in
    elim (numbering c) [ unnumbered ↦ rest | starts p ↦ p.seq | goes_on seq ↦ some seq ]

-- The will that the client has.
abbrev pub last_will : List Call → Option LastWill
last_will [] = none
last_will (set_last_will w ∷ cs) = some w
last_will (_ ∷ cs) = last_will cs

latest-quiet : (c : Call) (cs : List Call) → numbering c ≡ unnumbered → latest (c ∷ cs) ≡ latest cs
latest-quiet c cs e = rw (latest, e) refl

-- A call that is neither numbered nor a will.
abbrev pub NotWill : Call → Type 0
NotWill (set_last_will w) = ⊥
NotWill _ = Unit

last_will-quiet : (c : Call) (cs : List Call) → NotWill c → last_will (c ∷ cs) ≡ last_will cs
last_will-quiet (set_last_will w) cs n = elim n [ ]
last_will-quiet (subscribe_many fs) cs n = refl
last_will-quiet (publish_node_message t p) cs n = refl
last_will-quiet (try_publish_node_message t p) cs n = refl
last_will-quiet (publish_device_message t p) cs n = refl
last_will-quiet (try_publish_device_message t p) cs n = refl
last_will-quiet disconnect cs n = refl
last_will-quiet disconnect_with_will cs n = refl

get_next_seq-ok :
    (s : EonState) (q : ℕ) (t : EonState)
    → get_next_seq s ≡ ok (q, t)
    → (s.inner.birthed ≡ true)
      × (q ≡ (s.inner.seq + 1) % 256)
      × (t ≡ record s { inner = record s.inner { seq = q } })
unfolding get_next_seq
get_next_seq-ok s q t e = ground arith

module _ (W : World) where
  -- The will of these calls is the death certificate of the `bdSeq` that the birth has.
  pub record Certified (p : Payload) (cs : List Call) : Type 0 where
    pub state : EonState
    pub read : bdseq_from_payload_metrics p.metrics ≡ ok state.bdseq
    pub will : last_will cs ≡ some (create_last_will W.encode_payload state)

  abbrev pub Follows : Numbering → List Call → Type 0
  Follows unnumbered cs = Unit
  Follows (starts p) cs = (p.seq ≡ some 0) × Certified p cs
  Follows (goes_on seq) cs = (last : ℕ) × (latest cs ≡ some last) × (seq ≡ (last + 1) % 256)

  -- Each birth of the node has the number 0 and the `bdSeq` of the will; each other message that is
  -- numbered has the number after that of the message before it, modulo 256.
  abbrev pub InOrder : List Call → Type 0
  InOrder [] = Unit
  InOrder (c ∷ cs) = Follows (numbering c) cs × InOrder cs

  -- A node that is birthed is online, its primary host is as well, and the number of its latest
  -- message is the one that it holds; its death certificate is the client's will.
  pub record Inv (s : Core) : Type 0 where
    pub online : s.state.inner.birthed ≡ true → s.state.inner.online ≡ true
    pub ready : s.state.inner.birthed ≡ true → ready_to_birth s.state ≡ true
    pub seq : s.state.inner.birthed ≡ true → latest s.calls ≡ some s.state.inner.seq
    pub will : last_will s.calls ≡ some (create_last_will W.encode_payload s.state)
    pub bdseq : s.state.bdseq < 256
    pub in_order : InOrder s.calls

  pub asked-Inv :
      (c : Call) (s : Core) → numbering c ≡ unnumbered → NotWill c → Inv s → Inv (asked c s)
  asked-Inv c s e n h = record {
    online = h.online;
    ready = h.ready;
    seq = λ b. latest-quiet c s.calls e ∙ h.seq b;
    will = last_will-quiet c s.calls n ∙ h.will;
    bdseq = h.bdseq;
    in_order = (rw e tt, h.in_order);
  }

  pub dead-Inv : (s : Core) → Inv s → Inv (with_state set_dead s)
  unfolding set_dead ready_to_birth create_last_will generate_death_payload
  dead-Inv s h = record {
    online = λ b. ground arith;
    ready = λ b. ground arith;
    seq = λ b. ground arith;
    will = h.will;
    bdseq = h.bdseq;
    in_order = h.in_order;
  }

  -- A message that takes the next number.
  pub next-Inv :
      (c : Call) (s : Core) (q : ℕ) (t : EonState)
      → get_next_seq s.state ≡ ok (q, t)
      → numbering c ≡ goes_on q
      → NotWill c
      → Inv s
      → Inv (asked c (record s { state = t }))
  unfolding ready_to_birth create_last_will generate_death_payload
  next-Inv c s q t e g n h =
      let i = get_next_seq-ok s.state q t e in
      subst (λ t. Inv (asked c (record s { state = t }))) (sym i.2)
        (record {
          online = h.online;
          ready = h.ready;
          seq = λ b. rw (latest, g) refl;
          will = last_will-quiet c s.calls n ∙ h.will;
          bdseq = h.bdseq;
          in_order = (rw g (s.state.inner.seq, h.seq i.0, i.1), h.in_order);
        })
