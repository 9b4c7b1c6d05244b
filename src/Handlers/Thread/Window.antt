-- ===== src/Handlers/Thread/Window.antt =====
-- How long a message id is remembered.
use esr.Base.{
  ℕ, ◌+◌, ◌≤◌, ◌<◌, ◌≡◌, refl, ap, ◌∙◌, ◌⊎◌, inl, inr, true, false, List, [], ◌∷◌, ◌++◌,
  append_assoc, Str, eq_refl, lit, contains, contains-append, length, length-append, ltb,
  Bool-cases, arith,
}
use esr.Value.{Value, nonempty}
use esr.Actions.{Event}
use esr.Handlers.Thread.{
  ThreadState, dedup_cap, drop_oldest, with_added_dedup, with_chat_id, arg, is_type, notify,
  note_chat, handle_inbound, on_msg,
}
use esr.Handlers.Thread.Dedup.{IsTracked, on_msg-IsTracked, on_msg-state}

-- The id stands in the order, with at most `k` younger ids.
abbrev pub Recent : ℕ → Str → List Str → Type 0
Recent k m order =
    (older : List Str) × (younger : List Str) × (order ≡ older ++ m ∷ younger)
    × (length younger ≤ k)

Recent-contains : (k : ℕ) (m : Str) (order : List Str) → Recent k m order → contains order m ≡ true
unfolding contains
Recent-contains k m order (older, younger, e, h) =
    rw (e, contains-append older (m ∷ younger) m) (ground (arith, eq_refl m))

Recent-drop_oldest :
    (k : ℕ) (m x : Str) (dedup older younger : List Str)
    → length younger ≤ k
    → k + 2 ≤ dedup_cap
    → Recent (k + 1) m (drop_oldest dedup ((older ++ m ∷ younger) ++ x ∷ [])).1
unfolding drop_oldest
Recent-drop_oldest k m x dedup [] younger h room = (
  [],
  younger ++ x ∷ [],
  ground (arith, length-append younger (x ∷ [])),
  omega (arith, length-append younger (x ∷ [])),
)
Recent-drop_oldest k m x dedup (o ∷ older) younger h room =
    elim (Bool-cases (ltb dedup_cap (length (o ∷ ((older ++ m ∷ younger) ++ x ∷ []))))) [
      | inl full ↦ (
        older,
        younger ++ x ∷ [],
        rw full (append_assoc older (m ∷ younger) (x ∷ [])),
        omega (arith, length-append younger (x ∷ [])),
      )
      | inr free ↦ (
        o ∷ older,
        younger ++ x ∷ [],
        rw free (ap (λ (l : List Str). o ∷ l) (append_assoc older (m ∷ younger) (x ∷ []))),
        omega (arith, length-append younger (x ∷ [])),
      )
    ]

Recent-with_added_dedup :
    (k : ℕ) (m x : Str) (s : ThreadState)
    → Recent k m s.dedup_order
    → k + 2 ≤ dedup_cap
    → Recent (k + 1) m (with_added_dedup s x).dedup_order
unfolding with_added_dedup
Recent-with_added_dedup k m x s (older, younger, e, h) room =
    elim (Bool-cases (contains s.dedup x)) [
      | inl old ↦ rw old (older, younger, e, omega arith)
      | inr new ↦ rw (new, e) (Recent-drop_oldest k m x (x ∷ s.dedup) older younger h room)
    ]

-- A new id starts with no younger one.
Recent-last :
    (m : Str) (dedup order : List Str) → Recent 0 m (drop_oldest dedup (order ++ m ∷ [])).1
unfolding drop_oldest
Recent-last m dedup [] = ([], [], ground arith, omega arith)
Recent-last m dedup (o ∷ order) =
    elim (Bool-cases (ltb dedup_cap (length (o ∷ (order ++ m ∷ []))))) [
      | inl full ↦ (order, [], rw full refl, omega arith)
      | inr free ↦ (o ∷ order, [], rw free refl, omega arith)
    ]

Recent-new :
    (m : Str) (s : ThreadState)
    → contains s.dedup m ≡ false
    → Recent 0 m (with_added_dedup s m).dedup_order
unfolding with_added_dedup
Recent-new m s new = rw new (Recent-last m (m ∷ s.dedup) s.dedup_order)

module _ (repr : Value → Str) where
  dedup_order-note_chat : (s : ThreadState) (c : Str) → (note_chat s c).dedup_order ≡ s.dedup_order
  unfolding with_chat_id
  dedup_order-note_chat s c = ground arith

  -- What an inbound message does to the order: nothing, or what the addition of its id does.
  handle_inbound-order :
      (s : ThreadState) (event : Event)
      → ((handle_inbound repr s event).0.dedup_order ≡ s.dedup_order)
        ⊎ ((handle_inbound repr s event).0.dedup_order
            ≡ (with_added_dedup s (arg repr event (lit "message_id"))).dedup_order)
  unfolding handle_inbound
  handle_inbound-order s event =
      let m : Str = arg repr event (lit "message_id") in
      let c : Str = arg repr event (lit "chat_id") in
      ground (arith, dedup_order-note_chat s c, dedup_order-note_chat (with_added_dedup s m) c)

  Recent-on_msg :
      (k : ℕ) (m : Str) (s : ThreadState) (event : Event)
      → Recent k m s.dedup_order
      → k + 2 ≤ dedup_cap
      → Recent (k + 1) m (on_msg repr s event).0.dedup_order
  Recent-on_msg k m s event r room =
      let (older, younger, e, h) = r in
      let later : Recent (k + 1) m s.dedup_order = (older, younger, e, omega arith) in
      elim (on_msg-state repr s event) [
        | inl same ↦ rw same later
        | inr inbound ↦ rw inbound (elim (handle_inbound-order s event) [
          | inl same ↦ rw same later
          | inr added ↦
              rw added (Recent-with_added_dedup k m (arg repr event (lit "message_id")) s r room)
        ])
      ]

  -- The state after a sequence of events.
  abbrev pub deliver : ThreadState → List Event → ThreadState
  deliver s [] = s
  deliver s (event ∷ events) = deliver (on_msg repr s event).0 events

  pub deliver-IsTracked :
      (s : ThreadState) (events : List Event) → IsTracked s → IsTracked (deliver s events)
  deliver-IsTracked s [] t = t
  deliver-IsTracked s (event ∷ events) t =
      deliver-IsTracked (on_msg repr s event).0 events (on_msg-IsTracked repr s event t)

  Recent-deliver :
      (k : ℕ) (m : Str) (s : ThreadState) (events : List Event)
      → Recent k m s.dedup_order
      → k + length events < dedup_cap
      → contains (deliver s events).dedup_order m ≡ true
  Recent-deliver k m s [] r room = Recent-contains k m s.dedup_order r
  Recent-deliver k m s (event ∷ events) r room =
      Recent-deliver (k + 1) m (on_msg repr s event).0 events
        (Recent-on_msg k m s event r (omega arith)) (omega arith)

  -- A message whose id is new is passed on once: its session is notified, and no other action is
  -- caused.
  pub on_msg_first :
      (s : ThreadState) (event : Event)
      → is_type event (lit "msg_received") ≡ true
      → contains s.dedup (arg repr event (lit "message_id")) ≡ false
      → (on_msg repr s event).1 ≡ notify repr s event ∷ []
  unfolding on_msg handle_inbound
  on_msg_first s event typed new = rw (typed, new) (ground arith)

  on_msg_again :
      (s : ThreadState) (event : Event)
      → is_type event (lit "msg_received") ≡ true
      → nonempty (arg repr event (lit "message_id")) ≡ true
      → contains s.dedup (arg repr event (lit "message_id")) ≡ true
      → on_msg repr s event ≡ (s, [])
  unfolding on_msg handle_inbound
  on_msg_again s event typed full old = rw (typed, full, old) refl

  first-Recent :
      (s : ThreadState) (event : Event)
      → is_type event (lit "msg_received") ≡ true
      → nonempty (arg repr event (lit "message_id")) ≡ true
      → contains s.dedup (arg repr event (lit "message_id")) ≡ false
      → Recent 0 (arg repr event (lit "message_id")) (on_msg repr s event).0.dedup_order
  unfolding on_msg handle_inbound
  first-Recent s event typed full new =
      let m : Str = arg repr event (lit "message_id") in
      let c : Str = arg repr event (lit "chat_id") in
      rw (typed, full, new, dedup_order-note_chat (with_added_dedup s m) c) (Recent-new m s new)

  -- From a well-formed memory: if a message with a new, nonempty id is handled, and then fewer than
  -- `dedup_cap` events of any kind, a message with the same id changes nothing and causes no
  -- action.
  pub redelivery_ignored :
      (s : ThreadState) (event again : Event) (events : List Event)
      → IsTracked s
      → is_type event (lit "msg_received") ≡ true
      → nonempty (arg repr event (lit "message_id")) ≡ true
      → contains s.dedup (arg repr event (lit "message_id")) ≡ false
      → length events < dedup_cap
      → is_type again (lit "msg_received") ≡ true
      → arg repr again (lit "message_id") ≡ arg repr event (lit "message_id")
      → on_msg repr (deliver (on_msg repr s event).0 events) again
        ≡ (deliver (on_msg repr s event).0 events, [])
  redelivery_ignored s event again events t typed full new few typed' same =
      let first : ThreadState = (on_msg repr s event).0 in
      let seen : contains (deliver first events).dedup_order (arg repr event (lit "message_id"))
          ≡ true =
        Recent-deliver 0 (arg repr event (lit "message_id")) first events
          (first-Recent s event typed full new) (omega arith) in
      let tracked : IsTracked (deliver first events) =
        deliver-IsTracked first events (on_msg-IsTracked repr s event t) in
      on_msg_again (deliver first events) again typed' (rw same full)
        (rw same (tracked.same (arg repr event (lit "message_id")) ∙ seen))
