-- ===== src/Handlers/Thread/Dedup.antt =====
-- The memory of message ids: the set, the order of arrival, and their bound.
use esr.Base.{
  ◌+◌, ◌≤◌, ◌≡◌, sym, ◌∙◌, ◌⊎◌, inl, inr, true, false, not, ◌&&◌, ◌||◌, List, [], ◌∷◌, ◌++◌, Str,
  ◌==◌, eq_iff, eq_refl, lit, contains, contains-append, Distinct, Distinct-append, length,
  length-append, Bool-cases, arith,
}
use esr.Value.{Value, nonempty}
use esr.Actions.{Event}
use esr.Handlers.Thread.{
  ThreadState, dedup_cap, set_add, set_remove, drop_oldest, with_added_dedup, with_chat_id, arg,
  note_chat, handle_inbound, handle_outbound, on_msg,
}

pub contains-set_add :
    (s : List Str) (x y : Str) → contains (set_add s x) y ≡ x == y || contains s y
unfolding contains set_add
contains-set_add s x y = ground (arith, eq_iff x y)

pub contains-set_remove :
    (s : List Str) (x y : Str) → contains (set_remove s x) y ≡ not (x == y) && contains s y
unfolding contains set_remove
contains-set_remove [] x y = ground arith
contains-set_remove (z ∷ s) x y =
    ground (arith, contains-set_remove s x y, eq_iff z x, eq_iff z y, eq_iff x y)

-- The set holds the ids of the order, each of which stands there once, and there are at most
-- `dedup_cap`.
pub record IsTracked (s : ThreadState) : Type 0 where
  pub same : (x : Str) → contains s.dedup x ≡ contains s.dedup_order x
  pub distinct : Distinct s.dedup_order
  pub bounded : length s.dedup_order ≤ dedup_cap

drop_oldest_same :
    (dedup order : List Str)
    → ((x : Str) → contains dedup x ≡ contains order x)
    → Distinct order
    → (x : Str) → contains (drop_oldest dedup order).0 x ≡ contains (drop_oldest dedup order).1 x
unfolding drop_oldest contains
drop_oldest_same dedup [] h d x = h x
drop_oldest_same dedup (oldest ∷ rest) h d x =
    ground (arith, h x, contains-set_remove dedup oldest x, eq_iff oldest x)

drop_oldest-Distinct :
    (dedup order : List Str) → Distinct order → Distinct (drop_oldest dedup order).1
unfolding drop_oldest
drop_oldest-Distinct dedup [] d = d
drop_oldest-Distinct dedup (oldest ∷ rest) d = ground arith

drop_oldest_bounded :
    (dedup order : List Str)
    → length order ≤ dedup_cap + 1
    → length (drop_oldest dedup order).1 ≤ dedup_cap
unfolding drop_oldest
drop_oldest_bounded dedup [] h = ground arith
drop_oldest_bounded dedup (oldest ∷ rest) h = ground arith

pub with_added_dedup-IsTracked :
    (s : ThreadState) (m : Str) → IsTracked s → IsTracked (with_added_dedup s m)
unfolding with_added_dedup contains
with_added_dedup-IsTracked s m t = elim (Bool-cases (contains s.dedup m)) [
  | inl old ↦ rw old t
  | inr new ↦
      let order : List Str = s.dedup_order ++ m ∷ [] in
      let d : Distinct order = Distinct-append s.dedup_order m t.distinct (sym (t.same m) ∙ new) in
      rw new (record {
        same =
            drop_oldest_same (m ∷ s.dedup) order
              (λ x. ground (arith, t.same x, contains-append s.dedup_order (m ∷ []) x)) d;
        distinct = drop_oldest-Distinct (m ∷ s.dedup) order d;
        bounded =
            drop_oldest_bounded (m ∷ s.dedup) order
              (omega (arith, length-append s.dedup_order (m ∷ []), t.bounded));
      })
]

IsTracked-same_memory :
    (s u : ThreadState)
    → s.dedup ≡ u.dedup
    → s.dedup_order ≡ u.dedup_order
    → IsTracked s
    → IsTracked u
IsTracked-same_memory s u p q t = record {
  same = rw (← p, ← q) t.same;
  distinct = rw (← q) t.distinct;
  bounded = rw (← q) t.bounded;
}

drop_oldest_keeps :
    (dedup order : List Str) (m : Str)
    → contains order m ≡ false
    → contains (drop_oldest (m ∷ dedup) (order ++ m ∷ [])).0 m ≡ true
unfolding drop_oldest contains
drop_oldest_keeps dedup [] m h = ground (arith, eq_refl m)
drop_oldest_keeps dedup (o ∷ order) m h =
    ground (arith, eq_refl m, contains-set_remove (m ∷ dedup) o m)

-- The id is remembered once it has been added.
pub with_added_dedup-contains :
    (s : ThreadState) (m : Str) → IsTracked s → contains (with_added_dedup s m).dedup m ≡ true
unfolding with_added_dedup contains drop_oldest
with_added_dedup-contains s m t = elim (Bool-cases (contains s.dedup m)) [
  | inl old ↦ rw old old
  | inr new ↦ rw new (drop_oldest_keeps s.dedup s.dedup_order m (sym (t.same m) ∙ new))
]

module _ (repr : Value → Str) where
  note_chat-dedup :
      (s : ThreadState) (c : Str)
      → ((note_chat s c).dedup ≡ s.dedup) × ((note_chat s c).dedup_order ≡ s.dedup_order)
  unfolding with_chat_id
  note_chat-dedup s c = ground arith

  handle_inbound-IsTracked :
      (s : ThreadState) (event : Event) → IsTracked s → IsTracked (handle_inbound repr s event).0
  unfolding handle_inbound
  handle_inbound-IsTracked s event t =
      let m : Str = arg repr event (lit "message_id") in
      let c : Str = arg repr event (lit "chat_id") in
      elim (Bool-cases (nonempty m)) [
        | inl full ↦ elim (Bool-cases (contains s.dedup m)) [
          | inl old ↦ rw (full, old) t
          | inr new ↦
              let seen : ThreadState = with_added_dedup s m in
              let (p, q) = note_chat-dedup seen c in
              rw (full, new)
                (IsTracked-same_memory seen (note_chat seen c) (sym p) (sym q)
                  (with_added_dedup-IsTracked s m t))
        ]
        | inr empty ↦
            let (p, q) = note_chat-dedup s c in
            rw empty (IsTracked-same_memory s (note_chat s c) (sym p) (sym q) t)
      ]

  -- Only an inbound message changes the state.
  pub on_msg-state :
      (s : ThreadState) (event : Event)
      → ((on_msg repr s event).0 ≡ s) ⊎ ((on_msg repr s event).0 ≡ (handle_inbound repr s event).0)
  unfolding on_msg handle_outbound
  on_msg-state s event = ground arith

  -- Every event, a repeated or a foreign one too, keeps the memory well formed: the set and the
  -- order of arrival hold the same ids, each once, and at most `dedup_cap` of them.
  pub on_msg-IsTracked :
      (s : ThreadState) (event : Event) → IsTracked s → IsTracked (on_msg repr s event).0
  on_msg-IsTracked s event t = elim (on_msg-state s event) [
    | inl e ↦ rw e t
    | inr e ↦ rw e (handle_inbound-IsTracked s event t)
  ]
