-- ===== src/Handlers/Thread.antt =====
-- handlers/feishu_thread: `FeishuThreadState` and the handler `on_msg` of a thread.
pub mod Dedup
pub mod Window
use esr.Base.{
  ℕ, Bool, true, false, not, ◌&&◌, Option, none, some, List, [], ◌∷◌, ◌++◌, Str, ◌==◌, lit,
  contains, Dict, ltb, length, if◌then◌else◌,
}
use esr.Value.{Value, str, nonempty, py_str, get_or}
use esr.Actions.{Action, emit, Event}

-- `_DEDUP_CAP`
abbrev pub dedup_cap : ℕ
dedup_cap = 1000

-- `s | {x}` and `s - {x}`; a set is a list, of which the program only asks for membership.
unfoldable pub set_add : List Str → Str → List Str
set_add s x = if contains s x then s else x ∷ s

unfoldable pub set_remove : List Str → Str → List Str
set_remove [] x = []
set_remove (y ∷ s) x = let rest = set_remove s x in if y == x then rest else y ∷ rest

pub record ThreadState : Type 0 where
  pub thread_id : Str
  pub chat_id : Str
  pub dedup : List Str
  pub dedup_order : List Str
  pub ack_msg_id : Option Str

-- The two fields that `with_added_dedup` writes: the set and the order, after the new id is in
-- both.
unfoldable pub drop_oldest : List Str → List Str → List Str × List Str
unfolding set_remove
drop_oldest dedup [] = (dedup, [])
drop_oldest dedup (oldest ∷ rest) =
    if ltb dedup_cap (length (oldest ∷ rest))
    then (set_remove dedup oldest, rest)
    else (dedup, oldest ∷ rest)

unfoldable pub with_added_dedup : ThreadState → Str → ThreadState
unfolding set_add drop_oldest
with_added_dedup s msg_id =
    if contains s.dedup msg_id
    then s
    else let (dedup, order) = drop_oldest (set_add s.dedup msg_id) (s.dedup_order ++ msg_id ∷ []) in
      record s { dedup = dedup; dedup_order = order }

unfoldable pub with_chat_id : ThreadState → Str → ThreadState
with_chat_id s chat_id = record s { chat_id = chat_id }

unfoldable pub with_ack : ThreadState → Str → ThreadState
with_ack s msg_id = record s { ack_msg_id = some msg_id }

abbrev pub note_chat : ThreadState → Str → ThreadState
note_chat s chat_id =
    if nonempty chat_id && not (nonempty s.chat_id) then with_chat_id s chat_id else s

abbrev pub is_type : Event → Str → Bool
is_type event name = elim event.event_type [ str t ↦ t == name | _ ↦ false ]

module _ (repr : Value → Str) where
  -- `str(event.args.get(key, ""))`
  abbrev pub arg : Event → Str → Str
  arg event key = py_str repr (get_or event.args key (str []))

  -- The directive that tells the session of a message.
  abbrev pub notify : ThreadState → Event → Action
  notify s event = emit (str (lit "esr-channel")) (str (lit "notify_session")) (
      (lit "session_id", str s.thread_id)
      ∷ (lit "source", str (lit "feishu"))
      ∷ (lit "chat_id", str (arg event (lit "chat_id")))
      ∷ (lit "message_id", str (arg event (lit "message_id")))
      ∷ (lit "user", str (arg event (lit "sender_id")))
      ∷ (lit "content", str (arg event (lit "content")))
      ∷ [])

  unfoldable pub handle_inbound : ThreadState → Event → ThreadState × List Action
  handle_inbound s event =
      let msg_id = arg event (lit "message_id") in
      if nonempty msg_id && contains s.dedup msg_id
      then (s, [])
      else let seen = if nonempty msg_id then with_added_dedup s msg_id else s in
        (note_chat seen (arg event (lit "chat_id")), notify s event ∷ [])

  unfoldable pub handle_outbound : ThreadState → Event → ThreadState × List Action
  handle_outbound s event = if not (nonempty s.chat_id) then (s, []) else (
    s,
    emit (str (lit "feishu")) (str (lit "send_message"))
          ((lit "chat_id", str s.chat_id) ∷ (lit "content", str (arg event (lit "text"))) ∷ [])
        ∷ [],
  )

  unfoldable pub on_msg : ThreadState → Event → ThreadState × List Action
  on_msg s event =
      if is_type event (lit "msg_received")
      then handle_inbound s event
      else if is_type event (lit "cc_output")
      then handle_outbound s event
      else (s, [])
