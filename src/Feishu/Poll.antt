-- ===== src/Feishu/Poll.antt =====
-- `_poll_chat_messages` of adapters/feishu/src/esr_feishu/adapter.py: the rounds of the poll of a
-- chat. A message's identifier is a text; a message without one counts as one with the empty text.
pub mod Once
use esr.Base.{
  ◌≡◌, refl, sym, ap, ◌∙◌, inl, inr, Bool, true, false, not, ◌&&◌, ◌||◌, Option, none, some, List,
  [], ◌∷◌, ◌++◌, reverse, Str, lit, Dict, contains, map, arith, if◌then◌else◌, Bool-cases, Distinct,
  All, ◌==◌, eq_iff, contains-append,
}
use esr.Base.Result.{Result, ok, err, Exc}
use esr.Value.{Value, null, str, nonempty}
use esr.Adapters.{AdapterConfig}
use esr.Feishu.Messages.{attr, WorkspaceMap, message_to_envelope}

pub record Poll : Type 0 where
  pub seen : List Str
  pub bootstrap : Bool

abbrev pub start : Poll
start = record { seen = []; bootstrap = true }

abbrev text_id : Value → Str
text_id (str id) = id
text_id v = []

abbrev pub id_of : Value → Str
id_of m = text_id (attr m (lit "message_id") null)

-- Is the message one that was not seen?
abbrev pub is_new : List Str → Value → Bool
is_new seen m = nonempty (id_of m) && not (contains seen (id_of m))

-- The identifiers that are seen after a list.
unfoldable pub see : List Str → List Value → List Str
see seen [] = seen
see seen (m ∷ ms) = see (if is_new seen m then id_of m ∷ seen else seen) ms

-- The messages of a list that are new, in its order.
unfoldable pub fresh : List Str → List Value → List Value
fresh seen [] = []
fresh seen (m ∷ ms) =
    let rest = fresh (if is_new seen m then id_of m ∷ seen else seen) ms in
    if is_new seen m then m ∷ rest else rest

-- One round, with the messages that it takes up, the oldest first; `none` is a call that failed or
-- gave no items.
unfoldable pub poll : Poll → Option (List Value) → List Value × Poll
unfolding see fresh
poll p none = ([], p)
poll p (some []) = ([], p)
poll p (some (m ∷ ms)) = (
  if p.bootstrap then [] else reverse (fresh p.seen (m ∷ ms)),
  record { seen = see p.seen (m ∷ ms); bootstrap = false },
)

-- The messages that the rounds take up.
unfoldable pub polls : Poll → List (Option (List Value)) → List Value
unfolding poll
polls p [] = []
polls p (list ∷ lists) = (poll p list).0 ++ polls (poll p list).1 lists

-- The envelopes of these messages, up to one for which an exception is raised.
module _ (loads : Value → Result Exc Value) (actor_id : Str) (config : AdapterConfig)
    (workspaces : WorkspaceMap) where
  unfoldable pub enqueued : (chat_id : Value) → List Value → List (Dict Value)
  enqueued chat_id [] = []
  enqueued chat_id (m ∷ ms) =
      let rest = enqueued chat_id ms in
      elim (message_to_envelope loads actor_id config workspaces m chat_id) [
        | ok e ↦ e ∷ rest
        | err raised ↦ []
      ]
