-- ===== src/Feishu/Messages/Chats.antt =====
-- The workspace of a chat.
use esr.Base.{
  ◌≡◌, refl, ap, ◌∙◌, Option, none, some, List, [], ◌∷◌, Str, eq_iff, lit, Dict, All, if◌then◌else◌,
  arith,
}
use esr.Base.Result.{Result, ok, Exc, ◌>>=◌}
use esr.Value.{Value, null, str, obj, Fields, fields, value_get, get_or}
use esr.Workspaces.{Workspace, read_workspaces}
use esr.Feishu.Messages.{
  WorkspaceMap, same_key, map_get, map_put, map_of, put_chat, add_chats, add_workspaces,
  load_workspace_map,
}

map_get-map_put :
    (m : WorkspaceMap) (j k : Str × Str) (name : Str)
    → map_get (map_put m j name) k ≡ (if same_key j k then some name else map_get m k)
unfolding map_get map_put
map_get-map_put [] j k name = refl
map_get-map_put ((i, old) ∷ m) j k name = ground (
  arith,
  eq_iff i.0 j.0,
  eq_iff i.1 j.1,
  eq_iff i.0 k.0,
  eq_iff i.1 k.1,
  eq_iff j.0 k.0,
  eq_iff j.1 k.1,
  map_get-map_put m j k name,
)

abbrev pub key_of : (chat_id app_id : Value) → Option (Str × Str)
key_of (str chat_id) (str app_id) = some (chat_id, app_id)
key_of _ _ = none

-- A chat that is a dict with two texts for identifiers.
abbrev pub listed_key : Value → Option (Str × Str)
listed_key (obj fs) =
    key_of (get_or (fields fs) (lit "chat_id") null) (get_or (fields fs) (lit "app_id") null)
listed_key _ = none

abbrev pub IsDict : Value → Type 0
IsDict v = (fs : Fields) × (v ≡ obj fs)

-- The name that a listing gives to the chat, or the one it had.
abbrev pub renamed : Option (Str × Str) → (k : Str × Str) → (name : Str) → Option Str → Option Str
renamed none k name old = old
renamed (some j) k name old = if same_key j k then some name else old

-- The last of the workspaces' listings of the chat, after those before.
abbrev pub last_listed : List Value → (k : Str × Str) → (name : Str) → Option Str → Option Str
last_listed [] k name old = old
last_listed (chat ∷ chats) k name old =
    last_listed chats k name (renamed (listed_key chat) k name old)

abbrev pub last_workspace : Dict Workspace → (k : Str × Str) → Option Str → Option Str
last_workspace [] k old = old
last_workspace ((key, ws) ∷ rest) k old = last_workspace rest k (last_listed ws.chats k ws.name old)

map_get-put_chat :
    (m : WorkspaceMap) (chat_id app_id : Value) (k : Str × Str) (name : Str)
    → map_get (put_chat m chat_id app_id name) k
      ≡ renamed (key_of chat_id app_id) k name (map_get m k)
map_get-put_chat m (str chat_id) (str app_id) k name = map_get-map_put m (chat_id, app_id) k name
map_get-put_chat m (str chat_id) _ k name = refl
map_get-put_chat m _ app_id k name = refl

add_chats_lem :
    (m : WorkspaceMap) (name : Str) (chats : List Value)
    → All IsDict chats
    → (after : WorkspaceMap) × (add_chats m name chats ≡ ok after)
      × ((k : Str × Str) → map_get after k ≡ last_listed chats k name (map_get m k))
unfolding add_chats value_get
add_chats_lem m name [] h = (m, refl, λ k. refl)
add_chats_lem m name (chat ∷ chats) ((fs, e), h) =
    let chat_id = get_or (fields fs) (lit "chat_id") null in
    let app_id = get_or (fields fs) (lit "app_id") null in
    let (after, added, found) = add_chats_lem (put_chat m chat_id app_id name) name chats h in
    (
      after,
      rw e added,
      λ k.
          rw e (found k ∙ ap (last_listed chats k name) (map_get-put_chat m chat_id app_id k name)),
    )

-- Every chat of the workspaces is a dict.
abbrev pub AllDicts : Dict Workspace → Type 0
AllDicts [] = Unit
AllDicts ((key, ws) ∷ rest) = All IsDict ws.chats × AllDicts rest

add_workspaces_lem :
    (m : WorkspaceMap) (workspaces : Dict Workspace)
    → AllDicts workspaces
    → (after : WorkspaceMap) × (add_workspaces m workspaces ≡ ok after)
      × ((k : Str × Str) → map_get after k ≡ last_workspace workspaces k (map_get m k))
unfolding add_workspaces
add_workspaces_lem m [] h = (m, refl, λ k. refl)
add_workspaces_lem m ((key, ws) ∷ rest) (h, hs) =
    let (more, added, listed) = add_chats_lem m ws.name ws.chats h in
    let (after, all, found) = add_workspaces_lem more rest hs in
    (after, rw added all, λ k. found k ∙ ap (last_workspace rest k) (listed k))

-- If every chat of the table is a dict, the map is made, and the name that it has for a chat of an app
-- is that of the last workspace that lists the two identifiers as texts, and none if no workspace does.
pub load_workspace_map_lem :
    (doc : Result Exc Value) (workspaces : Dict Workspace)
    → (doc >>= read_workspaces) ≡ ok workspaces
    → AllDicts workspaces
    → (m : WorkspaceMap) × (load_workspace_map doc ≡ ok m)
      × ((k : Str × Str) → map_get m k ≡ last_workspace workspaces k none)
unfolding load_workspace_map
load_workspace_map_lem doc workspaces e h =
    let (m, added, found) = add_workspaces_lem [] workspaces h in
    (m, ap map_of e ∙ added, unfold map_get in found)
