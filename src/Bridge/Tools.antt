-- ===== src/Bridge/Tools.antt =====
-- The calls of tools in py/src/cc_channel_runner/mcp_server.py. `dumps` is `json.dumps`. A call is told
-- by what happens during it: how the push of its envelope ends, and the frames that are received until
-- then and, after it, until the call has its result or times out.
pub mod Verdicts
pub mod Answers
use esr.Base.{
  ◌≡◌, refl, ◌∙◌, Bool, true, false, Option, none, some, List, [], ◌∷◌, ◌++◌, Str, ◌==◌, lit, Dict,
  get, remove, get-remove, eq_refl, if◌then◌else◌,
}
use esr.Base.Result.{Result, ok, err, Failure}
use esr.Value.{Value, null, bool, float, str, dict, get_or}
use esr.Bridge.Receive.{Bridge, start_call, receive_all}

-- `_TOOL_CALL_TIMEOUT_SECS`
abbrev pub timeout_secs : Value
timeout_secs = float (lit "30.0")

-- The envelope of a call.
abbrev pub tool_invoke : (req_id tool : Str) (arguments : Dict Value) → Dict Value
tool_invoke req_id tool arguments =
    (lit "kind", str (lit "tool_invoke"))
    ∷ (lit "req_id", str req_id)
    ∷ (lit "tool", str tool)
    ∷ (lit "args", dict arguments)
    ∷ []

abbrev detail_part : Value → Dict Value
detail_part null = []
detail_part detail = (lit "detail", detail) ∷ []

-- `v == "error"`
abbrev pub says_error : Value → Bool
says_error (str status) = status == lit "error"
says_error v = false

module _ (repr dumps : Value → Str) where
  -- `_err_content`
  unfoldable pub err_content : (code : Str) (detail : Value) → List Str
  err_content code detail =
      dumps (
        dict (
          (lit "ok", bool false)
          ∷ (lit "error", dict ((lit "type", str code) ∷ detail_part detail))
          ∷ []))
      ∷ []

  -- `_tool_result_to_content`
  unfoldable pub tool_result_to_content : Dict Value → List Str
  tool_result_to_content envelope = elim (get_or envelope (lit "ok") null) [
    | bool true ↦ dumps (get_or envelope (lit "data") null) ∷ []
    | bool false ↦
        dumps
          (dict ((lit "ok", bool false) ∷ (lit "error", get_or envelope (lit "error") null) ∷ []))
        ∷ []
    | _ ↦ dumps (dict envelope) ∷ []
  ]

  abbrev pub timed_out : (tool : Str) → List Str
  timed_out tool =
      err_content (lit "tool_result_timeout")
        (dict ((lit "tool", str tool) ∷ (lit "timeout_secs", timeout_secs) ∷ []))

  abbrev pub answer_or_timeout : (tool : Str) → Option (Dict Value) → List Str
  answer_or_timeout tool none = timed_out tool
  answer_or_timeout tool (some result) = tool_result_to_content result

  -- The `finally` of a call.
  abbrev pub forget : Bridge → Str → Bridge
  forget b req_id = record b { pending = remove b.pending req_id }

  abbrev pub awaited : Bridge → (req_id tool : Str) → Result Failure (List Str) × Bridge
  awaited b req_id tool = (ok (answer_or_timeout tool (get b.resolved req_id)), forget b req_id)

  -- What follows the push.
  abbrev pub pushed :
      Bridge
      → (req_id tool : Str) → Result Failure (Dict Value)
      → (later : List (Str × Dict Value)) → Result Failure (List Str) × Bridge
  pushed b req_id tool (err f) later = (err f, forget b req_id)
  pushed b req_id tool (ok reply) later =
      if says_error (get_or reply (lit "status") null)
      then (
        ok (err_content (lit "phx_push_error") (get_or reply (lit "response") null)),
        forget b req_id,
      )
      else awaited (receive_all repr b later) req_id tool

  unfoldable pub dispatch_tool :
      Bridge
      → (configured : Bool) (req_id tool : Str) → (push_ended : Result Failure (Dict Value))
      → (meanwhile later : List (Str × Dict Value)) → Result Failure (List Str) × Bridge
  unfolding err_content tool_result_to_content ◌==◌
  dispatch_tool b configured req_id tool push_ended meanwhile later =
      if configured
      then pushed (receive_all repr (start_call b req_id) meanwhile) req_id tool push_ended later
      else (ok (err_content (lit "phx_client_not_configured") null), b)

  -- `_call_tool`: the three tools are dispatched alike.
  unfoldable pub call_tool :
      Bridge
      → (configured : Bool) (req_id name : Str) → (push_ended : Result Failure (Dict Value))
      → (meanwhile later : List (Str × Dict Value)) → Result Failure (List Str) × Bridge
  unfolding dispatch_tool ◌==◌
  call_tool b configured req_id name push_ended meanwhile later =
      if name == lit "reply"
      then dispatch_tool b configured req_id name push_ended meanwhile later
      else if name == lit "send_file"
      then dispatch_tool b configured req_id name push_ended meanwhile later
      else if name == lit "submit_slash"
      then dispatch_tool b configured req_id name push_ended meanwhile later
      else (
        ok (((lit "{\"ok\": false, \"error\": \"unknown_tool: ") ++ name ++ (lit "\"}")) ∷ []),
        b,
      )

  forgotten : (b : Bridge) (req_id : Str) → get (forget b req_id).pending req_id ≡ none
  forgotten b req_id = get-remove b.pending req_id req_id ∙ rw (eq_refl req_id) refl

  -- However the push of a call ends, and whatever frames arrive during the call, no future of the
  -- call is left, if none waited under its id before.
  pub dispatch_tool_forgets :
      (b : Bridge) (configured : Bool) (req_id tool : Str)
      (push_ended : Result Failure (Dict Value)) (meanwhile later : List (Str × Dict Value))
      → get b.pending req_id ≡ none
      → get (dispatch_tool b configured req_id tool push_ended meanwhile later).1.pending req_id
        ≡ none
  unfolding dispatch_tool
  dispatch_tool_forgets b false req_id tool push_ended meanwhile later h = h
  dispatch_tool_forgets b true req_id tool (err f) meanwhile later h =
      forgotten (receive_all repr (start_call b req_id) meanwhile) req_id
  dispatch_tool_forgets b true req_id tool (ok reply) meanwhile later h =
      by_status (says_error (get_or reply (lit "status") null))
    where
      at_push : Bridge
      at_push = receive_all repr (start_call b req_id) meanwhile

      by_status :
          (failed : Bool)
          → get
              (if failed
                then (
                  ok (err_content (lit "phx_push_error") (get_or reply (lit "response") null)),
                  forget at_push req_id,
                )
                else awaited (receive_all repr at_push later) req_id tool).1.pending
              req_id
            ≡ none
      by_status true = forgotten at_push req_id
      by_status false = forgotten (receive_all repr at_push later) req_id
