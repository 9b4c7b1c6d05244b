-- ===== src/Bridge/Tools/Answers.antt =====
-- What a call of a tool returns.
use esr.Base.{
  ◌≡◌, refl, sym, inl, inr, true, false, Bool-cases, Option, none, some, List, [], ◌∷◌, ◌++◌, Str,
  ◌==◌, eq_refl, lit, Dict, get, get-put, if◌then◌else◌, if_both,
}
use esr.Base.Result.{Result, ok, err, Failure}
use esr.Value.{Value, null, str, get_or}
use esr.Bridge.Receive.{
  Bridge, Future, waiting, done, settle, resolve_call, start_call, notify_session, on_kind,
  dispatch_envelope, receive, receive_all,
}
use esr.Bridge.Tools.{says_error, err_content, answer_or_timeout, dispatch_tool}
use esr.Bridge.Tools.Verdicts.{
  Verdict, answers, ends, passes, verdict, after_verdict, first_result, get-append_some, IsOpen,
  Follows, receive-Follows,
}

module _ (repr : Value → Str) where
  stopped_receive_all :
      (b : Bridge) (frames : List (Str × Dict Value))
      → b.running ≡ false
      → receive_all repr b frames ≡ b
  unfolding receive_all
  stopped_receive_all b [] h = refl
  stopped_receive_all b (frame ∷ frames) h = rw h refl

  -- A result stays the first of its call.
  abbrev Kept : Str → Dict Value → Bridge → Type 0
  Kept r p b = get b.resolved r ≡ some p

  settle-Kept :
      (r : Str) (p : Dict Value) (b : Bridge) (s : Str) (payload : Dict Value) (o : Option Future)
      → Kept r p b
      → Kept r p (settle b s payload o)
  settle-Kept r p b s payload none h = h
  settle-Kept r p b s payload (some (done result)) h = h
  settle-Kept r p b s payload (some waiting) h = get-append_some b.resolved r s p payload h

  resolve_call-Kept :
      (r : Str) (p : Dict Value) (b : Bridge) (payload : Dict Value)
      → Kept r p b
      → Kept r p (resolve_call b payload)
  unfolding resolve_call
  resolve_call-Kept r p b payload h = of_id (get_or payload (lit "req_id") null)
    where
      of_id :
          (id : Value) → Kept r p (elim id [ str s ↦ settle b s payload (get b.pending s) | _ ↦ b ])
      of_id (str s) = settle-Kept r p b s payload (get b.pending s) h
      of_id null = h
      of_id _ = h

  on_kind-Kept :
      (r : Str) (p : Dict Value) (b : Bridge) (payload : Dict Value) (kind : Value)
      → Kept r p b
      → Kept r p (on_kind repr b payload kind)
  unfolding on_kind notify_session
  on_kind-Kept r p b payload null h = h
  on_kind-Kept r p b payload (str kind) h =
      if_both (Kept r p) (kind == lit "tool_result") (resolve_call-Kept r p b payload h) (
        if_both (Kept r p) (kind == lit "session_killed") h (
          if_both (Kept r p) (kind == lit "cleanup_check_requested") h
            (if_both (Kept r p) (kind == lit "notification") h h)))
  on_kind-Kept r p b payload _ h = h

  receive-Kept :
      (r : Str) (p : Dict Value) (b : Bridge) (frame : Str × Dict Value)
      → Kept r p b
      → Kept r p (receive repr b frame)
  unfolding receive dispatch_envelope
  receive-Kept r p b (event, payload) h =
      if_both (Kept r p) (event == lit "envelope")
        (on_kind-Kept r p b payload (get_or payload (lit "kind") null) h)
        (if_both (Kept r p) (event == lit "phx_close") h
          (if_both (Kept r p) (event == lit "phx_error") h h))

  receive_all-Kept :
      (r : Str) (p : Dict Value) (b : Bridge) (frames : List (Str × Dict Value))
      → Kept r p b
      → Kept r p (receive_all repr b frames)
  unfolding receive_all
  receive_all-Kept r p b [] h = h
  receive_all-Kept r p b (frame ∷ frames) h =
      if_both (Kept r p) b.running
        (receive_all-Kept r p (receive repr b frame) frames (receive-Kept r p b frame h)) h

  -- The frames that follow one, by what that was.
  after_frame :
      (r : Str) (b : Bridge) (frames : List (Str × Dict Value)) (v : Verdict)
      → Follows r v b
      → (IsOpen r b → get (receive_all repr b frames).resolved r ≡ first_result r frames)
      → get (receive_all repr b frames).resolved r ≡ after_verdict v (first_result r frames)
  after_frame r b frames (answers p) f more = receive_all-Kept r p b frames f
  after_frame r b frames ends f more = rw (stopped_receive_all b frames f.0) f.1
  after_frame r b frames passes f more = more f

  result-receive_all :
      (r : Str) (b : Bridge) (frames : List (Str × Dict Value))
      → IsOpen r b
      → get (receive_all repr b frames).resolved r ≡ first_result r frames
  unfolding receive_all
  result-receive_all r b [] h = h.unanswered
  result-receive_all r b (frame ∷ frames) h = simp h.runs (
      after_frame r (receive repr b frame) frames (verdict r frame)
        (receive-Follows repr r b frame h)
        (λ f. result-receive_all r (receive repr b frame) frames f))

  receive_all-append :
      (b : Bridge) (xs ys : List (Str × Dict Value))
      → receive_all repr b (xs ++ ys) ≡ receive_all repr (receive_all repr b xs) ys
  unfolding receive_all
  receive_all-append b [] ys = refl
  receive_all-append b (x ∷ xs) ys = elim (Bool-cases b.running) [
    | inl runs ↦ simp runs (receive_all-append (receive repr b x) xs ys)
    | inr stopped ↦ simp stopped (sym (stopped_receive_all b ys stopped))
  ]

  module _ (dumps : Value → Str) where
    abbrev pub outcome_of_push :
        (tool : Str)
        → Result Failure (Dict Value)
        → (found : Option (Dict Value)) → Result Failure (List Str)
    outcome_of_push tool (err f) found = err f
    outcome_of_push tool (ok reply) found =
        if says_error (get_or reply (lit "status") null)
        then ok (err_content repr dumps (lit "phx_push_error") (get_or reply (lit "response") null))
        else ok (answer_or_timeout repr dumps tool found)

    -- A call of a tool, in a session that runs, under an id that no call bears or has borne: if the
    -- push of its envelope raises, so does the call; if the push is answered by an error, the call
    -- returns that error; and else it returns the first result with its id, among all frames that
    -- came since the call began, before the session ended, whether it came before the push was
    -- answered or after it, and the error of a timeout if there is none.
    pub dispatch_tool_lem :
        (b : Bridge) (req_id tool : Str) (push_ended : Result Failure (Dict Value))
        (meanwhile later : List (Str × Dict Value))
        → b.running ≡ true
        → get b.resolved req_id ≡ none
        → (dispatch_tool repr dumps b true req_id tool push_ended meanwhile later).0
          ≡ outcome_of_push tool push_ended (first_result req_id (meanwhile ++ later))
    unfolding dispatch_tool
    dispatch_tool_lem b req_id tool (err f) meanwhile later runs fresh = refl
    dispatch_tool_lem b req_id tool (ok reply) meanwhile later runs fresh =
        let started = start_call b req_id in
        let is_open : IsOpen req_id started = record {
          runs = unfold start_call in runs;
          waits =
              unfold start_call in
              rw (get-put b.pending req_id req_id waiting, eq_refl req_id) refl;
          unanswered = unfold start_call in fresh;
        } in
        let found : get (receive_all repr (receive_all repr started meanwhile) later).resolved
              req_id
            ≡ first_result req_id (meanwhile ++ later) =
          rw (← receive_all-append started meanwhile later)
            (result-receive_all req_id started (meanwhile ++ later) is_open) in
        elim (Bool-cases (says_error (get_or reply (lit "status") null))) [
          | inl refused ↦ rw refused
          | inr taken ↦ rw (taken, found)
        ]
