-- ===== src/Bridge/Tools/Verdicts.antt =====
-- What one frame does to a call that waits.
use esr.Base.{
  ◌≡◌, refl, inl, inr, true, false, ◌||◌, Bool-cases, Option, none, some, List, [], ◌∷◌, ◌++◌, Str,
  ◌==◌, eq_iff, lit, Dict, get, get-remove, if◌then◌else◌, if_both, arith,
}
use esr.Value.{Value, null, str, get_or}
use esr.Bridge.Receive.{
  Bridge, Future, waiting, done, settle, resolve_call, notify_session, on_kind, dispatch_envelope,
  receive,
}

-- What a frame is to the call with the id.
pub data Verdict : Type 0 where
  answers : Dict Value → Verdict
  ends passes : Verdict

abbrev pub by_id : (r : Str) (payload : Dict Value) → Value → Verdict
by_id r payload (str s) = if s == r then answers payload else passes
by_id r payload _ = passes

abbrev pub by_kind : (r : Str) (payload : Dict Value) → Value → Verdict
by_kind r payload (str kind) =
    if kind == lit "tool_result"
    then by_id r payload (get_or payload (lit "req_id") null)
    else if kind == lit "session_killed"
    then ends
    else passes
by_kind r payload _ = passes

abbrev pub verdict : (r : Str) → Str × Dict Value → Verdict
verdict r (event, payload) =
    if event == lit "envelope"
    then by_kind r payload (get_or payload (lit "kind") null)
    else if event == lit "phx_close" || event == lit "phx_error"
    then ends
    else passes

abbrev pub after_verdict : Verdict → Option (Dict Value) → Option (Dict Value)
after_verdict (answers payload) rest = some payload
after_verdict ends rest = none
after_verdict passes rest = rest

-- The first result of the call, if one comes before the end of the session.
abbrev pub first_result : (r : Str) → List (Str × Dict Value) → Option (Dict Value)
first_result r [] = none
first_result r (frame ∷ frames) = after_verdict (verdict r frame) (first_result r frames)

pub get-append_some :
    (given : Dict (Dict Value)) (r s : Str) (p q : Dict Value)
    → get given r ≡ some p
    → get (given ++ (s, q) ∷ []) r ≡ some p
unfolding get
get-append_some [] r s p q h = cc
get-append_some ((t, x) ∷ given) r s p q h = ground (arith, get-append_some given r s p q)

get-append_none :
    (given : Dict (Dict Value)) (r s : Str) (q : Dict Value)
    → get given r ≡ none
    → get (given ++ (s, q) ∷ []) r ≡ (if s == r then some q else none)
unfolding get
get-append_none [] r s q h = refl
get-append_none ((t, x) ∷ given) r s q h = ground (arith, get-append_none given r s q)

-- The call waits, and the session runs.
pub record IsOpen (r : Str) (b : Bridge) : Type 0 where
  pub runs : b.running ≡ true
  pub waits : get b.pending r ≡ some waiting
  pub unanswered : get b.resolved r ≡ none

-- What one frame does to an open call.
abbrev pub Follows : Str → Verdict → Bridge → Type 0
Follows r (answers payload) b = get b.resolved r ≡ some payload
Follows r ends b = (b.running ≡ false) × (get b.resolved r ≡ none)
Follows r passes b = IsOpen r b

settle-answers :
    (r s : Str) (payload : Dict Value) (b : Bridge) (o : Option Future)
    → get b.pending s ≡ o
    → (s == r) ≡ true
    → IsOpen r b
    → get (settle b s payload o).resolved r ≡ some payload
settle-answers r s payload b none e same h = ground (arith, eq_iff s r)
settle-answers r s payload b (some (done result)) e same h = ground (arith, eq_iff s r)
settle-answers r s payload b (some waiting) e same h =
    rw (get-append_none b.resolved r s payload h.unanswered, same) refl

settle-IsOpen :
    (r s : Str) (payload : Dict Value) (b : Bridge) (o : Option Future)
    → (s == r) ≡ false
    → IsOpen r b
    → IsOpen r (settle b s payload o)
settle-IsOpen r s payload b none other h = h
settle-IsOpen r s payload b (some (done result)) other h = record {
  runs = h.runs;
  waits = rw (get-remove b.pending s r, other) h.waits;
  unanswered = h.unanswered;
}
settle-IsOpen r s payload b (some waiting) other h = record {
  runs = h.runs;
  waits = rw (get-remove b.pending s r, other) h.waits;
  unanswered = rw (get-append_none b.resolved r s payload h.unanswered, other) refl;
}

resolve_call-Follows :
    (r : Str) (payload : Dict Value) (b : Bridge)
    → IsOpen r b
    → Follows r (by_id r payload (get_or payload (lit "req_id") null)) (resolve_call b payload)
unfolding resolve_call
resolve_call-Follows r payload b h = of_id (get_or payload (lit "req_id") null)
  where
    of_id :
        (id : Value)
        → Follows r
            (by_id r payload id)
            (elim id [ str s ↦ settle b s payload (get b.pending s) | _ ↦ b ])
    of_id (str s) = elim (Bool-cases (s == r)) [
      | inl same ↦ rw same (settle-answers r s payload b (get b.pending s) refl same h)
      | inr other ↦ rw other (settle-IsOpen r s payload b (get b.pending s) other h)
    ]
    of_id null = h
    of_id _ = h

notified-IsOpen :
    (repr : Value → Str) (r : Str) (b : Bridge) (payload : Dict Value)
    → IsOpen r b
    → IsOpen r (notify_session repr b payload)
unfolding notify_session
notified-IsOpen repr r b payload h = record {
  runs = h.runs;
  waits = h.waits;
  unanswered = h.unanswered;
}

module _ (repr : Value → Str) where
  on_kind-Follows :
      (r : Str) (b : Bridge) (payload : Dict Value) (kind : Value)
      → IsOpen r b
      → Follows r (by_kind r payload kind) (on_kind repr b payload kind)
  unfolding on_kind
  on_kind-Follows r b payload null h = notified-IsOpen repr r b payload h
  on_kind-Follows r b payload (str kind) h =
      let noted = notified-IsOpen repr r b payload h in
      elim (Bool-cases (kind == lit "tool_result")) [
        | inl result ↦ rw result (resolve_call-Follows r payload b h)
        | inr no_result ↦ rw no_result (elim (Bool-cases (kind == lit "session_killed")) [
          | inl killed ↦ rw killed (refl, h.unanswered)
          | inr lives ↦ rw lives (
              if_both (IsOpen r) (kind == lit "cleanup_check_requested") noted
                (if_both (IsOpen r) (kind == lit "notification") noted h))
        ])
      ]
  on_kind-Follows r b payload _ h = h

  pub receive-Follows :
      (r : Str) (b : Bridge) (frame : Str × Dict Value)
      → IsOpen r b
      → Follows r (verdict r frame) (receive repr b frame)
  unfolding receive dispatch_envelope
  receive-Follows r b (event, payload) h = elim (Bool-cases (event == lit "envelope")) [
    | inl envelope ↦ rw envelope (on_kind-Follows r b payload (get_or payload (lit "kind") null) h)
    | inr no_envelope ↦ rw no_envelope (elim (Bool-cases (event == lit "phx_close")) [
      | inl closes ↦ rw closes (refl, h.unanswered)
      | inr open_still ↦ rw open_still (elim (Bool-cases (event == lit "phx_error")) [
        | inl fails ↦ rw fails (refl, h.unanswered)
        | inr passed ↦ rw passed h
      ])
    ])
  ]
