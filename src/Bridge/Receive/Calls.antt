-- ===== src/Bridge/Receive/Calls.antt =====
-- What the calls of a session get, and the end of the bridge.
use esr.Base.{
  ℕ, ◌+◌, ◌≤◌, ◌≡◌, refl, ap, false, Option, none, some, List, [], ◌∷◌, ◌++◌, Str, ◌==◌, eq_iff,
  lit, Dict, get, get-remove, if◌then◌else◌, arith,
}
use esr.Value.{Value, null, str, get_or}
use esr.Bridge.Receive.{
  Bridge, Future, waiting, done, settle, resolve_call, start_call, notify_session, on_kind,
  dispatch_envelope, receive, receive_all,
}

-- The number of results that a call got.
abbrev pub results : Str → List (Str × Dict Value) → ℕ
results r [] = 0
results r ((s, payload) ∷ given) = (if s == r then 1 else 0) + results r given

-- 1 while the call waits.
abbrev pub waits : Option Future → ℕ
waits none = 0
waits (some waiting) = 1
waits (some (done payload)) = 0

results-append :
    (r s : Str) (payload : Dict Value) (given : List (Str × Dict Value))
    → results r (given ++ (s, payload) ∷ []) ≡ results r given + (if s == r then 1 else 0)
results-append r s payload [] = omega arith
results-append r s payload ((t, p) ∷ given) = ground (arith, results-append r s payload given)

-- The results that a call got, and the one that it may get.
abbrev pub due : Str → Bridge → ℕ
due r b = results r b.resolved + waits (get b.pending r)

due-settle :
    (r s : Str) (payload : Dict Value) (b : Bridge) (o : Option Future)
    → get b.pending s ≡ o
    → due r (settle b s payload o) ≤ due r b
due-settle r s payload b none e = omega arith
due-settle r s payload b (some (done result)) e = ground (arith, get-remove b.pending s r)
due-settle r s payload b (some waiting) e = grind (
  arith,
  eq_iff s r,
  get-remove b.pending s r,
  results-append r s payload b.resolved,
  ap (λ (k : Str). get b.pending k),
)

due-resolve_call :
    (r : Str) (payload : Dict Value) (b : Bridge) → due r (resolve_call b payload) ≤ due r b
unfolding resolve_call
due-resolve_call r payload b = by_id (get_or payload (lit "req_id") null)
  where
    by_id :
        (id : Value)
        → due r (elim id [ str s ↦ settle b s payload (get b.pending s) | _ ↦ b ]) ≤ due r b
    by_id (str s) = due-settle r s payload b (get b.pending s) refl
    by_id _ = omega arith

module _ (repr : Value → Str) where
  due-on_kind :
      (r : Str) (b : Bridge) (payload : Dict Value) (kind : Value)
      → due r (on_kind repr b payload kind) ≤ due r b
  unfolding on_kind notify_session
  due-on_kind r b payload (str kind) = ground (arith, due-resolve_call r payload b)
  due-on_kind r b payload _ = omega arith

  due-receive :
      (r : Str) (b : Bridge) (frame : Str × Dict Value) → due r (receive repr b frame) ≤ due r b
  unfolding receive dispatch_envelope
  due-receive r b (event, payload) =
      ground (arith, due-on_kind r b payload (get_or payload (lit "kind") null))

  due-receive_all :
      (r : Str) (b : Bridge) (frames : List (Str × Dict Value))
      → due r (receive_all repr b frames) ≤ due r b
  unfolding receive_all
  due-receive_all r b [] = omega arith
  due-receive_all r b (frame ∷ frames) =
      ground (arith, due-receive_all r (receive repr b frame) frames, due-receive r b frame)

  -- Whatever frames the bridge receives after a call was started, with repeated and foreign results
  -- among them, the call gets at most one result more than it had before.
  pub at_most_one_result :
      (b : Bridge) (r : Str) (frames : List (Str × Dict Value))
      → results r (receive_all repr (start_call b r) frames).resolved ≤ results r b.resolved + 1
  unfolding start_call
  at_most_one_result b r frames =
      let bound : due r (receive_all repr (start_call b r) frames) ≤ due r (start_call b r) =
        due-receive_all r (start_call b r) frames in
      ground (arith, bound)

  -- Once a frame has ended the bridge, no frame that follows has any effect.
  pub ended_is_final :
      (b : Bridge) (before after : List (Str × Dict Value))
      → (receive_all repr b before).running ≡ false
      → receive_all repr b (before ++ after) ≡ receive_all repr b before
  unfolding receive_all
  ended_is_final b [] [] h = refl
  ended_is_final b [] (frame ∷ after) h = rw h refl
  ended_is_final b (frame ∷ before) after h =
      ground (arith, ended_is_final (receive repr b frame) before after)
