-- ===== src/Ipc/Teardown.antt =====
-- py/src/_ipc_common/disconnect.py, and the end of `run_with_client` in
-- py/src/_adapter_common/runner_core.py and py/src/esr/ipc/handler_worker.py.
use esr.Base.{
  ◌≡◌, refl, Str, Dict, Bool, true, false, Option, none, some, List, [], ◌∷◌, if◌then◌else◌,
}
use esr.Base.Result.{Result, ok, err, Exc, connection_error, runtime_error}
use esr.Value.{Value}
use esr.Runner.{start_runner}
use esr.Ipc.Client.{
  Client, absent, Op, connected, send_frame, connect, close, send_numbered, join, join_send,
  join_reply, run,
}

-- What `watch_disconnect` reads at each poll, and whether it has raised.
unfoldable pub watch_disconnect : List Bool → Option Exc
watch_disconnect [] = none
watch_disconnect (up ∷ polls) = if up then watch_disconnect polls else some connection_error

-- The loop over `done`, in the order of that set: the exception of each task, if it has one.
unfoldable pub surface : List (Option Exc) → Result Exc (Unit {0})
surface [] = ok tt
surface (none ∷ tasks) = surface tasks
surface (some exc ∷ tasks) = err exc

module _ {H : Type 0} where
  -- From the wait for the first of the tasks on: what is raised, and the client.
  unfoldable pub tear_down : List (Option Exc) → Client H → Result Exc (Unit {0}) × Client H
  tear_down done c = (surface done, close c)

  -- `run_with_client`: how its start ended, and with which client; what happens to the client while
  -- the tasks run; and the tasks that ended first.
  unfoldable pub run_with_client :
      Result Exc (Unit {0}) × Client H
      → List (Op H)
      → (done : List (Option Exc)) → Result Exc (Unit {0}) × Client H
  unfolding tear_down
  run_with_client (err e, c) ops done = (err e, c)
  run_with_client (ok _, c) ops done = tear_down done (run c ops)

  abbrev IsShut : Client H → Type 0
  IsShut c = (c.ws ≡ absent) × (c.shutdown ≡ true)

module _ {H : Type 0} (encode : Dict Value → Str) where
  -- A start whose join the server refuses raises, and the client is not closed: the connection is
  -- open, and its heartbeat runs.
  pub run_with_client_refused :
      (c : Client H) (topic new_id now : Str) (permissions : List Str) (on_msg : H)
      (ops : List (Op H)) (done : List (Option Exc))
      → let r =
          run_with_client
            (start_runner encode c topic new_id now permissions on_msg false)
            ops
            done in
        (r.0 ≡ err runtime_error) × (connected r.1 ≡ true) × (r.1.heart ≡ true)
  unfolding run_with_client start_runner join join_send send_numbered send_frame join_reply connect
  run_with_client_refused c topic new_id now permissions on_msg ops done = (refl, refl, refl)
