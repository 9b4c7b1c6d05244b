-- ===== src/Bridge/Phoenix/History.antt =====
-- The client of py/src/cc_channel_runner/phx_client.py over time.
use esr.Base.{ℕ, Option, List, [], ◌∷◌, Str, Dict}
use esr.Base.Result.{Failure}
use esr.Value.{Value}
use esr.Bridge.Phoenix.{
  PhoenixChannelClient, connect, join, push, wait_ended, recv, heartbeat, receive, ws_lost, close,
}

-- What happens to a client.
pub data Op : Type 0 where
  connecting : (ℕ → Option Failure) → Op
  joining : Str → Dict Value → Op
  pushing : Str → Str → Dict Value → Op
  waking : Str → Op
  received : Str → Op
  beat taking losing closing : Op

module _ (loads : Str → Option Value) where
  unfoldable pub step : PhoenixChannelClient → Op → PhoenixChannelClient
  step c (connecting attempt) = (connect c attempt).2
  step c (joining topic payload) = (join c topic payload).1
  step c (pushing topic event payload) = (push c topic event payload).1
  step c (waking ref) = wait_ended c ref
  step c (received raw) = recv loads c raw
  step c beat = heartbeat c
  step c taking = (receive c).1
  step c losing = ws_lost c
  step c closing = close c

  abbrev pub run : PhoenixChannelClient → List Op → PhoenixChannelClient
  run c [] = c
  run c (op ∷ ops) = run (step c op) ops
