-- ===== src/Bridge/Main.antt =====
-- py/src/cc_channel_runner/__main__.py from where its two tasks run: the session's server, and the life
-- of the connection. `E` is the type of the exceptions, and `is_shutdown` says which of them are
-- `BridgeShutdown` or `SystemExit`.
use esr.Base.{
  ◌≡◌, refl, ◌↔◌, inl, inr, Bool, true, Bool-cases, Option, none, some, List, [], ◌∷◌, ◌++◌, Str,
  lit, get, All, if◌then◌else◌,
}
use esr.Base.Result.{Result, ok, err, Exc}
use esr.Value.{Value}
use esr.Bridge.Phoenix.{PhoenixChannelClient, Inbound, Reply, new_phx_client, awaited, close}
use esr.Bridge.Phoenix.History.{Op, run}
use esr.Bridge.Phoenix.Shutdown.{run-close}

-- The address of the channel's socket.
abbrev pub channel_url : (esrd_url : Str) → Str
channel_url esrd_url = esrd_url ++ lit "/channel/socket/websocket?vsn=2.0.0"

abbrev pub channel_topic : (session_id : Str) → Str
channel_topic session_id = lit "cli:channel/" ++ session_id

err-ne-ok {ℓ} : {E : Type ℓ} {e : E} → ◌≡◌ {A = Result E (Unit {0})} (err e) (ok tt) → ⊥
err-ne-ok h = cc

module _ {E : Type 0} (is_shutdown : E → Bool) where
  -- The loop over `done`, in the order of that set: the exception of each task, if it has one.
  unfoldable pub check_done : List (Option E) → Result E (Unit {0})
  check_done [] = ok tt
  check_done (none ∷ tasks) = check_done tasks
  check_done (some exc ∷ tasks) =
      let rest = check_done tasks in if is_shutdown exc then rest else err exc

  -- What `main` ends with, and the client, which is closed in any case.
  unfoldable pub main :
      (done : List (Option E)) → PhoenixChannelClient → Result E (Unit {0}) × PhoenixChannelClient
  unfolding check_done
  main done client = (check_done done, close client)

  -- The task ended with no exception but that of a shutdown.
  abbrev pub IsFine : Option E → Type 0
  IsFine none = Unit
  IsFine (some exc) = is_shutdown exc ≡ true

  check_done-IsFine : (done : List (Option E)) → check_done done ≡ ok tt → All IsFine done
  unfolding check_done
  check_done-IsFine [] e = tt
  check_done-IsFine (none ∷ tasks) e = (tt, check_done-IsFine tasks e)
  check_done-IsFine (some exc ∷ tasks) e = elim (Bool-cases (is_shutdown exc)) [
    | inl shut ↦ (shut, check_done-IsFine tasks (rw shut at e))
    | inr other ↦ absurd (err-ne-ok (rw other at e))
  ]

  IsFine-check_done : (done : List (Option E)) → All IsFine done → check_done done ≡ ok tt
  unfolding check_done
  IsFine-check_done [] h = refl
  IsFine-check_done (none ∷ tasks) h = IsFine-check_done tasks h.1
  IsFine-check_done (some exc ∷ tasks) h = rw h.0 (IsFine-check_done tasks h.1)

  -- The bridge exits without an error exactly if every task that had ended, when the first one did,
  -- ended with no exception or with that of a shutdown. Whether it does or not, and whatever had
  -- happened to its client, every join and push that was sent has ended then: none waits.
  pub main_lem :
      (loads : Str → Option Value) (ops : List Op) (done : List (Option E))
      → (((main done (run loads new_phx_client ops)).0 ≡ ok tt) ↔ All IsFine done)
        × ((ref : Str) (future : Reply)
            → get (run loads new_phx_client ops).futures ref ≡ some future
            → (ended : Result Exc Inbound) × (awaited
                  (main done (run loads new_phx_client ops)).1
                  ref
                ≡ some ended))
  unfolding main
  main_lem loads ops done = (
    (check_done-IsFine done, IsFine-check_done done),
    λ ref future made. run-close loads ops ref future made,
  )
