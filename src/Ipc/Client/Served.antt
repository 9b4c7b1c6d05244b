-- ===== src/Ipc/Client/Served.antt =====
-- A client whose pushes to a topic go out at once.
use esr.Base.{◌≡◌, refl, ap, ◌∙◌, true, [], ◌∷◌, ◌++◌, Str, get, arith}
use esr.Base.Result.{ok}
use esr.Ipc.Client.{Client, Pushed, push}
use esr.Ipc.Client.Rejoin.{IsUp, said, is_some, push_connected, said-push}

module _ {H : Type 0} where
  -- It is up, and has joined the topic.
  abbrev pub Serves : Client H → Str → Type 0
  Serves c topic = IsUp c × (is_some (get c.join_refs topic) ≡ true)

  pub push-Serves :
      (c : Client H) (p : Pushed)
      → Serves c p.topic
      → ((push c p).0 ≡ ok tt)
        × (said (push c p).1.sent ≡ said c.sent ++ p ∷ [])
        × Serves (push c p).1 p.topic
  unfolding push
  push-Serves c p ((up, known), joined) =
      let kept = push_connected c p (up, known) in
      (
        returned,
        said-push c p (up, known) ∙ rw joined refl,
        (kept.0, ap (λ refs. is_some (get refs p.topic)) kept.2 ∙ joined),
      )
    where
      returned : (push c p).0 ≡ ok tt
      returned = ground arith
