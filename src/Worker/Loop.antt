-- ===== src/Worker/Loop.antt =====
-- The worker's loop over its queue.
use esr.Base.{
  ◌≡◌, refl, sym, ap, ◌∙◌, Option, none, some, List, [], ◌∷◌, ◌++◌, append_assoc, append-nil, Str,
  lit, Dict, get, All, map, ◌==◌,
}
use esr.Base.Result.{ok, >>=-eq-ok, ok_inj}
use esr.Value.{Value}
use esr.Value.Access.{index_dict, get-index_dict}
use esr.Registry.{HandlerEntry, StateEntry}
use esr.Ipc.Client.{Client, push}
use esr.Ipc.Client.Rejoin.{said}
use esr.Ipc.Client.Served.{Serves, push-Serves}
use esr.Runner.{envelope_of}
use esr.Worker.Dump.{dict_of_data, to_entries, encoded}
use esr.Worker.{
  Handler, Model, World, process_handler_call, reply_envelope, push_reply, handler_call_loop,
}

module _ {S : Type 0} (world : World S) (handlers : Dict (HandlerEntry (Handler S)))
    (states : Dict (StateEntry (Model S))) (topic : Str) where
  -- A call with the envelope that answers it.
  abbrev pub Answers : Dict Value × Dict Value → Type 0
  Answers (call, reply) = reply_envelope world handlers states topic call ≡ ok reply

  -- The answer to an envelope bears its id.
  pub reply_envelope_id :
      (call reply : Dict Value) → Answers (call, reply) → get reply (lit "id") ≡ get call (lit "id")
  unfolding reply_envelope get ◌==◌
  reply_envelope_id call reply e =
      let (payload, held, e₁) = >>=-eq-ok (index_dict call (lit "payload")) _ e in
      let (made, ran, e₂) = >>=-eq-ok (process_handler_call world handlers states payload) _ e₁ in
      let (id, named, e₃) = >>=-eq-ok (index_dict call (lit "id")) _ e₂ in
      let (sendable, sent, e₄) = >>=-eq-ok (encoded (dict_of_data (to_entries made))) _ e₃ in
      ap (λ r. get r (lit "id")) (sym (ok_inj e₄)) ∙ sym (get-index_dict call (lit "id") id named)

  module _ {H : Type 0} where
    step_lem :
        (c : Client H) (call reply : Dict Value) (queue : List (Option (Dict Value)))
        → Answers (call, reply)
        → Serves c topic
        → handler_call_loop world handlers states topic c (some call ∷ queue)
          ≡ handler_call_loop world handlers states topic (push c (envelope_of topic reply)).1 queue
    unfolding handler_call_loop
    step_lem c call reply queue e up =
        rw (handler_call_loop, e, (push-Serves c (envelope_of topic reply) up).0)
          (ap
            (λ r.
              handler_call_loop world handlers states topic
                (push_reply world handlers states topic c r).1 queue)
            e)

    -- While its client is up and has joined the topic, a worker whose queue holds calls that are
    -- answered, and then the sentinel, returns; what it has sent is one reply for each call, in their
    -- order. What follows the sentinel is not looked at.
    pub said-handler_call_loop :
        (c : Client H) (calls : List (Dict Value × Dict Value)) (after : List (Option (Dict Value)))
        → Serves c topic
        → All Answers calls
        → ((handler_call_loop world handlers states topic c
              (map (λ p. some p.0) calls ++ none ∷ after)).0
            ≡ ok tt)
          × (said
                (handler_call_loop world handlers states topic c
                  (map (λ p. some p.0) calls ++ none ∷ after)).1.sent
              ≡ said c.sent ++ map (λ p. envelope_of topic p.1) calls)
    unfolding handler_call_loop
    said-handler_call_loop c [] after up h = (refl, sym (append-nil (said c.sent)))
    said-handler_call_loop c ((call, reply) ∷ calls) after up (h, hs) =
        let pushed = push-Serves c (envelope_of topic reply) up in
        let rest =
          said-handler_call_loop (push c (envelope_of topic reply)).1 calls after pushed.2 hs in
        rw (step_lem c call reply (map (λ p. some p.0) calls ++ none ∷ after) h up) (
          rest.0,
          rest.1
              ∙ ap (λ l. l ++ map (λ p. envelope_of topic p.1) calls) pushed.1
              ∙ append_assoc (said c.sent) (_ ∷ []) _,
        )
