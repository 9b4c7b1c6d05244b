-- ===== src/Ipc/Client/Rejoin.antt =====
-- A reconnect: the topics are joined again, and what waited is sent.
use esr.Base.{
  inl, inr, ◌≡◌, refl, sym, ap, ◌∙◌, Bool, true, false, ◌&&◌, Option, none, some, List, [], ◌∷◌,
  ◌++◌, append_assoc, append-nil, map, map-append, Str, ◌==◌, eq_iff, Dict, get, has, put, get-put,
  get-remove, Option-cases, if◌then◌else◌, arith,
}
use esr.Decimal.{show_nat}
use esr.Ipc.Frame.{Frame}
use esr.Ipc.Client.{
  Client, opened, Pushed, join_frame, push, join_send, rejoin_one, rejoin_all, flush_all, reconnect,
}

abbrev pub is_some {ℓ} : {A : Type ℓ} → Option A → Bool
is_some none = false
is_some (some a) = true

-- What a frame says, but for its numbers.
abbrev pub as_pushed : Frame → Pushed
as_pushed f = record { topic = f.topic; event = f.event; payload = f.payload }

abbrev pub said : List Frame → List Pushed
said fs = map as_pushed fs

-- The pushes for which the test holds.
abbrev pub keep_if : (Pushed → Bool) → List Pushed → List Pushed
keep_if test [] = []
keep_if test (p ∷ ps) = if test p then p ∷ keep_if test ps else keep_if test ps

keep_if_cons :
    (test : Pushed → Bool) (p : Pushed) (ps : List Pushed)
    → (if test p then p ∷ [] else []) ++ keep_if test ps ≡ keep_if test (p ∷ ps)
keep_if_cons test p ps = ground arith

keep_if_same :
    (f g : Pushed → Bool)
    → ((p : Pushed) → f p ≡ g p)
    → (ps : List Pushed) → keep_if f ps ≡ keep_if g ps
keep_if_same f g e [] = refl
keep_if_same f g e (p ∷ ps) = ground (arith, e p, keep_if_same f g e ps)

abbrev pub topics {ℓ} : {V : Type ℓ} → Dict V → List Str
topics d = map (λ e. e.0) d

module _ {H : Type 0} where
  -- The client is connected: its socket is open and it knows.
  abbrev pub IsUp : Client H → Type 0
  IsUp c = (c.ws ≡ opened) × (c.is_disconnected ≡ false)

  IsUp-rejoin_one :
      (accepts : Str → Bool) (c : Client H) (topic : Str) (on_msg : H)
      → IsUp c
      → IsUp (rejoin_one accepts c topic on_msg)
  unfolding rejoin_one
  IsUp-rejoin_one accepts c topic on_msg (up, known) = (ground arith, ground arith)

  sent-rejoin_one :
      (accepts : Str → Bool) (c : Client H) (topic : Str) (on_msg : H)
      → (rejoin_one accepts c topic on_msg).sent ≡ (join_send c topic on_msg).1.sent
  unfolding rejoin_one
  sent-rejoin_one accepts c topic on_msg = ground arith

  said-rejoin_one :
      (accepts : Str → Bool) (c : Client H) (topic : Str) (on_msg : H)
      → IsUp c
      → said (rejoin_one accepts c topic on_msg).sent ≡ said c.sent ++ join_frame topic ∷ []
  unfolding rejoin_one
  said-rejoin_one accepts c topic on_msg (up, known) =
      let sends : (join_send c topic on_msg).1.sent
          ≡ c.sent
            ++ record {
              join_ref = some (show_nat c.next_ref);
              ref = show_nat c.next_ref;
              topic = topic;
              event = (join_frame topic).event;
              payload = (join_frame topic).payload;
            }
              ∷ [] =
        ground arith in
      ap said (sent-rejoin_one accepts c topic on_msg ∙ sends)
      ∙ map-append as_pushed c.sent (_ ∷ [])

  pending-rejoin_one :
      (accepts : Str → Bool) (c : Client H) (topic : Str) (on_msg : H)
      → (rejoin_one accepts c topic on_msg).pending_pushes ≡ c.pending_pushes
  unfolding rejoin_one
  pending-rejoin_one accepts c topic on_msg = ground arith

  joined-rejoin_one :
      (accepts : Str → Bool) (c : Client H) (topic : Str) (on_msg : H) (t : Str)
      → is_some (get (rejoin_one accepts c topic on_msg).join_refs t)
        ≡ (if topic == t then accepts t else is_some (get c.join_refs t))
  unfolding rejoin_one
  joined-rejoin_one accepts c topic on_msg t = ground (
    arith,
    eq_iff topic t,
    get-put c.join_refs topic t (show_nat c.next_ref),
    get-remove (put c.join_refs topic (show_nat c.next_ref)) topic t,
  )

  handlers-rejoin_one :
      (accepts : Str → Bool) (c : Client H) (topic : Str) (on_msg : H) (t : Str)
      → get (rejoin_one accepts c topic on_msg).handlers t
        ≡ (if topic == t then (if accepts t then some on_msg else none) else get c.handlers t)
  unfolding rejoin_one
  handlers-rejoin_one accepts c topic on_msg t = ground (
    arith,
    eq_iff topic t,
    get-put c.handlers topic t on_msg,
    get-remove (put c.handlers topic on_msg) topic t,
  )

  -- Whether a topic is joined after the topics of `hs` were.
  abbrev pub rejoined : (Str → Bool) → Dict H → Bool → Str → Bool
  rejoined accepts [] before t = before
  rejoined accepts ((topic, on_msg) ∷ hs) before t =
      rejoined accepts hs (if topic == t then accepts t else before) t

  IsUp-rejoin_all :
      (accepts : Str → Bool) (c : Client H) (hs : Dict H) → IsUp c → IsUp (rejoin_all accepts c hs)
  unfolding rejoin_all
  IsUp-rejoin_all accepts c [] up = up
  IsUp-rejoin_all accepts c ((t, m) ∷ hs) up =
      IsUp-rejoin_all accepts (rejoin_one accepts c t m) hs (IsUp-rejoin_one accepts c t m up)

  said-rejoin_all :
      (accepts : Str → Bool) (c : Client H) (hs : Dict H)
      → IsUp c
      → said (rejoin_all accepts c hs).sent ≡ said c.sent ++ map join_frame (topics hs)
  unfolding rejoin_all
  said-rejoin_all accepts c [] up = sym (append-nil (said c.sent))
  said-rejoin_all accepts c ((t, m) ∷ hs) up =
      said-rejoin_all accepts (rejoin_one accepts c t m) hs (IsUp-rejoin_one accepts c t m up)
      ∙ ap (λ l. l ++ map join_frame (topics hs)) (said-rejoin_one accepts c t m up)
      ∙ append_assoc (said c.sent) (join_frame t ∷ []) (map join_frame (topics hs))

  pending-rejoin_all :
      (accepts : Str → Bool) (c : Client H) (hs : Dict H)
      → (rejoin_all accepts c hs).pending_pushes ≡ c.pending_pushes
  unfolding rejoin_all
  pending-rejoin_all accepts c [] = refl
  pending-rejoin_all accepts c ((t, m) ∷ hs) =
      pending-rejoin_all accepts (rejoin_one accepts c t m) hs ∙ pending-rejoin_one accepts c t m

  joined-rejoin_all :
      (accepts : Str → Bool) (c : Client H) (hs : Dict H) (t : Str)
      → is_some (get (rejoin_all accepts c hs).join_refs t)
        ≡ rejoined accepts hs (is_some (get c.join_refs t)) t
  unfolding rejoin_all
  joined-rejoin_all accepts c [] t = refl
  joined-rejoin_all accepts c ((topic, m) ∷ hs) t =
      joined-rejoin_all accepts (rejoin_one accepts c topic m) hs t
      ∙ ap (λ before. rejoined accepts hs before t) (joined-rejoin_one accepts c topic m t)

  -- A topic is joined again if it had a callback and the server accepts it.
  rejoined_lem :
      (accepts : Str → Bool) (hs : Dict H) (before : Bool) (t : Str)
      → rejoined accepts hs before t ≡ (if has hs t then accepts t else before)
  unfolding has
  rejoined_lem accepts [] before t = refl
  rejoined_lem accepts ((topic, m) ∷ hs) before t =
      ground (arith, rejoined_lem accepts hs (if topic == t then accepts t else before) t)

  pub push_connected :
      (c : Client H) (p : Pushed)
      → IsUp c
      → IsUp (push c p).1
        × ((push c p).1.pending_pushes ≡ c.pending_pushes)
        × ((push c p).1.join_refs ≡ c.join_refs)
        × ((push c p).1.handlers ≡ c.handlers)
  unfolding push
  push_connected c p (up, known) =
      ((ground arith, ground arith), ground arith, ground arith, ground arith)

  pub said-push :
      (c : Client H) (p : Pushed)
      → IsUp c
      → said (push c p).1.sent
        ≡ said c.sent ++ (if is_some (get c.join_refs p.topic) then p ∷ [] else [])
  unfolding push
  said-push c p (up, known) = elim (Option-cases (get c.join_refs p.topic)) [
    | inl absent ↦ ap said (unjoined absent) ∙ (rw (absent, append-nil) refl)
    | inr (ref, here) ↦
        ap said (joined ref here) ∙ map-append as_pushed c.sent (_ ∷ []) ∙ (rw here refl)
  ]
    where
      unjoined : get c.join_refs p.topic ≡ none → (push c p).1.sent ≡ c.sent
      unjoined absent = ground arith

      joined :
          (ref : Str)
          → get c.join_refs p.topic ≡ some ref
          → (push c p).1.sent
            ≡ c.sent
              ++ record {
                join_ref = some ref;
                ref = show_nat c.next_ref;
                topic = p.topic;
                event = p.event;
                payload = p.payload;
              }
                ∷ []
      joined ref here = ground arith

  said-flush_all :
      (c : Client H) (ps : List Pushed)
      → IsUp c
      → said (flush_all c ps).sent
        ≡ said c.sent ++ keep_if (λ p. is_some (get c.join_refs p.topic)) ps
  unfolding flush_all
  said-flush_all c [] up = sym (append-nil (said c.sent))
  said-flush_all c (p ∷ ps) up =
      let popped : Client H = record c { pending_pushes = ps } in
      let kept = push_connected popped p up in
      said-flush_all (push popped p).1 ps kept.0
      ∙ ap (λ l. l ++ keep_if (λ q. is_some (get (push popped p).1.join_refs q.topic)) ps)
          (said-push popped p up)
      ∙ ap
          (λ (refs : Dict Str).
            (said c.sent ++ (if is_some (get c.join_refs p.topic) then p ∷ [] else []))
            ++ keep_if (λ q. is_some (get refs q.topic)) ps)
          kept.2
      ∙ append_assoc (said c.sent) (if is_some (get c.join_refs p.topic) then p ∷ [] else [])
          (keep_if (λ q. is_some (get c.join_refs q.topic)) ps)
      ∙ ap (λ l. said c.sent ++ l) (keep_if_cons (λ q. is_some (get c.join_refs q.topic)) p ps)

  pending-flush_all :
      (c : Client H) (ps : List Pushed)
      → IsUp c
      → c.pending_pushes ≡ ps
      → (flush_all c ps).pending_pushes ≡ []
  unfolding flush_all
  pending-flush_all c [] up e = e
  pending-flush_all c (p ∷ ps) up e =
      let kept = push_connected (record c { pending_pushes = ps }) p up in
      pending-flush_all (push (record c { pending_pushes = ps }) p).1 ps kept.0 kept.1

  join_refs-flush_all :
      (c : Client H) (ps : List Pushed) → IsUp c → (flush_all c ps).join_refs ≡ c.join_refs
  unfolding flush_all
  join_refs-flush_all c [] up = refl
  join_refs-flush_all c (p ∷ ps) up =
      let kept = push_connected (record c { pending_pushes = ps }) p up in
      join_refs-flush_all (push (record c { pending_pushes = ps }) p).1 ps kept.0 ∙ kept.2

  -- The topic had a callback, and the server lets it join again.
  abbrev pub back : (Str → Bool) → Dict H → Str → Bool
  back accepts hs t = has hs t && accepts t

  back_lem :
      (accepts : Str → Bool) (hs : Dict H) (t : Str)
      → rejoined accepts hs false t ≡ back accepts hs t
  back_lem accepts hs t = ground (arith, rejoined_lem accepts hs false t)

  -- After a reconnect no push waits any more; the frames sent meanwhile are one join for every
  -- topic that had a callback, and then, in the order in which they were queued, the pushes to
  -- those
  -- of these topics that the server accepts again. Exactly these topics are joined.
  pub reconnect_lem :
      (accepts : Str → Bool) (c : Client H)
      → ((reconnect accepts c).pending_pushes ≡ [])
        × (said (reconnect accepts c).sent
            ≡ said c.sent
              ++ map join_frame (topics c.handlers)
              ++ keep_if (λ p. back accepts c.handlers p.topic) c.pending_pushes)
        × ((t : Str) → is_some (get (reconnect accepts c).join_refs t) ≡ back accepts c.handlers t)
  unfolding reconnect get
  reconnect_lem accepts c =
      let fresh : Client H = record c {
        ws = opened;
        is_disconnected = false;
        join_refs = [];
        handlers = [];
        reconnecting = false;
      } in
      let again : Client H = rejoin_all accepts fresh c.handlers in
      let up : IsUp again = IsUp-rejoin_all accepts fresh c.handlers (refl, refl) in
      let same : again.pending_pushes ≡ c.pending_pushes =
        pending-rejoin_all accepts fresh c.handlers in
      let joined : (t : Str) → is_some (get again.join_refs t) ≡ back accepts c.handlers t =
        λ t. joined-rejoin_all accepts fresh c.handlers t ∙ back_lem accepts c.handlers t in
      (
        pending-flush_all again again.pending_pushes up refl,
        said-flush_all again again.pending_pushes up
            ∙ ap
                (λ l.
                  l ++ keep_if (λ p. is_some (get again.join_refs p.topic)) again.pending_pushes)
                (said-rejoin_all accepts fresh c.handlers (refl, refl))
            ∙ ap
                (λ q.
                  (said c.sent ++ map join_frame (topics c.handlers))
                  ++ keep_if (λ p. is_some (get again.join_refs p.topic)) q)
                same
            ∙ ap (λ l. (said c.sent ++ map join_frame (topics c.handlers)) ++ l)
                (keep_if_same (λ p. is_some (get again.join_refs p.topic))
                  (λ p. back accepts c.handlers p.topic) (λ p. joined p.topic) c.pending_pushes),
        λ t.
            ap (λ refs. is_some (get refs t)) (join_refs-flush_all again again.pending_pushes up)
            ∙ joined t,
      )
