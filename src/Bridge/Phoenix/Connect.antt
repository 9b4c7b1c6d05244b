-- ===== src/Bridge/Phoenix/Connect.antt =====
-- How often `connect` tries, and how long it waits.
use esr.Base.{
  ℕ, suc, ◌<◌, ◌≡◌, ◌≢◌, subst, ltb, ◌⊎◌, inl, inr, Option, none, some, Option-cases, Bool-cases,
  [], ◌∷◌, take, arith,
}
use esr.Base.Result.{ok, err, Failure}
use esr.Bridge.Phoenix.{PhoenixChannelClient, reconnect_backoff_secs, online, connect}

module _ (attempt : ℕ → Option Failure) where
  -- The attempts before the `k`th fail.
  abbrev pub FailBefore : ℕ → Type 0
  FailBefore k = (j : ℕ) → j < k → attempt j ≢ none

  FailBefore-zero : FailBefore 0
  FailBefore-zero j l = absurd (omega arith)

  FailBefore-suc : (k : ℕ) {e : Failure} → attempt k ≡ some e → FailBefore k → FailBefore (suc k)
  FailBefore-suc k failed before j l = elim (Bool-cases (ltb j k)) [
    | inl less ↦ before j (ground arith)
    | inr not_less ↦
        let last : k ≡ j = ground arith in subst (λ i. attempt i ≢ none) last (λ free. cc)
  ]

  -- There are at most three attempts. If the first that succeeds is among them, `connect` returns
  -- with an open socket and both tasks, after the pauses of the attempts before it; if none is, it
  -- has paused for 1, 2 and 4 seconds, the client is as it was, and what is raised is the exception
  -- of the third.
  pub connect_lem :
      (c : PhoenixChannelClient)
      → ((k : ℕ) × (k < 3)
          × FailBefore k
          × (attempt k ≡ none)
          × (connect c attempt ≡ (ok tt, take k reconnect_backoff_secs, online c)))
        ⊎ (FailBefore 3
            × ((e : Failure) × (attempt 2 ≡ some e)
                × (connect c attempt ≡ (err (some e), 1 ∷ 2 ∷ 4 ∷ [], c))))
  unfolding connect
  connect_lem c = elim (Option-cases (attempt 0)) [
    | inl up ↦ inl (0, omega arith, FailBefore-zero, up, rw up)
    | inr (e, down) ↦
        let once = FailBefore-suc 0 down FailBefore-zero in
        elim (Option-cases (attempt 1)) [
          | inl up ↦ inl (1, omega arith, once, up, rw (down, up))
          | inr (f, down') ↦
              let twice = FailBefore-suc 1 down' once in
              elim (Option-cases (attempt 2)) [
                | inl up ↦ inl (2, omega arith, twice, up, rw (down, down', up))
                | inr (g, down'') ↦
                    inr (FailBefore-suc 2 down'' twice, (g, down'', rw (down, down', down'')))
              ]
        ]
  ]
