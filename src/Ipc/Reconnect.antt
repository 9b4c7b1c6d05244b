-- ===== src/Ipc/Reconnect.antt =====
-- py/src/_ipc_common/reconnect.py: the loop that starts one connection after the other. How the runs
-- end is given; what the loop does is the delays that it sleeps.
use esr.Base.{
  ℕ, zero, suc, ◌+◌, ◌-◌, ◌≤◌, ◌<◌, ◌≡◌, refl, sym, ap, ◌∙◌, Option, none, some, List, [], ◌∷◌,
  length, get_elem?, ltb, if◌then◌else◌, arith,
}

-- How one run ends: it returns, the connection is lost, something else is raised, or the task is
-- cancelled.
pub data Outcome : Type 0 where
  returned disconnected raised cancelled : Outcome

-- The number of the attempt by which the delay is chosen.
abbrev pub counted : ℕ → Outcome → ℕ
counted attempt returned = 0
counted attempt _ = attempt

module _ {ℓ} {D : Type ℓ} where
  -- `schedule[min(attempt, len(schedule) - 1)]`, `none` for the `IndexError` of an empty schedule.
  unfoldable pub delay_at : List D → ℕ → Option D
  delay_at schedule attempt =
      get_elem? schedule
        (if ltb attempt (length schedule - 1) then attempt else length schedule - 1)

  unfoldable pub reconnect_loop : List D → ℕ → List Outcome → List D
  reconnect_loop schedule attempt [] = []
  reconnect_loop schedule attempt (cancelled ∷ runs) = []
  reconnect_loop schedule attempt (run ∷ runs) =
      let rest = reconnect_loop schedule (counted attempt run + 1) runs in
      elim (delay_at schedule (counted attempt run)) [ none ↦ [] | some d ↦ d ∷ rest ]

abbrev pub failures : ℕ → List Outcome
failures zero = []
failures (suc n) = disconnected ∷ failures n

-- The runs before the loop is cancelled.
abbrev pub runs_made : List Outcome → ℕ
runs_made [] = 0
runs_made (cancelled ∷ runs) = 0
runs_made (run ∷ runs) = suc (runs_made runs)

module _ {ℓ} {D : Type ℓ} where
  get_elem?-below : (xs : List D) (i : ℕ) → i < length xs → (x : D) × (get_elem? xs i ≡ some x)
  get_elem?-below [] i h = absurd (omega arith)
  get_elem?-below (x ∷ xs) zero h = (x, refl)
  get_elem?-below (x ∷ xs) (suc i) h = get_elem?-below xs i (omega arith)

  delay_at-cons :
      (d : D) (schedule : List D) (attempt : ℕ)
      → (e : D) × (delay_at (d ∷ schedule) attempt ≡ some e)
  unfolding delay_at
  delay_at-cons d schedule attempt =
      get_elem?-below (d ∷ schedule)
        (if ltb attempt (length (d ∷ schedule) - 1) then attempt else length (d ∷ schedule) - 1)
        (ground arith)

  delay_at-cons_lem :
      (d : D) (schedule : List D) (k : ℕ)
      → delay_at (d ∷ schedule) k
        ≡ get_elem? (d ∷ schedule) (if ltb k (length schedule) then k else length schedule)
  unfolding delay_at
  delay_at-cons_lem d schedule k =
      let last : length (d ∷ schedule) - 1 ≡ length schedule = omega arith in
      ap (λ n. get_elem? (d ∷ schedule) (if ltb k n then k else n)) last

  reconnect_loop-cons :
      (d : D) (schedule : List D) (attempt : ℕ) (run : Outcome) (runs : List Outcome)
      → (run ≡ cancelled → ⊥)
      → (e : D) × (delay_at (d ∷ schedule) (counted attempt run) ≡ some e)
        × (reconnect_loop (d ∷ schedule) attempt (run ∷ runs)
            ≡ e ∷ reconnect_loop (d ∷ schedule) (counted attempt run + 1) runs)
  unfolding reconnect_loop
  reconnect_loop-cons d schedule attempt cancelled runs live = absurd (live refl)
  reconnect_loop-cons d schedule attempt returned runs live =
      let (e, there) = delay_at-cons d schedule 0 in (e, there, ground arith)
  reconnect_loop-cons d schedule attempt disconnected runs live =
      let (e, there) = delay_at-cons d schedule attempt in (e, there, ground arith)
  reconnect_loop-cons d schedule attempt raised runs live =
      let (e, there) = delay_at-cons d schedule attempt in (e, there, ground arith)

  -- With a schedule that is not empty, the loop goes on until it is cancelled: however the runs
  -- before that end, it sleeps once after each of them.
  pub length-reconnect_loop :
      (d : D) (schedule : List D) (attempt : ℕ) (runs : List Outcome)
      → length (reconnect_loop (d ∷ schedule) attempt runs) ≡ runs_made runs
  unfolding reconnect_loop
  length-reconnect_loop d schedule attempt [] = refl
  length-reconnect_loop d schedule attempt (cancelled ∷ runs) = refl
  length-reconnect_loop d schedule attempt (returned ∷ runs) =
      let (e, there, next) = reconnect_loop-cons d schedule attempt returned runs (λ e. cc) in
      rw (next, length-reconnect_loop d schedule 1 runs) refl
  length-reconnect_loop d schedule attempt (disconnected ∷ runs) =
      let (e, there, next) = reconnect_loop-cons d schedule attempt disconnected runs (λ e. cc) in
      rw (next, length-reconnect_loop d schedule (attempt + 1) runs) refl
  length-reconnect_loop d schedule attempt (raised ∷ runs) =
      let (e, there, next) = reconnect_loop-cons d schedule attempt raised runs (λ e. cc) in
      rw (next, length-reconnect_loop d schedule (attempt + 1) runs) refl

  delays-failures :
      (d : D) (schedule : List D) (attempt n k : ℕ)
      → k < n
      → get_elem? (reconnect_loop (d ∷ schedule) attempt (failures n)) k
        ≡ delay_at (d ∷ schedule) (attempt + k)
  delays-failures d schedule attempt zero k h = absurd (omega arith)
  delays-failures d schedule attempt (suc n) zero h =
      let (e, there, next) =
        reconnect_loop-cons d schedule attempt disconnected (failures n) (λ e. cc) in
      let start : attempt + 0 ≡ attempt = omega arith in rw (next, start) (sym there)
  delays-failures d schedule attempt (suc n) (suc k) h =
      let (e, there, next) =
        reconnect_loop-cons d schedule attempt disconnected (failures n) (λ e. cc) in
      let later : attempt + 1 + k ≡ attempt + suc k = omega arith in
      rw next (
        delays-failures d schedule (attempt + 1) n k (omega arith)
        ∙ ap (delay_at (d ∷ schedule)) later)

  -- However many attempts failed before, after a run that returned the delays start with the first
  -- again: if the next `n` runs are disconnected, then the delay number `k`, up to `n`, is that of
  -- the schedule at `k`, or at its end if it is shorter.
  pub delays-returned :
      (d : D) (schedule : List D) (attempt n k : ℕ)
      → k ≤ n
      → get_elem? (reconnect_loop (d ∷ schedule) attempt (returned ∷ failures n)) k
        ≡ get_elem? (d ∷ schedule) (if ltb k (length schedule) then k else length schedule)
  delays-returned d schedule attempt n zero h =
      let (e, there, next) =
        reconnect_loop-cons d schedule attempt returned (failures n) (λ e. cc) in
      rw next (sym there ∙ delay_at-cons_lem d schedule 0)
  delays-returned d schedule attempt n (suc k) h =
      let (e, there, next) =
        reconnect_loop-cons d schedule attempt returned (failures n) (λ e. cc) in
      let later : 1 + k ≡ suc k = omega arith in
      rw next (
        delays-failures d schedule 1 n k (omega arith)
        ∙ ap (delay_at (d ∷ schedule)) later
        ∙ delay_at-cons_lem d schedule (suc k))
