-- ===== src/Feishu/Retry.antt =====
-- `_with_ratelimit_retry` of adapters/feishu/src/esr_feishu/adapter.py. `attempt` is the call that is
-- tried, on a state of its own; times are in seconds.
use esr.Base.{
  ℕ, zero, suc, ◌+◌, ◌≤◌, ◌<◌, ◌≡◌, refl, inl, inr, Bool, true, false, not, ◌||◌, List, [], ◌∷◌,
  Str, lit, Dict, ltb, length, arith, Bool-cases,
}
use esr.Base.Result.{Result, ok, err, Failure}
use esr.Decimal.{ℤ, pos}
use esr.Value.{Value, null, bool, str, get_or, truthy}
use esr.Value.Access.{eq_int}

-- `_BACKOFF_SCHEDULE`
abbrev pub backoff_schedule : List ℕ
backoff_schedule = 1 ∷ 2 ∷ 4 ∷ 8 ∷ 16 ∷ 30 ∷ []

-- `_RETRY_DEADLINE_S`
abbrev pub retry_deadline : ℕ
retry_deadline = 30

abbrev pub Outcome : Type 0
Outcome = Result Failure (Dict Value)

abbrev pub error_ack : Str → Dict Value
error_ack error = (lit "ok", bool false) ∷ (lit "error", str error) ∷ []

module _ (float_eq : Str → ℤ → Bool) where
  unfoldable pub is_rate_limited : Dict Value → Bool
  is_rate_limited ack = eq_int float_eq (get_or ack (lit "code") null) (pos 429)

  -- Is the attempt the last? An exception ends the retries, too.
  unfoldable pub settled : Outcome → Bool
  settled (err raised) = true
  settled (ok ack) = truthy (get_or ack (lit "ok") null) || not (is_rate_limited ack)

  module _ {A : Type 0} (attempt : A → Outcome × A) where
    -- The answer, the state after the attempts, and the sleeps between them.
    pub record Retried : Type 0 where
      pub answer : Outcome
      pub after : A
      pub sleeps : List ℕ

    abbrev pub timed_out : A → Retried
    timed_out a = record { answer = ok (error_ack (lit "timeout")); after = a; sleeps = [] }

    -- The end of the attempts, or what follows.
    abbrev pub unless_settled : Bool → Outcome → A → Retried → Retried
    unless_settled true result after rest = record { answer = result; after = after; sleeps = [] }
    unless_settled false result after rest = rest

    abbrev pub unless_late : Bool → A → Retried → Retried
    unless_late true after rest = timed_out after
    unless_late false after rest = rest

    abbrev pub slept : ℕ → Retried → Retried
    slept delay rest = record rest { sleeps = delay ∷ rest.sleeps }

    unfoldable pub retry_from : (elapsed : ℕ) → (schedule : List ℕ) → A → Retried
    retry_from elapsed [] a =
        let (result, after) = attempt a in
        unless_settled (settled result) result after (timed_out after)
    retry_from elapsed (delay ∷ schedule) a =
        let (result, after) = attempt a in
        let rest = retry_from (elapsed + delay) schedule after in
        unless_settled (settled result) result after
          (unless_late (ltb retry_deadline (elapsed + delay)) after (slept delay rest))

    unfoldable pub with_ratelimit_retry : A → Retried
    unfolding retry_from
    with_ratelimit_retry a = retry_from 0 backoff_schedule a

    abbrev pub total : List ℕ → ℕ
    total [] = 0
    total (x ∷ xs) = x + total xs

    -- The retries as they should be: at most so many attempts, up to the first that is settled.
    unfoldable pub within : ℕ → A → Outcome × A
    within zero a = (ok (error_ack (lit "timeout")), a)
    within (suc n) a =
        let (result, after) = attempt a in
        elim (settled result) [ true ↦ (result, after) | false ↦ within n after ]

    total-retry_from :
        (elapsed : ℕ) (schedule : List ℕ) (a : A)
        → elapsed ≤ retry_deadline
        → elapsed + total (retry_from elapsed schedule a).sleeps ≤ retry_deadline
    unfolding retry_from
    total-retry_from elapsed [] a h = ground arith
    total-retry_from elapsed (delay ∷ schedule) a h =
        ground (arith, total-retry_from (elapsed + delay) schedule (attempt a).1)

    -- How often a schedule lets a call be tried.
    abbrev pub tries : (elapsed : ℕ) → List ℕ → ℕ
    tries elapsed [] = 1
    tries elapsed (delay ∷ schedule) = elim (ltb retry_deadline (elapsed + delay)) [
      | true ↦ 1
      | false ↦ suc (tries (elapsed + delay) schedule)
    ]

    length-retry_from :
        (elapsed : ℕ) (schedule : List ℕ) (a : A)
        → length (retry_from elapsed schedule a).sleeps < tries elapsed schedule
    unfolding retry_from
    length-retry_from elapsed [] a = ground arith
    length-retry_from elapsed (delay ∷ schedule) a =
        ground (arith, length-retry_from (elapsed + delay) schedule (attempt a).1)

    abbrev ended : Retried → Outcome × A
    ended r = (r.answer, r.after)

    step-within :
        (late : Bool) (n delay : ℕ) (a : A) (rest : Retried)
        → ended rest ≡ within n (attempt a).1
        → ended (
            unless_settled
              (settled (attempt a).0)
              (attempt a).0
              (attempt a).1
              (unless_late late (attempt a).1 (slept delay rest)))
          ≡ within (elim late [ true ↦ 1 | false ↦ suc n ]) a
    unfolding within
    step-within true n delay a rest h = elim (Bool-cases (settled (attempt a).0)) [
      | inl e ↦ rw (within, e) refl
      | inr e ↦ rw (within, e) refl
    ]
    step-within false n delay a rest h = elim (Bool-cases (settled (attempt a).0)) [
      | inl e ↦ rw (within, e) refl
      | inr e ↦ rw (within, e) h
    ]

    retry_from-within :
        (elapsed : ℕ) (schedule : List ℕ) (a : A)
        → ended (retry_from elapsed schedule a) ≡ within (tries elapsed schedule) a
    unfolding retry_from within
    retry_from-within elapsed [] a = step-within true 0 0 a (timed_out (attempt a).1) refl
    retry_from-within elapsed (delay ∷ schedule) a =
        step-within (ltb retry_deadline (elapsed + delay)) (tries (elapsed + delay) schedule) delay
          a (retry_from (elapsed + delay) schedule (attempt a).1)
          (retry_from-within (elapsed + delay) schedule (attempt a).1)

    total_schedule : (a : A) → total (retry_from 0 backoff_schedule a).sleeps ≤ retry_deadline
    total_schedule a = omega (arith, total-retry_from 0 backoff_schedule a (omega arith))

    -- The retries are the attempts up to the first that is settled, five at most: the answer is
    -- that attempt's, or a timeout if none of the five is settled; and the sleeps, fewer than five,
    -- take no longer than the deadline allows.
    pub with_ratelimit_retry-within :
        (a : A)
        → (((with_ratelimit_retry a).answer, (with_ratelimit_retry a).after) ≡ within 5 a)
          × (length (with_ratelimit_retry a).sleeps < 5)
          × (total (with_ratelimit_retry a).sleeps ≤ retry_deadline)
    unfolding with_ratelimit_retry
    with_ratelimit_retry-within a = (
      retry_from-within 0 backoff_schedule a,
      length-retry_from 0 backoff_schedule a,
      total_schedule a,
    )
