-- ===== src/Rpc/Retry.antt =====
-- rpc.go, `callRaw` and the loops of the batches: the attempts that a call makes, and what it returns.
use Prim.Native.String.{String}
use sentio_portfolio.Common.{
  ℕ, zero, suc, ◌+◌, ◌≤◌, ◌<◌, ◌≡◌, refl, sym, ap, ◌∙◌, subst, true, false, inl, inr, ltb, length,
  length-append, Bool-cases, Outcome, ok, err, panic, arith, ltb→lt, not_ltb→le,
}
use sentio_portfolio.Rpc.{
  RpcError, Context, Observations, rpc_attempts, retryable_rpc_error, attempts_failed, context_done,
  no_error, observe, settle, attempts, call_raw,
}

-- The last round trip of a call, with the result of the call.
pub data Ends {A : Type 0} (context : Context) (trips attempt : ℕ)
    : Outcome RpcError A → Outcome RpcError A → Type 0 where
  answered : (a : A) → Ends context trips attempt (ok a) (ok a)
  crashed : Ends context trips attempt panic panic
  refused :
      (reason : RpcError)
      → retryable_rpc_error reason ≡ false
      → Ends context trips attempt (err reason) (err reason)
  interrupted :
      (reason : RpcError)
      → retryable_rpc_error reason ≡ true
      → attempt + 1 < rpc_attempts
      → context.is_done trips ≡ true
      → Ends context trips attempt (err reason) (err context_done)
  exhausted :
      (reason : RpcError)
      → retryable_rpc_error reason ≡ true
      → rpc_attempts ≤ attempt + 1
      → Ends context trips attempt (err reason) (err (attempts_failed reason))

-- The round trips of a call from one of its attempts on: the number of the first, the attempt, the result
-- and the number of trips at the end.
pub data Runs {A : Type 0} (context : Context) (trip : ℕ → Outcome RpcError A)
    : ℕ → ℕ → Outcome RpcError A → ℕ → Type 0 where
  last :
      (n attempt : ℕ) (final : Outcome RpcError A)
      → Ends context (suc n) attempt (trip n) final
      → Runs context trip n attempt final (suc n)
  again :
      (n attempt : ℕ) (final : Outcome RpcError A) (trips : ℕ) (reason : RpcError)
      → trip n ≡ err reason
      → retryable_rpc_error reason ≡ true
      → attempt + 1 < rpc_attempts
      → context.is_done (suc n) ≡ false
      → Runs context trip (suc n) (attempt + 1) final trips
      → Runs context trip n attempt final trips

pub Runs-bounds :
    {A : Type 0} {context : Context} {trip : ℕ → Outcome RpcError A} (n attempt : ℕ)
    (final : Outcome RpcError A) (trips : ℕ)
    → attempt < rpc_attempts
    → Runs context trip n attempt final trips
    → (n < trips) × (trips + attempt ≤ n + rpc_attempts)
Runs-bounds n attempt final trips h (last _ _ _ ends) = (omega arith, omega (arith, h))
Runs-bounds n attempt final trips h (again _ _ _ _ reason _ _ more _ rest) =
    let bounds = Runs-bounds (suc n) (attempt + 1) final trips more rest in
    (omega (arith, bounds.0), omega (arith, bounds.1))

module _ {A : Type 0} (context : Context) (method : String) (size : ℕ)
    (trip : ℕ → Outcome RpcError A) where
  length-observe :
      (attempt : ℕ) (result : Outcome RpcError A) (observed : Observations)
      → length (observe context method size attempt result observed) ≡ suc (length observed)
  unfolding observe
  length-observe attempt result observed = omega (arith, length-append observed)

  runs_from :
      {n m : ℕ} (attempt : ℕ) (final : Outcome RpcError A) (trips : ℕ)
      → n ≡ m
      → Runs context trip n attempt final trips
      → Runs context trip m attempt final trips
  runs_from attempt final trips e runs = subst (λ k. Runs context trip k attempt final trips) e runs

  ends_at :
      (n attempt : ℕ) (result final : Outcome RpcError A) (after : Observations)
      → trip n ≡ result
      → length after ≡ suc n
      → Ends context (suc n) attempt result final
      → Runs context trip n attempt final (length after)
  ends_at n attempt result final after e m ends =
      subst (λ trips. Runs context trip n attempt final trips) (sym m)
        (last n attempt final (subst (λ r. Ends context (suc n) attempt r final) (sym e) ends))

  -- A turn of the loop, given what its next turns make.
  settle-Runs :
      (n attempt : ℕ) (result : Outcome RpcError A) (after : Observations)
      (next : RpcError → Outcome RpcError A × Observations)
      → trip n ≡ result
      → length after ≡ suc n
      → ((reason : RpcError)
          → attempt + 1 < rpc_attempts
          → Runs context trip (suc n) (attempt + 1) (next reason).0 (length (next reason).1))
      → ((reason : RpcError)
          → rpc_attempts ≤ attempt + 1
          → next reason ≡ (err (attempts_failed reason), after))
      → (let run = settle context attempt result after next in
          Runs context trip n attempt run.0 (length run.1))
  unfolding settle
  settle-Runs n attempt (ok a) after next e m more stop =
      ends_at n attempt (ok a) (ok a) after e m (answered a)
  settle-Runs n attempt panic after next e m more stop =
      ends_at n attempt panic panic after e m crashed
  settle-Runs n attempt (err reason) after next e m more stop =
      elim (Bool-cases (retryable_rpc_error reason)) [
        | inr no_retry ↦
            rw no_retry
              (ends_at n attempt (err reason) (err reason) after e m (refused reason no_retry))
        | inl retry ↦ rw retry (elim (Bool-cases (ltb (attempt + 1) rpc_attempts)) [
          | inr at_end ↦
              rw (at_end, stop reason (not_ltb→le _ _ at_end))
                (ends_at n attempt (err reason) _ after e m
                  (exhausted reason retry (not_ltb→le _ _ at_end)))
          | inl before_end ↦ rw before_end (elim (Bool-cases (context.is_done (length after))) [
            | inl is_done ↦ rw is_done (
                ends_at n attempt (err reason) _ after e m (
                  interrupted reason retry (ltb→lt _ _ before_end)
                    (ap context.is_done (sym m) ∙ is_done)))
            | inr waits ↦ rw waits (
                again n attempt _ _ reason e retry (ltb→lt _ _ before_end)
                  (ap context.is_done (sym m) ∙ waits) (more reason (ltb→lt _ _ before_end)))
          ])
        ])
      ]

  pub attempts-Runs :
      (left attempt : ℕ) (start : RpcError) (observed : Observations)
      → suc left + attempt ≡ rpc_attempts
      → (let run = attempts context method size trip (suc left) attempt start observed in
          Runs context trip (length observed) attempt run.0 (length run.1))
  unfolding attempts
  attempts-Runs zero attempt start observed h =
      settle-Runs (length observed) attempt (trip (length observed)) _ _ refl
        (length-observe attempt (trip (length observed)) observed)
        (λ reason more. absurd (omega (arith, h, more))) λ reason stop. refl
  attempts-Runs (suc left) attempt start observed h =
      settle-Runs (length observed) attempt (trip (length observed)) _ _ refl
        (length-observe attempt (trip (length observed)) observed)
        (λ reason more.
          runs_from (attempt + 1) _ _ (length-observe attempt (trip (length observed)) observed)
            (attempts-Runs left (attempt + 1) reason _ (omega (arith, h))))
        λ reason stop. absurd (omega (arith, h, stop))

-- A call makes one round trip after another. An error that is not retryable is returned at once, as a result
-- is; after a retryable one the next attempt follows, unless the context is done during the wait or it was
-- the third. So a call makes at least one round trip and at most three.
pub call_raw-Runs :
    {A : Type 0} (context : Context) (method : String) (trip : ℕ → Outcome RpcError A)
    (observed : Observations)
    → (let run = call_raw context method trip observed in
        Runs context trip (length observed) 0 run.0 (length run.1)
        × (length observed < length run.1)
        × (length run.1 ≤ length observed + rpc_attempts))
unfolding call_raw
call_raw-Runs context method trip observed =
    let runs = attempts-Runs context method 0 trip 2 0 no_error observed refl in
    let bounds = Runs-bounds (length observed) 0 _ _ (omega arith) runs in
    (runs, bounds.0, omega (arith, bounds.1))

-- A result of a call is the result of one of its round trips.
pub Runs-ok :
    {A : Type 0} {context : Context} {trip : ℕ → Outcome RpcError A} {a : A} (n attempt : ℕ)
    (final : Outcome RpcError A) (trips : ℕ)
    → Runs context trip n attempt final trips
    → final ≡ ok a
    → (k : ℕ) × (trip k ≡ ok a)
Runs-ok {a = a} n attempt final trips (last _ _ _ ends) e = (n, ends_ok _ ends e)
  where
    ends_ok :
        {A : Type 0} {context : Context} {a : A} {n attempt : ℕ} {final : Outcome RpcError A}
        (result : Outcome RpcError A)
        → Ends context n attempt result final
        → final ≡ ok a
        → result ≡ ok a
    ends_ok result (answered a) e = e
    ends_ok result crashed e = e
    ends_ok result (refused reason _) e = e
    ends_ok result (interrupted reason _ _ _) e = cc
    ends_ok result (exhausted reason _ _) e = cc
Runs-ok n attempt final trips (again _ _ _ _ reason _ _ _ _ rest) e =
    Runs-ok (suc n) (attempt + 1) final trips rest e

pub attempts-ok :
    {A : Type 0} (context : Context) (method : String) (size : ℕ) (trip : ℕ → Outcome RpcError A)
    (observed : Observations) {a : A}
    → (attempts context method size trip rpc_attempts 0 no_error observed).0 ≡ ok a
    → (k : ℕ) × (trip k ≡ ok a)
attempts-ok context method size trip observed e =
    Runs-ok (length observed) 0 _ _
      (attempts-Runs context method size trip 2 0 no_error observed refl) e
