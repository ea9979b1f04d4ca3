-- ===== src/Rpc/Healthy.antt =====
-- rpc.go, `ParallelCalls` on a node whose batches succeed.
use Prim.Native.String.{String}
use sentio_portfolio.Common.{
  ℕ, suc, ◌+◌, ◌≡◌, refl, sym, ap, ◌∙◌, subst, ◌↔◌, List, [], ◌∷◌, map, none, some, length, Each,
  Each-split, Each-imp, flatten, Outcome, ok, err, panic, ok_injective, arith,
}
use sentio_portfolio.Checkpoint.{BlockRef}
use sentio_portfolio.Rpc.{
  RpcError, Context, Observations, Session, attempts, settle, rpc_attempts, no_error,
}
use sentio_portfolio.Rpc.Reads.{
  Bytes, Request, eth_call, answer, Node, ReadError, wrap, follow, or_fail, batch_method,
  batch_trip, batch_call_raw, raw_results, replies,
}
use sentio_portfolio.Rpc.Calls.{
  ContractCall, Codec, batch_size, batches, in_batches, in_range, contract_call_object, encode,
  encode_all, decode, decode_all, calls_batch, parallel_calls,
}
use sentio_portfolio.Rpc.Batches.{flatten-batches}
use sentio_portfolio.Rpc.Contracts.{Read, parallel_calls-Read}

answer_injective : {a b : Bytes} → answer a ≡ answer b → a ≡ b
answer_injective e = cc

attempts-first :
    {A : Type 0} (context : Context) (method : String) (size : ℕ) (trip : ℕ → Outcome RpcError A)
    (observed : Observations) (a : A)
    → trip (length observed) ≡ ok a
    → (attempts context method size trip rpc_attempts 0 no_error observed).0 ≡ ok a
unfolding attempts settle
attempts-first context method size trip observed a e = rw e refl

follow_on :
    {E A B : Type 0} (first : Outcome E A × Observations) (next : A → Session E B) (a : A)
    {result : Outcome E B}
    → first.0 ≡ ok a
    → (next a first.1).0 ≡ result
    → (follow first next).0 ≡ result
follow_on (ok b, observed) next a e h = ap (λ c. (next c observed).0) (ok_injective e) ∙ h
follow_on (err reason, observed) next a e h = cc
follow_on (panic, observed) next a e h = cc

in_batches_on :
    {A B : Type 0} (R : A → B → Type 0) (read : ℕ → List A → Session ReadError (List B))
    → ((start : ℕ) (batch : List A) (observed : Observations) (found : List B)
        → Each R batch found
        → (read start batch observed).0 ≡ ok found)
    → (start : ℕ) (bs : List (List A)) (observed : Observations) (found : List B)
    → Each R (flatten bs) found
    → (in_batches read start bs observed).0 ≡ ok found
unfolding in_batches
in_batches_on R read complete start [] observed [] h = refl
in_batches_on R read complete start [] observed (x ∷ found) h = absurd h
in_batches_on R read complete start (batch ∷ rest) observed found h =
    let (first, later, e, left, right) = Each-split R batch (flatten rest) found h in
    follow_on (read start batch observed) _ first (complete start batch observed first left) (
      follow_on (in_batches read (start + batch_size) rest (read start batch observed).1) _ later
        (in_batches_on R read complete (start + batch_size) rest _ later right) (ap ok (sym e)))

-- No batch fails as a whole, and each request has one answer.
module _ {Log : Type 0} (node : Node Log) (context : Context) (serve : Request → Bytes)
    (no_failure : (rs : List Request) (trip : ℕ) → node.batch_failure rs trip ≡ none)
    (answers : (place : ℕ) (r : Request) (trip : ℕ)
      → node.element place r trip ≡ answer (serve r)) where
  raw_results_on :
      (i j : ℕ) (rs : List Request) (trip : ℕ)
      → raw_results i (replies node j rs trip) ≡ ok (map serve rs)
  unfolding raw_results
  raw_results_on i j [] trip = refl
  raw_results_on i j (r ∷ rs) trip =
      rw (answers j r trip, raw_results_on (suc i) (suc j) rs trip) refl

  batch_call_raw_on :
      (rs : List Request) (observed : Observations)
      → (batch_call_raw node context rs observed).0 ≡ ok (map serve rs)
  unfolding batch_call_raw batch_trip
  batch_call_raw_on rs observed =
      attempts-first context (batch_method rs) (length rs) (batch_trip node rs) observed
        (map serve rs) (rw (no_failure rs (length observed)) (raw_results_on 0 0 rs _))

  module _ {Abi Args Values : Type 0} (block : BlockRef) (codec : Codec Abi Args Values) where
    -- The value of a call.
    abbrev pub Valued : ContractCall Abi Args → Values → Type 0
    Valued call value =
        (data_bytes : Bytes) × (codec.pack call.abi call.method call.args ≡ some data_bytes)
        × (codec.unpack call.abi call.method (
              serve
                (eth_call (contract_call_object call.contract call.sender data_bytes) block.number))
            ≡ some value)

    requests_of :
        (start : ℕ) (calls : List (ContractCall Abi Args)) (found : List Values)
        → Each Valued calls found
        → (rs : List Request) × (encode_all node context block codec start calls ≡ ok rs)
          × ((i : ℕ) → decode_all node context block codec i calls (map serve rs) ≡ ok found)
    unfolding encode_all decode_all encode decode
    requests_of start [] [] h = ([], refl, λ i. refl)
    requests_of start [] (value ∷ found) h = absurd h
    requests_of start (call ∷ calls) [] h = absurd h
    requests_of start (call ∷ calls) (value ∷ found) h =
        let (rs, encoded, decoded) = requests_of (suc start) calls found h.1 in
        (
          eth_call (contract_call_object call.contract call.sender h.0.0) block.number ∷ rs,
          rw (h.0.1, encoded) refl,
          λ i. rw (h.0.2, decoded (suc i)) refl,
        )

    calls_batch_on :
        (start : ℕ) (calls : List (ContractCall Abi Args)) (observed : Observations)
        (found : List Values)
        → Each Valued calls found
        → (calls_batch node context block codec start calls observed).0 ≡ ok found
    unfolding calls_batch
    calls_batch_on start calls observed found h =
        let (rs, encoded, decoded) = requests_of start calls found h in
        follow_on (encode_all node context block codec start calls, observed) _ rs encoded
          (follow_on (or_fail (batch_call_raw node context rs) (in_range start calls) observed) _
            (map serve rs) (ap (wrap (in_range start calls)) (batch_call_raw_on rs observed))
            (decoded start))

    Read-Valued :
        (call : ContractCall Abi Args) (value : Values)
        → Read node context block codec call value
        → Valued call value
    Read-Valued call value
          (request, raw, (data_bytes, packed, same), (place, trip, replied), found) =
        (
          data_bytes,
          packed,
          ap (codec.unpack call.abi call.method) (
                ap serve (sym same) ∙ answer_injective (sym (answers place request trip) ∙ replied))
              ∙ found,
        )

    -- On a node where no batch fails as a whole and each request has one answer, a read of calls in batches
    -- of 16 returns a list of values exactly if each call, alone, encodes and the answer to its request
    -- decodes to the value at its place: the batches and their bounds leave no trace.
    pub parallel_calls_iff :
        (calls : List (ContractCall Abi Args)) (observed : Observations) (found : List Values)
        → (◌≡◌ {A = Outcome ReadError (List Values)}
            (parallel_calls node context block codec calls observed).0
            (ok found))
          ↔ Each Valued calls found
    unfolding parallel_calls
    parallel_calls_iff calls observed found = (
      (λ e.
          Each-imp _ Valued calls found Read-Valued
            (parallel_calls-Read node context block codec calls observed e)),
      λ h.
          in_batches_on Valued (calls_batch node context block codec) calls_batch_on 0
            (batches (length calls) calls) observed found
            (subst (λ all. Each Valued all found)
              (sym (flatten-batches (length calls) calls (omega arith))) h),
    )
