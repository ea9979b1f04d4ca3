-- ===== src/Rpc/Contracts.antt =====
-- rpc.go, `ParallelCalls` and `ParallelCallsAllowFailure`: what a read in batches returns for each call.
use sentio_portfolio.Common.{
  ℕ, suc, ◌≡◌, refl, sym, ap, ◌∙◌, subst, List, [], ◌∷◌, some, length, Each, ok, ok_injective,
  arith,
}
use sentio_portfolio.Checkpoint.{BlockRef}
use sentio_portfolio.Rpc.{Context, Observations}
use sentio_portfolio.Rpc.Reads.{
  Bytes, Request, eth_call, Reply, Node, not_encoded, not_decoded, or_fail, batch_method,
  batch_trip, batch_transport_trip, batch_call_raw, batch_call_transport_raw,
}
use sentio_portfolio.Rpc.Calls.{
  ContractCall, Codec, ContractCallResult, batches, contract_call_object, encode, encode_all,
  decode, decode_all, calls_batch, in_range, parallel_calls, result_of, results_of, results_batch,
  parallel_calls_allow_failure,
}
use sentio_portfolio.Rpc.Retry.{attempts-ok}
use sentio_portfolio.Rpc.Batches.{
  prepend-ok, both-ok, or_missing-ok, wrap-ok, unless_failed-ok, follow-ok, in_batches-Each,
  flatten-batches, Answered, Replied, raw_results-Answered, tolerated-Replied,
}

module _ {Log : Type 0} (node : Node Log) (context : Context) where
  pub batch_call_raw-Answered :
      (requests : List Request) (observed : Observations) {raws : List Bytes}
      → (batch_call_raw node context requests observed).0 ≡ ok raws
      → Each (Answered node) requests raws
  unfolding batch_call_raw batch_trip
  batch_call_raw-Answered requests observed e =
      let (trip, same) =
        attempts-ok context (batch_method requests) (length requests) (batch_trip node requests)
          observed e in
      raw_results-Answered node 0 0 requests trip
        (unless_failed-ok (node.batch_failure requests trip) _ same)

  batch_call_transport_raw-Replied :
      (requests : List Request) (observed : Observations) {all : List Reply}
      → (batch_call_transport_raw node context requests observed).0 ≡ ok all
      → Each (Replied node) requests all
  unfolding batch_call_transport_raw batch_transport_trip
  batch_call_transport_raw-Replied requests observed e =
      let (trip, same) =
        attempts-ok context (batch_method requests) (length requests)
          (batch_transport_trip node requests) observed e in
      tolerated-Replied node 0 0 requests trip
        (unless_failed-ok (node.batch_failure requests trip) _ same)

module _ {Log Abi Args Values : Type 0} (node : Node Log) (context : Context) (block : BlockRef)
    (codec : Codec Abi Args Values) where
  -- The request of a call at the block.
  abbrev pub Encoded : ContractCall Abi Args → Request → Type 0
  Encoded call request =
      (data_bytes : Bytes) × (codec.pack call.abi call.method call.args ≡ some data_bytes)
      × (request
          ≡ eth_call (contract_call_object call.contract call.sender data_bytes) block.number)

  -- A value that the node gave for a call.
  abbrev pub Read : ContractCall Abi Args → Values → Type 0
  Read call value =
      (request : Request) × (raw : Bytes) × Encoded call request
      × Answered node request raw
      × (codec.unpack call.abi call.method raw ≡ some value)

  -- What the node gave for a call, an error included, but no retryable one.
  abbrev pub Settled : ContractCall Abi Args → ContractCallResult Values → Type 0
  Settled call result =
      (request : Request) × (reply : Reply) × Encoded call request
      × Replied node request reply
      × (result ≡ result_of node context block codec call reply)

  encode-Encoded :
      (i : ℕ) (call : ContractCall Abi Args) {request : Request}
      → encode node context block codec i call ≡ ok request
      → Encoded call request
  unfolding encode
  encode-Encoded i call e =
      or_missing-ok (not_encoded i) _ (codec.pack call.abi call.method call.args) e

  decode-eq-ok :
      (i : ℕ) (call : ContractCall Abi Args) (raw : Bytes) {value : Values}
      → decode node context block codec i call raw ≡ ok value
      → codec.unpack call.abi call.method raw ≡ some value
  unfolding decode
  decode-eq-ok i call raw e =
      let (found, same, is_found) =
        or_missing-ok (not_decoded i) (λ v. v) (codec.unpack call.abi call.method raw) e in
      same ∙ ap some (sym is_found)

  encode_all-Encoded :
      (i : ℕ) (calls : List (ContractCall Abi Args)) {requests : List Request}
      → encode_all node context block codec i calls ≡ ok requests
      → Each Encoded calls requests
  unfolding encode_all
  encode_all-Encoded i [] e = subst (Each Encoded []) (ok_injective e) tt
  encode_all-Encoded i (call ∷ rest) e =
      let (request, requests, first, later, all) =
        both-ok (encode node context block codec i call)
          (encode_all node context block codec (suc i) rest) e in
      subst (Each Encoded (call ∷ rest)) (sym all)
        (encode-Encoded i call first, encode_all-Encoded (suc i) rest later)

  decode_all-Read :
      (i : ℕ) (calls : List (ContractCall Abi Args)) (requests : List Request) (raws : List Bytes)
      {found : List Values}
      → Each Encoded calls requests
      → Each (Answered node) requests raws
      → decode_all node context block codec i calls raws ≡ ok found
      → Each Read calls found
  unfolding decode_all
  decode_all-Read i [] [] [] encoded answered e = subst (Each Read []) (ok_injective e) tt
  decode_all-Read i [] [] (raw ∷ raws) encoded answered e = absurd answered
  decode_all-Read i [] (request ∷ requests) raws encoded answered e = absurd encoded
  decode_all-Read i (call ∷ calls) [] raws encoded answered e = absurd encoded
  decode_all-Read i (call ∷ calls) (request ∷ requests) [] encoded answered e = absurd answered
  decode_all-Read i (call ∷ calls) (request ∷ requests) (raw ∷ raws) encoded answered e =
      let (value, rest, first, later, all) =
        both-ok (decode node context block codec i call raw)
          (decode_all node context block codec (suc i) calls raws) e in
      subst (Each Read (call ∷ calls)) (sym all) (
        (request, raw, encoded.0, answered.0, decode-eq-ok i call raw first),
        decode_all-Read (suc i) calls requests raws encoded.1 answered.1 later,
      )

  results_of-Settled :
      (calls : List (ContractCall Abi Args)) (requests : List Request) (all : List Reply)
      {found : List (ContractCallResult Values)}
      → Each Encoded calls requests
      → Each (Replied node) requests all
      → results_of node context block codec calls all ≡ ok found
      → Each Settled calls found
  unfolding results_of
  results_of-Settled [] [] [] encoded replied e = subst (Each Settled []) (ok_injective e) tt
  results_of-Settled [] [] (reply ∷ all) encoded replied e = absurd replied
  results_of-Settled [] (request ∷ requests) all encoded replied e = absurd encoded
  results_of-Settled (call ∷ calls) [] all encoded replied e = absurd encoded
  results_of-Settled (call ∷ calls) (request ∷ requests) [] encoded replied e = absurd replied
  results_of-Settled (call ∷ calls) (request ∷ requests) (reply ∷ all) encoded replied e =
      let (rest, later, whole) =
        prepend-ok (result_of node context block codec call reply)
          (results_of node context block codec calls all) e in
      subst (Each Settled (call ∷ calls)) (sym whole) (
        (request, reply, encoded.0, replied.0, refl),
        results_of-Settled calls requests all encoded.1 replied.1 later,
      )

  calls_batch-Read :
      (start : ℕ) (calls : List (ContractCall Abi Args)) (observed : Observations)
      {found : List Values}
      → (calls_batch node context block codec start calls observed).0 ≡ ok found
      → Each Read calls found
  unfolding calls_batch
  calls_batch-Read start calls observed e =
      let (requests, encoded, e1) =
        follow-ok (encode_all node context block codec start calls, observed) _ e in
      let (raws, sent, e2) =
        follow-ok (or_fail (batch_call_raw node context requests) (in_range start calls) observed) _
          e1 in
      decode_all-Read start calls requests raws (encode_all-Encoded start calls encoded)
        (batch_call_raw-Answered node context requests observed
          (wrap-ok (in_range start calls) _ sent))
        e2

  results_batch-Settled :
      (start : ℕ) (calls : List (ContractCall Abi Args)) (observed : Observations)
      {found : List (ContractCallResult Values)}
      → (results_batch node context block codec start calls observed).0 ≡ ok found
      → Each Settled calls found
  unfolding results_batch
  results_batch-Settled start calls observed e =
      let (requests, encoded, e1) =
        follow-ok (encode_all node context block codec start calls, observed) _ e in
      let (all, sent, e2) =
        follow-ok
          (or_fail (batch_call_transport_raw node context requests) (in_range start calls) observed)
          _ e1 in
      results_of-Settled calls requests all (encode_all-Encoded start calls encoded)
        (batch_call_transport_raw-Replied node context requests observed
          (wrap-ok (in_range start calls) _ sent))
        e2

  -- Where a read of calls in batches returns values, there is one for each call, in their order: what the
  -- call's ABI makes of bytes with which the node, at some round trip and place of a batch, answered the
  -- request that the call encodes to at the block.
  pub parallel_calls-Read :
      (calls : List (ContractCall Abi Args)) (observed : Observations) {found : List Values}
      → (parallel_calls node context block codec calls observed).0 ≡ ok found
      → Each Read calls found
  unfolding parallel_calls
  parallel_calls-Read calls observed {found} e =
      subst (λ all. Each Read all found) (flatten-batches (length calls) calls (omega arith))
        (in_batches-Each Read (calls_batch node context block codec)
          (λ start batch observed _. calls_batch-Read start batch observed) 0
          (batches (length calls) calls) observed e)

  -- Where a read that allows failures returns, there is a result for each call, in their order: what the
  -- node's answer, or its error, for the call's own request makes of it. An error that is put down to one
  -- call is never a retryable one.
  pub parallel_calls_allow_failure-Settled :
      (calls : List (ContractCall Abi Args)) (observed : Observations)
      {found : List (ContractCallResult Values)}
      → (parallel_calls_allow_failure node context block codec calls observed).0 ≡ ok found
      → Each Settled calls found
  unfolding parallel_calls_allow_failure
  parallel_calls_allow_failure-Settled calls observed {found} e =
      subst (λ all. Each Settled all found) (flatten-batches (length calls) calls (omega arith))
        (in_batches-Each Settled (results_batch node context block codec)
          (λ start batch observed _. results_batch-Settled start batch observed) 0
          (batches (length calls) calls) observed e)
