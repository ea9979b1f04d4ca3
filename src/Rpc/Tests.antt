-- ===== src/Rpc/Tests.antt =====
-- Runs of rpc.go on a small node, and its theorems at concrete inputs.
use sentio_portfolio.Common.{
  ℕ, ◌+◌, ◌≤◌, ◌<◌, ◌≡◌, refl, Bool, true, false, List, [], ◌∷◌, none, some, ◌==◌, length,
  if◌then◌else◌, Each, Outcome, ok, err, ◌↔◌,
}
use sentio_portfolio.Common.Int.{pos, negsuc}
use sentio_portfolio.Checkpoint.{BlockRef}
use sentio_portfolio.Rpc.{
  RpcError, http_error, node_error, other_error, batch_element, attempts_failed, Context,
  retryable_rpc_error, call_raw, rpc_attempts,
}
use sentio_portfolio.Rpc.Reads.{
  Bytes, Tag, latest, at_number, Request, get_code, eth_call, RpcBlock, Reply, answer, refusal,
  Node, ReadError, latest_settled_block,
}
use sentio_portfolio.Rpc.Calls.{
  ContractCall, Codec, ContractCallResult, values, call_failed, reverted, parallel_calls,
  parallel_calls_allow_failure, deployed_at,
}
use sentio_portfolio.Rpc.Retry.{Runs, call_raw-Runs}
use sentio_portfolio.Rpc.Contracts.{
  Read, Settled, parallel_calls-Read, parallel_calls_allow_failure-Settled,
}
use sentio_portfolio.Rpc.Healthy.{Valued, parallel_calls_iff}
use sentio_portfolio.Rpc.Blocks.{Served, Settles, latest_settled_block-Settled}

abbrev small_context : Context
small_context = record { chain_id = 1; protocol_id = "aave"; is_done = λ trips. trips == 7 }

-- The first round trip is refused for its rate.
abbrev limited : ℕ → Outcome RpcError ℕ
limited n = if n == 0 then err (http_error 429) else ok (n + 40)

call_raw-Runs_example :
    (let run = call_raw small_context "eth_getBalance" limited [] in
      Runs small_context limited 0 0 run.0 (length run.1)
      × (0 < length run.1)
      × (length run.1 ≤ 0 + rpc_attempts))
call_raw-Runs_example = call_raw-Runs small_context "eth_getBalance" limited []

call_raw_retries : (call_raw small_context "eth_getBalance" limited []).0 ≡ ok 41
unfolding call_raw
call_raw_retries = refl

call_raw_gives_up :
    (call_raw {A = ℕ} small_context "eth_getBalance" (λ n. err other_error) []).0
    ≡ err (attempts_failed other_error)
unfolding call_raw
call_raw_gives_up = refl

retries_a_missing_header :
    retryable_rpc_error (
      node_error (negsuc 31999) (
        b'H' ∷ b'e' ∷ b'a' ∷ b'd' ∷ b'e' ∷ b'r' ∷ b' ' ∷ b'n' ∷ b'o' ∷ b't' ∷ b' ' ∷ b'f' ∷ b'o'
        ∷ b'u' ∷ b'n' ∷ b'd' ∷ []))
    ≡ true
unfolding retryable_rpc_error
retries_a_missing_header = refl

keeps_a_revert : retryable_rpc_error (batch_element 3 (node_error (pos 3) [])) ≡ false
unfolding retryable_rpc_error
keeps_a_revert = refl

abbrev serve : Request → Bytes
serve (get_code address at) = if address == 5 then [] else 1 ∷ []
serve (eth_call object at) = object.data_bytes

abbrev block_of : Tag → RpcBlock
block_of latest = record { number = 100; hash = 8; timestamp = 9 }
block_of (at_number n) = record { number = n; hash = 7; timestamp = 5 }

abbrev reverts : Request → Bool
reverts (get_code address at) = false
reverts (eth_call object at) = object.to == 9

-- A node that refuses every element of the first round trip, and reverts the calls of contract 9.
abbrev reply_of : Request → ℕ → Reply
reply_of r trip =
    if trip == 0
    then refusal (http_error 503)
    else if reverts r
    then refusal (node_error (pos 3) [])
    else answer (serve r)

abbrev small_node : Node ℕ
small_node = record {
  chain_id = λ trip. ok 1;
  block = λ tag trip. ok (block_of tag);
  balance = λ account at trip. ok 3;
  logs = λ filter trip. ok [];
  single = λ r trip. ok (serve r);
  batch_failure = λ rs trip. none;
  element = λ place r trip. reply_of r trip;
}

abbrev healthy_node : Node ℕ
healthy_node = record small_node { element = λ place r trip. answer (serve r) }

abbrev pin : BlockRef
pin = record { chain_id = 1; number = 90; hash = 7; timestamp = 5; fixed = false }

-- A call of a contract with one number, which answers with it; the number 99 does not encode.
abbrev small_codec : Codec (Unit {0}) ℕ ℕ
small_codec = record {
  pack = λ abi method n. if n == 99 then none else some (n ∷ []);
  unpack = λ abi method raw. elim raw [ [] ↦ none | n ∷ rest ↦ some n ];
}

abbrev call_of : ℕ → ℕ → ContractCall (Unit {0}) ℕ
call_of contract n = record { contract = contract; sender = 0; abi = tt; method = "echo"; args = n }

-- Seventeen calls: a full batch and one more.
abbrev seventeen : List (ContractCall (Unit {0}) ℕ)
seventeen =
    call_of 4 20
    ∷ call_of 4 21
    ∷ call_of 4 22
    ∷ call_of 4 23
    ∷ call_of 4 24
    ∷ call_of 4 25
    ∷ call_of 4 26
    ∷ call_of 4 27
    ∷ call_of 4 28
    ∷ call_of 4 29
    ∷ call_of 4 30
    ∷ call_of 4 31
    ∷ call_of 4 32
    ∷ call_of 4 33
    ∷ call_of 4 34
    ∷ call_of 4 35
    ∷ call_of 4 36
    ∷ []

abbrev answers : List ℕ
answers = 20 ∷ 21 ∷ 22 ∷ 23 ∷ 24 ∷ 25 ∷ 26 ∷ 27 ∷ 28 ∷ 29 ∷ 30 ∷ 31 ∷ 32 ∷ 33 ∷ 34 ∷ 35 ∷ 36 ∷ []

seventeen_answers :
    (parallel_calls small_node small_context pin small_codec seventeen []).0 ≡ ok answers
unfolding parallel_calls
seventeen_answers = refl

parallel_calls-Read_example : Each (Read small_node small_context pin small_codec) seventeen answers
parallel_calls-Read_example =
    parallel_calls-Read small_node small_context pin small_codec seventeen [] seventeen_answers

abbrev mixed : List (ContractCall (Unit {0}) ℕ)
mixed = call_of 4 20 ∷ call_of 9 21 ∷ call_of 4 22 ∷ []

abbrev mixed_results : List (ContractCallResult ℕ)
mixed_results = values 20 ∷ call_failed (reverted (node_error (pos 3) [])) ∷ values 22 ∷ []

mixed_answers :
    (parallel_calls_allow_failure small_node small_context pin small_codec mixed []).0
    ≡ ok mixed_results
unfolding parallel_calls_allow_failure
mixed_answers = refl

parallel_calls_allow_failure-Settled_example :
    Each (Settled small_node small_context pin small_codec) mixed mixed_results
parallel_calls_allow_failure-Settled_example =
    parallel_calls_allow_failure-Settled small_node small_context pin small_codec mixed []
      mixed_answers

parallel_calls_iff_example :
    (◌≡◌ {A = Outcome ReadError (List ℕ)}
      (parallel_calls healthy_node small_context pin small_codec mixed []).0
      (ok (20 ∷ 21 ∷ 22 ∷ [])))
    ↔ Each
        (Valued healthy_node small_context serve
          (λ rs trip. refl)
          (λ place r trip. refl)
          pin
          small_codec)
        mixed
        (20 ∷ 21 ∷ 22 ∷ [])
parallel_calls_iff_example =
    parallel_calls_iff healthy_node small_context serve (λ rs trip. refl) (λ place r trip. refl) pin
      small_codec mixed [] (20 ∷ 21 ∷ 22 ∷ [])

latest_settled_block-Settled_example :
    (head : BlockRef) × Served small_node small_context latest head × Settles 10 head pin
unfolding latest_settled_block
latest_settled_block-Settled_example =
    latest_settled_block-Settled small_node small_context (λ n trip b e. cc) 10 [] pin refl

probes_code :
    (deployed_at small_node small_context pin (4 ∷ 5 ∷ 6 ∷ []) []).0 ≡ ok (true ∷ false ∷ true ∷ [])
unfolding deployed_at
probes_code = refl
