-- ===== src/Rpc/Calls.antt =====
-- rpc.go: the reads of contracts, in batches of 16. The encoding and the decoding of a call, which
-- go-ethereum's `abi` does, are a parameter.
use Prim.Native.String.{String}
use sentio_portfolio.Common.{
  ℕ, zero, suc, ◌+◌, ◌-◌, Bool, List, [], ◌∷◌, ◌++◌, map, Option, none, some, ltb, ◌==◌, length,
  take, drop, if◌then◌else◌, Outcome, ok, err, panic,
}
use sentio_portfolio.Checkpoint.{BlockRef}
use sentio_portfolio.Rpc.{RpcError, Context, Session, call_raw}
use sentio_portfolio.Rpc.Reads.{
  Bytes, CallObject, Request, Reply, answer, refusal, get_code, eth_call, Node, ReadError, failed,
  batch_failed, not_encoded, not_decoded, ◌>>=◌, give, or_fail, prepend, both, batch_call_raw,
  batch_call_transport_raw,
}

-- `contractCallObject`
abbrev pub contract_call_object : ℕ → ℕ → Bytes → CallObject
contract_call_object contract sender data_bytes = record {
  to = contract;
  data_bytes = data_bytes;
  from = if sender == 0 then none else some sender;
}

pub record ContractCall (Abi Args : Type 0) : Type 0 where
  pub contract : ℕ
  pub sender : ℕ
  pub abi : Abi
  pub method : String
  pub args : Args

-- `Pack` and `Unpack` of a call's ABI, with `none` for an error.
pub record Codec (Abi Args Values : Type 0) : Type 0 where
  pub pack : Abi → String → Args → Option Bytes
  pub unpack : Abi → String → Bytes → Option Values

-- The error of one call: the node's, or that of the decoding, which tells whether the result was empty.
pub data CallError : Type 0 where
  reverted : RpcError → CallError
  undecoded : Bool → CallError

-- `ContractCallResult`
pub data ContractCallResult (Values : Type 0) : Type 0 where
  values : Values → ContractCallResult Values
  call_failed : CallError → ContractCallResult Values

abbrev pub batch_size : ℕ
batch_size = 16

-- The batches of a list, given a bound on their number.
unfoldable pub batches : {A : Type 0} → ℕ → List A → List (List A)
batches zero xs = []
batches (suc left) [] = []
batches (suc left) (x ∷ xs) = take batch_size (x ∷ xs) ∷ batches left (drop batch_size (x ∷ xs))

-- An error for a missing result, or what is made of the result.
abbrev pub or_missing : {A B : Type 0} → ReadError → (A → B) → Option A → Outcome ReadError B
or_missing reason f none = err reason
or_missing reason f (some a) = ok (f a)

abbrev pub has_code : Bytes → Bool
has_code raw = ltb 0 (length raw)

-- The loop over the batches, given how one is read and the place of the first.
unfoldable pub in_batches :
    {A B : Type 0}
    → (ℕ → List A → Session ReadError (List B))
    → ℕ
    → List (List A)
    → Session ReadError (List B)
in_batches read start [] = give (ok [])
in_batches read start (batch ∷ rest) = do
  found ← read start batch
  later ← in_batches read (start + batch_size) rest
  give (ok (found ++ later))

-- The error of a batch of calls: the places of its first and its last.
abbrev pub in_range : {A : Type 0} → ℕ → List A → RpcError → ReadError
in_range start batch = batch_failed start (start + length batch - 1)

module _ {Log : Type 0} (node : Node Log) (context : Context) (block : BlockRef) where
  unfoldable pub deployed_batch : ℕ → List ℕ → Session ReadError (List Bool)
  unfolding batch_call_raw
  deployed_batch start batch = do
    raws ←
        or_fail (batch_call_raw node context (map (λ a. get_code a block.number) batch))
          (in_range start batch)
    give (ok (map has_code raws))

  unfoldable pub deployed_at : List ℕ → Session ReadError (List Bool)
  unfolding deployed_batch in_batches batches
  deployed_at addresses = in_batches deployed_batch 0 (batches (length addresses) addresses)

  module _ {Abi Args Values : Type 0} (codec : Codec Abi Args Values) where
    unfoldable pub encode : ℕ → ContractCall Abi Args → Outcome ReadError Request
    encode i call =
        or_missing (not_encoded i)
          (λ data_bytes.
            eth_call (contract_call_object call.contract call.sender data_bytes) block.number)
          (codec.pack call.abi call.method call.args)

    unfoldable pub encode_all : ℕ → List (ContractCall Abi Args) → Outcome ReadError (List Request)
    unfolding encode
    encode_all i [] = ok []
    encode_all i (call ∷ rest) = both (encode i call) (encode_all (suc i) rest)

    unfoldable pub decode : ℕ → ContractCall Abi Args → Bytes → Outcome ReadError Values
    decode i call raw =
        or_missing (not_decoded i) (λ value. value) (codec.unpack call.abi call.method raw)

    -- `panic` is an index that is out of range.
    unfoldable pub decode_all :
        ℕ → List (ContractCall Abi Args) → List Bytes → Outcome ReadError (List Values)
    unfolding decode
    decode_all i [] raws = ok []
    decode_all i (call ∷ rest) [] = panic
    decode_all i (call ∷ rest) (raw ∷ raws) =
        both (decode i call raw) (decode_all (suc i) rest raws)

    unfoldable pub call_contract : ContractCall Abi Args → Session ReadError Values
    unfolding encode decode call_raw
    call_contract call = do
      request ← give (encode 0 call)
      raw ← or_fail (call_raw context "eth_call" (node.single request)) failed
      give (decode 0 call raw)

    unfoldable pub calls_batch : ℕ → List (ContractCall Abi Args) → Session ReadError (List Values)
    unfolding batch_call_raw encode_all decode_all
    calls_batch start batch = do
      requests ← give (encode_all start batch)
      raws ← or_fail (batch_call_raw node context requests) (in_range start batch)
      give (decode_all start batch raws)

    unfoldable pub parallel_calls : List (ContractCall Abi Args) → Session ReadError (List Values)
    unfolding calls_batch in_batches batches
    parallel_calls calls = in_batches calls_batch 0 (batches (length calls) calls)

    unfoldable pub result_of : ContractCall Abi Args → Reply → ContractCallResult Values
    result_of call (refusal reason) = call_failed (reverted reason)
    result_of call (answer raw) = elim (codec.unpack call.abi call.method raw) [
      | none ↦ call_failed (undecoded (length raw == 0))
      | some decoded ↦ values decoded
    ]

    unfoldable pub results_of :
        List (ContractCall Abi Args)
        → List Reply
        → Outcome ReadError (List (ContractCallResult Values))
    unfolding result_of
    results_of [] replies = ok []
    results_of (call ∷ rest) [] = panic
    results_of (call ∷ rest) (reply ∷ replies) =
        prepend (result_of call reply) (results_of rest replies)

    unfoldable pub results_batch :
        ℕ → List (ContractCall Abi Args) → Session ReadError (List (ContractCallResult Values))
    unfolding batch_call_transport_raw encode_all results_of
    results_batch start batch = do
      requests ← give (encode_all start batch)
      replies ← or_fail (batch_call_transport_raw node context requests) (in_range start batch)
      give (results_of batch replies)

    unfoldable pub parallel_calls_allow_failure :
        List (ContractCall Abi Args) → Session ReadError (List (ContractCallResult Values))
    unfolding results_batch in_batches batches
    parallel_calls_allow_failure calls = in_batches results_batch 0 (batches (length calls) calls)
