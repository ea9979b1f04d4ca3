-- ===== src/Rpc/Reads.antt =====
-- rpc.go: the reads that the client offers, over the calls and the batches. What the node answers is a
-- parameter, and so are the encoding and the decoding of a contract's calls, which go-ethereum's `abi` does.
use Prim.Native.String.{String}
use sentio_portfolio.Common.{
  ℕ, suc, ◌-◌, ◌%◌, ◌^◌, Bool, true, false, not, ◌&&◌, ◌||◌, List, [], ◌∷◌, Option, none, some, ltb,
  leb, ◌==◌, length, if◌then◌else◌, Outcome, ok, err, panic,
}
use sentio_portfolio.Common.Assoc.{string_key}
use sentio_portfolio.Checkpoint.{BlockRef}
use sentio_portfolio.Rpc.{
  RpcError, batch_element, retryable_rpc_error, Context, Observations, Session, call_raw, attempts,
  rpc_attempts, no_error,
}

abbrev pub Bytes : Type 0
Bytes = List ℕ

pub data Tag : Type 0 where
  latest : Tag
  at_number : ℕ → Tag

pub record RpcBlock : Type 0 where
  pub number : ℕ
  pub hash : ℕ
  pub timestamp : ℕ

-- The object of an `eth_call`.
pub record CallObject : Type 0 where
  pub to : ℕ
  pub data_bytes : Bytes
  pub from : Option ℕ

-- An element of a batch, at a block.
pub data Request : Type 0 where
  get_code : ℕ → ℕ → Request
  eth_call : CallObject → ℕ → Request

pub data AddressFilter : Type 0 where
  any_address : AddressFilter
  one_address : ℕ → AddressFilter
  addresses : List ℕ → AddressFilter

abbrev pub filter_of : List ℕ → AddressFilter
filter_of [] = any_address
filter_of (address ∷ []) = one_address address
filter_of (a ∷ b ∷ rest) = addresses (a ∷ b ∷ rest)

pub record Filter : Type 0 where
  pub from_block : ℕ
  pub to_block : ℕ
  pub address : AddressFilter
  pub topics : List (List ℕ)

-- An element of a batch after a round trip: its result, or its error.
pub data Reply : Type 0 where
  answer : Bytes → Reply
  refusal : RpcError → Reply

-- What the node answers, given the number of the round trip: to a request alone; and of a batch, the failure
-- of the batch as a whole, and the answer to an element, given its place.
pub record Node (Log : Type 0) : Type 0 where
  pub chain_id : ℕ → Outcome RpcError ℕ
  pub block : Tag → ℕ → Outcome RpcError RpcBlock
  pub balance : ℕ → ℕ → ℕ → Outcome RpcError ℕ
  pub logs : Filter → ℕ → Outcome RpcError (List Log)
  pub single : Request → ℕ → Outcome RpcError Bytes
  pub batch_failure : List Request → ℕ → Option RpcError
  pub element : ℕ → Request → ℕ → Reply

pub data ReadError : Type 0 where
  failed : RpcError → ReadError
  batch_failed : (first last : ℕ) → RpcError → ReadError
  no_hash : ReadError
  wrong_chain_id : ℕ → ReadError
  invalid_range : (from to : ℕ) → ReadError
  not_encoded not_decoded : ℕ → ReadError

module _ {E A B : Type 0} where
  abbrev pub follow : Outcome E A × Observations → (A → Session E B) → Outcome E B × Observations
  follow (ok a, observed) next = next a observed
  follow (err reason, observed) next = (err reason, observed)
  follow (panic, observed) next = (panic, observed)

  infixl 5 ◌>>=◌
  abbrev pub ◌>>=◌ : Session E A → (A → Session E B) → Session E B
  (first >>= next) observed = follow (first observed) next

abbrev pub give : {E A : Type 0} → Outcome E A → Session E A
give result observed = (result, observed)

abbrev pub wrap : {E F A : Type 0} → (E → F) → Outcome E A → Outcome F A
wrap f (ok a) = ok a
wrap f (err reason) = err (f reason)
wrap f panic = panic

-- `if err != nil { return … err }`
abbrev pub or_fail : {E F A : Type 0} → Session E A → (E → F) → Session F A
or_fail first f observed = (wrap f (first observed).0, (first observed).1)

abbrev pub method_of : Request → String
method_of (get_code address at) = "eth_getCode"
method_of (eth_call object at) = "eth_call"

abbrev pub all_named : String → List Request → Bool
all_named method [] = true
all_named method (r ∷ rs) = string_key.beq (method_of r) method && all_named method rs

unfoldable pub batch_method : List Request → String
batch_method [] = "batch"
batch_method (r ∷ rs) = if all_named (method_of r) rs then method_of r else "batch"

module _ {Log : Type 0} (node : Node Log) where
  abbrev pub replies : ℕ → List Request → ℕ → List Reply
  replies i [] trip = []
  replies i (r ∷ rs) trip = node.element i r trip ∷ replies (suc i) rs trip

abbrev pub prepend : {E A : Type 0} → A → Outcome E (List A) → Outcome E (List A)
prepend x (ok xs) = ok (x ∷ xs)
prepend x (err reason) = err reason
prepend x panic = panic

-- The element's error, or the list's.
abbrev pub both : {E A : Type 0} → Outcome E A → Outcome E (List A) → Outcome E (List A)
both (ok x) rest = prepend x rest
both (err reason) rest = err reason
both panic rest = panic

-- The results of a batch without errors. The first element with an error is the batch's error.
unfoldable pub raw_results : ℕ → List Reply → Outcome RpcError (List Bytes)
raw_results i [] = ok []
raw_results i (answer raw ∷ rest) = prepend raw (raw_results (suc i) rest)
raw_results i (refusal reason ∷ rest) = err (batch_element i reason)

-- Every reply of a batch, unless an element's error is retryable.
unfoldable pub tolerated : ℕ → List Reply → Outcome RpcError (List Reply)
unfolding retryable_rpc_error
tolerated i [] = ok []
tolerated i (answer raw ∷ rest) = prepend (answer raw) (tolerated (suc i) rest)
tolerated i (refusal reason ∷ rest) =
    if retryable_rpc_error reason
    then err (batch_element i reason)
    else prepend (refusal reason) (tolerated (suc i) rest)

abbrev pub unless_failed : {A : Type 0} → Option RpcError → Outcome RpcError A → Outcome RpcError A
unless_failed none result = result
unless_failed (some reason) result = err reason

module _ {Log : Type 0} (node : Node Log) where
  -- A round trip of a batch.
  unfoldable pub batch_trip : List Request → ℕ → Outcome RpcError (List Bytes)
  unfolding raw_results
  batch_trip requests trip =
      unless_failed (node.batch_failure requests trip)
        (raw_results 0 (replies node 0 requests trip))

  unfoldable pub batch_transport_trip : List Request → ℕ → Outcome RpcError (List Reply)
  unfolding tolerated
  batch_transport_trip requests trip =
      unless_failed (node.batch_failure requests trip) (tolerated 0 (replies node 0 requests trip))

module _ {Log : Type 0} (node : Node Log) (context : Context) where
  unfoldable pub batch_call_raw : List Request → Session RpcError (List Bytes)
  unfolding attempts batch_method batch_trip
  batch_call_raw requests =
      attempts context (batch_method requests) (length requests) (batch_trip node requests)
        rpc_attempts 0 no_error

  unfoldable pub batch_call_transport_raw : List Request → Session RpcError (List Reply)
  unfolding attempts batch_method batch_transport_trip
  batch_call_transport_raw requests =
      attempts context (batch_method requests) (length requests)
        (batch_transport_trip node requests) rpc_attempts 0 no_error

  unfoldable pub dial_check : Session ReadError (Unit {0})
  unfolding call_raw
  dial_check = do
    actual ← or_fail (call_raw context "eth_chainId" node.chain_id) failed
    give (if not (actual % 2 ^ 64 == context.chain_id) then err (wrong_chain_id actual) else ok tt)

  unfoldable pub block_by_tag : Tag → Session ReadError BlockRef
  unfolding call_raw
  block_by_tag tag = do
    block ← or_fail (call_raw context "eth_getBlockByNumber" (node.block tag)) failed
    give (
        if block.hash == 0
        then err no_hash
        else ok record {
          chain_id = context.chain_id;
          number = block.number;
          hash = block.hash;
          timestamp = block.timestamp;
          fixed = false;
        })

  unfoldable pub latest_settled_block : ℕ → Session ReadError BlockRef
  unfolding block_by_tag
  latest_settled_block lag = do
    head ← block_by_tag latest
    (if lag == 0 || leb head.number lag
        then give (ok head)
        else block_by_tag (at_number (head.number - lag)))

  unfoldable pub native_balance : BlockRef → ℕ → Session ReadError ℕ
  unfolding call_raw
  native_balance block account =
      or_fail (call_raw context "eth_getBalance" (node.balance account block.number)) failed

  unfoldable pub logs : ℕ → ℕ → List ℕ → List (List ℕ) → Session ReadError (List Log)
  unfolding call_raw
  logs from_block to_block contracts topics =
      if ltb to_block from_block
      then give (err (invalid_range from_block to_block))
      else or_fail
          (call_raw context "eth_getLogs" (
            node.logs record {
              from_block = from_block;
              to_block = to_block;
              address = filter_of contracts;
              topics = topics;
            }))
          failed
