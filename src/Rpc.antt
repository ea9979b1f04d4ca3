-- ===== src/Rpc.antt =====
-- rpc.go: the JSON-RPC client. A call and a batch are tried up to three times; what the node and the
-- context do at a round trip is a parameter, given the number of the trip, which is the number of the
-- observations made before it. Durations and the redaction of URLs are left out. Addresses are numbers,
-- the zero address 0; texts are lists of character codes.
pub mod Reads
pub mod Calls
pub mod Batches
pub mod Healthy
pub mod Deployed
pub mod Retry
pub mod Blocks
pub mod Contracts
mod Tests
use Prim.Native.String.{String}
use sentio_portfolio.Common.{
  ℕ, zero, suc, ◌+◌, Bool, true, false, not, ◌&&◌, ◌||◌, List, [], ◌∷◌, ◌++◌, map, Option, none,
  some, ltb, leb, ◌==◌, length, if◌then◌else◌, Outcome, ok, err, panic,
}
use sentio_portfolio.Common.Int.{ℤ, pos, negsuc}
use sentio_portfolio.Wallet.{contains_text}

abbrev pub rpc_attempts : ℕ
rpc_attempts = 3

-- An error's chain: the transport's errors at its end, as `errors.As` finds them, and what wraps them.
pub data RpcError : Type 0 where
  -- `rpc.HTTPError`, with its status.
  http_error : ℕ → RpcError
  -- `rpc.Error`, with its code and its message.
  node_error : ℤ → List ℕ → RpcError
  -- Any other error of a round trip.
  other_error context_done : RpcError
  batch_element : ℕ → RpcError → RpcError
  attempts_failed : RpcError → RpcError
  -- A nil error.
  no_error : RpcError

abbrev pub is_nil : RpcError → Bool
is_nil no_error = true
is_nil reason = false

-- `strings.ToLower` as far as ASCII letters come of it: those in upper case, and the two other characters
-- that it maps to one, the dotted I and the Kelvin sign.
unfoldable pub lower : ℕ → ℕ
lower c =
    if leb b'A' c && leb c b'Z'
    then c + 32
    else if c == 304
    then b'i'
    else if c == 8490
    then b'k'
    else c

abbrev pub header_not_found : List ℕ
header_not_found =
    b'h' ∷ b'e' ∷ b'a' ∷ b'd' ∷ b'e' ∷ b'r' ∷ b' ' ∷ b'n' ∷ b'o' ∷ b't' ∷ b' ' ∷ b'f' ∷ b'o' ∷ b'u'
    ∷ b'n' ∷ b'd' ∷ []

abbrev pub unknown_block : List ℕ
unknown_block =
    b'u' ∷ b'n' ∷ b'k' ∷ b'n' ∷ b'o' ∷ b'w' ∷ b'n' ∷ b' ' ∷ b'b' ∷ b'l' ∷ b'o' ∷ b'c' ∷ b'k' ∷ []

abbrev pub block_not_found : List ℕ
block_not_found =
    b'b' ∷ b'l' ∷ b'o' ∷ b'c' ∷ b'k' ∷ b' ' ∷ b'n' ∷ b'o' ∷ b't' ∷ b' ' ∷ b'f' ∷ b'o' ∷ b'u' ∷ b'n'
    ∷ b'd' ∷ []

abbrev pub beyond_the_latest_block : List ℕ
beyond_the_latest_block =
    b'b' ∷ b'e' ∷ b'y' ∷ b'o' ∷ b'n' ∷ b'd' ∷ b' ' ∷ b't' ∷ b'h' ∷ b'e' ∷ b' ' ∷ b'l' ∷ b'a' ∷ b't'
    ∷ b'e' ∷ b's' ∷ b't' ∷ b' ' ∷ b'b' ∷ b'l' ∷ b'o' ∷ b'c' ∷ b'k' ∷ []

-- The node has not received the block yet.
unfoldable pub names_missing_block : List ℕ → Bool
unfolding contains_text lower
names_missing_block message =
    let text = map lower message in
    contains_text header_not_found text
    || contains_text unknown_block text
    || contains_text block_not_found text
    || contains_text beyond_the_latest_block text

abbrev pub is_code : ℤ → ℕ → Bool
is_code (pos n) code = false
is_code (negsuc n) code = suc n == code

unfoldable pub retryable_code : ℤ → List ℕ → Bool
unfolding names_missing_block
retryable_code code message =
    is_code code 32005 || is_code code 32009 || (is_code code 32000 && names_missing_block message)

unfoldable pub retryable_rpc_error : RpcError → Bool
unfolding retryable_code
retryable_rpc_error (http_error status) =
    status == 429 || status == 502 || status == 503 || status == 504
retryable_rpc_error (node_error code message) = retryable_code code message
retryable_rpc_error other_error = true
retryable_rpc_error context_done = true
retryable_rpc_error (batch_element i reason) = retryable_rpc_error reason
retryable_rpc_error (attempts_failed reason) = is_nil reason || retryable_rpc_error reason
retryable_rpc_error no_error = false

-- `RPCObservation`
pub record Observation : Type 0 where
  pub chain_id : ℕ
  pub protocol_id : String
  pub method : String
  pub batch_size : ℕ
  pub attempt : ℕ
  pub failure : Option RpcError

-- The client's chain, and of the context the observer's protocol, and whether it is done while the client
-- waits after a trip.
pub record Context : Type 0 where
  pub chain_id : ℕ
  pub protocol_id : String
  pub is_done : ℕ → Bool

abbrev pub Observations : Type 0
Observations = List Observation

-- An operation: from the observations so far to its result and the observations after it.
abbrev pub Session : Type 0 → Type 0 → Type 0
Session E A = Observations → Outcome E A × Observations

unfoldable pub failure_of : {A : Type 0} → Outcome RpcError A → Option RpcError
failure_of (ok a) = none
failure_of (err reason) = some reason
failure_of panic = none

unfoldable pub observe :
    {A : Type 0} → Context → String → ℕ → ℕ → Outcome RpcError A → Observations → Observations
unfolding failure_of
observe context method batch_size attempt result observed =
    observed
    ++ record {
      chain_id = context.chain_id;
      protocol_id = context.protocol_id;
      method = method;
      batch_size = batch_size;
      attempt = attempt + 1;
      failure = failure_of result;
    }
      ∷ []

-- What follows a round trip, given its result and the loop's next turn. The wait comes before each turn
-- but the first.
unfoldable pub settle :
    {A : Type 0}
    → Context
    → ℕ
    → Outcome RpcError A
    → Observations
    → (RpcError → Outcome RpcError A × Observations)
    → Outcome RpcError A × Observations
unfolding retryable_rpc_error
settle context attempt (ok a) observed next = (ok a, observed)
settle context attempt panic observed next = (panic, observed)
settle context attempt (err reason) observed next =
    if not (retryable_rpc_error reason)
    then (err reason, observed)
    else if ltb (attempt + 1) rpc_attempts && context.is_done (length observed)
    then (err context_done, observed)
    else next reason

-- The loop over the attempts, given the number of those that are left, the attempt's own number and the last
-- error. A round trip is given its number.
unfoldable pub attempts :
    {A : Type 0}
    → Context
    → String
    → ℕ
    → (ℕ → Outcome RpcError A)
    → ℕ
    → ℕ
    → RpcError
    → Session RpcError A
unfolding settle observe
attempts context method batch_size trip zero attempt last observed =
    (err (attempts_failed last), observed)
attempts context method batch_size trip (suc left) attempt last observed =
    let result = trip (length observed) in
    settle context attempt result (observe context method batch_size attempt result observed)
      λ reason.
        attempts context method batch_size trip left (attempt + 1) reason
          (observe context method batch_size attempt result observed)

unfoldable pub call_raw :
    {A : Type 0} → Context → String → (ℕ → Outcome RpcError A) → Session RpcError A
unfolding attempts
call_raw context method trip = attempts context method 0 trip rpc_attempts 0 no_error
