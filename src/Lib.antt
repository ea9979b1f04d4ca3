-- ===== src/Lib.antt =====
-- The portfolio kernel: what it computes from the state of a chain at a pinned block, and how it
-- decides what to trust of an index.
--
-- The parts and their files, with the sources from the repository's root:
--   * Availability (adapter.go, protocol_availability.go): block windows of the protocols, and the
--     registration of the adapters against the table of windows. A scan asks a registered adapter
--     only where one of its windows is active. Availability/Table is the shipped table.
--   * Accounts (accounts.go): `resolveAccountScope`, the accounts read for an owner. It reads the
--     Instadapp list through contract calls, which are the parameter `Client`.
--   * Checkpoint (sentio_checkpoint.go): `indexQueryBlock` and `checkIndexCheckpoint`, the block that
--     an index read asks at and the checkpoint that certifies it.
--   * Presence (sentio_presence.go, parseIndexCheckpoint of sentio_index.go): `presenceTargets` and
--     `presenceChainEmpty`, which skip chains that hold nothing. They use Checkpoint.
--   * Pages (sentio_index.go): `pages`, a read of an index. Each stream is paged under its own cursor,
--     every page is held to one checkpoint, and `certify` applies Checkpoint to it.
--   * Engine, Scan and Dispatch (engine.go): the chains and protocols that an engine serves; the
--     deployments that a scan plans and what the reading of one adds to the response; and the
--     readings on their way through the workers, as steps that interleave, with the presence probes
--     that end with a protocol's last deployment. Dispatch applies Wallet to what was read.
--   * Pricing (pricing.go): the tokens that a scan must quote, by the instant that they are valued at, and
--     the prices that come of the provider's answers.
--   * Valuation (valuation.go): the price and the value of a component, and the sums by group, snapshot
--     and protocol (Valuation/Totals).
--   * Lane (sentio_lane.go): the bounded lane in front of the indexer, as steps of its callers.
--   * Wallet (wallet.go): `suppressDuplicateHoldings`, which keeps a token that a protocol counts
--     from being counted in the wallet too.
--   * Rpc (rpc.go): the client of a chain's node. A call and a batch are tried up to three times
--     (Rpc); the reads of blocks, logs and code (Rpc/Reads) and the reads of contracts in batches of 16
--     (Rpc/Calls) are built on that.
--   * Provider (wallet_provider.go, `configureWalletBalances`): the request to a provider of wallet
--     balances (Provider/Requests), and what its answer makes of each chain (Provider/Answers).
--   * Balances (receipt.go, lst.go): the readers of receipt tokens and of balances that a contract
--     converts. Their sources tell Wallet which tokens they count.
--   * TickMath (uniswap_math.go), Suilend (suilend_math.go), Navi (navi_math.go), Morpho
--     (morpho_math.go), Clmm (sui_clmm_math.go): the arithmetic of the protocols, which the adapters
--     apply to what they read.
--   * Common: tests and numbers, outcomes with errors and panics, association lists for maps.
-- The file named like the part holds its definitions, as do the further files that the list names; the
-- others in its folder hold the proofs, and Tests runs of the code and the theorems at concrete
-- arguments.
--
-- Numbers: `big.Int` values that the code knows not to be negative are natural numbers, the others
-- integers; machine integers carry their wrap-around (% 2 ^ w). A division by zero is the outcome
-- `panic`. Errors are constructors without their text. Addresses are numbers, the zero address 0.
-- Loops recurse on the list or the count that the code ranges over; the exponentiation of Suilend
-- recurses on its exponent, which each round halves (Common/Order). The loop of Pages has fuel for one
-- round more than the rows that its streams may hold: a page takes a row of every open cursor or
-- ends it. A call of Rpc recurses on the attempts that are left, of three; the batches of a list have its
-- length as fuel, since each takes an element.
--
-- Not under the repository and so parameters: contract calls (`Client`, `calls`), the status read of the
-- indexer (`read`), JSON decoding and number parsing (`Decoder`), the answers of an index and the
-- decoding of its rows (`Source` of Pages). The adapters' readings are a parameter of Scan (`Reader`), and the
-- price provider one of Pricing (`Provider`); the provider of wallet balances is an argument of
-- `configure_wallet_balances`. The operations on float64 are the parameter `Float` of Valuation. The
-- answers of a node are the parameter `Node` of Rpc, by the number of the round trip, and the ABI of a
-- contract is `Codec`.
-- Not modelled: the set-up of the chains, the groups of a wallet's tokens, the adapters' reads, and the Sui
-- object decoding.
pub mod Accounts
pub mod Availability
pub mod Balances
pub mod Checkpoint
pub mod Clmm
pub mod Common
pub mod Dispatch
pub mod Engine
pub mod Lane
pub mod Morpho
pub mod Navi
pub mod Pages
pub mod Presence
pub mod Pricing
pub mod Provider
pub mod Rpc
pub mod Scan
pub mod Suilend
pub mod TickMath
pub mod Valuation
pub mod Wallet
