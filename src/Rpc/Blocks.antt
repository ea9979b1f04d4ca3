-- ===== src/Rpc/Blocks.antt =====
-- rpc.go: the block that `LatestSettledBlock` returns.
use Prim.Native.String.{String}
use sentio_portfolio.Common.{
  ℕ, ◌+◌, ◌-◌, ◌≤◌, ◌<◌, ◌≡◌, ◌≢◌, refl, sym, ap, ◌∙◌, subst, Bool, true, false, ◌||◌, leb, ◌==◌,
  if◌then◌else◌, Outcome, ok, err, ok_injective, arith,
}
use sentio_portfolio.Checkpoint.{BlockRef}
use sentio_portfolio.Rpc.{RpcError, Context, Observations, call_raw}
use sentio_portfolio.Rpc.Reads.{
  Tag, latest, at_number, RpcBlock, Node, failed, no_hash, give, or_fail, block_by_tag,
  latest_settled_block,
}
use sentio_portfolio.Rpc.Retry.{attempts-ok}
use sentio_portfolio.Rpc.Batches.{wrap-ok, follow-ok}

-- A check that is passed.
check_passed :
    {E A : Type 0} (bad : Bool) (reason : E) (block : A) {final : A}
    → (if bad then err reason else ok block) ≡ ok final
    → (bad ≡ false) × (final ≡ block)
check_passed true reason block e = cc
check_passed false reason block e = (refl, sym (ok_injective e))

not_zero : (n : ℕ) → (n == 0) ≡ false → n ≢ 0
not_zero n h = ground arith

-- Where the block lies below a head.
abbrev pub Settles : ℕ → BlockRef → BlockRef → Type 0
Settles lag head block =
    (block.hash ≢ 0)
    × (block.number ≤ head.number)
    × (head.number ≤ block.number + lag)
    × (lag < head.number → block.number + lag ≡ head.number)
    × (head.number ≤ lag → block ≡ head)

above_lag : (lag n : ℕ) → (lag == 0 || leb n lag) ≡ false → lag < n
above_lag lag n h = ground arith

stays_settled :
    (lag : ℕ) (head : BlockRef)
    → head.hash ≢ 0
    → (lag == 0 || leb head.number lag) ≡ true
    → Settles lag head head
stays_settled lag head hashed h =
    (hashed, omega arith, omega arith, (λ above. ground arith), λ _. refl)

module _ {Log : Type 0} (node : Node Log) (context : Context) where
  call_raw-ok :
      {A : Type 0} (method : String) (trip : ℕ → Outcome RpcError A) (observed : Observations)
      {a : A}
      → (call_raw context method trip observed).0 ≡ ok a
      → (k : ℕ) × (trip k ≡ ok a)
  unfolding call_raw
  call_raw-ok method trip observed e = attempts-ok context method 0 trip observed e

  -- A block of the node, by its tag.
  abbrev pub Served : Tag → BlockRef → Type 0
  Served tag block =
      (trip : ℕ) × (answered : RpcBlock) × (node.block tag trip ≡ ok answered)
      × (block.number ≡ answered.number)
      × (block.hash ≡ answered.hash)
      × (block.hash ≢ 0)
      × (block.chain_id ≡ context.chain_id)

  block_by_tag-Served :
      (tag : Tag) (observed : Observations) {block : BlockRef}
      → (block_by_tag node context tag observed).0 ≡ ok block
      → Served tag block
  unfolding block_by_tag
  block_by_tag-Served tag observed {block} e =
      let (answered, called, checked) =
        follow-ok
          (or_fail (call_raw context "eth_getBlockByNumber" (node.block tag)) failed observed) _
          e in
      let (trip, same) =
        call_raw-ok "eth_getBlockByNumber" (node.block tag) observed (wrap-ok failed _ called) in
      let (hashed, is_block) = check_passed (answered.hash == 0) no_hash _ checked in
      (
        trip,
        answered,
        same,
        ap (λ b. b.number) is_block,
        ap (λ b. b.hash) is_block,
        (λ zero_hash. not_zero answered.hash hashed (sym (ap (λ b. b.hash) is_block) ∙ zero_hash)),
        ap (λ b. b.chain_id) is_block,
      )

  -- Given that the node answers a request for a block by its number with a block of that number, the block
  -- that is returned is at most `lag` blocks below a head that the node answered with, and not above it. It is
  -- the head only if the lag is 0 or the head is not above the lag, and otherwise exactly `lag` below. Its hash
  -- is not zero.
  pub latest_settled_block-Settled :
      ((n trip : ℕ) (b : RpcBlock) → node.block (at_number n) trip ≡ ok b → b.number ≡ n)
      → (lag : ℕ) (observed : Observations) (block : BlockRef)
      → (latest_settled_block node context lag observed).0 ≡ ok block
      → (head : BlockRef) × Served latest head × Settles lag head block
  unfolding latest_settled_block
  latest_settled_block-Settled numbered lag observed block e =
      let (head, first, second) = follow-ok (block_by_tag node context latest observed) _ e in
      let served = block_by_tag-Served latest observed first in
      (head, served, settled head served (lag == 0 || leb head.number lag) refl second)
    where
      settled :
          (head : BlockRef)
          → Served latest head
          → (stays : Bool) → (lag == 0 || leb head.number lag) ≡ stays
          → ((if stays
                then give (ok head)
                else block_by_tag node context (at_number (head.number - lag)))
              (block_by_tag node context latest observed).1).0
            ≡ ok block
          → Settles lag head block
      settled head served true h e =
          subst (Settles lag head) (ok_injective e) (stays_settled lag head served.5 h)
      settled head served false h e =
          let (trip, answered, same, at, hash, hashed, chain) =
            block_by_tag-Served (at_number (head.number - lag)) _ e in
          let below = numbered (head.number - lag) trip answered same in
          let above = above_lag lag head.number h in
          (
            hashed,
            omega (arith, at, below, above),
            omega (arith, at, below, above),
            (λ _. omega (arith, at, below, above)),
            λ low. absurd (omega (arith, low, above)),
          )
