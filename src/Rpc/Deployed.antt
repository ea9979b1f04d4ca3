-- ===== src/Rpc/Deployed.antt =====
-- rpc.go, `DeployedAt`: which addresses have code at a block.
use sentio_portfolio.Common.{
  ℕ, ◌≡◌, refl, subst, Bool, List, map, length, Each, Each-map, ok, ok_injective, arith,
}
use sentio_portfolio.Checkpoint.{BlockRef}
use sentio_portfolio.Rpc.{Context, Observations}
use sentio_portfolio.Rpc.Reads.{Bytes, get_code, Node, or_fail, batch_call_raw}
use sentio_portfolio.Rpc.Calls.{batches, in_range, has_code, deployed_batch, deployed_at}
use sentio_portfolio.Rpc.Batches.{wrap-ok, follow-ok, flatten-batches, in_batches-Each, Answered}
use sentio_portfolio.Rpc.Contracts.{batch_call_raw-Answered}

module _ {Log : Type 0} (node : Node Log) (context : Context) (block : BlockRef) where
  -- The node answered with the code of an address, which is empty or not.
  abbrev pub Probed : ℕ → Bool → Type 0
  Probed address deployed =
      (raw : Bytes) × Answered node (get_code address block.number) raw × (deployed ≡ has_code raw)

  deployed_batch-Probed :
      (start : ℕ) (batch : List ℕ) (observed : Observations) {found : List Bool}
      → (deployed_batch node context block start batch observed).0 ≡ ok found
      → Each Probed batch found
  unfolding deployed_batch
  deployed_batch-Probed start batch observed {found} e =
      let requests = map (λ a. get_code a block.number) batch in
      let (raws, sent, e1) =
        follow-ok (or_fail (batch_call_raw node context requests) (in_range start batch) observed) _
          e in
      subst (Each Probed batch) (ok_injective e1) (
        Each-map (Answered node) (λ a. get_code a block.number) has_code Probed batch raws
          (λ a raw answered. (raw, answered, refl))
          (batch_call_raw-Answered node context requests observed
            (wrap-ok (in_range start batch) _ sent)))

  -- Where the probe of addresses returns, it tells of each of them, in their order, whether the code with which
  -- the node answered for that address at the block is not empty.
  pub deployed_at-Probed :
      (addresses : List ℕ) (observed : Observations) {found : List Bool}
      → (deployed_at node context block addresses observed).0 ≡ ok found
      → Each Probed addresses found
  unfolding deployed_at
  deployed_at-Probed addresses observed {found} e =
      subst (λ all. Each Probed all found)
        (flatten-batches (length addresses) addresses (omega arith))
        (in_batches-Each Probed (deployed_batch node context block)
          (λ start batch observed _. deployed_batch-Probed start batch observed) 0
          (batches (length addresses) addresses) observed e)
