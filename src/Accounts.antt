-- ===== src/Accounts.antt =====
-- accounts.go: the accounts that a scan reads for an owner, with the Instadapp accounts that the list
-- contract links to it. The contract calls are parameters, each with its decoded outputs, or `none` for
-- a call that fails or does not decode. Addresses are numbers; the zero address is 0.
pub mod Walk
pub mod Scope
mod Tests
use sentio_portfolio.Common.{
  ℕ, zero, suc, Bool, true, false, not, ◌&&◌, ◌||◌, List, [], ◌∷◌, Option, none, some, ltb, ◌==◌,
  if◌then◌else◌, Outcome, ok, err, panic, fail_if, ◌>>=◌, ◌>>◌,
}
use sentio_portfolio.Common.Assoc.{contains, nat_key}
use sentio_portfolio.Checkpoint.{BlockRef}
use sentio_portfolio.Availability.{DeploymentWindow, active_at}
use sentio_portfolio.Availability.Table.{ethereum}

pub data Attribution : Type 0 where
  wallet instadapp_dsa : Attribution

-- `attributedAccount`; the attribution gives the source too.
pub record Account : Type 0 where
  pub address : ℕ
  pub attribution : Attribution

pub data Error : Type 0 where
  call_failed too_many non_empty_endpoints empty_endpoint ended_early cycle : Error
  inconsistent_edge zero_address duplicate_address wrong_tail : Error

-- An entry of the list: the account's address and its neighbours.
pub record Node : Type 0 where
  pub address : ℕ
  pub previous : ℕ
  pub next : ℕ

-- `userLink` of the owner gives the first and last ids and the count; `accountAddr` and `userList` are read
-- together for an id.
pub record Client : Type 0 where
  pub user_link : Option (ℕ × ℕ × ℕ)
  pub node : ℕ → Option Node

abbrev pub list_deployment : DeploymentWindow
list_deployment = record { activation_block = 9_747_258; deactivation_block = 0 }

abbrev pub direct : ℕ → Account
direct owner = record { address = owner; attribution = wallet }

abbrev pub derived : ℕ → Account
derived address = record { address = address; attribution = instadapp_dsa }

abbrev pub called : {A : Type 0} → Option A → Outcome Error A
called none = err call_failed
called (some a) = ok a

-- The checks of one pass, given what is read for the id `current`.
pub visit : List ℕ → List ℕ → ℕ → ℕ → Option Node → Outcome Error Node
visit seen_ids seen_addresses previous current read = do
  fail_if (current == 0) ended_early
  fail_if (contains current seen_ids) cycle
  node ← called read
  fail_if (not (node.previous == previous)) inconsistent_edge
  fail_if (node.address == 0) zero_address
  fail_if (contains node.address seen_addresses) duplicate_address
  ok node

-- The loop over the list, for `left` more entries, then the check of the tail.
pub walk : Client → ℕ → ℕ → List ℕ → List ℕ → ℕ → ℕ → Outcome Error (List Account)
unfolding visit
walk client last zero seen_ids seen_addresses previous current = do
  fail_if (not (previous == last) || not (current == 0)) wrong_tail
  ok []
walk client last (suc left) seen_ids seen_addresses previous current = do
  node ← visit seen_ids seen_addresses previous current (client.node current)
  rest ←
      walk client last left (current ∷ seen_ids) (node.address ∷ seen_addresses) current node.next
  ok (derived node.address ∷ rest)

pub empty_list : ℕ → ℕ → ℕ → Outcome Error (List Account)
empty_list owner first last = do
  fail_if (not (first == 0) || not (last == 0)) non_empty_endpoints
  ok (direct owner ∷ [])

pub linked_list : Client → ℕ → ℕ → ℕ → ℕ → Outcome Error (List Account)
unfolding walk
linked_list client owner first last count = do
  fail_if (first == 0 || last == 0) empty_endpoint
  rest ← walk client last count [] (owner ∷ []) 0 first
  ok (direct owner ∷ rest)

pub linked : Client → ℕ → ℕ × ℕ × ℕ → Outcome Error (List Account)
unfolding empty_list linked_list
linked client owner (first, last, count) = do
  fail_if (ltb 256 count) too_many
  (if count == 0 then empty_list owner first last else linked_list client owner first last count)

pub resolve_account_scope : Client → BlockRef → ℕ → Outcome Error (List Account)
unfolding linked active_at
resolve_account_scope client block owner =
    if not (block.chain_id == ethereum) || not (active_at list_deployment block.number)
    then ok (direct owner ∷ [])
    else (called client.user_link >>= linked client owner)
