-- ===== src/Checkpoint/Query.antt =====
-- Where an index read queries at, and what it refuses (sentio_checkpoint.go).
use sentio_portfolio.Common.{
  ℕ, ◌≡◌, ◌⊎◌, inl, inr, refl, Bool, true, false, none, some, Option, arith, ok, if◌then◌else◌,
  Bool-cases, >>=-eq-ok,
}
use sentio_portfolio.Common.Assoc.{lookup, nat_key, string_key}
use sentio_portfolio.Checkpoint.{
  BlockRef, ChainStatus, Statuses, index_query_block, accept_status, trails_at, trails, lower_of,
  is_latest, read_result,
}

-- The status lets a read for the pin query at `q`.
abbrev pub Serves : BlockRef → ChainStatus → ℕ → Type 0
Serves block s q =
    (s.state ≡ "PROCESSING_LATEST")
    × (q ≡ lower_of block.number s.processed_block)
    × (block.fixed ≡ true → q ≡ block.number)

accept_sound :
    (block : BlockRef) (ss : Statuses) (o : Option ChainStatus) (out : Statuses) (q : ℕ)
    → accept_status block ss o ≡ ok (out, q)
    → (out ≡ ss) × (s : ChainStatus) × (o ≡ some s) × Serves block s q
unfolding accept_status
accept_sound block ss none out q h = cc
accept_sound block ss (some s) out q h =
    let parts : (is_latest s ≡ true)
        × (out ≡ ss)
        × (q ≡ lower_of block.number s.processed_block)
        × (trails block s ≡ false) =
      ground arith in
    (
      parts.1,
      s,
      refl,
      (
        (string_key.beq_iff s.state "PROCESSING_LATEST").0 parts.0,
        parts.2,
        λ f. ground (arith, parts.2, parts.3, f),
      ),
    )

read_result-ok : (o : Option Statuses) (ss : Statuses) → read_result o ≡ ok ss → o ≡ some ss
read_result-ok none ss h = cc
read_result-ok (some x) ss h = cc

-- The statuses that were read last, and why.
abbrev pub LastRead : BlockRef → (Bool → Option Statuses) → Statuses → Type 0
LastRead block read last =
    (first : Statuses) × (read false ≡ some first)
    × (((first ≡ last) × (trails_at block (lookup block.chain_id first) ≡ false))
        ⊎ ((read true ≡ some last) × (trails_at block (lookup block.chain_id first) ≡ true)))

last_read :
    (block : BlockRef) (read : Bool → Option Statuses) (first last : Statuses)
    → read false ≡ some first
    → (if trails_at block (lookup block.chain_id first) then read_result (read true) else ok first)
      ≡ ok last
    → LastRead block read last
last_read block read first last e h =
    elim (Bool-cases (trails_at block (lookup block.chain_id first))) [
      | inl behind ↦ (first, e, inr (read_result-ok (read true) last (ground arith), behind))
      | inr fine ↦ (first, e, inl (ground arith, fine))
    ]

-- A block that is accepted lies in a status that the processor reported as up to date: it is the pin, or
-- the processor's last block when that is lower, and at a fixed pin it is the pin itself. The status
-- is that of the forced read only if the first one trailed a fixed pin.
pub index_query_block_sound :
    (block : BlockRef) (read : Bool → Option Statuses) (out : Statuses) (q : ℕ)
    → index_query_block block read ≡ ok (out, q)
    → (s : ChainStatus) × (lookup block.chain_id out ≡ some s)
      × Serves block s q
      × LastRead block read out
unfolding index_query_block
index_query_block_sound block read out q h =
    let (first, e, h1) = >>=-eq-ok (read_result (read false)) _ h in
    let (last, k, h2) =
      >>=-eq-ok
        (if trails_at block (lookup block.chain_id first)
          then read_result (read true)
          else ok first)
        _ h1 in
    let (same, s, found, serves) = accept_sound block last (lookup block.chain_id last) out q h2 in
    (
      s,
      rw same found,
      serves,
      rw same (last_read block read first last (read_result-ok _ first e) k),
    )

not_behind :
    (block : BlockRef) (s : ChainStatus) (q : ℕ) → Serves block s q → trails block s ≡ false
not_behind block s q serves = elim (Bool-cases block.fixed) [
  | inl at_pin ↦ ground (arith, serves.2 at_pin, serves.1, at_pin)
  | inr live ↦ rw live refl
]

accept-Serves :
    (block : BlockRef) (ss : Statuses) (s : ChainStatus) (q : ℕ)
    → Serves block s q
    → accept_status block ss (some s) ≡ ok (ss, q)
unfolding accept_status
accept-Serves block ss s q serves =
    let latest : is_latest s ≡ true = (string_key.beq_iff s.state "PROCESSING_LATEST").1 serves.0 in
    rw (latest, not_behind block s q serves, serves.1) refl

-- A read is never refused, nor made twice, when the first statuses let the pin be queried.
pub index_query_block-Serves :
    (block : BlockRef) (read : Bool → Option Statuses) (ss : Statuses) (s : ChainStatus) (q : ℕ)
    → read false ≡ some ss
    → lookup block.chain_id ss ≡ some s
    → Serves block s q
    → index_query_block block read ≡ ok (ss, q)
unfolding index_query_block
index_query_block-Serves block read ss s q e found serves =
    rw (e, found, not_behind block s q serves, found) (accept-Serves block ss s q serves)
