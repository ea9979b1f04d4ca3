-- ===== src/Availability.antt =====
-- adapter.go: block windows of the protocols, and the registration of the adapters. A Go map is an
-- association list. The errors carry no text; where the code ranges over a map, the order in which
-- it meets the entries decides only which of several offenders an error names.
pub mod Windows
pub mod Table
pub mod Registration
pub mod Lifetime
mod Tests
use Prim.Native.String.{String}
use sentio_portfolio.Common.{
  ℕ, ◌+◌, ◌≤◌, ◌<◌, Bool, true, false, not, ◌&&◌, ◌||◌, Option, none, some, List, [], ◌∷◌, ltb, leb,
  ◌==◌, length, if◌then◌else◌, Outcome, ok, err, panic, fail_if, ◌>>=◌, ◌>>◌,
}
use sentio_portfolio.Common.Assoc.{lookup, contains, nat_key, string_key}

pub record DeploymentWindow : Type 0 where
  pub activation_block : ℕ
  pub deactivation_block : ℕ

-- `deploymentWindow.ActiveAt`
unfoldable pub active_at : DeploymentWindow → ℕ → Bool
active_at d block =
    if ltb block d.activation_block
    then false
    else d.deactivation_block == 0 || leb block d.deactivation_block

pub record Window : Type 0 where
  pub deployment : DeploymentWindow
  pub configured : Bool

-- `availabilityWindow.ActiveAt`
pub window_active_at : Window → ℕ → Bool
unfolding active_at
window_active_at w block = w.configured && active_at w.deployment block

abbrev pub between : ℕ → ℕ → Window
between first last = record {
  deployment = record { activation_block = first; deactivation_block = last };
  configured = true;
}

pub data Error : Type 0 where
  duplicate_protocol duplicate_chain no_availability not_configured implicit_genesis : Error
  ends_before_start not_ordered overlap unadvertised_chain unknown_protocol : Error

pub available_from_genesis : Window
available_from_genesis = between 0 0

-- The window that `availableFrom` gives for a block other than zero.
abbrev pub since_block : ℕ → Window
since_block block = between block 0

pub available_from : ℕ → Outcome Error Window
available_from block = if block == 0 then panic else ok (since_block block)

pub available_between : ℕ → ℕ → Outcome Error Window
available_between first last =
    if first == 0 || last == 0 || ltb last first then panic else ok (between first last)

abbrev pub Availability : Type 0
Availability = List (ℕ × List Window)

-- A read of a Go map of slices: a missing key gives the empty slice.
abbrev pub windows_of : ℕ → Availability → List Window
windows_of chain a = elim (lookup chain a) [ none ↦ [] | some ws ↦ ws ]

pub any_active : List Window → ℕ → Bool
unfolding window_active_at
any_active [] block = false
any_active (w ∷ ws) block = if window_active_at w block then true else any_active ws block

-- `registeredAdapter.ActiveAt`
pub registered_active_at : Availability → ℕ → ℕ → Bool
unfolding any_active
registered_active_at a chain block = any_active (windows_of chain a) block

-- The checks on one window, and on its order against the one before it.
pub check_window : Window → Outcome Error (Unit {0})
check_window w = do
  fail_if (not w.configured) not_configured
  let bounds = w.deployment
  fail_if (bounds.activation_block == 0 && not (bounds.deactivation_block == 0)) implicit_genesis
  fail_if
      (not (bounds.deactivation_block == 0)
        && ltb bounds.deactivation_block bounds.activation_block)
      ends_before_start

pub check_order : Option Window → Window → Outcome Error (Unit {0})
check_order none w = ok tt
check_order (some previous) w = do
  let bounds = w.deployment
  let before = previous.deployment
  fail_if (leb bounds.activation_block before.activation_block) not_ordered
  fail_if (before.deactivation_block == 0 || leb bounds.activation_block before.deactivation_block)
      overlap

pub check_windows : Option Window → List Window → Outcome Error (Unit {0})
unfolding check_window check_order
check_windows previous [] = ok tt
check_windows previous (w ∷ ws) = do
  check_window w
  check_order previous w
  check_windows (some w) ws

-- The chains that an adapter advertises, against those seen before and their windows.
pub check_chains : Availability → List ℕ → List ℕ → Outcome Error (Unit {0})
unfolding check_windows
check_chains a seen [] = ok tt
check_chains a seen (chain ∷ chains) = do
  fail_if (contains chain seen) duplicate_chain
  fail_if (length (windows_of chain a) == 0) no_availability
  check_windows none (windows_of chain a)
  check_chains a (chain ∷ seen) chains

pub check_advertised : List ℕ → Availability → Outcome Error (Unit {0})
check_advertised chains [] = ok tt
check_advertised chains ((chain, ws) ∷ a) = do
  fail_if (not (contains chain chains)) unadvertised_chain
  check_advertised chains a

pub record ProtocolInfo : Type 0 where
  pub id : String
  pub name : String
  pub chains : List ℕ

pub record Registered : Type 0 where
  pub info : ProtocolInfo
  pub availability : Availability

abbrev pub Registrations : Type 0
Registrations = List (String × Registered)

abbrev pub Table : Type 0
Table = List (String × Availability)

abbrev pub availability_of : String → Table → Availability
availability_of id table = elim (lookup id table) [ none ↦ [] | some a ↦ a ]

abbrev pub is_registered : String → Registrations → Bool
is_registered id rs = elim (lookup id rs) [ none ↦ false | some _ ↦ true ]

-- The loop over the adapters; `rs` holds those registered so far.
pub register_all : Table → Registrations → List ProtocolInfo → Outcome Error Registrations
unfolding check_chains check_advertised
register_all table rs [] = ok rs
register_all table rs (info ∷ infos) = do
  fail_if (is_registered info.id rs) duplicate_protocol
  let a = availability_of info.id table
  check_chains a [] info.chains
  check_advertised info.chains a
  register_all table ((info.id, record { info = info; availability = a }) ∷ rs) infos

pub check_known : Registrations → Table → Outcome Error (Unit {0})
check_known rs [] = ok tt
check_known rs ((id, a) ∷ table) = do
  fail_if (not (is_registered id rs)) unknown_protocol
  check_known rs table

-- `registerAdapters`
pub register_adapters : List ProtocolInfo → Table → Outcome Error Registrations
unfolding register_all check_known
register_adapters infos table = do rs ← register_all table [] infos; check_known rs table; ok rs

-- `supportsChain`
pub supports_chain : List ℕ → ℕ → Bool
supports_chain [] chain = false
supports_chain (candidate ∷ chains) chain =
    if candidate == chain then true else supports_chain chains chain
