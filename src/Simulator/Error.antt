-- ===== src/Simulator/Error.antt =====
-- crates/common/src/simulator.rs: what a failed simulation says of the block, of the node and of the
-- relay. The reason of a node is a list of bytes.
use Prim.Native.Char.{code}
use Prim.Native.String.{String}
use helix.Base.{
  ℕ, ◌+◌, Bool, true, false, not, ◌&&◌, ◌||◌, List, [], ◌∷◌, ◌==◌, leb, any, if◌then◌else◌,
}
use helix.Base.{◌≡◌, arith}
use helix.Types.Payload.{ForkName}

-- The bytes of an ASCII text.
abbrev pub bytes : String → List ℕ
bytes String.[] = []
bytes (String.◌∷◌ c s) = code c ∷ bytes s

abbrev pub unknown_ancestor : List ℕ
unknown_ancestor = bytes "unknown ancestor"

abbrev pub parent_not_found : List ℕ
parent_not_found = bytes "parent block not found"

abbrev pub missing_trie_node : List ℕ
missing_trie_node = bytes "missing trie node"

abbrev pub block_already_known : List ℕ
block_already_known = bytes "block already known"

abbrev pub block_too_old : List ℕ
block_too_old = bytes "block is too old, outside validation window"

abbrev pub block_req_reorg : List ℕ
block_req_reorg = bytes "block requires a reorg"

abbrev pub parent_block_not_found : List ℕ
parent_block_not_found = bytes "could not find parent block: parent block not found"

abbrev pub no_state_for_block : List ℕ
no_state_for_block = bytes "no state found for block"

abbrev pub missing_parent_state : List ℕ
missing_parent_state = bytes "parent state is not available"

unfoldable pub to_ascii_lowercase : ℕ → ℕ
to_ascii_lowercase c = if leb 65 c && leb c 90 then c + 32 else c

unfoldable pub eq_ignore_ascii_case : List ℕ → List ℕ → Bool
eq_ignore_ascii_case [] [] = true
eq_ignore_ascii_case (a ∷ xs) (b ∷ ys) =
    to_ascii_lowercase a == to_ascii_lowercase b && eq_ignore_ascii_case xs ys
eq_ignore_ascii_case _ _ = false

unfoldable pub starts_with_ignore_ascii_case : List ℕ → List ℕ → Bool
starts_with_ignore_ascii_case s [] = true
starts_with_ignore_ascii_case [] (b ∷ prefix) = false
starts_with_ignore_ascii_case (a ∷ s) (b ∷ prefix) =
    to_ascii_lowercase a == to_ascii_lowercase b && starts_with_ignore_ascii_case s prefix

pub data BlockSimError : Type 0 where
  block_validation_failed : List ℕ → BlockSimError
  invalid_tx_root : ℕ → ℕ → BlockSimError
  timeout rpc_error send_error no_simulator_available simulation_dropped : BlockSimError
  hydration_miss relay_hydration_failed : BlockSimError
  unsupported_fork : ForkName → BlockSimError
  payload_too_large : BlockSimError

unfoldable pub is_temporary : BlockSimError → Bool
is_temporary (block_validation_failed reason) =
    any (eq_ignore_ascii_case reason) (
      unknown_ancestor ∷ parent_not_found ∷ parent_block_not_found ∷ block_req_reorg
      ∷ missing_parent_state ∷ [])
    || starts_with_ignore_ascii_case reason missing_trie_node
    || starts_with_ignore_ascii_case reason no_state_for_block
is_temporary timeout = true
is_temporary rpc_error = true
is_temporary simulation_dropped = true
is_temporary no_simulator_available = true
is_temporary (unsupported_fork _) = true
is_temporary relay_hydration_failed = true
is_temporary payload_too_large = true
is_temporary _ = false

unfoldable pub is_sim_fault : BlockSimError → Bool
is_sim_fault (block_validation_failed reason) =
    starts_with_ignore_ascii_case reason missing_trie_node
is_sim_fault timeout = true
is_sim_fault rpc_error = true
is_sim_fault _ = false

unfoldable pub is_already_known : BlockSimError → Bool
is_already_known (block_validation_failed reason) = eq_ignore_ascii_case reason block_already_known
is_already_known _ = false

unfoldable pub is_too_old : BlockSimError → Bool
is_too_old (block_validation_failed reason) = eq_ignore_ascii_case reason block_too_old
is_too_old _ = false

unfoldable pub is_demotable : BlockSimError → Bool
is_demotable e = not (is_already_known e) && not (is_temporary e) && not (is_too_old e)

unfoldable pub is_merge_builder_fault : BlockSimError → Bool
is_merge_builder_fault send_error = false
is_merge_builder_fault simulation_dropped = false
is_merge_builder_fault hydration_miss = false
is_merge_builder_fault e = is_demotable e

-- If an error says that the simulator itself is at fault, then neither is the builder of the block
-- demoted for it nor block merging disabled.
pub is_sim_fault-not_demotable :
    (e : BlockSimError)
    → is_sim_fault e ≡ true
    → (is_demotable e ≡ false) × (is_merge_builder_fault e ≡ false)
unfolding is_sim_fault is_demotable is_temporary is_merge_builder_fault
is_sim_fault-not_demotable (block_validation_failed reason) h = ground arith
is_sim_fault-not_demotable timeout h = ground arith
is_sim_fault-not_demotable rpc_error h = ground arith
is_sim_fault-not_demotable (invalid_tx_root _ _) h = ground arith
is_sim_fault-not_demotable send_error h = ground arith
is_sim_fault-not_demotable no_simulator_available h = ground arith
is_sim_fault-not_demotable simulation_dropped h = ground arith
is_sim_fault-not_demotable hydration_miss h = ground arith
is_sim_fault-not_demotable relay_hydration_failed h = ground arith
is_sim_fault-not_demotable (unsupported_fork _) h = ground arith
is_sim_fault-not_demotable payload_too_large h = ground arith
