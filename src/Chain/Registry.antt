-- ===== src/Chain/Registry.antt =====
-- src/chain/registry.rs: the operator of a node in the registry contract. The parsed address, whether
-- the address of the chain's node is valid and what it answers are arguments; an error is `none`.
use sparkl_router.Common.{ℕ, Bool, not, Option, none, some, ◌==◌, if◌then◌else◌}

unfoldable pub fetch_node_operator : Option ℕ → Bool → Option ℕ → Option ℕ
fetch_node_operator none url_is_valid answer = none
fetch_node_operator (some registry) url_is_valid answer =
    if registry == 0 then none else if not url_is_valid then none else answer

unfoldable pub is_node_registered : Option ℕ → Bool → Option ℕ → Option Bool
unfolding fetch_node_operator
is_node_registered registry url_is_valid answer =
    elim (fetch_node_operator registry url_is_valid answer) [
      | none ↦ none
      | some operator ↦ some (not (operator == 0))
    ]

-- `block` is what `get_block_number` answers.
unfoldable pub fetch_latest_block : Bool → Option ℕ → Option ℕ
fetch_latest_block url_is_valid block = if url_is_valid then block else none
