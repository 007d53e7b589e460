-- ===== src/Htlc/Create.antt =====
-- lib/htlc-order-logic.ts, `resolveCreateOrder`: what a create request persists when the id may
-- already be taken.
pub mod Terms
pub mod Immutable
use cantonbit.Shared.{
  err, ◌>>=◌, [], if◌then◌else◌, ok, ◌∷◌, Result, List, ℕ, Bool, true, false, Option, none, some,
  Text, to_lower, text_eq, ◌==◌,
}
use cantonbit.Htlc.Order.{
  SwapStatus, SwapDirection, evm_to_canton, canton_to_evm, CounterMode, SwapOrder,
}

-- The fields of `immutableFields`, in the order in which they are compared.
pub data Field : Type 0 where
  direction hash_lock user_evm_address solver_evm_address wbtc_amount user_timelock : Field
  user_canton_party solver_canton_party cbtc_amount solver_timelock counter_mode : Field
  evm_chain_slug evm_chain_id evm_escrow_address evm_wbtc_address : Field

pub data CreateError : Type 0 where
  another_party : CreateError
  different : Field → CreateError

-- `normalize(current) !== normalize(requested)` compares the lower case of texts.
abbrev pub same_text : Text → Text → Bool
same_text s t = text_eq (to_lower s) (to_lower t)

abbrev pub same_opt_text : Option Text → Option Text → Bool
same_opt_text none none = true
same_opt_text none (some _) = false
same_opt_text (some _) none = false
same_opt_text (some s) (some t) = same_text s t

abbrev pub same_opt_number : Option ℕ → Option ℕ → Bool
same_opt_number none none = true
same_opt_number none (some _) = false
same_opt_number (some _) none = false
same_opt_number (some m) (some n) = m == n

abbrev pub same_direction : SwapDirection → SwapDirection → Bool
same_direction evm_to_canton evm_to_canton = true
same_direction evm_to_canton canton_to_evm = false
same_direction canton_to_evm evm_to_canton = false
same_direction canton_to_evm canton_to_evm = true

abbrev pub same_mode : Option CounterMode → Option CounterMode → Bool
same_mode none none = true
same_mode none (some _) = false
same_mode (some _) none = false
same_mode (some CounterMode.managed) (some CounterMode.managed) = true
same_mode (some CounterMode.managed) (some CounterMode.loop) = false
same_mode (some CounterMode.loop) (some CounterMode.managed) = false
same_mode (some CounterMode.loop) (some CounterMode.loop) = true

-- One round of the loop over `immutableFields`.
unfoldable pub same_field : Field → SwapOrder → SwapOrder → Bool
same_field Field.direction e i = same_direction e.direction i.direction
same_field Field.hash_lock e i = same_text e.hash_lock i.hash_lock
same_field Field.user_evm_address e i = same_opt_text e.user_evm_address i.user_evm_address
same_field Field.solver_evm_address e i = same_opt_text e.solver_evm_address i.solver_evm_address
same_field Field.wbtc_amount e i = same_opt_text e.wbtc_amount i.wbtc_amount
same_field Field.user_timelock e i = e.user_timelock == i.user_timelock
same_field Field.user_canton_party e i = same_text e.user_canton_party i.user_canton_party
same_field Field.solver_canton_party e i = same_text e.solver_canton_party i.solver_canton_party
same_field Field.cbtc_amount e i = same_opt_text e.cbtc_amount i.cbtc_amount
same_field Field.solver_timelock e i = e.solver_timelock == i.solver_timelock
same_field Field.counter_mode e i = same_mode e.counter_mode i.counter_mode
same_field Field.evm_chain_slug e i = same_opt_text e.evm_chain_slug i.evm_chain_slug
same_field Field.evm_chain_id e i = same_opt_number e.evm_chain_id i.evm_chain_id
same_field Field.evm_escrow_address e i = same_opt_text e.evm_escrow_address i.evm_escrow_address
same_field Field.evm_wbtc_address e i = same_opt_text e.evm_wbtc_address i.evm_wbtc_address

abbrev pub immutable_fields : List Field
immutable_fields =
    Field.direction ∷ Field.hash_lock ∷ Field.user_evm_address ∷ Field.solver_evm_address
    ∷ Field.wbtc_amount ∷ Field.user_timelock ∷ Field.user_canton_party ∷ Field.solver_canton_party
    ∷ Field.cbtc_amount ∷ Field.solver_timelock ∷ Field.counter_mode ∷ Field.evm_chain_slug
    ∷ Field.evm_chain_id ∷ Field.evm_escrow_address ∷ Field.evm_wbtc_address ∷ []

-- The loop over the fields: it throws at the first that differs.
unfoldable pub check_fields : List Field → SwapOrder → SwapOrder → Result CreateError (Unit {0})
check_fields [] e i = ok tt
check_fields (f ∷ fs) e i =
    let rest = check_fields fs e i in
    if same_field f e i then rest else err (CreateError.different f)

-- `{ ...incoming, status: "open", createdAt: nowSeconds }`. The request carries no status and no
-- creation time; those of `incoming` are not read.
unfoldable pub new_order : SwapOrder → ℕ → SwapOrder
new_order incoming now_seconds = record incoming {
  status = SwapStatus.opened;
  created_at = now_seconds;
}

unfoldable pub resolve_create_order :
    Option SwapOrder → SwapOrder → ℕ → Result CreateError (SwapOrder × Bool)
unfolding new_order
resolve_create_order none incoming now_seconds = ok (new_order incoming now_seconds, true)
resolve_create_order (some existing) incoming now_seconds =
    if text_eq existing.user_canton_party incoming.user_canton_party
    then check_fields immutable_fields existing incoming >>= (λ _. ok (existing, false))
    else err CreateError.another_party
