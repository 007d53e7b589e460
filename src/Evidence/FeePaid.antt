-- ===== src/Evidence/FeePaid.antt =====
-- lib/network-fee-verify-logic.ts, lib/canton-network-fee-math.ts: a fee counts as paid only on the
-- receiver's own preapproval, and is never raised above the order's.
use cantonbit.Shared.{
  ℕ, ◌≤◌, ◌≡◌, ◌↔◌, inl, inr, Bool, true, false, not, none, some, List, [], ◌∷◌, arith, Text,
  Result, ok, err, ◌>>=◌, leb, if◌then◌else◌, ◌∙◌, Bool-cases, any, ap, sym, subst, leb→le,
  >>=-eq-ok,
}
use cantonbit.Amount.{AmountError, to_base_units_floor, from_base_units}
use cantonbit.Amount.RoundTrip.{to_base_units-from_base_units, to_base_units_floor_agrees}
use cantonbit.Evidence.Ledger.{Node}
use cantonbit.Evidence.FeeSend.{SendsFee, sends_iff}
use cantonbit.Evidence.FeeChange.{AtLeast}
use cantonbit.Evidence.Fee.{
  FeeParams, cc_decimals, preapproval_send_matches, has_unconsumed_pending_fee_transfer_offer,
  is_no_reason, RejectReason, cc_network_fee_reject_reason, cc_network_fee_paid_in_events,
  cap_network_fee_at_order, capped_at,
}
use cantonbit.Evidence.Created.{Among, any_iff}
use cantonbit.Evidence.FeeOffer.{OpenOffer, not_pending_iff}

reason-none :
    (pending settled : Bool)
    → (is_no_reason (
          if pending
          then some RejectReason.unconsumed_offer
          else if settled
          then none
          else some RejectReason.no_settled_transfer)
        ≡ true)
      ↔ ((not pending ≡ true) × (settled ≡ true))
reason-none pending settled = ground arith

-- A fee counts as paid exactly when two things hold. No node creates a transfer instruction from the
-- user to the receiver, of the expected instrument and at least the fee, on whose contract no node
-- exercises a choice. And one node is a send on the receiver's own preapproval contract, of the
-- instrument Amulet, by the user, of at least the fee in base units, whose balance changes have one of
-- the user that is negative by at least the fee and one of the receiver, without a minus sign, of at
-- least the fee.
pub fee_paid_iff :
    (p : FeeParams) (nodes : List Node)
    → (cc_network_fee_paid_in_events (some nodes) p ≡ true)
      ↔ ((¬ Among (OpenOffer p nodes) nodes) × Among (SendsFee p) nodes)
unfolding cc_network_fee_paid_in_events cc_network_fee_reject_reason
fee_paid_iff p nodes =
    let both =
      reason-none (has_unconsumed_pending_fee_transfer_offer nodes p)
        (any (preapproval_send_matches p) nodes) in
    let sends = any_iff _ _ (sends_iff p) nodes in
    (
      (λ h.
          let (closed, settled) = both.0 h in
          ((not_pending_iff nodes p).0 closed, sends.0 settled)),
      λ (closed, among). both.1 ((not_pending_iff nodes p).1 closed, sends.1 among),
    )

abbrev capped_to : Text → ℕ → ℕ → Result AmountError Text
capped_to fresh stored units = ok (capped_at stored fresh units)

abbrev capped_after : Text → ℕ → Result AmountError Text
capped_after fresh stored = to_base_units_floor fresh cc_decimals >>= capped_to fresh stored

abbrev text_of : Result AmountError Text → Text
text_of (ok t) = t
text_of (err _) = []

capped_lem :
    (stored units : ℕ) (fresh charged : Text)
    → to_base_units_floor fresh cc_decimals ≡ ok units
    → capped_to fresh stored units ≡ ok charged
    → (n : ℕ) × (to_base_units_floor charged cc_decimals ≡ ok n) × (n ≤ stored)
capped_lem stored units fresh charged is_fresh h =
    let same = ap text_of h in
    elim (Bool-cases (leb units stored)) [
      | inl below ↦ (
        units,
        subst (λ t. to_base_units_floor t cc_decimals ≡ ok units) (chosen true below ∙ same)
            is_fresh,
        leb→le units stored below,
      )
      | inr above ↦ (
        stored,
        subst (λ t. to_base_units_floor t cc_decimals ≡ ok stored) (chosen false above ∙ same)
            (to_base_units_floor_agrees (from_base_units stored cc_decimals) cc_decimals
              (to_base_units-from_base_units stored cc_decimals)),
        omega arith,
      )
    ]
  where
    chosen :
        (b : Bool)
        → leb units stored ≡ b
        → (if b then fresh else from_base_units stored cc_decimals) ≡ capped_at stored fresh units
    chosen b e = ap (λ x. if x then fresh else from_base_units stored cc_decimals) (sym e)

-- When an order has a fee of its own, the fee charged is never above it: if the cap returns a fee, both
-- it and the order's are amounts of CC, and it is no more in base units.
pub cap_never_above :
    (c : ℕ) (s fresh charged : Text)
    → cap_network_fee_at_order (some (c ∷ s)) fresh ≡ ok charged
    → AtLeast (c ∷ s) charged
unfolding cap_network_fee_at_order
cap_never_above c s fresh charged h =
    let (stored, is_stored, h1) =
      >>=-eq-ok (to_base_units_floor (c ∷ s) cc_decimals) (capped_after fresh) h in
    let (units, is_fresh, h2) =
      >>=-eq-ok (to_base_units_floor fresh cc_decimals) (capped_to fresh stored) h1 in
    let (n, is_charged, below) = capped_lem stored units fresh charged is_fresh h2 in
    (stored, n, is_stored, is_charged, below)
