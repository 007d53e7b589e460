-- ===== src/Examples/Orders.antt =====
-- Sample orders.
use cantonbit.Shared.{none, some, Text, codes}
use cantonbit.Htlc.Order.{SwapOrder, SwapDirection, SwapStatus, CounterMode}
use cantonbit.C2c.Order.{CantonSwapOrder, CantonSwapStatus, WalletMode, SwapAsset}

abbrev pub tx : Text
tx = codes "0xabababababababababababababababababababababababababababababababab"

-- A forward order of a managed user, as the create request carries it.
abbrev pub request : SwapOrder
request = record {
  id = codes "0x01";
  direction = SwapDirection.evm_to_canton;
  status = SwapStatus.opened;
  evm_chain_slug = some (codes "base");
  evm_chain_id = some 8453;
  evm_escrow_address = none;
  evm_wbtc_address = none;
  hash_lock = codes "0xAA";
  user_evm_address = some (codes "0xU1");
  solver_evm_address = some (codes "0x51");
  wbtc_amount = some (codes "5000");
  user_timelock = 20000;
  user_canton_party = codes "alice::1220";
  solver_canton_party = codes "vault::1220";
  cbtc_amount = some (codes "0.00005");
  solver_timelock = 16400;
  main_lock_tx = none;
  counter_lock_tx = none;
  counter_claim_update_id = none;
  revealed_preimage = none;
  main_claim_tx = none;
  created_at = 1000;
  updated_at = none;
  counter_mode = some CounterMode.managed;
  allocation_cid = none;
  htlc_cid = none;
  htlc_blob = none;
  counter_transfer_offer_cid = none;
  counter_transfer_update_id = none;
  solver_custody_baseline_cids = none;
  evm_float_reserved = none;
  network_fee_cc = none;
  network_fee_expires_at = none;
  network_fee_preapproval_cid = none;
  network_fee_settlement_update_id = none;
  network_fee_accounting_pending = none;
}

-- The same order when both legs are done.
abbrev pub done : SwapOrder
done = record request {
  status = SwapStatus.main_claimed;
  main_lock_tx = some tx;
  counter_claim_update_id = some (codes "u1");
  revealed_preimage = some (codes "0x99");
  main_claim_tx = some tx;
}

-- A managed reverse order whose WBTC the solver took back.
abbrev pub retaken : SwapOrder
retaken = record request {
  direction = SwapDirection.canton_to_evm;
  status = SwapStatus.failed;
  htlc_cid = some (codes "h1");
  main_claim_tx = some tx;
}

abbrev pub canton_request : CantonSwapOrder
canton_request = record {
  id = codes "s1";
  status = CantonSwapStatus.opened;
  from_asset = SwapAsset.cc;
  to_asset = SwapAsset.cbtc;
  in_amount = codes "100";
  out_amount = codes "0.00002";
  min_out = codes "0.00002";
  quote_expires_at = 1060;
  user_party = codes "alice::1220";
  solver_party = codes "old::1220";
  settlement_party = none;
  wallet_mode = WalletMode.loop;
  float_reserved = none;
  user_leg_offer_cid = none;
  user_leg_submit_update_id = none;
  counter_leg_offer_cid = none;
  counter_leg_created_offset = none;
  counter_receipt_update_id = none;
  settlement_update_id = none;
  counter_reissue_attempt = none;
  counter_pending_cleared_at = none;
  failure_reason = none;
  created_at = 1000;
  network_fee_cc = none;
  network_fee_expires_at = none;
  network_fee_settlement_update_id = none;
  network_fee_accounting_pending = none;
}

-- Filled by the solver; the user has still to accept.
abbrev pub awaiting : CantonSwapOrder
awaiting = record canton_request {
  status = CantonSwapStatus.user_locked;
  settlement_update_id = some (codes "u2");
  counter_leg_offer_cid = some (codes "c2");
}
