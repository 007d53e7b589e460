-- ===== src/Examples/Ledger.antt =====
-- Same-ledger orders.
use cantonbit.Shared.{
  ◌+◌, ◌≤◌, ◌≡◌, refl, ◌≢◌, ◌↔◌, ◌⊎◌, inl, inr, true, false, not, ◌&&◌, ◌||◌, none, some, [], arith,
  ok, err, ltb, trim, text_eq, codes, truthy,
}
use cantonbit.C2c.Order.{CantonSwapStatus, status_eq, is_loop}
use cantonbit.C2c.Logic.{
  trim_party, should_expire_for_vault_migration, is_order_expired, assert_order_not_expired,
  is_false_vault_migration_expire, order_uses_current_vault,
}
use cantonbit.C2c.Logic.Expiry.{
  in_motion_never_expires, open_order_expires, expired_stays, vault_migration_safe,
}
use cantonbit.C2c.Create.{resolve_create_canton_swap_order, CreateError}
use cantonbit.C2c.Create.Replay.{SameTerms, resolve_canton_replay}
use cantonbit.C2c.Projector.{project_c2c_status, c2c_visible_completed}
use cantonbit.C2c.Projector.Truthful.{project_c2c_status_lem, awaits_accept, is_ended}
use cantonbit.Htlc.Projector.{Label}
use cantonbit.Examples.Orders.{canton_request, awaiting}

in_motion_example :
    (is_order_expired awaiting 999999 ≡ false) × (assert_order_not_expired awaiting 999999 ≡ ok tt)
in_motion_example = in_motion_never_expires awaiting 999999 (inr (inl (refl, refl, refl, refl)))

open_order_example : is_order_expired canton_request 1901 ≡ ltb (1000 + 900) 1901
open_order_example = open_order_expires canton_request 1901 refl

expired_stays_example : is_order_expired canton_request 5000 ≡ true
unfolding is_order_expired
expired_stays_example = expired_stays canton_request 1901 5000 refl (omega arith)

vault_migration_example :
    (is_loop canton_request.wallet_mode ≡ true)
    × (status_eq canton_request.status CantonSwapStatus.opened ≡ true)
    × ((truthy canton_request.user_leg_offer_cid || truthy canton_request.user_leg_submit_update_id)
        ≡ false)
    × (trim_party canton_request.settlement_party ≡ [])
    × (trim_party (some (codes "vault::1220")) ≢ [])
    × (trim_party (some canton_request.solver_party) ≢ trim_party (some (codes "vault::1220")))
    × (canton_request.created_at + 30 ≤ 1030)
    × (is_false_vault_migration_expire
          (record canton_request { status = CantonSwapStatus.expired; failure_reason = none })
          (some (codes "vault::1220"))
          false
        ≡ false)
vault_migration_example =
    vault_migration_safe canton_request (some (codes "vault::1220")) none false 1030 (
      unfold should_expire_for_vault_migration order_uses_current_vault trim_party trim text_eq in
      refl)

-- The same request in a later second, with a later expiry of its quote, is refused.
resolve_canton_replay_example :
    ((resolve_create_canton_swap_order
          (some (record canton_request { created_at = 5 }))
          (record canton_request { quote_expires_at = 77 })
          9
        ≡ ok (record canton_request { created_at = 5 }, false))
      ↔ SameTerms canton_request (record canton_request { quote_expires_at = 77 }))
    × ((resolve_create_canton_swap_order
            (some (record canton_request { created_at = 5 }))
            (record canton_request { quote_expires_at = 77 })
            9
          ≡ ok (record canton_request { created_at = 5 }, false))
        ⊎ (resolve_create_canton_swap_order
              (some (record canton_request { created_at = 5 }))
              (record canton_request { quote_expires_at = 77 })
              9
            ≡ err CreateError.different_terms))
resolve_canton_replay_example =
    resolve_canton_replay canton_request (record canton_request { quote_expires_at = 77 }) 5 9
      {o = record canton_request { created_at = 5 }} {is_new = true}
      (unfold resolve_create_canton_swap_order in refl)

project_c2c_status_example :
    (((project_c2c_status awaiting).label ≡ Label.completed) ↔ (
      (status_eq awaiting.status CantonSwapStatus.filled
        && truthy awaiting.settlement_update_id
        && truthy awaiting.counter_receipt_update_id)
      ≡ true))
    × ((project_c2c_status awaiting).terminal ≡ (
        c2c_visible_completed awaiting
        || (not (awaits_accept awaiting) && is_ended awaiting.status)))
    × ((project_c2c_status awaiting).proof_complete ≡ (project_c2c_status awaiting).terminal)
project_c2c_status_example = project_c2c_status_lem awaiting
