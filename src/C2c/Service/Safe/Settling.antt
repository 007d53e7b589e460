-- ===== src/C2c/Service/Safe/Settling.antt =====
-- What the settlement of one order keeps to, from its check to its end.
use cantonbit.Shared.{◌≡◌, refl, Bool, true, false, Option, some, arith, Text, ◌∙◌}
use cantonbit.C2c.Order.{CantonSwapOrder, CantonSwapStatus, WalletMode, is_loop}
use cantonbit.C2c.Service.Call.{Call, if_ok, must_or, transition}
use cantonbit.C2c.Service.Diagram.{may_advance}
use cantonbit.C2c.Service.Reserve.{enforce_settlement_quote}
use cantonbit.C2c.Service.Fill.{Fill, apply_managed_fill_result, managed_filled}
use cantonbit.C2c.Service.Settle.{
  Settlement, account_fee, accounted, complete_settling, failed_with, put_and_throw,
  settle_abandoned, settle_failed, settle_on_ledger, settling_still, with_fee, with_fee_marker,
  with_offer,
}
use cantonbit.C2c.Service.Safe.{
  ap, Copy, OnFrom, Safe, Safe-again, Safe-fresh_of, Safe-if_ok, Safe-if_some, Safe-test,
  Safe-thrown, Safe-transition, Terms, mode_of-Copy, sound, stay_advance,
}
use cantonbit.C2c.Service.Safe.Repair.{
  Settling, apply_managed-Safe, managed_filled_lem, repair_managed-Safe, settles, Settling-next,
}

settle_advance :
    (m : WalletMode) (s : CantonSwapStatus)
    → is_loop m ≡ false
    → settles s ≡ true
    → may_advance m CantonSwapStatus.settling s ≡ true
settle_advance m s e h = ground arith

pub open_advance :
    (m : WalletMode)
    → is_loop m ≡ false
    → may_advance m CantonSwapStatus.opened CantonSwapStatus.settling ≡ true
open_advance m e = ground arith

failed_with-sound : (msg : Text) (o : CantonSwapOrder) → sound (failed_with msg o) ≡ true
unfolding sound
failed_with-sound msg o = refl

settling_still-sound :
    (reason : Text) (o : CantonSwapOrder) → sound (settling_still reason o) ≡ true
unfolding sound
settling_still-sound reason o = ground arith

pub accounted-sound : (o : CantonSwapOrder) → sound (accounted o) ≡ sound o
unfolding sound
accounted-sound o = refl

-- `sound` does not look at the fee, nor at the user's leg.
with_fee_marker-sound :
    (b : Bool) (update_id : Text) (o : CantonSwapOrder)
    → sound (with_fee_marker b update_id o) ≡ sound o
unfolding sound
with_fee_marker-sound b update_id o = refl

module _ (t : Text → Terms) (id : Text) (managed : is_loop (t id).wallet_mode ≡ false)
    (a : Settlement) where
  -- A copy of the order on its way from a settling one.
  abbrev Due : CantonSwapOrder → Type 0
  Due o = Copy t id o × (settles o.status ≡ true)

  mode : (o : CantonSwapOrder) → Copy t id o → is_loop o.wallet_mode ≡ false
  mode o c = ap is_loop (mode_of-Copy t id o c) ∙ managed

  Due-next :
      (known : Option CantonSwapStatus) (o : CantonSwapOrder)
      → Settling known
      → Copy t id o
      → OnFrom (t id).wallet_mode known o.status
      → Due o
  Due-next known o k c f = (c, Settling-next (t id).wallet_mode known o.status managed k f)

  put_and_throw-Safe :
      {known : Option CantonSwapStatus} (msg : Text) (o : CantonSwapOrder)
      → Due o
      → Safe t id known (put_and_throw msg o CantonSwapStatus.settling)
  put_and_throw-Safe msg o (c, h) =
      Safe-transition c (settle_advance o.wallet_mode o.status (mode o c) h) Safe.throws Safe.throws
        Safe-thrown

  settle_abandoned-Safe :
      {known : Option CantonSwapStatus} (msg : Text) (o : CantonSwapOrder)
      → Copy t id o
      → Safe t id known (settle_abandoned a msg o)
  settle_abandoned-Safe msg o (s, same, terms) =
      Safe-test (λ _. Safe-fresh_of o (s, same, terms))
        (λ _.
          Safe-test (λ _. still _)
            (λ _.
              Safe-test (λ _. Safe-if_ok a.rejects (λ _ _. given_up) (λ e. still _))
                (λ _. given_up)))
    where
      still :
          {known : Option CantonSwapStatus} (reason : Text)
          → Safe t id known (put_and_throw msg (settling_still reason o) CantonSwapStatus.settling)
      still reason =
          put_and_throw-Safe msg (settling_still reason o)
            ((settling_still-sound reason o, same, terms), refl)

      given_up :
          {known : Option CantonSwapStatus}
          → Safe t id known (put_and_throw msg (failed_with msg o) CantonSwapStatus.settling)
      given_up =
          put_and_throw-Safe msg (failed_with msg o) ((failed_with-sound msg o, same, terms), refl)

  settle_failed-Safe :
      {known : Option CantonSwapStatus} (o : CantonSwapOrder) (msg : Text)
      → Due o
      → Safe t id known (settle_failed a o msg)
  settle_failed-Safe o msg (c, h) =
      repair_managed-Safe Call.throw Call.done (settle_abandoned a msg o) a.repaired o c
        (λ _. ground arith) (λ msg known. Safe.throws) (λ known x d. Safe.returns d)
        (settle_abandoned-Safe msg o c)

  account_fee-Safe :
      {known : Option CantonSwapStatus} (estimated : Bool) (o : CantonSwapOrder)
      → Copy t id o
      → Safe t id known (account_fee a estimated o)
  account_fee-Safe estimated o c =
      Safe-test
        (λ _.
          Safe-again o c (λ msg. Safe.returns c)
            (λ fresh d _.
              Safe-test
                (λ _.
                  let d' : Copy t id (accounted fresh) = (accounted-sound fresh ∙ d.0, d.1, d.2) in
                  Safe.puts d' (λ _. stay_advance fresh.wallet_mode fresh.status)
                    (λ outcome. Safe.returns c))
                (λ _. Safe.returns c)))
        (λ _. Safe.returns c)

  -- The write of a settlement, over an order that carries the marker of the fee.
  settled-Safe :
      {known : Option CantonSwapStatus} (estimated : Bool) (o : CantonSwapOrder) (r : Fill)
      → Settling known
      → Due o
      → Safe t id known (
          if_ok
            (apply_managed_fill_result o r)
            (λ o'.
              transition
                (settle_failed a o')
                o'
                CantonSwapStatus.settling
                (account_fee a estimated o')
                (must_or (settle_failed a o') o'.id Call.done))
            (settle_failed a o))
  settled-Safe estimated o r k (c, h) =
      apply_managed-Safe o r
        (λ o'.
          transition (settle_failed a o') o' CantonSwapStatus.settling (account_fee a estimated o')
            (must_or (settle_failed a o') o'.id Call.done))
        (settle_failed a o) c
        (λ d.
          let due = (managed_filled_lem o r).1 in
          Safe-transition d
            (settle_advance o.wallet_mode (managed_filled o r).status (mode o c) due)
            (account_fee-Safe estimated (managed_filled o r) d)
            (Safe-again (managed_filled o r) d
              (λ msg. settle_failed-Safe (managed_filled o r) msg (d, due))
              (λ fresh d' _. Safe.returns d'))
            (λ msg. settle_failed-Safe (managed_filled o r) msg (d, due)))
        (λ msg. settle_failed-Safe o msg (c, h))

  settle_on_ledger-Safe :
      {known : Option CantonSwapStatus} (estimated : Bool) (o : CantonSwapOrder)
      → Settling known
      → Due o
      → Safe t id known (settle_on_ledger a estimated o)
  settle_on_ledger-Safe estimated o k ((s, same, terms), h) =
      Safe-if_ok a.result
        (λ r _.
          settled-Safe estimated (with_fee_marker a.collected r.update_id o) r k
            ((unfold sound in s, same, terms), h))
        (λ msg. settle_failed-Safe o msg ((s, same, terms), h))

  -- A write over the settling order, by what goes on if it was made or the order is read again.
  write-Safe :
      {known : Option CantonSwapStatus} (o : CantonSwapOrder) (go_on : CantonSwapOrder → Call)
      (again : CantonSwapOrder → Call)
      → Settling known
      → Due o
      → Safe t id known (go_on o)
      → ((fresh : CantonSwapOrder) → Due fresh → Safe t id (some fresh.status) (again fresh))
      → Safe t id known (
          transition
            (settle_failed a o)
            o
            CantonSwapStatus.settling
            (go_on o)
            (must_or (settle_failed a o) o.id again))
  write-Safe {known} o go_on again k (c, h) p q =
      Safe-transition c (settle_advance o.wallet_mode o.status (mode o c) h) p
        (Safe-again o c (λ msg. settle_failed-Safe o msg (c, h))
          (λ fresh d f. q fresh (Due-next known fresh k d f)))
        (λ msg. settle_failed-Safe o msg (c, h))

  with_offer-Safe :
      {known : Option CantonSwapStatus} (estimated : Bool) (o : CantonSwapOrder)
      → Settling known
      → Due o
      → Safe t id known (with_offer a estimated o)
  with_offer-Safe estimated o k ((s, same, terms), h) =
      Safe-test (λ _. settle_on_ledger-Safe estimated o k ((s, same, terms), h))
        (λ _.
          Safe-if_ok a.offer
            (λ cid _.
              let o' = record o { user_leg_offer_cid = some cid } in
              let due : Due o' = ((unfold sound in s, same, terms), h) in
              write-Safe o' (settle_on_ledger a estimated) _ k due
                (settle_on_ledger-Safe estimated o' k due)
                (λ fresh d.
                  Safe-test (λ _. settle_on_ledger-Safe estimated fresh d.1 d)
                    (λ _. settle_failed-Safe fresh _ d)))
            (λ msg. settle_failed-Safe o msg ((s, same, terms), h)))

  with_fee-Safe :
      {known : Option CantonSwapStatus} (o : CantonSwapOrder)
      → Settling known
      → Due o
      → Safe t id known (with_fee a o)
  with_fee-Safe {known} o k ((s, same, terms), h) =
      Safe-test
        (λ _.
          Safe-if_some a.fee
            (λ fee _.
              Safe-if_ok fee
                (λ fee_cc _.
                  let o' : CantonSwapOrder = record o {
                    network_fee_cc = some fee_cc;
                    network_fee_expires_at = some o.quote_expires_at;
                  } in
                  let due : Due o' = ((unfold sound in s, same, terms), h) in
                  write-Safe o' (with_offer a true) (with_offer a true) k due
                    (with_offer-Safe true o' k due) (λ fresh d. with_offer-Safe true fresh d.1 d))
                (λ msg. settle_failed-Safe o msg ((s, same, terms), h)))
            unpaid)
        (λ _. unpaid)
    where
      unpaid : Safe t id known (with_offer a false o)
      unpaid = with_offer-Safe false o k ((s, same, terms), h)

  pub complete_settling-Safe :
      {known : Option CantonSwapStatus} (o : CantonSwapOrder)
      → Settling known
      → Due o
      → Safe t id known (complete_settling a o)
  unfolding complete_settling
  complete_settling-Safe o k d =
      Safe-if_ok (enforce_settlement_quote o a.check) (λ _ _. with_fee-Safe o k d)
        (λ msg. settle_failed-Safe o msg d)
