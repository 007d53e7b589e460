-- ===== src/C2c/Service/Interleaved.antt =====
-- What holds of the table of same-ledger orders however the requests of the service interleave.
use cantonbit.Shared.{ℕ, ◌≡◌, ◌⊎◌, true, Option, none, some, List, [], ◌∷◌, ◌++◌, arith, Text, All}
use cantonbit.C2c.Order.{CantonSwapOrder, CantonSwapStatus, SwapAsset, WalletMode}
use cantonbit.C2c.Service.Store.{get}
use cantonbit.C2c.Service.Call.{run}
use cantonbit.C2c.Service.Diagram.{may_advance}
use cantonbit.C2c.Service.Sweep.{shown}
use cantonbit.C2c.Service.Safe.{Terms}
use cantonbit.C2c.Service.Rows.{Kept, SafeCall}
use cantonbit.C2c.Service.Requests.{Request, call, calls}
use cantonbit.C2c.Service.Safe.Create.{
  Registered, cancel-Safe, create_order-Safe, get_order-Safe, reopen-Safe,
}
use cantonbit.C2c.Service.Safe.Settle.{settle_managed-Safe, submit_managed-Safe}
use cantonbit.C2c.Service.Safe.Selling.{
  commit_user_leg_order-Safe, confirm_user_leg-Safe, prepare_user_leg-Safe,
}
use cantonbit.C2c.Service.Safe.LoopFill.{fill_loop-Safe}
use cantonbit.C2c.Service.Safe.Sweeping.{
  history_entry-Safe, reconcile_expired_managed-Safe, reconcile_failed_loop-Safe,
  reconcile_filling-Safe, reconcile_network_fee_accounting-Safe, reconcile_settling-Safe,
}
use cantonbit.C2c.Service.Safe.Expiry.{expire_stale-Safe}
use cantonbit.C2c.Service.Safe.CounterLeg.{mark_counter_accepted-Safe, reconcile_filled-Safe}
use cantonbit.C2c.Service.Safe.Reissuing.{reconcile_loop_counters-Safe}
use cantonbit.C2c.Service.Runs.{run-Safe, turn_after_run}

-- A request that may create an order asks for the terms that are registered for its id. The other
-- requests do not state terms.
abbrev pub Agrees : (Text → Terms) → Request → Type 0
Agrees t (Request.creates p intake) = Registered t p intake
Agrees t (Request.submits p intake first f a) = Registered t p intake
Agrees t (Request.commits_leg p intake a shown update_id) =
    (created_at : Option ℕ) → Registered t (record p { created_at = created_at }) intake
Agrees t _ = Unit

cancelled_stays :
    (m : WalletMode) (s s' : CantonSwapStatus)
    → may_advance m s s' ≡ true
    → s ≡ CantonSwapStatus.cancelled
    → s' ≡ CantonSwapStatus.cancelled
cancelled_stays WalletMode.managed s s' e c = ground arith
cancelled_stays WalletMode.loop s s' e c = ground arith

cancelled_from_open :
    (m : WalletMode) (s s' : CantonSwapStatus)
    → may_advance m s s' ≡ true
    → s' ≡ CantonSwapStatus.cancelled
    → (s ≡ CantonSwapStatus.opened) ⊎ (s ≡ CantonSwapStatus.cancelled)
cancelled_from_open WalletMode.managed s s' e c = ground arith
cancelled_from_open WalletMode.loop s s' e c = ground arith

module _ (t : Text → Terms) where
  -- A request that has not begun knows nothing of its order.
  call-Safe : (rows : List CantonSwapOrder) (q : Request) → Agrees t q → SafeCall t rows (call q)
  unfolding call
  call-Safe rows (Request.creates p intake) e =
      (p.order_id, none, create_order-Safe t p intake e, tt)
  call-Safe rows (Request.submits p intake first f a) e =
      (p.order_id, none, submit_managed-Safe t p intake first f a e, tt)
  call-Safe rows (Request.settles_managed first f a id) e =
      (id, none, settle_managed-Safe t id first f a, tt)
  call-Safe rows (Request.gets vault_party id) e = (id, none, get_order-Safe vault_party, tt)
  call-Safe rows (Request.reopens vault_party id) e = (id, none, reopen-Safe vault_party, tt)
  call-Safe rows (Request.cancels id) e = (id, none, cancel-Safe, tt)
  call-Safe rows (Request.prepares_leg vault_party now built id) e =
      (id, none, prepare_user_leg-Safe vault_party now built, tt)
  call-Safe rows (Request.confirms_leg a hint id) e = (id, none, confirm_user_leg-Safe a hint, tt)
  call-Safe rows (Request.commits_leg p intake a shown update_id) e =
      (p.order_id, none, commit_user_leg_order-Safe t p intake a shown update_id e, tt)
  call-Safe rows (Request.fills a id) e = (id, none, fill_loop-Safe a, tt)
  call-Safe rows (Request.accepts_counter a id) e = (id, none, mark_counter_accepted-Safe a, tt)
  call-Safe rows (Request.sweeps_filling repaired a id) e =
      (id, none, reconcile_filling-Safe repaired a, tt)
  call-Safe rows (Request.sweeps_failed repaired now id) e =
      (id, none, reconcile_failed_loop-Safe repaired now, tt)
  call-Safe rows (Request.sweeps_settling repaired readings id) e =
      (id, none, reconcile_settling-Safe repaired readings, tt)
  call-Safe rows (Request.sweeps_expired repaired id) e =
      (id, none, reconcile_expired_managed-Safe repaired, tt)
  call-Safe rows (Request.sweeps_counters a id) e =
      (id, none, reconcile_loop_counters-Safe t id a, tt)
  call-Safe rows (Request.sweeps_filled repaired delivery id) e =
      (id, none, reconcile_filled-Safe repaired delivery, tt)
  call-Safe rows (Request.sweeps_fees positive recorded id) e =
      (id, none, reconcile_network_fee_accounting-Safe positive recorded, tt)
  call-Safe rows (Request.sweeps_stale a id) e = (id, none, expire_stale-Safe t id a, tt)
  call-Safe rows (Request.shows_history repaired id) e = (id, none, history_entry-Safe repaired, tt)

  calls-Safe :
      (rows : List CantonSwapOrder) (qs : List Request)
      → All (Agrees t) qs
      → All (SafeCall t rows) (calls qs)
  calls-Safe rows [] es = tt
  calls-Safe rows (q ∷ qs) (e, es) = (call-Safe rows q e, calls-Safe rows qs es)

  module _ (units : SwapAsset → Text → ℕ) (schedule : List (ℕ × ℕ)) (qs : List Request)
      (rows : List CantonSwapOrder) (es : All (Agrees t) qs) (ks : All (Kept t) rows) where
    -- If every row is a sound copy of its order, and every request that creates an order asks for its
    -- registered terms, then this is so of every row however the requests and sweeps interleave, and
    -- whenever. A sound copy has the terms that are registered for its id; if it is filled it has its
    -- settlement; if it holds float it is settling, filling, locked or filled; and if it is expired and
    -- of a wallet that the service signs for, it does not carry the reason for which an expired order
    -- is reopened.
    pub copies_stay-Kept : All (Kept t) (run units schedule (calls qs) rows).0
    copies_stay-Kept = (run-Safe units t schedule (calls qs) rows (calls-Safe rows qs es) ks).0

    -- Of requests whose creations ask for the registered terms, on a table of sound copies: after any
    -- run, the next access of any request or sweep leaves every order in the table, and takes its status
    -- over at most one edge of the diagram of its wallet mode. So no order is moved from one status to
    -- another that is not next to it, however the requests and sweeps interleave, and whenever; a
    -- cancelled order stays cancelled, and only an open one becomes cancelled.
    pub order_follows_diagram :
        (who now : ℕ) (id : Text) (o : CantonSwapOrder)
        → get id (run units schedule (calls qs) rows).0 ≡ some o
        → (o' : CantonSwapOrder) × (get id
              (run units (schedule ++ (who, now) ∷ []) (calls qs) rows).0
            ≡ some o')
          × (may_advance (t id).wallet_mode o.status o'.status ≡ true)
          × (o.status ≡ CantonSwapStatus.cancelled → o'.status ≡ CantonSwapStatus.cancelled)
          × (o'.status ≡ CantonSwapStatus.cancelled
              → (o.status ≡ CantonSwapStatus.opened) ⊎ (o.status ≡ CantonSwapStatus.cancelled))
    order_follows_diagram who now id o e =
        let (o', e', m) =
          turn_after_run units t schedule who now (calls qs) rows (calls-Safe rows qs es) ks id o
            e in
        (
          o',
          e',
          m,
          cancelled_stays (t id).wallet_mode o.status o'.status m,
          cancelled_from_open (t id).wallet_mode o.status o'.status m,
        )
