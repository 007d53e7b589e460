-- ===== src/Service/Store.antt =====
-- lib/htlc-order-store.ts: the table of orders, with the unique index of migration 039. A row is read
-- back as an order, so that the table is a list of orders; the primary key of the table keeps their
-- ids apart.
use cantonbit.Shared.{
  ℕ, Bool, true, false, not, ◌&&◌, ◌||◌, Option, none, some, List, [], ◌∷◌, Text, if◌then◌else◌,
  truthy, text_eq, any,
}
use cantonbit.Htlc.Order.{SwapOrder, SwapStatus, status_eq}
use cantonbit.Htlc.Logic.{is_forward}
use cantonbit.Htlc.Visibility.{is_true}

-- A column that an update sends only when the order has a value.
abbrev pub kept {ℓ} : {A : Type ℓ} → Option A → Option A → Option A
kept (some new) old = some new
kept none old = old

abbrev pub is_some {ℓ} : {A : Type ℓ} → Option A → Bool
is_some none = false
is_some (some _) = true

-- `orderToRow` of an order, read back by `rowToOrder`, over the row that is there.
unfoldable pub written : SwapOrder → SwapOrder → ℕ → SwapOrder
written row o now = record o {
  evm_float_reserved = some (is_true o.evm_float_reserved);
  network_fee_cc = kept o.network_fee_cc row.network_fee_cc;
  network_fee_expires_at = kept o.network_fee_expires_at row.network_fee_expires_at;
  network_fee_preapproval_cid = kept o.network_fee_preapproval_cid row.network_fee_preapproval_cid;
  network_fee_settlement_update_id =
      kept o.network_fee_settlement_update_id row.network_fee_settlement_update_id;
  network_fee_accounting_pending =
      if is_true o.network_fee_accounting_pending || is_some o.network_fee_settlement_update_id
      then some (is_true o.network_fee_accounting_pending)
      else some (is_true row.network_fee_accounting_pending);
  created_at = row.created_at;
  updated_at = some now;
}

unfoldable pub get : Text → List SwapOrder → Option SwapOrder
get id [] = none
get id (row ∷ rows) = let rest = get id rows in if text_eq row.id id then some row else rest

-- The unique index `htlc_orders_counter_transfer_evidence_uidx`: two orders never name the same offer;
-- an order without one does not count.
abbrev pub same_offer : Option Text → Option Text → Bool
same_offer none offer = false
same_offer (some _) none = false
same_offer (some a) (some b) = text_eq a b

abbrev pub clash : SwapOrder → SwapOrder → Bool
clash o row =
    not (text_eq row.id o.id)
    && same_offer o.counter_transfer_offer_cid row.counter_transfer_offer_cid

-- `insert` fails on a row with the same id, or with the same offer; the table gives the creation time.
abbrev pub insert_over : Option SwapOrder → SwapOrder → ℕ → List SwapOrder → Option (List SwapOrder)
insert_over (some _) o now rows = none
insert_over none o now rows =
    if any (clash o) rows then none else some (written (record o { created_at = now }) o now ∷ rows)

unfoldable pub insert : SwapOrder → ℕ → List SwapOrder → Option (List SwapOrder)
unfolding written get
insert o now rows = insert_over (get o.id rows) o now rows

-- The row with the order's id is replaced if its status is `expected`.
unfoldable pub replace_if : SwapOrder → SwapStatus → ℕ → List SwapOrder → List SwapOrder
unfolding written
replace_if o expected now [] = []
replace_if o expected now (row ∷ rows) =
    let rest = replace_if o expected now rows in
    if text_eq row.id o.id && status_eq row.status expected
    then written row o now ∷ rows
    else if text_eq row.id o.id
    then row ∷ rows
    else row ∷ rest

-- The rows after `putIfStatus`: the index leaves them as they are when another order has the offer.
unfoldable pub put_if_status : SwapOrder → SwapStatus → ℕ → List SwapOrder → List SwapOrder
unfolding replace_if
put_if_status o expected now rows =
    if any (clash o) rows then rows else replace_if o expected now rows

-- Whether a row matched.
abbrev pub matches : SwapStatus → Option SwapOrder → Bool
matches expected none = false
matches expected (some row) = status_eq row.status expected

-- The answer of `putIfStatus`: true, false, or the error of the index.
pub data Outcome : Type 0 where
  won lost refused : Outcome

unfoldable pub put_outcome : SwapOrder → SwapStatus → List SwapOrder → Outcome
unfolding get
put_outcome o expected rows =
    if not (matches expected (get o.id rows))
    then Outcome.lost
    else if any (clash o) rows
    then Outcome.refused
    else Outcome.won

abbrev pub is_won : Outcome → Bool
is_won Outcome.won = true
is_won Outcome.lost = false
is_won Outcome.refused = false

unfoldable pub wins : SwapOrder → SwapStatus → List SwapOrder → Bool
unfolding put_outcome
wins o expected rows = is_won (put_outcome o expected rows)

-- What the three reservation procedures do to a row. Whether the balance covers the reservations
-- that are in force is an answer of the database.
pub data Reservation : Type 0 where
  accept_forward before_main_lock before_counter_lock : Reservation

pub data Answer : Type 0 where
  reserved : Answer
  refused : SwapStatus → Answer
  insufficient : Answer
  not_found unbound_chain : Answer

-- The row after each procedure, and its answer.
abbrev pub accept_forward_row : Bool → SwapOrder → ℕ → SwapOrder × Answer
accept_forward_row enough row now =
    if not (is_forward row.direction) || not (status_eq row.status SwapStatus.opened)
    then (row, Answer.refused row.status)
    else if enough
    then (record row { status = SwapStatus.accepted; updated_at = some now }, Answer.reserved)
    else (record row { status = SwapStatus.failed; updated_at = some now }, Answer.insufficient)

abbrev pub before_main_lock_row : Bool → SwapOrder → ℕ → SwapOrder × Answer
before_main_lock_row enough row now =
    if is_forward row.direction
    then (row, Answer.refused row.status)
    else if not (truthy row.evm_chain_slug)
    then (row, Answer.unbound_chain)
    else if status_eq row.status SwapStatus.main_locking && is_true row.evm_float_reserved
    then (row, Answer.reserved)
    else if not (status_eq row.status SwapStatus.accepted)
    then (row, Answer.refused row.status)
    else if enough
    then (
      record row {
        status = SwapStatus.main_locking;
        evm_float_reserved = some true;
        updated_at = some now;
      },
      Answer.reserved,
    )
    else (row, Answer.insufficient)

abbrev pub before_counter_lock_row : Bool → SwapOrder → ℕ → SwapOrder × Answer
before_counter_lock_row enough row now =
    if is_forward row.direction
    then (row, Answer.refused row.status)
    else if not (truthy row.evm_chain_slug)
    then (row, Answer.unbound_chain)
    else if status_eq row.status SwapStatus.counter_locking && is_true row.evm_float_reserved
    then (row, Answer.reserved)
    else if not (status_eq row.status SwapStatus.main_locked)
    then (row, Answer.refused row.status)
    else if enough || is_true row.evm_float_reserved
    then (
      record row {
        status = SwapStatus.counter_locking;
        evm_float_reserved = some true;
        updated_at = some now;
      },
      Answer.reserved,
    )
    else (row, Answer.insufficient)

unfoldable pub reserve_row : Reservation → Bool → SwapOrder → ℕ → SwapOrder × Answer
reserve_row Reservation.accept_forward enough row now = accept_forward_row enough row now
reserve_row Reservation.before_main_lock enough row now = before_main_lock_row enough row now
reserve_row Reservation.before_counter_lock enough row now = before_counter_lock_row enough row now

unfoldable pub reserve : Reservation → Bool → Text → ℕ → List SwapOrder → List SwapOrder × Answer
unfolding reserve_row
reserve kind enough id now [] = ([], Answer.not_found)
reserve kind enough id now (row ∷ rows) =
    let (rows', answer) = reserve kind enough id now rows in
    let (row', answer') = reserve_row kind enough row now in
    if text_eq row.id id then (row' ∷ rows, answer') else (row ∷ rows', answer)
