-- ===== src/C2c/Service/Call.antt =====
-- A request to the service of same-ledger swaps as the sequence of its accesses to the table, and the
-- runs of several requests at once. What the ledger, the price source and the clock answer is an
-- argument of the operation. Errors are their messages, which the service itself looks into.
use cantonbit.Shared.{
  ℕ, zero, suc, Bool, true, false, Option, none, some, List, [], ◌∷◌, Text, Result, ok, err,
  if◌then◌else◌, codes,
}
use cantonbit.C2c.Order.{CantonSwapOrder, CantonSwapStatus, SwapAsset}
use cantonbit.C2c.Service.Store.{
  used_user_leg_offer_cids, get, insert, put_if_status, reserve_float, used_user_leg_offer_cids,
  Guard, Outcome, Booking, Answer,
}

-- `skip` is a call that returns nothing: `undefined`, `null`, or an order that a sweep leaves alone.
pub data Call : Type 0 where
  done : CantonSwapOrder → Call
  skip : Call
  throw : Text → Call
  read : Text → (Option CantonSwapOrder → Call) → Call
  offers : (List Text → Call) → Call
  add : CantonSwapOrder → (Bool → Call) → Call
  put : CantonSwapOrder → CantonSwapStatus → Guard → (Outcome → Call) → Call
  book : Booking → (Answer → Call) → Call

-- `if (b) { … } else { … }` on the rest of a request.
infix 0 test◌then◌else◌
unfoldable pub test◌then◌else◌ : Bool → Call → Call → Call
test true then c else c' = c
test false then c else c' = c'

-- `if (r) next(r) else c`
unfoldable pub if_some {ℓ} : {A : Type ℓ} → Option A → (A → Call) → Call → Call
if_some none next c = c
if_some (some a) next c = next a

-- A remote call that returned or threw.
unfoldable pub if_ok {ℓ} : {A : Type ℓ} → Result Text A → (A → Call) → (Text → Call) → Call
if_ok (ok a) next fail = next a
if_ok (err msg) next fail = fail msg

abbrev pub not_found_message : Text
not_found_message = codes "swap not found"

-- `await this.must(id)`, with what is done when it throws.
abbrev pub found_or : (Text → Call) → (CantonSwapOrder → Call) → Option CantonSwapOrder → Call
found_or fail next none = fail not_found_message
found_or fail next (some o) = next o

abbrev pub must_or : (Text → Call) → Text → (CantonSwapOrder → Call) → Call
must_or fail id next = Call.read id (found_or fail next)

abbrev pub must : Text → (CantonSwapOrder → Call) → Call
must id next = must_or Call.throw id next

-- The outcome of a write: it was made, it was lost to another writer, or the database threw.
abbrev pub by_outcome : Call → Call → (Text → Call) → Outcome → Call
by_outcome won lost fail Outcome.saved = won
by_outcome won lost fail Outcome.stale = lost
by_outcome won lost fail Outcome.rejected = fail (codes "duplicate key")

-- `if (await this.transition(o, expected)) won else lost`
abbrev pub transition : (Text → Call) → CantonSwapOrder → CantonSwapStatus → Call → Call → Call
transition fail o expected won lost = Call.put o expected Guard.any_offer (by_outcome won lost fail)

abbrev pub added :
    List CantonSwapOrder
    → (Bool → Call)
    → Option (List CantonSwapOrder)
    → List CantonSwapOrder × Call
added rows k none = (rows, k false)
added rows k (some rows') = (rows', k true)

module _ (units : SwapAsset → Text → ℕ) where
  -- One access to the table, at the time `now`.
  unfoldable pub access : ℕ → Call → List CantonSwapOrder → List CantonSwapOrder × Call
  access now (Call.done o) rows = (rows, Call.done o)
  access now Call.skip rows = (rows, Call.skip)
  access now (Call.throw e) rows = (rows, Call.throw e)
  access now (Call.read id k) rows = (rows, k (get id rows))
  access now (Call.offers k) rows = (rows, k (used_user_leg_offer_cids rows))
  access now (Call.add o k) rows = added rows k (insert o now rows)
  access now (Call.put o s g k) rows =
      let (rows', outcome) = put_if_status o s g rows in (rows', k outcome)
  access now (Call.book b k) rows =
      let (rows', answer) = reserve_float units b rows in (rows', k answer)

  -- The request at a place of the list makes its next access.
  unfoldable pub turn : ℕ → ℕ → List Call → List CantonSwapOrder → List CantonSwapOrder × List Call
  unfolding access
  turn who now [] rows = (rows, [])
  turn zero now (c ∷ cs) rows = let (rows', c') = access now c rows in (rows', c' ∷ cs)
  turn (suc who) now (c ∷ cs) rows = let (rows', cs') = turn who now cs rows in (rows', c ∷ cs')

  -- A schedule says whose turn it is, and when.
  unfoldable pub run :
      List (ℕ × ℕ) → List Call → List CantonSwapOrder → List CantonSwapOrder × List Call
  unfolding turn
  run [] cs rows = (rows, cs)
  run ((who, now) ∷ turns) cs rows = let (rows', cs') = turn who now cs rows in run turns cs' rows'
