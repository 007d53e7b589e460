-- ===== src/Service/Call.antt =====
-- A request to the service as the sequence of its accesses to the table, and the runs of several
-- requests at once. Between two accesses of one request, any number of accesses of the others may
-- come. What the ledger, the chain and the clock answer is an argument of the operation.
use cantonbit.Shared.{
  ℕ, zero, suc, Bool, true, false, Option, none, some, List, [], ◌∷◌, Text, if◌then◌else◌,
}
use cantonbit.Htlc.Order.{SwapOrder, SwapStatus}
use cantonbit.Service.Store.{
  get, insert, put_if_status, put_outcome, Outcome, Reservation, Answer, reserve,
}

-- Why an operation throws.
pub data ServiceError : Type 0 where
  swap_not_found wrong_direction wrong_mode bad_status terms_differ : ServiceError
  evidence_linked invalid_hash invalid_preimage unverified not_reserved : ServiceError
  preimage_out preimage_missing too_early not_exposable ledger_failed evidence_missing :
      ServiceError
  offer_taken : ServiceError

pub data Call : Type 0 where
  done : SwapOrder → Call
  throw : ServiceError → Call
  read : Text → (Option SwapOrder → Call) → Call
  add : SwapOrder → (Bool → Call) → Call
  put : SwapOrder → SwapStatus → (Outcome → Call) → Call
  book : Reservation → Bool → Text → (Answer → Call) → Call

-- `if (b) { … } else { … }` on the rest of a request.
infix 0 test◌then◌else◌
unfoldable pub test◌then◌else◌ : Bool → Call → Call → Call
test true then c else c' = c
test false then c else c' = c'

abbrev pub found : (SwapOrder → Call) → Option SwapOrder → Call
found next none = Call.throw ServiceError.swap_not_found
found next (some o) = next o

-- `const o = await this.must(id)`
abbrev pub must : Text → (SwapOrder → Call) → Call
must id next = Call.read id (found next)

-- The error of the index goes through, where no `catch` stands around the write.
unfoldable pub by_outcome : (Bool → Call) → Outcome → Call
by_outcome k Outcome.won = k true
by_outcome k Outcome.lost = k false
by_outcome k Outcome.refused = Call.throw ServiceError.offer_taken

-- `const won = await this.store.putIfStatus(o, expected)`
abbrev pub put_then : SwapOrder → SwapStatus → (Bool → Call) → Call
put_then o expected k = Call.put o expected (by_outcome k)

abbrev pub won : SwapOrder → Bool → Call
won o true = Call.done o
won o false = must o.id Call.done

-- `if (!(await this.store.putIfStatus(o, expected))) return this.must(id); return o;`
abbrev pub put_or_fresh : SwapOrder → SwapStatus → Call
put_or_fresh o expected = put_then o expected (won o)

-- `await call, then next on its order`
unfoldable pub and_then : Call → (SwapOrder → Call) → Call
and_then (Call.done o) next = next o
and_then (Call.throw e) next = Call.throw e
and_then (Call.read id k) next = Call.read id (λ r. and_then (k r) next)
and_then (Call.add o k) next = Call.add o (λ b. and_then (k b) next)
and_then (Call.put o s k) next = Call.put o s (λ b. and_then (k b) next)
and_then (Call.book r b id k) next = Call.book r b id (λ a. and_then (k a) next)

abbrev pub added : List SwapOrder → (Bool → Call) → Option (List SwapOrder) → List SwapOrder × Call
added rows k none = (rows, k false)
added rows k (some rows') = (rows', k true)

-- One access to the table, at the time `now`.
unfoldable pub access : ℕ → Call → List SwapOrder → List SwapOrder × Call
access now (Call.done o) rows = (rows, Call.done o)
access now (Call.throw e) rows = (rows, Call.throw e)
access now (Call.read id k) rows = (rows, k (get id rows))
access now (Call.add o k) rows = added rows k (insert o now rows)
access now (Call.put o s k) rows = (put_if_status o s now rows, k (put_outcome o s rows))
access now (Call.book r b id k) rows =
    let (rows', answer) = reserve r b id now rows in (rows', k answer)

-- The request at a place of the list makes its next access.
unfoldable pub turn : ℕ → ℕ → List Call → List SwapOrder → List SwapOrder × List Call
unfolding access
turn who now [] rows = (rows, [])
turn zero now (c ∷ cs) rows = let (rows', c') = access now c rows in (rows', c' ∷ cs)
turn (suc who) now (c ∷ cs) rows = let (rows', cs') = turn who now cs rows in (rows', c ∷ cs')

-- A schedule says whose turn it is, and when.
unfoldable pub run : List (ℕ × ℕ) → List Call → List SwapOrder → List SwapOrder × List Call
unfolding turn
run [] cs rows = (rows, cs)
run ((who, now) ∷ turns) cs rows = let (rows', cs') = turn who now cs rows in run turns cs' rows'
