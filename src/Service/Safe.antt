-- ===== src/Service/Safe.antt =====
-- What every request keeps to, however the requests interleave: the rows it writes respect the
-- secret, and their statuses move along the diagram.
pub mod Create
pub mod Lock
pub mod Counter
pub mod Claim
pub mod Record
pub mod Refund
pub mod Settle
use cantonbit.Shared.{
  ap, ℕ, ◌≡◌, refl, Bool, true, false, not, ◌&&◌, ◌||◌, Option, none, some, Text, if◌then◌else◌,
  sym, subst, truthy,
}
use cantonbit.Htlc.Order.{SwapDirection, SwapOrder, SwapStatus, CounterMode, status_eq}
use cantonbit.Htlc.Logic.{is_forward}
use cantonbit.Service.Store.{Reservation, Answer, Outcome}
use cantonbit.Service.Call.{
  Call, ServiceError, test◌then◌else◌, found, must, won, put_or_fresh, put_then, by_outcome,
  and_then,
}
use cantonbit.Service.Diagram.{may_advance}

-- A completed order, and a forward order whose counter leg is claimed, have their secret stored; an
-- order that is being refunded has none.
unfoldable pub respects_secret : SwapOrder → Bool
respects_secret o =
    (not (status_eq o.status SwapStatus.main_claimed) || truthy o.revealed_preimage)
    && (not (status_eq o.status SwapStatus.counter_claimed && is_forward o.direction)
        || truthy o.revealed_preimage)
    && (not (status_eq o.status SwapStatus.refunding) || not (truthy o.revealed_preimage))

-- The terms that the two sides agreed on.
pub record Terms : Type 0 where
  pub direction : SwapDirection
  pub hash_lock : Text
  pub user_evm_address : Option Text
  pub solver_evm_address : Option Text
  pub wbtc_amount : Option Text
  pub user_timelock : ℕ
  pub user_canton_party : Text
  pub solver_canton_party : Text
  pub cbtc_amount : Option Text
  pub solver_timelock : ℕ
  pub counter_mode : Option CounterMode

abbrev pub terms_of : SwapOrder → Terms
terms_of o = record {
  direction = o.direction;
  hash_lock = o.hash_lock;
  user_evm_address = o.user_evm_address;
  solver_evm_address = o.solver_evm_address;
  wbtc_amount = o.wbtc_amount;
  user_timelock = o.user_timelock;
  user_canton_party = o.user_canton_party;
  solver_canton_party = o.solver_canton_party;
  cbtc_amount = o.cbtc_amount;
  solver_timelock = o.solver_timelock;
  counter_mode = o.counter_mode;
}

-- The order `id`, with the terms that are registered for that id.
abbrev pub SameOrder : (Text → Terms) → Text → SwapOrder → Type 0
SameOrder t id o = (o.id ≡ id) × (terms_of o ≡ t id)

-- The same, respecting its secret.
abbrev pub Respects : (Text → Terms) → Text → SwapOrder → Type 0
Respects t id o = (respects_secret o ≡ true) × SameOrder t id o

abbrev pub WhenFound : (Text → Terms) → Text → Option SwapOrder → Type 0
WhenFound t id none = Unit
WhenFound t id (some o) = Respects t id o

-- The direction of every copy of the order is the registered one.
pub direction_of_copy :
    (t : Text → Terms) (id : Text) (o : SwapOrder)
    → SameOrder t id o
    → is_forward o.direction ≡ is_forward (t id).direction
direction_of_copy t id o (_, same) = ap (λ (x : Terms). is_forward x.direction) same

-- A claim that is seen on the chain before its secret is known is one of a reverse order.
pub claimed_secret :
    (o : SwapOrder)
    → is_forward o.direction ≡ false
    → respects_secret (record o { status = SwapStatus.counter_claimed }) ≡ true
unfolding respects_secret
claimed_secret o e = rw e refl

-- A request about the order `id` that returns and writes only that order, with its registered terms
-- and respecting its secret, each write over a status from which the diagram allows the new one, as
-- long as what it reads is so.
pub data Safe (t : Text → Terms) (id : Text) : Call → Type 0 where
  returns : {o : SwapOrder} → Respects t id o → Safe t id (Call.done o)
  throws : {e : ServiceError} → Safe t id (Call.throw e)
  reads :
      {k : Option SwapOrder → Call}
      → ((r : Option SwapOrder) → WhenFound t id r → Safe t id (k r))
      → Safe t id (Call.read id k)
  adds :
      {o : SwapOrder} {k : Bool → Call}
      → Respects t id o
      → ((b : Bool) → Safe t id (k b))
      → Safe t id (Call.add o k)
  puts :
      {o : SwapOrder} {s : SwapStatus} {k : Outcome → Call}
      → Respects t id o
      → may_advance s o.status ≡ true
      → ((outcome : Outcome) → Safe t id (k outcome))
      → Safe t id (Call.put o s k)
  books :
      {r : Reservation} {enough : Bool} {i : Text} {k : Answer → Call}
      → ((a : Answer) → Safe t id (k a))
      → Safe t id (Call.book r enough i k)

module _ {t : Text → Terms} {id : Text} where
  pub Safe-test :
      {b : Bool} {c c' : Call}
      → (b ≡ true → Safe t id c)
      → (b ≡ false → Safe t id c')
      → Safe t id (test b then c else c')
  unfolding test◌then◌else◌
  Safe-test {b = true} p q = p refl
  Safe-test {b = false} p q = q refl

  pub Safe-found :
      (r : Option SwapOrder) {next : SwapOrder → Call}
      → ((o : SwapOrder) → Respects t id o → Safe t id (next o))
      → WhenFound t id r
      → Safe t id (found next r)
  Safe-found none p w = Safe.throws
  Safe-found (some o) p w = p o w

  pub Safe-must :
      {next : SwapOrder → Call}
      → ((o : SwapOrder) → Respects t id o → Safe t id (next o))
      → Safe t id (must id next)
  Safe-must p = Safe.reads (λ r w. Safe-found r p w)

  -- Reading the order again, by the id that its copy has.
  pub Safe-again :
      (o : SwapOrder) {next : SwapOrder → Call}
      → Respects t id o
      → ((fresh : SwapOrder) → Respects t id fresh → Safe t id (next fresh))
      → Safe t id (must o.id next)
  Safe-again o {next} (_, (same, _)) p =
      subst (λ i. Safe t id (must i next)) (sym same) (Safe-must p)

  pub Safe-fresh : Safe t id (must id Call.done)
  Safe-fresh = Safe-must (λ o r. Safe.returns r)

  Safe-won : (o : SwapOrder) (b : Bool) → Respects t id o → Safe t id (won o b)
  Safe-won o true r = Safe.returns r
  Safe-won o false r = Safe-again o r (λ fresh q. Safe.returns q)

  Safe-by_outcome :
      {k : Bool → Call} (outcome : Outcome)
      → ((b : Bool) → Safe t id (k b))
      → Safe t id (by_outcome k outcome)
  unfolding by_outcome
  Safe-by_outcome Outcome.won p = p true
  Safe-by_outcome Outcome.lost p = p false
  Safe-by_outcome Outcome.refused p = Safe.throws

  pub Safe-put_then :
      {o : SwapOrder} {s : SwapStatus} {k : Bool → Call}
      → Respects t id o
      → may_advance s o.status ≡ true
      → ((b : Bool) → Safe t id (k b))
      → Safe t id (put_then o s k)
  Safe-put_then r m p = Safe.puts r m (λ outcome. Safe-by_outcome outcome p)

  pub Safe-put_or_fresh :
      {o : SwapOrder} {s : SwapStatus}
      → Respects t id o
      → may_advance s o.status ≡ true
      → Safe t id (put_or_fresh o s)
  Safe-put_or_fresh {o} r m = Safe-put_then r m (λ b. Safe-won o b r)

  pub Safe-and_then :
      (c : Call) {next : SwapOrder → Call}
      → Safe t id c
      → ((o : SwapOrder) → Respects t id o → Safe t id (next o))
      → Safe t id (and_then c next)
  unfolding and_then
  Safe-and_then (Call.done o) (Safe.returns r) q = q o r
  Safe-and_then (Call.throw e) p q = Safe.throws
  Safe-and_then (Call.read i k) (Safe.reads p) q = Safe.reads (λ r w. Safe-and_then (k r) (p r w) q)
  Safe-and_then (Call.add o k) (Safe.adds r p) q = Safe.adds r (λ b. Safe-and_then (k b) (p b) q)
  Safe-and_then (Call.put o s k) (Safe.puts r m p) q =
      Safe.puts r m (λ b. Safe-and_then (k b) (p b) q)
  Safe-and_then (Call.book r b i k) (Safe.books p) q = Safe.books (λ a. Safe-and_then (k a) (p a) q)
