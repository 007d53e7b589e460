-- ===== src/C2c/Service/Safe/Reserve.antt =====
-- What a reservation of float keeps to.
use cantonbit.Shared.{ℕ, zero, suc, ◌≡◌, ◌≢◌, true, Option, some, arith, Text}
use cantonbit.C2c.Order.{CantonSwapOrder, CantonSwapStatus, status_eq}
use cantonbit.C2c.Service.Store.{Answer}
use cantonbit.C2c.Service.Call.{Call}
use cantonbit.C2c.Service.Diagram.{may_advance}
use cantonbit.C2c.Service.Reserve.{
  Floats, Move, attempt, reserve_answer, reserve_attempts, reserve_swap_float, reserved_now,
}
use cantonbit.C2c.Service.Safe.{Copy, Safe, Safe-again, Safe-if_ok, Safe-test, Terms, may_hold}

status_of_code : (s s' : CantonSwapStatus) → status_eq s s' ≡ true → s ≡ s'
status_of_code s s' e = ground arith

-- A reservation that the wallet's diagram allows, to a status that holds float.
abbrev pub Allowed : Terms → Move → Type 0
Allowed terms m =
    (may_advance terms.wallet_mode m.expected_status m.next_status ≡ true)
    × (may_hold m.next_status ≡ true)
    × (m.next_status ≢ CantonSwapStatus.filled)

module _ {t : Text → Terms} {id : Text} (fail : Text → Call) (next : CantonSwapOrder → Call)
    (fails : (msg : Text) (known : Option CantonSwapStatus) → Safe t id known (fail msg)) (m : Move)
    (kept : (o : CantonSwapOrder)
      → Copy t id o
      → o.status ≡ m.next_status
      → Safe t id (some o.status) (next o))
    (allowed : Allowed (t id) m) where
  reserved_now-Safe :
      {known : Option CantonSwapStatus} (o : CantonSwapOrder)
      → Copy t id o
      → Safe t id known (reserved_now fail next o m)
  reserved_now-Safe o c =
      Safe-again o c (λ msg. fails msg _)
        (λ x d _.
          Safe-test (λ _. fails _ _)
            (λ e. kept x d (status_of_code x.status m.next_status (ground arith))))

  reserve_answer-Safe :
      {known : Option CantonSwapStatus} (again : Call) (o : CantonSwapOrder)
      → Copy t id o
      → Safe t id known again
      → (answer : Answer) → Safe t id known (reserve_answer fail next again o m answer)
  reserve_answer-Safe again o c p Answer.reserved = reserved_now-Safe o c
  reserve_answer-Safe again o c p Answer.insufficient = p
  reserve_answer-Safe again o c p Answer.not_found = fails _ _
  reserve_answer-Safe again o c p (Answer.other_status s) = fails _ _
  reserve_answer-Safe again o c p Answer.duplicate = fails _ _

  attempt-Safe :
      {known : Option CantonSwapStatus} (f : Floats) (left : ℕ) (again : Call) (o : CantonSwapOrder)
      → Copy t id o
      → Safe t id known again
      → Safe t id known (attempt fail next f left o m again)
  attempt-Safe f left again o c p =
      Safe-if_ok (f.units left)
        (λ units _.
          let (_, same, _) = c in
          Safe.books same allowed.0 allowed.1 allowed.2 (reserve_answer-Safe again o c p))
        (λ msg. fails msg _)

  reserve_attempts-Safe :
      {known : Option CantonSwapStatus} (f : Floats) (left : ℕ) (o : CantonSwapOrder)
      → Copy t id o
      → Safe t id known (reserve_attempts fail next f left o m)
  unfolding reserve_attempts
  reserve_attempts-Safe f zero o c = attempt-Safe f zero _ o c (fails _ _)
  reserve_attempts-Safe f (suc left) o c =
      attempt-Safe f (suc left) _ o c (reserve_attempts-Safe f left o c)

  pub reserve_swap_float-Safe :
      {known : Option CantonSwapStatus} (f : Floats) (o : CantonSwapOrder)
      → Copy t id o
      → Safe t id known (reserve_swap_float fail next f o m)
  unfolding reserve_swap_float
  reserve_swap_float-Safe f o c = reserve_attempts-Safe f 2 o c
