-- ===== src/Service/TableLaws.antt =====
-- The table as the service relies on it: one write of two that race, and a reservation of one row.
use cantonbit.Shared.{
  ℕ, ◌≡◌, refl, ◌≢◌, ◌↔◌, inl, inr, Bool, true, false, not, some, List, [], ◌∷◌, arith, Text,
  if◌then◌else◌, any, text_eq→eq, ◌∙◌, sym, text_eq_refl, ap, text_eq, subst, Bool-cases,
  Option-cases,
}
use cantonbit.Htlc.Order.{SwapOrder, SwapStatus, status_eq}
use cantonbit.Htlc.Logic.{is_forward}
use cantonbit.Service.Store.{
  clash, put_outcome, replace_if, Outcome, get, put_if_status, wins, written, Reservation, Answer,
  reserve, reserve_row,
}
use cantonbit.Service.OfferIndex.{OfferFree, free_of_clash, any-clash}
use cantonbit.Service.Call.{Call, ServiceError, test◌then◌else◌, access, turn, run}
use cantonbit.Service.Lock.{accept, accept_attempts}
use cantonbit.Service.Paths.{reserve_row_id}

-- The row that is found has the id that is looked for.
pub get_id : (id : Text) (rows : List SwapOrder) (o : SwapOrder) → get id rows ≡ some o → o.id ≡ id
unfolding get
get_id id [] o e = cc
get_id id (row ∷ rows) o e = elim (Bool-cases (text_eq row.id id)) [
  | inl f ↦
      let same : row ≡ o = cc (rw f at e) in
      ap (λ (x : SwapOrder). x.id) (sym same) ∙ text_eq→eq row.id id f
  | inr f ↦ get_id id rows o (rw f at e)
]

replace_at :
    (o : SwapOrder) (s : SwapStatus) (now : ℕ) (rows : List SwapOrder) (row : SwapOrder)
    → get o.id rows ≡ some row
    → get o.id (replace_if o s now rows)
      ≡ some (if status_eq row.status s then written row o now else row)
unfolding get replace_if
replace_at o s now [] row e = cc
replace_at o s now (x ∷ rows) row e = elim (Bool-cases (text_eq x.id o.id)) [
  | inr f ↦ rw (f, f) (replace_at o s now rows row (rw f at e))
  | inl f ↦
      let same : x ≡ row = cc (rw f at e) in
      let own : text_eq (written x o now).id o.id ≡ true = unfold written in text_eq_refl o.id in
      subst
        (λ (y : SwapOrder).
          get o.id (replace_if o s now (x ∷ rows))
          ≡ some (if status_eq y.status s then written y o now else y))
        same
        (elim (Bool-cases (status_eq x.status s)) [
          | inl g ↦ rw (f, g, own) refl
          | inr g ↦ rw (f, g, f) refl
        ])
]

lost_iff :
    (s r : SwapStatus) (taken : Bool)
    → ((if not (status_eq r s)
          then Outcome.lost
          else if taken
          then Outcome.refused
          else Outcome.won)
        ≡ Outcome.lost)
      ↔ (r ≢ s)
lost_iff s r taken = ground arith

won_iff :
    (s r : SwapStatus) (taken : Bool)
    → ((if not (status_eq r s)
          then Outcome.lost
          else if taken
          then Outcome.refused
          else Outcome.won)
        ≡ Outcome.won)
      ↔ ((r ≡ s) × (taken ≡ false))
won_iff s r taken = ground arith

put_at :
    (o : SwapOrder) (s : SwapStatus) (now : ℕ) (rows : List SwapOrder) (row : SwapOrder)
    → get o.id rows ≡ some row
    → get o.id (put_if_status o s now rows)
      ≡ some (if wins o s rows then written row o now else row)
unfolding wins put_outcome put_if_status
put_at o s now rows row e =
    let swapped = replace_at o s now rows row e in
    elim (Bool-cases (any (clash o) rows)) [
      | inl taken ↦ elim (Bool-cases (status_eq row.status s)) [
        | inl f ↦ rw (taken, e, f) refl
        | inr f ↦ rw (taken, e, f) refl
      ]
      | inr free ↦ elim (Bool-cases (status_eq row.status s)) [
        | inl f ↦ rw (free, e, f) (rw f at swapped)
        | inr f ↦ rw (free, e, f) (rw f at swapped)
      ]
    ]

-- `putIfStatus` is a compare-and-swap on the status, under the unique index on offers. It wins exactly
-- when the row has the expected status and no other order names the offer that is written; it answers
-- that it lost exactly when the row has another status. When it wins the row is the order as it is
-- written, and otherwise, also when the index refuses the write, the row is left as it is.
pub put_if_status_lem :
    (o : SwapOrder) (s : SwapStatus) (now : ℕ) (rows : List SwapOrder) (row : SwapOrder)
    → get o.id rows ≡ some row
    → ((put_outcome o s rows ≡ Outcome.won) ↔ ((row.status ≡ s) × OfferFree o rows))
      × ((put_outcome o s rows ≡ Outcome.lost) ↔ (row.status ≢ s))
      × (get o.id (put_if_status o s now rows)
          ≡ some (if wins o s rows then written row o now else row))
unfolding put_outcome
put_if_status_lem o s now rows row e =
    let (to, from) = won_iff s row.status (any (clash o) rows) in
    (
      (
        (λ h. let (same, free) = to (rw e at h) in (same, free_of_clash o rows free)),
        λ (same, free). rw e (from (same, any-clash o rows free)),
      ),
      rw e (lost_iff s row.status (any (clash o) rows)),
      put_at o s now rows row e,
    )

-- Of two writes that expect the same status and move the order on, only the first wins.
pub only_one_wins :
    (o p : SwapOrder) (s : SwapStatus) (now : ℕ) (rows : List SwapOrder)
    → o.id ≡ p.id
    → wins o s rows ≡ true
    → status_eq o.status s ≡ false
    → wins p s (put_if_status o s now rows) ≡ false
unfolding wins put_outcome
only_one_wins o p s now rows same w moved = elim (Option-cases (get o.id rows)) [
  | inl none_there ↦ cc (rw none_there at w)
  | inr (row, e) ↦
      let after : get p.id (put_if_status o s now rows) ≡ some (written row o now) =
        subst (λ i. get i (put_if_status o s now rows) ≡ some (written row o now)) same
          (rw w at (put_at o s now rows row e)) in
      rw after (unfold written in rw moved refl)
]

reserve_at :
    (kind : Reservation) (enough : Bool) (id : Text) (now : ℕ) (rows : List SwapOrder)
    (row : SwapOrder)
    → get id rows ≡ some row
    → (get id (reserve kind enough id now rows).0 ≡ some (reserve_row kind enough row now).0)
      × ((reserve kind enough id now rows).1 ≡ (reserve_row kind enough row now).1)
unfolding get reserve
reserve_at kind enough id now [] row e = cc
reserve_at kind enough id now (x ∷ rows) row e = elim (Bool-cases (text_eq x.id id)) [
  | inr f ↦ rw (f, f) (reserve_at kind enough id now rows row (rw f at e))
  | inl f ↦
      let same : x ≡ row = cc (rw f at e) in
      let own : text_eq (reserve_row kind enough x now).0.id id ≡ true =
        ap (λ i. text_eq i id) (reserve_row_id kind enough x now) ∙ f in
      subst
        (λ (y : SwapOrder).
          (get id (reserve kind enough id now (x ∷ rows)).0
            ≡ some (reserve_row kind enough y now).0)
          × ((reserve kind enough id now (x ∷ rows)).1 ≡ (reserve_row kind enough y now).1))
        same (rw (f, own) (refl, refl))
]

-- An open forward order is marked failed by the first attempt that finds too low a balance.
first_attempt :
    (id : Text) (now : ℕ) (rows : List SwapOrder) (o : SwapOrder)
    → get id rows ≡ some o
    → o.status ≡ SwapStatus.opened
    → is_forward o.direction ≡ true
    → (get id (reserve Reservation.accept_forward false id now rows).0
        ≡ some (record o { status = SwapStatus.failed; updated_at = some now }))
      × ((reserve Reservation.accept_forward false id now rows).1 ≡ Answer.insufficient)
unfolding reserve_row
first_attempt id now rows o e opened forward =
    rw (forward, opened) at (reserve_at Reservation.accept_forward false id now rows o e)

failed_row :
    (enough : Bool) (o : SwapOrder) (now : ℕ)
    → o.status ≡ SwapStatus.failed
    → (reserve_row Reservation.accept_forward enough o now).1 ≡ Answer.refused SwapStatus.failed
unfolding reserve_row
failed_row enough o now failed = ground arith

failed_row_same :
    (enough : Bool) (o : SwapOrder) (now : ℕ)
    → o.status ≡ SwapStatus.failed
    → (reserve_row Reservation.accept_forward enough o now).0 ≡ o
unfolding reserve_row
failed_row_same enough o now failed = ground arith

-- Any later attempt is refused by that status.
later_attempt :
    (enough : Bool) (id : Text) (now : ℕ) (rows : List SwapOrder) (o : SwapOrder)
    → get id rows ≡ some o
    → o.status ≡ SwapStatus.failed
    → (get id (reserve Reservation.accept_forward enough id now rows).0 ≡ some o)
      × ((reserve Reservation.accept_forward enough id now rows).1
          ≡ Answer.refused SwapStatus.failed)
later_attempt enough id now rows o e failed =
    let (there, answer) = reserve_at Reservation.accept_forward enough id now rows o e in
    (there ∙ ap some (failed_row_same enough o now failed), answer ∙ failed_row enough o now failed)

-- `accept` on its own, on an open forward order, when the balance is too low at its first attempt:
-- whatever the balance is at the later attempts, the order ends up failed and the call throws the
-- error for an order that is not open, not the one for too low a balance.
pub accept_retry_futile :
    (enough : ℕ → Bool) (baseline : List Text) (rows : List SwapOrder) (o : SwapOrder)
    (start first second : ℕ)
    → get o.id rows ≡ some o
    → o.status ≡ SwapStatus.opened
    → is_forward o.direction ≡ true
    → enough 2 ≡ false
    → let (rows', cs) =
        run ((0, start) ∷ (0, first) ∷ (0, second) ∷ []) (accept enough baseline o.id ∷ []) rows in
      (cs ≡ Call.throw ServiceError.bad_status ∷ [])
      × (get o.id rows' ≡ some (record o { status = SwapStatus.failed; updated_at = some first }))
unfolding run turn access accept accept_attempts test◌then◌else◌
accept_retry_futile enough baseline rows o start first second e opened forward low =
    let (failed, low_answer) = first_attempt o.id first rows o e opened forward in
    let (kept_failed, refusal) =
      later_attempt (enough 1) o.id second
        (reserve Reservation.accept_forward false o.id first rows).0
        (record o { status = SwapStatus.failed; updated_at = some first }) failed refl in
    rw (e, opened, forward, low, low_answer, refusal) (refl, kept_failed)
