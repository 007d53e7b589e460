-- ===== src/Service/Paths.antt =====
-- The status of a row over time: along the diagram, whatever requests interleave.
use cantonbit.Shared.{
  ℕ, zero, suc, ◌≡◌, refl, inl, inr, Bool, true, Option, none, some, List, [], ◌∷◌, ◌++◌, arith,
  Text, Option-cases, text_eq→eq, All, subst, ◌∙◌, sym, ap, text_eq, any, Bool-cases,
}
use cantonbit.Htlc.Order.{SwapOrder, SwapStatus, status_eq}
use cantonbit.Service.Store.{
  replace_if, clash, get, insert, insert_over, put_if_status, written, Reservation, reserve,
  reserve_row,
}
use cantonbit.Service.Call.{Call, added, access, turn, run}
use cantonbit.Service.Diagram.{may_advance, is_final, PathAlong}
use cantonbit.Service.Safe.{Safe, Terms}
use cantonbit.Service.Runs.{turn-Safe, Kept, SafeCall}

reserve_row_advances :
    (kind : Reservation) (enough : Bool) (row : SwapOrder) (now : ℕ)
    → may_advance row.status (reserve_row kind enough row now).0.status ≡ true
unfolding reserve_row
reserve_row_advances Reservation.accept_forward enough row now = ground arith
reserve_row_advances Reservation.before_main_lock enough row now = ground arith
reserve_row_advances Reservation.before_counter_lock enough row now = ground arith

pub reserve_row_id :
    (kind : Reservation) (enough : Bool) (row : SwapOrder) (now : ℕ)
    → (reserve_row kind enough row now).0.id ≡ row.id
unfolding reserve_row
reserve_row_id Reservation.accept_forward enough row now = ground arith
reserve_row_id Reservation.before_main_lock enough row now = ground arith
reserve_row_id Reservation.before_counter_lock enough row now = ground arith

status_eq→eq : {s t : SwapStatus} → status_eq s t ≡ true → s ≡ t
status_eq→eq e = ground arith

advance_of_final : (s t : SwapStatus) → is_final s ≡ true → may_advance s t ≡ true → t ≡ s
advance_of_final SwapStatus.main_claimed t f e = ground arith
advance_of_final SwapStatus.refunded t f e = ground arith
advance_of_final SwapStatus.cancelled t f e = ground arith
advance_of_final _ t f e = cc

-- A status may always be written again.
stay_advance : (s : SwapStatus) → may_advance s s ≡ true
stay_advance s = ground arith

-- Every order of the first table is in the second, at most one step of the diagram further.
abbrev pub Stepped : List SwapOrder → List SwapOrder → Type 0
Stepped rows rows' =
    (id : Text) (o : SwapOrder)
    → get id rows ≡ some o
    → (o' : SwapOrder) × (get id rows' ≡ some o') × (may_advance o.status o'.status ≡ true)

Stepped-refl : (rows : List SwapOrder) → Stepped rows rows
Stepped-refl rows id o e = (o, e, stay_advance o.status)

-- Every order of the first table is in the second, further along the diagram.
abbrev pub Later : List SwapOrder → List SwapOrder → Type 0
Later rows rows' =
    (id : Text) (o : SwapOrder)
    → get id rows ≡ some o
    → (o' : SwapOrder) × (get id rows' ≡ some o') × PathAlong o.status o'.status

Later-refl : (rows : List SwapOrder) → Later rows rows
Later-refl rows id o e = (o, e, PathAlong.stay o.status)

PathAlong-trans : {r s t : SwapStatus} → PathAlong r s → PathAlong s t → PathAlong r t
PathAlong-trans p (PathAlong.stay s) = p
PathAlong-trans p (PathAlong.step q e) = PathAlong.step (PathAlong-trans p q) e

Stepped-Later : (rows rows' : List SwapOrder) → Stepped rows rows' → Later rows rows'
Stepped-Later rows rows' f id o e =
    let (o', e', m) = f id o e in (o', e', PathAlong.step (PathAlong.stay o.status) m)

Later-trans : (xs ys zs : List SwapOrder) → Later xs ys → Later ys zs → Later xs zs
Later-trans xs ys zs f g id o e =
    let (o', e', p) = f id o e in let (o'', e'', q) = g id o' e' in (o'', e'', PathAlong-trans p q)

-- A row that takes the place of one with its id.
Stepped-head :
    (row row' : SwapOrder) (rows : List SwapOrder)
    → row.id ≡ row'.id
    → may_advance row.status row'.status ≡ true
    → Stepped (row ∷ rows) (row' ∷ rows)
unfolding get
Stepped-head row row' rows same m id o e = elim (Bool-cases (text_eq row.id id)) [
  | inl f ↦
      let there : row ≡ o = cc (rw f at e) in
      (
        row',
        rw (ap (λ i. text_eq i id) (sym same) ∙ f) refl,
        subst (λ (x : SwapOrder). may_advance x.status row'.status ≡ true) there m,
      )
  | inr f ↦ (o, rw (ap (λ i. text_eq i id) (sym same) ∙ f) (rw f at e), stay_advance o.status)
]

Stepped-tail :
    (row : SwapOrder) (rows rows' : List SwapOrder)
    → Stepped rows rows'
    → Stepped (row ∷ rows) (row ∷ rows')
unfolding get
Stepped-tail row rows rows' l id o e = elim (Bool-cases (text_eq row.id id)) [
  | inl f ↦ (o, rw f (rw f at e), stay_advance o.status)
  | inr f ↦ let (o', e', p) = l id o (rw f at e) in (o', rw f e', p)
]

replace_if-Stepped :
    (o : SwapOrder) (s : SwapStatus) (now : ℕ) (rows : List SwapOrder)
    → may_advance s o.status ≡ true
    → Stepped rows (replace_if o s now rows)
unfolding replace_if
replace_if-Stepped o s now [] m = Stepped-refl []
replace_if-Stepped o s now (row ∷ rows) m = elim (Bool-cases (text_eq row.id o.id)) [
  | inr e ↦ rw e (Stepped-tail row rows _ (replace_if-Stepped o s now rows m))
  | inl e ↦ elim (Bool-cases (status_eq row.status s)) [
    | inr f ↦ rw (e, f) (Stepped-refl (row ∷ rows))
    | inl f ↦
        rw (e, f)
          (Stepped-head row (written row o now) rows (unfold written in text_eq→eq row.id o.id e)
            (unfold written in subst (λ r. may_advance r o.status ≡ true) (sym (status_eq→eq f)) m))
  ]
]

put_if_status-Stepped :
    (o : SwapOrder) (s : SwapStatus) (now : ℕ) (rows : List SwapOrder)
    → may_advance s o.status ≡ true
    → Stepped rows (put_if_status o s now rows)
unfolding put_if_status
put_if_status-Stepped o s now rows m = elim (Bool-cases (any (clash o) rows)) [
  | inl c ↦ rw c (Stepped-refl rows)
  | inr c ↦ rw c (replace_if-Stepped o s now rows m)
]

reserve-Stepped :
    (kind : Reservation) (enough : Bool) (id : Text) (now : ℕ) (rows : List SwapOrder)
    → Stepped rows (reserve kind enough id now rows).0
unfolding reserve
reserve-Stepped kind enough id now [] = Stepped-refl []
reserve-Stepped kind enough id now (row ∷ rows) = elim (Bool-cases (text_eq row.id id)) [
  | inl e ↦ rw e (
      Stepped-head row (reserve_row kind enough row now).0 rows
        (sym (reserve_row_id kind enough row now)) (reserve_row_advances kind enough row now))
  | inr e ↦ rw e (Stepped-tail row rows _ (reserve-Stepped kind enough id now rows))
]

insert_over-Stepped :
    (o : SwapOrder) (now : ℕ) (rows : List SwapOrder) {rows' : List SwapOrder}
    → insert_over (get o.id rows) o now rows ≡ some rows'
    → Stepped rows rows'
insert_over-Stepped o now rows {rows'} e = elim (Option-cases (get o.id rows)) [
  | inr (row, f) ↦ cc (rw f at e)
  | inl f ↦ elim (Bool-cases (any (clash o) rows)) [
    | inl c ↦ cc (rw (f, c) at e)
    | inr c ↦
        let new = written (record o { created_at = now }) o now in
        let same : new ∷ rows ≡ rows' = cc (rw (f, c) at e) in
        subst (Stepped rows) same (λ id p h. elim (Bool-cases (text_eq o.id id)) [
          | inl g ↦
              let nothing : get id rows ≡ none =
                subst (λ i. get i rows ≡ none) (text_eq→eq o.id id g) f in
              cc
          | inr g ↦ (p, unfold get written in rw g h, stay_advance p.status)
        ])
  ]
]

added-Stepped :
    (o : SwapOrder) (now : ℕ) (rows : List SwapOrder) (k : Bool → Call)
    → Stepped rows (added rows k (insert o now rows)).0
added-Stepped o now rows k = go (insert o now rows) refl
  where
    go :
        (new : Option (List SwapOrder))
        → insert o now rows ≡ new
        → Stepped rows (added rows k new).0
    go none e = Stepped-refl rows
    go (some rows') e = insert_over-Stepped o now rows (unfold insert in e)

PathAlong-is_final : {s t : SwapStatus} → PathAlong s t → is_final s ≡ true → t ≡ s
PathAlong-is_final (PathAlong.stay s) f = refl
PathAlong-is_final {s} {t} (PathAlong.step p e) f =
    let same = PathAlong-is_final p f in
    advance_of_final s t f (subst (λ x. may_advance x t ≡ true) same e)

module _ (t : Text → Terms) where
  access-Stepped :
      (now : ℕ) (id : Text) (c : Call) (rows : List SwapOrder)
      → Safe t id c
      → Stepped rows (access now c rows).0
  unfolding access
  access-Stepped now id (Call.done o) rows s = Stepped-refl rows
  access-Stepped now id (Call.throw e) rows s = Stepped-refl rows
  access-Stepped now id (Call.read i k) rows s = Stepped-refl rows
  access-Stepped now id (Call.add o k) rows s = added-Stepped o now rows k
  access-Stepped now id (Call.put o st k) rows (Safe.puts r m s) =
      put_if_status-Stepped o st now rows m
  access-Stepped now id (Call.book kind b i k) rows s = reserve-Stepped kind b i now rows

  turn-Stepped :
      (who now : ℕ) (cs : List Call) (rows : List SwapOrder)
      → All (SafeCall t) cs
      → Stepped rows (turn who now cs rows).0
  unfolding turn
  turn-Stepped who now [] rows s = Stepped-refl rows
  turn-Stepped zero now (c ∷ cs) rows ((id, s), ss) = access-Stepped now id c rows s
  turn-Stepped (suc who) now (c ∷ cs) rows (s, ss) = turn-Stepped who now cs rows ss

  -- An order in the table stays in it, and its status moves along the diagram, however safe requests
  -- interleave, and whenever.
  pub run-Later :
      (schedule : List (ℕ × ℕ)) (cs : List Call) (rows : List SwapOrder)
      → All (SafeCall t) cs
      → All (Kept t) rows
      → Later rows (run schedule cs rows).0
  unfolding run
  run-Later [] cs rows s rs = Later-refl rows
  run-Later ((who, now) ∷ schedule) cs rows s rs =
      let (rs', s') = turn-Safe t who now cs rows s rs in
      let rows' = (turn who now cs rows).0 in
      Later-trans rows rows' _ (Stepped-Later rows rows' (turn-Stepped who now cs rows s))
        (run-Later schedule (turn who now cs rows).1 rows' s' rs')

  -- The same for one more turn after a run: at most one step of the diagram.
  pub turn_after_run :
      (schedule : List (ℕ × ℕ)) (who now : ℕ) (cs : List Call) (rows : List SwapOrder)
      → All (SafeCall t) cs
      → All (Kept t) rows
      → Stepped (run schedule cs rows).0 (run (schedule ++ (who, now) ∷ []) cs rows).0
  unfolding run
  turn_after_run [] who now cs rows s rs = turn-Stepped who now cs rows s
  turn_after_run ((first, at) ∷ schedule) who now cs rows s rs =
      let (rs', s') = turn-Safe t first at cs rows s rs in
      turn_after_run schedule who now (turn first at cs rows).1 (turn first at cs rows).0 s' rs'

  -- An order that is completed, refunded or cancelled keeps its outcome, however safe requests
  -- interleave, and whenever: no request undoes it, and none turns one outcome into another.
  pub outcome_stays :
      (schedule : List (ℕ × ℕ)) (cs : List Call) (rows : List SwapOrder)
      → All (SafeCall t) cs
      → All (Kept t) rows
      → (id : Text) (o : SwapOrder) → get id rows ≡ some o
      → is_final o.status ≡ true
      → (o' : SwapOrder) × (get id (run schedule cs rows).0 ≡ some o') × (o'.status ≡ o.status)
  outcome_stays schedule cs rows s rs id o e f =
      let (o', e', p) = run-Later schedule cs rows s rs id o e in (o', e', PathAlong-is_final p f)
