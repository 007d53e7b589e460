-- ===== src/Service/Runs.antt =====
-- Runs of many requests at once: what each request keeps to holds of the table throughout.
use cantonbit.Shared.{
  ℕ, zero, suc, ◌≡◌, refl, inl, inr, Bool, true, false, Option, none, some, List, [], ◌∷◌, arith,
  Text, text_eq→eq, sym, text_eq, any, Bool-cases, subst, ap, All, ◌∙◌,
}
use cantonbit.Htlc.Order.{SwapOrder, SwapStatus, status_eq}
use cantonbit.Service.Store.{
  get, insert, insert_over, put_if_status, replace_if, put_outcome, clash, written, Reservation,
  reserve, reserve_row,
}
use cantonbit.Service.Call.{Call, added, access, turn, run}
use cantonbit.Service.Safe.{Safe, Respects, respects_secret, WhenFound, Terms, terms_of}

module _ (t : Text → Terms) where
  -- A row of the table: its terms are those registered for its id, and it respects its secret.
  abbrev pub Kept : SwapOrder → Type 0
  Kept row = (respects_secret row ≡ true) × (terms_of row ≡ t row.id)

  -- A request, about some order, that is safe.
  abbrev pub SafeCall : Call → Type 0
  SafeCall c = (id : Text) × Safe t id c

  Respects-Kept : (o : SwapOrder) {id : Text} → Respects t id o → Kept o
  Respects-Kept o (s, (i, e)) = (s, e ∙ ap t (sym i))

  get-WhenFound : (id : Text) (rows : List SwapOrder) → All Kept rows → WhenFound t id (get id rows)
  unfolding get
  get-WhenFound id [] r = tt
  get-WhenFound id (row ∷ rows) ((s, e), rs) = elim (Bool-cases (text_eq row.id id)) [
    | inl f ↦ let same = text_eq→eq row.id id f in rw f (s, (same, e ∙ ap t same))
    | inr f ↦ rw f (get-WhenFound id rows rs)
  ]

  replace_if-Kept :
      (o : SwapOrder) (s : SwapStatus) (now : ℕ) (rows : List SwapOrder)
      → Kept o
      → All Kept rows
      → All Kept (replace_if o s now rows)
  unfolding replace_if written respects_secret
  replace_if-Kept o s now [] r rs = tt
  replace_if-Kept o s now (row ∷ rows) r (q, rs) = elim (Bool-cases (text_eq row.id o.id)) [
    | inr e ↦ rw e (q, replace_if-Kept o s now rows r rs)
    | inl e ↦ elim (Bool-cases (status_eq row.status s)) [
      | inl f ↦ rw (e, f) (r, rs)
      | inr f ↦ rw (e, f) (q, rs)
    ]
  ]

  put_if_status-Kept :
      (o : SwapOrder) (s : SwapStatus) (now : ℕ) (rows : List SwapOrder)
      → Kept o
      → All Kept rows
      → All Kept (put_if_status o s now rows)
  unfolding put_if_status
  put_if_status-Kept o s now rows r rs = elim (Bool-cases (any (clash o) rows)) [
    | inl c ↦ rw c rs
    | inr c ↦ rw c (replace_if-Kept o s now rows r rs)
  ]

  reserve_row-Kept :
      (kind : Reservation) (enough : Bool) (row : SwapOrder) (now : ℕ)
      → Kept row
      → Kept (reserve_row kind enough row now).0
  unfolding reserve_row respects_secret
  reserve_row-Kept Reservation.accept_forward enough row now r = ground arith
  reserve_row-Kept Reservation.before_main_lock enough row now r = ground arith
  reserve_row-Kept Reservation.before_counter_lock enough row now r = ground arith

  reserve-Kept :
      (kind : Reservation) (enough : Bool) (id : Text) (now : ℕ) (rows : List SwapOrder)
      → All Kept rows
      → All Kept (reserve kind enough id now rows).0
  unfolding reserve
  reserve-Kept kind enough id now [] rs = tt
  reserve-Kept kind enough id now (row ∷ rows) (r, rs) = elim (Bool-cases (text_eq row.id id)) [
    | inl e ↦ rw e (reserve_row-Kept kind enough row now r, rs)
    | inr e ↦ rw e (r, reserve-Kept kind enough id now rows rs)
  ]

  insert_over-Kept :
      (r : Option SwapOrder) (o : SwapOrder) (now : ℕ) (rows : List SwapOrder)
      {rows' : List SwapOrder}
      → insert_over r o now rows ≡ some rows'
      → Kept o
      → All Kept rows
      → All Kept rows'
  unfolding written respects_secret
  insert_over-Kept (some row) o now rows e r rs = cc
  insert_over-Kept none o now rows {rows'} e r rs = elim (Bool-cases (any (clash o) rows)) [
    | inl c ↦ cc (rw c at e)
    | inr c ↦
        let same : written (record o { created_at = now }) o now ∷ rows ≡ rows' = cc (rw c at e) in
        subst (All Kept) same (r, rs)
  ]

  pub access-Safe :
      (now : ℕ) (id : Text) (c : Call) (rows : List SwapOrder)
      → Safe t id c
      → All Kept rows
      → All Kept (access now c rows).0 × Safe t id (access now c rows).1
  unfolding access
  access-Safe now id (Call.done o) rows s rs = (rs, s)
  access-Safe now id (Call.throw e) rows s rs = (rs, s)
  access-Safe now id (Call.read i k) rows (Safe.reads s) rs =
      (rs, s (get id rows) (get-WhenFound id rows rs))
  access-Safe now id (Call.add o k) rows (Safe.adds r s) rs = added-Safe (insert o now rows) refl
    where
      added-Safe :
          (new : Option (List SwapOrder))
          → insert o now rows ≡ new
          → All Kept (added rows k new).0 × Safe t id (added rows k new).1
      added-Safe none e = (rs, s false)
      added-Safe (some rows') e = (
        insert_over-Kept (get o.id rows) o now rows (unfold insert in e) (Respects-Kept o r) rs,
        s true,
      )
  access-Safe now id (Call.put o st k) rows (Safe.puts r m s) rs =
      (put_if_status-Kept o st now rows (Respects-Kept o r) rs, s (put_outcome o st rows))
  access-Safe now id (Call.book kind b i k) rows (Safe.books s) rs =
      (reserve-Kept kind b i now rows rs, s (reserve kind b i now rows).1)

  pub turn-Safe :
      (who now : ℕ) (cs : List Call) (rows : List SwapOrder)
      → All SafeCall cs
      → All Kept rows
      → All Kept (turn who now cs rows).0 × All SafeCall (turn who now cs rows).1
  unfolding turn
  turn-Safe who now [] rows s rs = (rs, tt)
  turn-Safe zero now (c ∷ cs) rows ((id, s), ss) rs =
      let (rs', s') = access-Safe now id c rows s rs in (rs', ((id, s'), ss))
  turn-Safe (suc who) now (c ∷ cs) rows (s, ss) rs =
      let (rs', ss') = turn-Safe who now cs rows ss rs in (rs', (s, ss'))

  -- However safe requests interleave, and whenever, every row keeps the terms that are registered for
  -- its id, a completed row has its secret, a row that is being refunded has none, and the requests
  -- stay safe.
  pub run-Safe :
      (schedule : List (ℕ × ℕ)) (cs : List Call) (rows : List SwapOrder)
      → All SafeCall cs
      → All Kept rows
      → All Kept (run schedule cs rows).0 × All SafeCall (run schedule cs rows).1
  unfolding run
  run-Safe [] cs rows s rs = (rs, s)
  run-Safe ((who, now) ∷ schedule) cs rows s rs =
      let (rs', s') = turn-Safe who now cs rows s rs in
      run-Safe schedule (turn who now cs rows).1 (turn who now cs rows).0 s' rs'
