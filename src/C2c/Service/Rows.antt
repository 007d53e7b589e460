-- ===== src/C2c/Service/Rows.antt =====
-- What one access does to the rows: they stay sound copies of their orders, and move along the
-- diagram of their wallet modes.
use cantonbit.Shared.{
  ℕ, ◌+◌, ◌≡◌, refl, ◌≢◌, inl, inr, true, false, ◌&&◌, Option, none, some, List, [], ◌∷◌, arith,
  Text, ltb, text_eq_of_eq, any, text_eq→eq, sym, ap, subst, text_eq, ◌∙◌, All, Bool-cases,
}
use cantonbit.C2c.Order.{CantonSwapOrder, CantonSwapStatus, SwapAsset, WalletMode, status_eq}
use cantonbit.C2c.Service.Store.{
  Booking, Guard, booked, clash, get, insert_over, need_units, others_units, passes, put_over,
  replace, reserve_over, reserved_units, written,
}
use cantonbit.C2c.Service.Call.{Call}
use cantonbit.C2c.Service.Diagram.{PathAlong, may_advance}
use cantonbit.C2c.Service.Safe.{
  stay_advance, Copy, OnFrom, Safe, Seen, Terms, after, may_hold, sound, terms_of,
}

status_eq→eq : (s s' : CantonSwapStatus) → status_eq s s' ≡ true → s ≡ s'
status_eq→eq s s' e = ground arith

get-id :
    (id : Text) (rows : List CantonSwapOrder) {row : CantonSwapOrder}
    → get id rows ≡ some row
    → row.id ≡ id
unfolding get
get-id id [] e = cc
get-id id (x ∷ rows) {row} e = elim (Bool-cases (text_eq x.id id)) [
  | inl f ↦
      let same : x ≡ row = cc (rw f at e) in
      subst (λ (y : CantonSwapOrder). y.id ≡ id) same (text_eq→eq x.id id f)
  | inr f ↦ get-id id rows (rw f at e)
]

PathAlong-trans :
    {m : WalletMode} {r s t : CantonSwapStatus}
    → PathAlong m r s
    → PathAlong m s t
    → PathAlong m r t
PathAlong-trans p (PathAlong.stay s) = p
PathAlong-trans p (PathAlong.step q e) = PathAlong.step (PathAlong-trans p q) e

not_status :
    {s : CantonSwapStatus}
    → s ≢ CantonSwapStatus.filled
    → status_eq s CantonSwapStatus.filled ≡ false
not_status {s} f = elim (Bool-cases (status_eq s CantonSwapStatus.filled)) [
  | inl e ↦ absurd (f (status_eq→eq s CantonSwapStatus.filled e))
  | inr e ↦ e
]

booked-sound :
    (b : Booking) (row : CantonSwapOrder)
    → may_hold b.next_status ≡ true
    → status_eq b.next_status CantonSwapStatus.filled ≡ false
    → sound (booked b row) ≡ true
unfolding sound
booked-sound b row h f = ground arith

module _ (t : Text → Terms) where
  -- A row of the table is a sound copy of its order.
  abbrev pub Kept : CantonSwapOrder → Type 0
  Kept row = (sound row ≡ true) × (terms_of row ≡ t row.id)

  -- Every order of the first table is in the second, further along its diagram.
  abbrev pub Later : List CantonSwapOrder → List CantonSwapOrder → Type 0
  Later rows rows' =
      (id : Text) (o : CantonSwapOrder)
      → get id rows ≡ some o
      → (o' : CantonSwapOrder) × (get id rows' ≡ some o')
        × PathAlong (t id).wallet_mode o.status o'.status

  -- Every order of the first table is in the second, at most one step of its diagram further.
  abbrev pub Stepped : List CantonSwapOrder → List CantonSwapOrder → Type 0
  Stepped rows rows' =
      (id : Text) (o : CantonSwapOrder)
      → get id rows ≡ some o
      → (o' : CantonSwapOrder) × (get id rows' ≡ some o')
        × (may_advance (t id).wallet_mode o.status o'.status ≡ true)

  -- The order that a request knows of is in the table, on from what is known.
  abbrev pub Held : List CantonSwapOrder → Text → Option CantonSwapStatus → Type 0
  Held rows id none = Unit
  Held rows id (some s) =
      (row : CantonSwapOrder) × (get id rows ≡ some row) × PathAlong (t id).wallet_mode s row.status

  -- A request, about some order, that is safe by what it knows.
  abbrev pub SafeCall : List CantonSwapOrder → Call → Type 0
  SafeCall rows c =
      (id : Text) × (known : Option CantonSwapStatus) × Safe t id known c × Held rows id known

  pub Copy-Kept : (o : CantonSwapOrder) {id : Text} → Copy t id o → Kept o
  Copy-Kept o (s, same, terms) = (s, terms ∙ ap t (sym same))

  pub Later-refl : (rows : List CantonSwapOrder) → Later rows rows
  Later-refl rows id o e = (o, e, PathAlong.stay o.status)

  Stepped-refl : (rows : List CantonSwapOrder) → Stepped rows rows
  Stepped-refl rows id o e = (o, e, stay_advance (t id).wallet_mode o.status)

  pub Stepped-Later : (rows rows' : List CantonSwapOrder) → Stepped rows rows' → Later rows rows'
  Stepped-Later rows rows' f id o e =
      let (o', e', m) = f id o e in (o', e', PathAlong.step (PathAlong.stay o.status) m)

  pub Later-trans : (xs ys zs : List CantonSwapOrder) → Later xs ys → Later ys zs → Later xs zs
  Later-trans xs ys zs f g id o e =
      let (o', e', p) = f id o e in
      let (o'', e'', q) = g id o' e' in (o'', e'', PathAlong-trans p q)

  pub Held-Later :
      (rows rows' : List CantonSwapOrder) (id : Text) (known : Option CantonSwapStatus)
      → Later rows rows'
      → Held rows id known
      → Held rows' id known
  Held-Later rows rows' id none l h = tt
  Held-Later rows rows' id (some s) l (row, e, p) =
      let (row', e', q) = l id row e in (row', e', PathAlong-trans p q)

  get-Kept :
      (id : Text) (rows : List CantonSwapOrder) {row : CantonSwapOrder}
      → get id rows ≡ some row
      → All Kept rows
      → Kept row
  unfolding get
  get-Kept id [] e ks = cc
  get-Kept id (x ∷ rows) {row} e (k, ks) = elim (Bool-cases (text_eq x.id id)) [
    | inl f ↦ let same : x ≡ row = cc (rw f at e) in subst Kept same k
    | inr f ↦ get-Kept id rows (rw f at e) ks
  ]

  -- What a request sees of its order, and what it knows from then on.
  pub seen :
      (id : Text) (known : Option CantonSwapStatus) (rows : List CantonSwapOrder)
      (r : Option CantonSwapOrder)
      → get id rows ≡ r
      → All Kept rows
      → Held rows id known
      → Seen t id r known × Held rows id (after known r)
  seen id known rows (some o) e ks h =
      let (s, terms) = get-Kept id rows e ks in
      let same = get-id id rows e in
      (((s, same, terms ∙ ap t same), on_from known h), (o, e, PathAlong.stay o.status))
    where
      on_from :
          (known : Option CantonSwapStatus)
          → Held rows id known
          → OnFrom (t id).wallet_mode known o.status
      on_from none h = tt
      on_from (some s) (row, f, p) =
          let same : row ≡ o = cc in
          subst (λ (x : CantonSwapOrder). PathAlong (t id).wallet_mode s x.status) same p
  seen id none rows none e ks h = (tt, tt)
  seen id (some s) rows none e ks (row, f, p) = absurd cc

  replace-Kept :
      (o : CantonSwapOrder) (rows : List CantonSwapOrder)
      → Kept o
      → All Kept rows
      → All Kept (replace o rows)
  unfolding replace
  replace-Kept o [] k ks = tt
  replace-Kept o (row ∷ rows) k (k', ks) = elim (Bool-cases (text_eq row.id o.id)) [
    | inl e ↦ rw e (k, ks)
    | inr e ↦ rw e (k', replace-Kept o rows k ks)
  ]

  -- A row that gives way to one that the diagram allows after it.
  replace-Stepped :
      (o row : CantonSwapOrder) (rows : List CantonSwapOrder)
      → get o.id rows ≡ some row
      → may_advance (t o.id).wallet_mode row.status o.status ≡ true
      → Stepped rows (replace o rows)
  unfolding replace get
  replace-Stepped o row [] e m id x f = cc
  replace-Stepped o row (y ∷ rows) e m id x f = elim (Bool-cases (text_eq y.id o.id)) [
    | inl g ↦ let first : y ≡ row = cc (rw g at e) in rw g (head_given g first)
    | inr g ↦ rw g (elim (Bool-cases (text_eq y.id id)) [
      | inl h ↦ (x, rw h (rw h at f), stay_advance (t id).wallet_mode x.status)
      | inr h ↦ rw h (replace-Stepped o row rows (rw g at e) m id x (rw h at f))
    ])
  ]
    where
      head_given :
          text_eq y.id o.id ≡ true
          → y ≡ row
          → (o' : CantonSwapOrder) × (get id (o ∷ rows) ≡ some o')
            × (may_advance (t id).wallet_mode x.status o'.status ≡ true)
      head_given g first = elim (Bool-cases (text_eq y.id id)) [
        | inl h ↦
            let there : y ≡ x = cc (rw h at f) in
            let same : o.id ≡ id = sym (text_eq→eq y.id o.id g) ∙ text_eq→eq y.id id h in
            let found : row ≡ x = sym first ∙ there in
            (
              o,
              rw (text_eq_of_eq o.id id same) refl,
              subst
                  (λ (z : CantonSwapOrder). may_advance (t id).wallet_mode z.status o.status ≡ true)
                  found
                  (subst (λ i. may_advance (t i).wallet_mode row.status o.status ≡ true) same m),
            )
        | inr h ↦
            let other : text_eq o.id id ≡ false =
              subst (λ i. text_eq i id ≡ false) (text_eq→eq y.id o.id g) h in
            (x, rw other (rw h at f), stay_advance (t id).wallet_mode x.status)
      ]

  written-Kept : (row o : CantonSwapOrder) → Kept o → Kept (written row o)
  unfolding written sound
  written-Kept row o (s, terms) = (s, terms)

  -- An access leaves the rows sound, and moves each over at most one edge of its diagram.
  abbrev pub Moved : List CantonSwapOrder → List CantonSwapOrder → Type 0
  Moved rows rows' = All Kept rows' × Stepped rows rows'

  pub unmoved : (rows : List CantonSwapOrder) → All Kept rows → Moved rows rows
  unmoved rows ks = (ks, Stepped-refl rows)

  replaced :
      (o row : CantonSwapOrder) (rows : List CantonSwapOrder)
      → get o.id rows ≡ some row
      → may_advance (t o.id).wallet_mode row.status o.status ≡ true
      → Kept o
      → All Kept rows
      → Moved rows (replace o rows)
  replaced o row rows e m k ks = (replace-Kept o rows k ks, replace-Stepped o row rows e m)

  pub put_over-Moved :
      (found : Option CantonSwapOrder) (o : CantonSwapOrder) (s : CantonSwapStatus) (g : Guard)
      (rows : List CantonSwapOrder)
      → get o.id rows ≡ found
      → ((row : CantonSwapOrder)
          → found ≡ some row
          → row.status ≡ s
          → may_advance (t o.id).wallet_mode s o.status ≡ true)
      → Kept o
      → All Kept rows
      → Moved rows (put_over found o s g rows).0
  unfolding written
  put_over-Moved none o s g rows e m k ks = unmoved rows ks
  put_over-Moved (some row) o s g rows e m k ks =
      elim (Bool-cases (status_eq row.status s && passes g row.counter_leg_offer_cid)) [
        | inr f ↦ rw f (unmoved rows ks)
        | inl f ↦ rw f (elim (Bool-cases (any (clash (written row o)) rows)) [
          | inl c ↦ rw c (unmoved rows ks)
          | inr c ↦
              let same : row.status ≡ s = status_eq→eq row.status s (ground arith) in
              rw c (
                replaced (written row o) row rows e
                  (subst (λ r. may_advance (t o.id).wallet_mode r o.status ≡ true) (sym same)
                    (m row refl same))
                  (written-Kept row o k) ks)
        ])
      ]

  booked-Kept :
      (b : Booking) (row : CantonSwapOrder)
      → may_hold b.next_status ≡ true
      → b.next_status ≢ CantonSwapStatus.filled
      → Kept row
      → Kept (booked b row)
  booked-Kept b row h f (s, terms) = (booked-sound b row h (not_status f), terms)

  pub reserve_over-Moved :
      (units : SwapAsset → Text → ℕ) (found : Option CantonSwapOrder) (b : Booking)
      (rows : List CantonSwapOrder)
      → get b.order_id rows ≡ found
      → may_advance (t b.order_id).wallet_mode b.expected_status b.next_status ≡ true
      → may_hold b.next_status ≡ true
      → b.next_status ≢ CantonSwapStatus.filled
      → All Kept rows
      → Moved rows (reserve_over units found b rows).0
  reserve_over-Moved units none b rows e m h f ks = unmoved rows ks
  reserve_over-Moved units (some row) b rows e m h f ks =
      elim (Bool-cases (status_eq row.status b.expected_status)) [
        | inr g ↦ rw g (unmoved rows ks)
        | inl g ↦
            rw g
              (elim (Bool-cases (
                ltb b.float_units (
                  others_units units b row
                  + reserved_units units row rows
                  + need_units units row))) [
                    | inl c ↦ rw c (unmoved rows ks)
                    | inr c ↦ rw c (elim (Bool-cases (any (clash (booked b row)) rows)) [
                      | inl d ↦ rw d (unmoved rows ks)
                      | inr d ↦
                          let same = get-id b.order_id rows e in
                          rw d (
                            replaced (booked b row) row rows
                              (subst (λ i. get i rows ≡ some row) (sym same) e)
                              (subst
                                (λ i. may_advance (t i).wallet_mode row.status b.next_status ≡ true)
                                (sym same)
                                (subst
                                  (λ r.
                                    may_advance (t b.order_id).wallet_mode r b.next_status ≡ true)
                                  (sym (status_eq→eq row.status b.expected_status g)) m))
                              (booked-Kept b row h f (get-Kept b.order_id rows e ks)) ks)
                    ])
                  ])
      ]

  -- A new row, whose id is not in the table.
  new_head :
      (new : CantonSwapOrder) (i : Text) (rows : List CantonSwapOrder)
      → new.id ≡ i
      → get i rows ≡ none
      → Stepped rows (new ∷ rows)
  unfolding get
  new_head new i rows same e id p h = elim (Bool-cases (text_eq new.id id)) [
    | inl g ↦
        let clash : get id rows ≡ none =
          subst (λ j. get j rows ≡ none) (sym same ∙ text_eq→eq new.id id g) e in
        cc
    | inr g ↦ (p, rw g h, stay_advance (t id).wallet_mode p.status)
  ]

  pub insert_over-Moved :
      (found : Option CantonSwapOrder) (o : CantonSwapOrder) (now : ℕ) (rows : List CantonSwapOrder)
      {rows' : List CantonSwapOrder}
      → get o.id rows ≡ found
      → insert_over found o now rows ≡ some rows'
      → Kept o
      → All Kept rows
      → Moved rows rows'
  insert_over-Moved (some row) o now rows e f k ks = cc
  insert_over-Moved none o now rows {rows'} e f k ks =
      let new = written (record o { created_at = now }) o in
      elim (Bool-cases (any (clash new) rows)) [
        | inl c ↦ cc (rw c at f)
        | inr c ↦
            let same : new ∷ rows ≡ rows' = cc (rw c at f) in
            subst (Moved rows) same (
              (written-Kept (record o { created_at = now }) o k, ks),
              new_head new o.id rows (unfold written in refl) e,
            )
      ]
