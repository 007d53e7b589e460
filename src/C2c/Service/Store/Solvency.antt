-- ===== src/C2c/Service/Store/Solvency.antt =====
-- Reservations of the vault's float, against what they add up to.
use cantonbit.Shared.{
  ℕ, ◌+◌, ◌≤◌, ◌≡◌, refl, inl, inr, Bool, true, false, not, ◌&&◌, Option, none, some, List, [], ◌∷◌,
  arith, Text, ltb, if◌then◌else◌, text_eq→eq, subst, ap, Bool-cases,
}
use cantonbit.C2c.Order.{CantonSwapOrder, SwapAsset, status_eq}
use cantonbit.C2c.Service.Store.{
  text_eq, any, Answer, Booking, booked, clash, get, holds_float, need_units, others_units, replace,
  reserve_float, reserve_over, reserved_units, same_float,
}

-- The primary key of the table.
abbrev pub UniqueIds : List CantonSwapOrder → Type 0
UniqueIds [] = Unit
UniqueIds (row ∷ rows) = (get row.id rows ≡ none) × UniqueIds rows

and_true : (a b : Bool) → (a && true && b) ≡ (a && b)
and_true false b = refl
and_true true b = refl

and_false : (a b : Bool) → (a && false && b) ≡ false
and_false false b = refl
and_false true b = refl

own : (b : Bool) (n k rest : ℕ) → (if b then n else 0) + rest ≤ (if false then k else 0) + rest + n
own false n k rest = omega arith
own true n k rest = omega arith

covered :
    (others total rest need units : ℕ)
    → ltb units (others + rest + need) ≡ false
    → total ≤ rest + need
    → others + total ≤ units
covered others total rest need units h k = ground arith

beside :
    (b : Bool) (n m rest k : ℕ)
    → m ≤ rest + k
    → (if b then n else 0) + m ≤ (if b then n else 0) + rest + k
beside false n m rest k h = omega arith
beside true n m rest k h = omega arith

module _ (units : SwapAsset → Text → ℕ) where
  -- What all orders of the table hold of the float that `o` needs, `o` itself included.
  abbrev pub total_held : CantonSwapOrder → List CantonSwapOrder → ℕ
  total_held o [] = 0
  total_held o (row ∷ rows) =
      (if same_float o row && holds_float row then need_units units row else 0) + total_held o rows

  total_of_others :
      (o : CantonSwapOrder) (rows : List CantonSwapOrder)
      → get o.id rows ≡ none
      → total_held o rows ≡ reserved_units units o rows
  unfolding get reserved_units
  total_of_others o [] e = refl
  total_of_others o (row ∷ rows) e = elim (Bool-cases (text_eq row.id o.id)) [
    | inl f ↦ cc (rw f at e)
    | inr f ↦
        let ih = total_of_others o rows (rw f at e) in
        rw (f, and_true (same_float o row) (holds_float row))
          (ap (λ n. (if same_float o row && holds_float row then need_units units row else 0) + n)
            ih)
  ]

  total-replace :
      (o : CantonSwapOrder) (rows : List CantonSwapOrder)
      → UniqueIds rows
      → total_held o (replace o rows) ≤ reserved_units units o rows + need_units units o
  unfolding replace reserved_units get
  total-replace o [] u = omega arith
  total-replace o (row ∷ rows) (e, u) = elim (Bool-cases (text_eq row.id o.id)) [
    | inl f ↦
        let alone =
          total_of_others o rows (subst (λ i. get i rows ≡ none) (text_eq→eq row.id o.id f) e) in
        rw (f, and_false (same_float o row) (holds_float row), alone)
          (own (same_float o o && holds_float o) (need_units units o) (need_units units row)
            (reserved_units units o rows))
    | inr f ↦
        let ih = total-replace o rows u in
        rw (f, and_true (same_float o row) (holds_float row))
          (beside (same_float o row && holds_float row) (need_units units row)
            (total_held o (replace o rows)) (reserved_units units o rows) (need_units units o) ih)
  ]

  -- The float that an order needs does not change by a reservation.
  total_held-booked :
      (b : Booking) (o : CantonSwapOrder) (rows : List CantonSwapOrder)
      → total_held (booked b o) rows ≡ total_held o rows
  total_held-booked b o [] = refl
  total_held-booked b o (row ∷ rows) =
      ap (λ n. (if same_float o row && holds_float row then need_units units row else 0) + n)
        (total_held-booked b o rows)

  reserved_units-booked :
      (b : Booking) (o : CantonSwapOrder) (rows : List CantonSwapOrder)
      → reserved_units units (booked b o) rows ≡ reserved_units units o rows
  unfolding reserved_units
  reserved_units-booked b o [] = refl
  reserved_units-booked b o (row ∷ rows) =
      ap
        (λ n.
          (if same_float o row && not (text_eq row.id o.id) && holds_float row
            then need_units units row
            else 0)
          + n)
        (reserved_units-booked b o rows)

  need_units-booked :
      (b : Booking) (o : CantonSwapOrder) → need_units units (booked b o) ≡ need_units units o
  unfolding need_units
  need_units-booked b o = refl

  reserve_over_covers :
      (found : Option CantonSwapOrder) (b : Booking) (rows : List CantonSwapOrder)
      (row : CantonSwapOrder)
      → found ≡ some row
      → UniqueIds rows
      → (reserve_over units found b rows).1 ≡ Answer.reserved
      → others_units units b row + total_held row (reserve_over units found b rows).0
        ≤ b.float_units
  reserve_over_covers none b rows row e u h = cc
  reserve_over_covers (some x) b rows row e u h =
      elim (Bool-cases (status_eq x.status b.expected_status)) [
        | inr g ↦ cc (rw g at h)
        | inl g ↦
            elim (Bool-cases (
              ltb b.float_units
                (others_units units b x + reserved_units units x rows + need_units units x))) [
                  | inl c ↦ cc (rw (g, c) at h)
                  | inr c ↦ elim (Bool-cases (any (clash (booked b x)) rows)) [
                    | inl d ↦ cc (rw (g, c, d) at h)
                    | inr d ↦
                        let same : x ≡ row = cc in
                        let t = total-replace (booked b x) rows u in
                        subst
                          (λ (r : CantonSwapOrder).
                            others_units units b r
                              + total_held r (reserve_over units (some x) b rows).0
                            ≤ b.float_units)
                          same
                          (rw (g, c, d)
                            (covered (others_units units b x)
                              (total_held x (replace (booked b x) rows))
                              (reserved_units units x rows) (need_units units x) b.float_units c
                              (rw
                                (
                                  total_held-booked b x (replace (booked b x) rows),
                                  reserved_units-booked b x rows,
                                  need_units-booked b x,
                                )
                                at t)))
                  ]
                ]
      ]

  -- A reservation that succeeds is covered by the float that the vault was seen to hold: with it, what
  -- the orders of the table hold of that float, and what the orders of the HTLC table do if it is
  -- cBTC, add up to no more. This of a table whose ids are apart.
  pub reserve_covers :
      (b : Booking) (rows : List CantonSwapOrder) (row : CantonSwapOrder)
      → get b.order_id rows ≡ some row
      → UniqueIds rows
      → (reserve_float units b rows).1 ≡ Answer.reserved
      → others_units units b row + total_held row (reserve_float units b rows).0 ≤ b.float_units
  unfolding reserve_float
  reserve_covers b rows row e u h = reserve_over_covers (get b.order_id rows) b rows row e u h
