-- ===== src/C2c/Service/Runs.antt =====
-- Runs of many requests at once: the rows stay sound copies of their orders, and each moves along the
-- diagram of its wallet mode.
use cantonbit.Shared.{
  ℕ, zero, suc, ◌≡◌, refl, true, false, Option, none, some, List, [], ◌∷◌, ◌++◌, Text, sym, subst,
  All,
}
use cantonbit.C2c.Order.{CantonSwapOrder, CantonSwapStatus, SwapAsset}
use cantonbit.C2c.Service.Store.{
  get, insert, put_if_status, reserve_float, used_user_leg_offer_cids,
}
use cantonbit.C2c.Service.Call.{Call, access, added, run, turn}
use cantonbit.C2c.Service.Diagram.{PathAlong, may_advance}
use cantonbit.C2c.Service.Safe.{Copy, OnFrom, Safe, Terms, after, mode_of-Copy}
use cantonbit.C2c.Service.Rows.{
  Copy-Kept, Held, Held-Later, Kept, Later, Later-refl, Later-trans, Stepped, Stepped-Later, Moved,
  SafeCall, insert_over-Moved, put_over-Moved, reserve_over-Moved, seen, unmoved,
}

module _ (units : SwapAsset → Text → ℕ) (t : Text → Terms) where
  -- The request after its access is safe by what it knows then.
  abbrev After : Text → List CantonSwapOrder → Call → Type 0
  After id rows c = (known : Option CantonSwapStatus) × Safe t id known c × Held t rows id known

  stays :
      (rows rows' : List CantonSwapOrder) (id : Text) (known : Option CantonSwapStatus) (c : Call)
      → Held t rows id known
      → Moved t rows rows'
      → Safe t id known c
      → Moved t rows rows' × After id rows' c
  stays rows rows' id known c h m s =
      (m, (known, s, Held-Later t rows rows' id known (Stepped-Later t rows rows' m.1) h))

  -- The row is on from what is known, so that the write is one that the diagram allows.
  row-OnFrom :
      (id : Text) (known : Option CantonSwapStatus) (rows : List CantonSwapOrder)
      (row : CantonSwapOrder)
      → get id rows ≡ some row
      → Held t rows id known
      → OnFrom (t id).wallet_mode known row.status
  row-OnFrom id none rows row e h = tt
  row-OnFrom id (some s) rows row e (row', e', p) =
      let same : row' ≡ row = cc in
      subst (λ (x : CantonSwapOrder). PathAlong (t id).wallet_mode s x.status) same p

  put_allowed :
      (id : Text) (known : Option CantonSwapStatus) (o : CantonSwapOrder) (st : CantonSwapStatus)
      (rows : List CantonSwapOrder) (row : CantonSwapOrder)
      → Copy t id o
      → (OnFrom o.wallet_mode known st → may_advance o.wallet_mode st o.status ≡ true)
      → Held t rows id known
      → get o.id rows ≡ some row
      → row.status ≡ st
      → may_advance (t o.id).wallet_mode st o.status ≡ true
  put_allowed id known o st rows row c m h e same =
      let (_, there, _) = c in
      let mode = mode_of-Copy t id o c in
      let found : get id rows ≡ some row = subst (λ i. get i rows ≡ some row) there e in
      let on : OnFrom (t id).wallet_mode known st =
        subst (OnFrom (t id).wallet_mode known) same (row-OnFrom id known rows row found h) in
      subst (λ i. may_advance (t i).wallet_mode st o.status ≡ true) (sym there)
        (subst (λ w. may_advance w st o.status ≡ true) mode
          (m (subst (λ w. OnFrom w known st) (sym mode) on)))

  access-Safe :
      (now : ℕ) (id : Text) (known : Option CantonSwapStatus) (c : Call)
      (rows : List CantonSwapOrder)
      → Safe t id known c
      → Held t rows id known
      → All (Kept t) rows
      → Moved t rows (access units now c rows).0
        × After id (access units now c rows).0 (access units now c rows).1
  unfolding access
  access-Safe now id known (Call.done o) rows s h ks =
      stays rows rows id known _ h (unmoved t rows ks) s
  access-Safe now id known Call.skip rows s h ks =
      stays rows rows id known _ h (unmoved t rows ks) s
  access-Safe now id known (Call.throw e) rows s h ks =
      stays rows rows id known _ h (unmoved t rows ks) s
  access-Safe now id known (Call.read i k) rows (Safe.reads s) h ks =
      let (w, h') = seen t id known rows (get id rows) refl ks h in
      (unmoved t rows ks, (after known (get id rows), s (get id rows) w, h'))
  access-Safe now id known (Call.offers k) rows (Safe.lists s) h ks =
      stays rows rows id known _ h (unmoved t rows ks) (s (used_user_leg_offer_cids rows))
  access-Safe now id known (Call.add o k) rows (Safe.adds c s) h ks =
      added-Safe (insert o now rows) refl
    where
      added-Safe :
          (new : Option (List CantonSwapOrder))
          → insert o now rows ≡ new
          → Moved t rows (added rows k new).0 × After id (added rows k new).0 (added rows k new).1
      added-Safe none e = stays rows rows id known _ h (unmoved t rows ks) (s false)
      added-Safe (some rows') e =
          stays rows rows' id known _ h
            (insert_over-Moved t (get o.id rows) o now rows refl (unfold insert in e)
              (Copy-Kept t o c) ks)
            (s true)
  access-Safe now id known (Call.put o st g k) rows (Safe.puts c m s) h ks =
      stays rows _ id known _ h
        (unfold put_if_status in
          put_over-Moved t (get o.id rows) o st g rows refl
            (λ row e same. put_allowed id known o st rows row c m h e same) (Copy-Kept t o c) ks)
        (s (put_if_status o st g rows).1)
  access-Safe now id known (Call.book b k) rows (Safe.books same m h f s) held ks =
      stays rows _ id known _ held
        (unfold reserve_float in
          reserve_over-Moved t units (get b.order_id rows) b rows refl
            (subst (λ i. may_advance (t i).wallet_mode b.expected_status b.next_status ≡ true)
              (sym same) m)
            h f ks)
        (s (reserve_float units b rows).1)

  SafeCall-Later :
      (rows rows' : List CantonSwapOrder) (cs : List Call)
      → Later t rows rows'
      → All (SafeCall t rows) cs
      → All (SafeCall t rows') cs
  SafeCall-Later rows rows' [] l ss = tt
  SafeCall-Later rows rows' (c ∷ cs) l ((id, known, s, h), ss) =
      ((id, known, s, Held-Later t rows rows' id known l h), SafeCall-Later rows rows' cs l ss)

  turn-Safe :
      (who now : ℕ) (cs : List Call) (rows : List CantonSwapOrder)
      → All (SafeCall t rows) cs
      → All (Kept t) rows
      → Moved t rows (turn units who now cs rows).0
        × All (SafeCall t (turn units who now cs rows).0) (turn units who now cs rows).1
  unfolding turn
  turn-Safe who now [] rows ss ks = (unmoved t rows ks, tt)
  turn-Safe zero now (c ∷ cs) rows ((id, known, s, h), ss) ks =
      let (m, (known', s', h')) = access-Safe now id known c rows s h ks in
      (m, ((id, known', s', h'), SafeCall-Later rows _ cs (Stepped-Later t rows _ m.1) ss))
  turn-Safe (suc who) now (c ∷ cs) rows ((id, known, s, h), ss) ks =
      let (m, ss') = turn-Safe who now cs rows ss ks in
      (m, ((id, known, s, Held-Later t rows _ id known (Stepped-Later t rows _ m.1) h), ss'))

  -- However safe requests interleave, and whenever, the rows stay sound copies of their orders, and
  -- each moves along the diagram of its wallet mode.
  pub run-Safe :
      (schedule : List (ℕ × ℕ)) (cs : List Call) (rows : List CantonSwapOrder)
      → All (SafeCall t rows) cs
      → All (Kept t) rows
      → All (Kept t) (run units schedule cs rows).0 × Later t rows (run units schedule cs rows).0
  unfolding run
  run-Safe [] cs rows ss ks = (ks, Later-refl t rows)
  run-Safe ((who, now) ∷ schedule) cs rows ss ks =
      let (m, ss') = turn-Safe who now cs rows ss ks in
      let rows' = (turn units who now cs rows).0 in
      let (ks', l) = run-Safe schedule (turn units who now cs rows).1 rows' ss' m.0 in
      (ks', Later-trans t rows rows' _ (Stepped-Later t rows rows' m.1) l)

  -- One more turn after a run takes each row over at most one edge of its diagram.
  pub turn_after_run :
      (schedule : List (ℕ × ℕ)) (who now : ℕ) (cs : List Call) (rows : List CantonSwapOrder)
      → All (SafeCall t rows) cs
      → All (Kept t) rows
      → Stepped t (run units schedule cs rows).0 (run units (schedule ++ (who, now) ∷ []) cs rows).0
  unfolding run
  turn_after_run [] who now cs rows ss ks = (turn-Safe who now cs rows ss ks).0.1
  turn_after_run ((first, at) ∷ schedule) who now cs rows ss ks =
      let (m, ss') = turn-Safe first at cs rows ss ks in
      turn_after_run schedule who now (turn units first at cs rows).1
        (turn units first at cs rows).0 ss' m.0
