-- ===== src/Service/Safe/Create.antt =====
-- `createOrder` keeps to the secret and to the diagram, and adds the order with its registered terms.
use cantonbit.Service.Lock.{winner_result, winner_of, create_result, create_over, create_order}
use cantonbit.Shared.{
  text_eq, Bool-cases, subst, ℕ, ◌≡◌, refl, inl, inr, Bool, false, Option, none, some, Text, Result,
  ok, err, ◌>>=◌,
}
use cantonbit.Htlc.Order.{SwapOrder}
use cantonbit.Htlc.Create.{
  CreateError, resolve_create_order, check_fields, immutable_fields, new_order,
}
use cantonbit.Service.Safe.{Safe, Respects, respects_secret, WhenFound, Terms, terms_of, Safe-test}

module _ (t : Text → Terms) (incoming : SwapOrder)
    (agreed : terms_of incoming ≡ t incoming.id) where
  -- What `resolveCreateOrder` gives: the stored order, or one that is open.
  resolve_Respects :
      (now : ℕ) (w : Option SwapOrder) {o : SwapOrder} {is_new : Bool}
      → WhenFound t incoming.id w
      → resolve_create_order w incoming now ≡ ok (o, is_new)
      → Respects t incoming.id o
  unfolding resolve_create_order new_order respects_secret
  resolve_Respects now none {o} {is_new} r e =
      let same : new_order incoming now ≡ o = cc in
      subst (Respects t incoming.id) same (refl, (refl, agreed))
  resolve_Respects now (some existing) {o} {is_new} r e =
      elim (Bool-cases (text_eq existing.user_canton_party incoming.user_canton_party)) [
        | inr f ↦ cc (rw f at e)
        | inl f ↦ go (check_fields immutable_fields existing incoming) (rw f at e)
      ]
    where
      go :
          (m : Result CreateError (Unit {0}))
          → ◌>>=◌ {Y = SwapOrder × Bool} m (λ _. ok (existing, false)) ≡ ok (o, is_new)
          → Respects t incoming.id o
      go (err x) h = cc
      go (ok x) h = let same : existing ≡ o = cc in subst (Respects t incoming.id) same r

  winner_of-Safe :
      (later : ℕ) (w : Option SwapOrder)
      → WhenFound t incoming.id w
      → Safe t incoming.id (winner_of incoming later w)
  winner_of-Safe later w r = go (resolve_create_order w incoming later) refl
    where
      go :
          (res : Result CreateError (SwapOrder × Bool))
          → resolve_create_order w incoming later ≡ res
          → Safe t incoming.id (winner_result res)
      go (err _) e = Safe.throws
      go (ok (order, is_new)) e = Safe.returns (resolve_Respects later w r e)

  create_over-Safe :
      (now later : ℕ) (w : Option SwapOrder)
      → WhenFound t incoming.id w
      → Safe t incoming.id (create_over incoming now later w)
  create_over-Safe now later w r = go (resolve_create_order w incoming now) refl
    where
      go :
          (res : Result CreateError (SwapOrder × Bool))
          → resolve_create_order w incoming now ≡ res
          → Safe t incoming.id (create_result incoming later res)
      go (err _) e = Safe.throws
      go (ok (order, is_new)) e =
          let q = resolve_Respects now w r e in
          Safe-test
            (λ _.
              Safe.adds q
                (λ b. Safe-test (λ _. Safe.returns q) (λ _. Safe.reads (winner_of-Safe later))))
            (λ _. Safe.returns q)

  pub create_order-Safe :
      (intake : Bool) (now later : ℕ) → Safe t incoming.id (create_order intake incoming now later)
  unfolding create_order
  create_order-Safe intake now later =
      Safe-test (λ _. Safe.reads (create_over-Safe now later)) (λ _. Safe.throws)
