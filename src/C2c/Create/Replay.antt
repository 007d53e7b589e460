-- ===== src/C2c/Create/Replay.antt =====
-- A second create request with the id of a same-ledger order never changes that order.
use cantonbit.Shared.{
  opt_text_eq→eq, ==_iff, ◌∙◌, ap, text_eq_of_eq, Bool-cases, text_eq→eq, split_and, ℕ, ◌≡◌, refl,
  ◌↔◌, ◌⊎◌, inl, inr, Bool, true, false, Option, none, some, arith, Text, ok, err, ◌==◌, text_eq,
  opt_text_eq_refl, or_else, subst,
}
use cantonbit.C2c.Order.{SwapAsset, CantonSwapOrder}
use cantonbit.C2c.Create.{
  asset_eq, opt_text_eq, mode_eq, WalletMode, CreateError, opt_num_eq,
  resolve_create_canton_swap_order, new_order, immutable_terms_match,
}

opt_num_eq_iff : (m n : Option ℕ) → (opt_num_eq m n ≡ true) ↔ (m ≡ n)
opt_num_eq_iff none none = ((λ h. refl), λ h. refl)
opt_num_eq_iff none (some n) = ((λ h. cc), λ h. cc)
opt_num_eq_iff (some m) none = ((λ h. cc), λ h. cc)
opt_num_eq_iff (some m) (some n) =
    ((λ h. ap some ((==_iff m n).0 h)), λ h. (==_iff m n).1 (ap (λ o. or_else o 0) h))

opt_text_eq_iff : (s t : Option Text) → (opt_text_eq s t ≡ true) ↔ (s ≡ t)
opt_text_eq_iff s t =
    (opt_text_eq→eq s t, λ h. subst (λ u. opt_text_eq s u ≡ true) h (opt_text_eq_refl s))

text_eq_iff : (s t : Text) → (text_eq s t ≡ true) ↔ (s ≡ t)
text_eq_iff s t = (text_eq→eq s t, text_eq_of_eq s t)

mode_eq_iff : (m n : WalletMode) → (mode_eq m n ≡ true) ↔ (m ≡ n)
mode_eq_iff m n = ground arith

asset_eq_iff : (a b : SwapAsset) → (asset_eq a b ≡ true) ↔ (a ≡ b)
asset_eq_iff a b = ground arith

-- The terms that a request with the id of an order has to repeat.
pub record SameTerms (e i : CantonSwapOrder) : Type 0 where
  pub from_asset : e.from_asset ≡ i.from_asset
  pub to_asset : e.to_asset ≡ i.to_asset
  pub in_amount : e.in_amount ≡ i.in_amount
  pub out_amount : e.out_amount ≡ i.out_amount
  pub min_out : e.min_out ≡ i.min_out
  pub quote_expires_at : e.quote_expires_at ≡ i.quote_expires_at
  pub user_party : e.user_party ≡ i.user_party
  pub solver_party : e.solver_party ≡ i.solver_party
  pub paid_party :
      or_else e.settlement_party e.solver_party ≡ or_else i.settlement_party i.solver_party
  pub wallet_mode : e.wallet_mode ≡ i.wallet_mode
  pub network_fee_cc : e.network_fee_cc ≡ i.network_fee_cc
  pub network_fee_expires_at : e.network_fee_expires_at ≡ i.network_fee_expires_at

terms_of_match : (e i : CantonSwapOrder) → immutable_terms_match e i ≡ true → SameTerms e i
unfolding immutable_terms_match
terms_of_match e i h =
    let (h1, fee_end) =
      split_and _ (opt_num_eq e.network_fee_expires_at i.network_fee_expires_at) h in
    let (h2, fee) = split_and _ (opt_text_eq e.network_fee_cc i.network_fee_cc) h1 in
    let (h3, mode) = split_and _ (mode_eq e.wallet_mode i.wallet_mode) h2 in
    let (h4, paid) =
      split_and _
        (text_eq (or_else e.settlement_party e.solver_party)
          (or_else i.settlement_party i.solver_party))
        h3 in
    let (h5, solver) = split_and _ (text_eq e.solver_party i.solver_party) h4 in
    let (h6, user) = split_and _ (text_eq e.user_party i.user_party) h5 in
    let (h7, quote) = split_and _ (e.quote_expires_at == i.quote_expires_at) h6 in
    let (h8, least) = split_and _ (text_eq e.min_out i.min_out) h7 in
    let (h9, out) = split_and _ (text_eq e.out_amount i.out_amount) h8 in
    let (h10, pay) = split_and _ (text_eq e.in_amount i.in_amount) h9 in
    let (from, to) = split_and _ (asset_eq e.to_asset i.to_asset) h10 in
    record {
      from_asset = (asset_eq_iff e.from_asset i.from_asset).0 from;
      to_asset = (asset_eq_iff e.to_asset i.to_asset).0 to;
      in_amount = text_eq→eq e.in_amount i.in_amount pay;
      out_amount = text_eq→eq e.out_amount i.out_amount out;
      min_out = text_eq→eq e.min_out i.min_out least;
      quote_expires_at = (==_iff e.quote_expires_at i.quote_expires_at).0 quote;
      user_party = text_eq→eq e.user_party i.user_party user;
      solver_party = text_eq→eq e.solver_party i.solver_party solver;
      paid_party = text_eq→eq _ _ paid;
      wallet_mode = (mode_eq_iff e.wallet_mode i.wallet_mode).0 mode;
      network_fee_cc = opt_text_eq→eq e.network_fee_cc i.network_fee_cc fee;
      network_fee_expires_at =
          (opt_num_eq_iff e.network_fee_expires_at i.network_fee_expires_at).0 fee_end;
    }

match_of_terms : (e i : CantonSwapOrder) → SameTerms e i → immutable_terms_match e i ≡ true
unfolding immutable_terms_match
match_of_terms e i t = ground (
  arith,
  (asset_eq_iff e.from_asset i.from_asset).1 t.from_asset,
  (asset_eq_iff e.to_asset i.to_asset).1 t.to_asset,
  text_eq_of_eq e.in_amount i.in_amount t.in_amount,
  text_eq_of_eq e.out_amount i.out_amount t.out_amount,
  text_eq_of_eq e.min_out i.min_out t.min_out,
  (==_iff e.quote_expires_at i.quote_expires_at).1 t.quote_expires_at,
  text_eq_of_eq e.user_party i.user_party t.user_party,
  text_eq_of_eq e.solver_party i.solver_party t.solver_party,
  text_eq_of_eq (or_else e.settlement_party e.solver_party)
      (or_else i.settlement_party i.solver_party) t.paid_party,
  (mode_eq_iff e.wallet_mode i.wallet_mode).1 t.wallet_mode,
  (opt_text_eq_iff e.network_fee_cc i.network_fee_cc).1 t.network_fee_cc,
  (opt_num_eq_iff e.network_fee_expires_at i.network_fee_expires_at).1 t.network_fee_expires_at,
)

-- What a creation with the id of an order gets, `i` being the record that made the order and `j` the one
-- of the later creation. It gets the order as it was made, marked as not new, exactly when both records
-- have the same assets, amounts, least amount, expiry of the quote, parties, wallet mode and network
-- fee; otherwise it is refused. createOrder takes the quote's expiry from the clock before this test, so
-- a client that posts its request again in another second is refused unless that expiry is the same.
pub resolve_canton_replay :
    (i j : CantonSwapOrder) (now later : ℕ) {o : CantonSwapOrder} {is_new : Bool}
    → resolve_create_canton_swap_order none i now ≡ ok (o, is_new)
    → ((resolve_create_canton_swap_order (some o) j later ≡ ok (o, false)) ↔ SameTerms i j)
      × ((resolve_create_canton_swap_order (some o) j later ≡ ok (o, false))
          ⊎ (resolve_create_canton_swap_order (some o) j later ≡ err CreateError.different_terms))
unfolding resolve_create_canton_swap_order
resolve_canton_replay i j now later {o} {is_new} h =
    let same : new_order i now ≡ o = cc in
    let match : immutable_terms_match o j ≡ immutable_terms_match i j =
      subst (λ (x : CantonSwapOrder). immutable_terms_match x j ≡ immutable_terms_match i j) same
        (unfold immutable_terms_match new_order in refl) in
    elim (Bool-cases (immutable_terms_match i j)) [
      | inl fits ↦ (
        ((λ _. terms_of_match i j fits), λ _. rw (match ∙ fits) refl),
        inl (rw (match ∙ fits) refl),
      )
      | inr differs ↦ (
        ((λ got. cc (rw (match ∙ differs) at got)), λ t. (let fits = match_of_terms i j t in cc)),
        inr (rw (match ∙ differs) refl),
      )
    ]
