-- ===== src/Htlc/Create/Terms.antt =====
-- The terms that resolveCreateOrder compares, and what the comparison of each field says.
use cantonbit.Shared.{
  ℕ, ◌≡◌, refl, ◌↔◌, true, Option, none, some, [], arith, Text, or_else, ==_iff, ap, text_eq_of_eq,
  text_eq→eq, All,
}
use cantonbit.Htlc.Create.{
  same_direction, same_mode, CounterMode, SwapDirection, to_lower, same_opt_number, same_text,
  same_opt_text, none, Option, Text, some, true, ℕ, SwapOrder, same_field, immutable_fields,
}

-- Texts that differ at most in letter case; of two that may be missing, both are or neither.
abbrev pub map_lower : Option Text → Option Text
map_lower none = none
map_lower (some s) = some (to_lower s)

abbrev pub SameText : Text → Text → Type 0
SameText s t = to_lower s ≡ to_lower t

abbrev pub SameOptText : Option Text → Option Text → Type 0
SameOptText s t = map_lower s ≡ map_lower t

-- The terms that a repeated request has to agree on, field by field.
pub record SameTerms (e i : SwapOrder) : Type 0 where
  pub direction : e.direction ≡ i.direction
  pub hash_lock : SameText e.hash_lock i.hash_lock
  pub user_evm_address : SameOptText e.user_evm_address i.user_evm_address
  pub solver_evm_address : SameOptText e.solver_evm_address i.solver_evm_address
  pub wbtc_amount : SameOptText e.wbtc_amount i.wbtc_amount
  pub user_timelock : e.user_timelock ≡ i.user_timelock
  pub user_canton_party : e.user_canton_party ≡ i.user_canton_party
  pub solver_canton_party : SameText e.solver_canton_party i.solver_canton_party
  pub cbtc_amount : SameOptText e.cbtc_amount i.cbtc_amount
  pub solver_timelock : e.solver_timelock ≡ i.solver_timelock
  pub counter_mode : e.counter_mode ≡ i.counter_mode
  pub evm_chain_slug : SameOptText e.evm_chain_slug i.evm_chain_slug
  pub evm_chain_id : e.evm_chain_id ≡ i.evm_chain_id
  pub evm_escrow_address : SameOptText e.evm_escrow_address i.evm_escrow_address
  pub evm_wbtc_address : SameOptText e.evm_wbtc_address i.evm_wbtc_address

abbrev pub SameFields : SwapOrder → SwapOrder → Type 0
SameFields e i = All (λ f. same_field f e i ≡ true) immutable_fields

same_text-SameText : (s t : Text) → (same_text s t ≡ true) ↔ SameText s t
same_text-SameText s t =
    (text_eq→eq (to_lower s) (to_lower t), text_eq_of_eq (to_lower s) (to_lower t))

same_opt_text-SameOptText : (s t : Option Text) → (same_opt_text s t ≡ true) ↔ SameOptText s t
same_opt_text-SameOptText none none = ((λ h. refl), λ h. refl)
same_opt_text-SameOptText none (some t) = ((λ h. cc), λ h. cc)
same_opt_text-SameOptText (some s) none = ((λ h. cc), λ h. cc)
same_opt_text-SameOptText (some s) (some t) = (
  (λ h. ap some (text_eq→eq (to_lower s) (to_lower t) h)),
  λ h. text_eq_of_eq (to_lower s) (to_lower t) (ap (λ o. or_else o []) h),
)

same_number_iff : (m n : Option ℕ) → (same_opt_number m n ≡ true) ↔ (m ≡ n)
same_number_iff none none = ((λ h. refl), λ h. refl)
same_number_iff none (some n) = ((λ h. cc), λ h. cc)
same_number_iff (some m) none = ((λ h. cc), λ h. cc)
same_number_iff (some m) (some n) =
    ((λ h. ap some ((==_iff m n).0 h)), λ h. (==_iff m n).1 (ap (λ o. or_else o 0) h))

same_direction_iff : (c d : SwapDirection) → (same_direction c d ≡ true) ↔ (c ≡ d)
same_direction_iff c d = ground arith

same_mode_iff : (m n : Option CounterMode) → (same_mode m n ≡ true) ↔ (m ≡ n)
same_mode_iff m n = ground arith

pub terms_of_fields :
    (e i : SwapOrder) → e.user_canton_party ≡ i.user_canton_party → SameFields e i → SameTerms e i
unfolding same_field
terms_of_fields e i party
      (
        dir,
        (
          hash,
          (
            user,
            (
              solver,
              (
                wbtc,
                (
                  user_lock,
                  (
                    _,
                    (
                      solver_party,
                      (cbtc, (solver_lock, (mode, (slug, (chain, (escrow, (token, _))))))),
                    ),
                  ),
                ),
              ),
            ),
          ),
        ),
      ) =
    record {
      direction = (same_direction_iff e.direction i.direction).0 dir;
      hash_lock = (same_text-SameText e.hash_lock i.hash_lock).0 hash;
      user_evm_address = (same_opt_text-SameOptText e.user_evm_address i.user_evm_address).0 user;
      solver_evm_address =
          (same_opt_text-SameOptText e.solver_evm_address i.solver_evm_address).0 solver;
      wbtc_amount = (same_opt_text-SameOptText e.wbtc_amount i.wbtc_amount).0 wbtc;
      user_timelock = (==_iff e.user_timelock i.user_timelock).0 user_lock;
      user_canton_party = party;
      solver_canton_party =
          (same_text-SameText e.solver_canton_party i.solver_canton_party).0 solver_party;
      cbtc_amount = (same_opt_text-SameOptText e.cbtc_amount i.cbtc_amount).0 cbtc;
      solver_timelock = (==_iff e.solver_timelock i.solver_timelock).0 solver_lock;
      counter_mode = (same_mode_iff e.counter_mode i.counter_mode).0 mode;
      evm_chain_slug = (same_opt_text-SameOptText e.evm_chain_slug i.evm_chain_slug).0 slug;
      evm_chain_id = (same_number_iff e.evm_chain_id i.evm_chain_id).0 chain;
      evm_escrow_address =
          (same_opt_text-SameOptText e.evm_escrow_address i.evm_escrow_address).0 escrow;
      evm_wbtc_address = (same_opt_text-SameOptText e.evm_wbtc_address i.evm_wbtc_address).0 token;
    }

pub fields_of_terms : (e i : SwapOrder) → SameTerms e i → SameFields e i
unfolding same_field
fields_of_terms e i t = (
  (same_direction_iff e.direction i.direction).1 t.direction,
  (
    (same_text-SameText e.hash_lock i.hash_lock).1 t.hash_lock,
    (
      (same_opt_text-SameOptText e.user_evm_address i.user_evm_address).1 t.user_evm_address,
      (
        (same_opt_text-SameOptText e.solver_evm_address i.solver_evm_address).1
            t.solver_evm_address,
        (
          (same_opt_text-SameOptText e.wbtc_amount i.wbtc_amount).1 t.wbtc_amount,
          (
            (==_iff e.user_timelock i.user_timelock).1 t.user_timelock,
            (
              (same_text-SameText e.user_canton_party i.user_canton_party).1
                  (ap to_lower t.user_canton_party),
              (
                (same_text-SameText e.solver_canton_party i.solver_canton_party).1
                    t.solver_canton_party,
                (
                  (same_opt_text-SameOptText e.cbtc_amount i.cbtc_amount).1 t.cbtc_amount,
                  (
                    (==_iff e.solver_timelock i.solver_timelock).1 t.solver_timelock,
                    (
                      (same_mode_iff e.counter_mode i.counter_mode).1 t.counter_mode,
                      (
                        (same_opt_text-SameOptText e.evm_chain_slug i.evm_chain_slug).1
                            t.evm_chain_slug,
                        (
                          (same_number_iff e.evm_chain_id i.evm_chain_id).1 t.evm_chain_id,
                          (
                            (same_opt_text-SameOptText e.evm_escrow_address i.evm_escrow_address).1
                                t.evm_escrow_address,
                            (
                              (same_opt_text-SameOptText e.evm_wbtc_address i.evm_wbtc_address).1
                                  t.evm_wbtc_address,
                              tt,
                            ),
                          ),
                        ),
                      ),
                    ),
                  ),
                ),
              ),
            ),
          ),
        ),
      ),
    ),
  ),
)
