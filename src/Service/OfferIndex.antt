-- ===== src/Service/OfferIndex.antt =====
-- The unique index of supabase/migrations/039, as a statement about the offers of the table.
use cantonbit.Shared.{
  ◌≡◌, refl, inl, inr, true, false, not, ◌&&◌, Option, none, some, List, [], ◌∷◌, arith, Text,
  text_eq_of_eq, any, All, text_eq→eq, sym, text_eq_refl, ap, text_eq, Bool-cases,
}
use cantonbit.Htlc.Order.{SwapOrder}
use cantonbit.Service.Store.{same_offer, clash}

-- No other order of the table names the order's offer.
abbrev pub OfferFree : SwapOrder → List SwapOrder → Type 0
OfferFree o rows =
    All
      (λ row.
        (cid : Text)
        → o.counter_transfer_offer_cid ≡ some cid
        → row.counter_transfer_offer_cid ≡ some cid
        → row.id ≡ o.id)
      rows

clash-cases :
    (o row : SwapOrder)
    → clash o row ≡ false
    → (cid : Text) → o.counter_transfer_offer_cid ≡ some cid
    → row.counter_transfer_offer_cid ≡ some cid
    → row.id ≡ o.id
clash-cases o row h cid p q = elim (Bool-cases (text_eq row.id o.id)) [
  | inl same ↦ text_eq→eq row.id o.id same
  | inr other ↦ (let both = text_eq_refl cid in cc (rw (other, p, q, both) at h))
]

clash_of_free :
    (o row : SwapOrder) (mine theirs : Option Text)
    → ((cid : Text) → mine ≡ some cid → theirs ≡ some cid → row.id ≡ o.id)
    → (not (text_eq row.id o.id) && same_offer mine theirs) ≡ false
clash_of_free o row none theirs free = ground arith
clash_of_free o row (some a) none free = ground arith
clash_of_free o row (some a) (some b) free = elim (Bool-cases (text_eq a b)) [
  | inr differ ↦ rw differ (ground arith)
  | inl same ↦
      let owner : text_eq row.id o.id ≡ true =
        text_eq_of_eq row.id o.id (free a refl (ap some (sym (text_eq→eq a b same)))) in
      rw owner refl
]

pub free_of_clash :
    (o : SwapOrder) (rows : List SwapOrder) → any (clash o) rows ≡ false → OfferFree o rows
free_of_clash o [] h = tt
free_of_clash o (row ∷ rows) h = elim (Bool-cases (clash o row)) [
  | inl c ↦ cc (rw c at h)
  | inr c ↦ (clash-cases o row c, free_of_clash o rows (rw c at h))
]

pub any-clash :
    (o : SwapOrder) (rows : List SwapOrder) → OfferFree o rows → any (clash o) rows ≡ false
any-clash o [] free = refl
any-clash o (row ∷ rows) (free, rest) =
    let c : clash o row ≡ false =
      clash_of_free o row o.counter_transfer_offer_cid row.counter_transfer_offer_cid free in
    rw c (any-clash o rows rest)
