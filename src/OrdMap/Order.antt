-- ===== src/OrdMap/Order.antt =====
-- What an order of keys is, and maps whose keys ascend.
use watermelon.Prelude.{[], ◌∷◌, Ordering, ◌≡◌, arith, compare}
use watermelon.OrdMap.{Entries}

pub record IsOrder {K : Type 0} (cmp : K → K → Ordering) : Type 0 where
  pub eq_refl : (a : K) → cmp a a ≡ Ordering.eq
  pub eq_sym : (a b : K) → cmp a b ≡ Ordering.eq → cmp b a ≡ Ordering.eq
  -- equal keys compare alike
  pub eq_left : (a b c : K) → cmp a b ≡ Ordering.eq → cmp a c ≡ cmp b c
  pub lt_trans : (a b c : K) → cmp a b ≡ Ordering.lt → cmp b c ≡ Ordering.lt → cmp a c ≡ Ordering.lt
  pub gt_lt : (a b : K) → cmp a b ≡ Ordering.gt → cmp b a ≡ Ordering.lt
  pub lt_gt : (a b : K) → cmp a b ≡ Ordering.lt → cmp b a ≡ Ordering.gt

module _ {K V : Type 0} (cmp : K → K → Ordering) where
  -- the key stands before every key of the map
  abbrev pub IsBelow : K → Entries K V → Type 0
  IsBelow k [] = Unit
  IsBelow k ((j, w) ∷ m) = (cmp k j ≡ Ordering.lt) × IsBelow k m

  abbrev pub IsAscending : Entries K V → Type 0
  IsAscending [] = Unit
  IsAscending ((j, w) ∷ m) = IsBelow j m × IsAscending m

pub compare-IsOrder : IsOrder compare
compare-IsOrder = record {
  eq_refl = λ a. ground arith;
  eq_sym = λ a b h. ground arith;
  eq_left = λ a b c h. ground arith;
  lt_trans = λ a b c h k. ground arith;
  gt_lt = λ a b h. ground arith;
  lt_gt = λ a b h. ground arith;
}
