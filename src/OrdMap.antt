-- ===== src/OrdMap.antt =====
-- `alloc::collections::BTreeMap`, by its entries in ascending order of the keys. The comparison of
-- the keys is a parameter: `SubscriptionId`, `Subject` and `HeaderName` each have their own.
pub mod Order
pub mod Laws
use watermelon.Prelude.{List, [], ◌∷◌, Option, none, some, Ordering}

abbrev pub Entries : Type 0 → Type 0 → Type 0
Entries K V = List (K × V)

module _ {K V : Type 0} (cmp : K → K → Ordering) where
  unfoldable pub get : K → Entries K V → Option V
  get k [] = none
  get k ((j, v) ∷ m) = let rest = get k m in elim (cmp k j) [ Ordering.eq ↦ some v | _ ↦ rest ]

  -- An old key stays, with the new value.
  unfoldable pub insert : K → V → Entries K V → Entries K V
  insert k v [] = (k, v) ∷ []
  insert k v ((j, w) ∷ m) = elim (cmp k j) [
    | Ordering.lt ↦ (k, v) ∷ (j, w) ∷ m
    | Ordering.eq ↦ (j, v) ∷ m
    | Ordering.gt ↦ (j, w) ∷ insert k v m
  ]

  unfoldable pub remove : K → Entries K V → Entries K V
  remove k [] = []
  remove k ((j, w) ∷ m) =
      let rest = remove k m in elim (cmp k j) [ Ordering.eq ↦ m | _ ↦ (j, w) ∷ rest ]
