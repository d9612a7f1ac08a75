-- ===== src/OrdMap/Laws.antt =====
-- How `get` sees `insert` and `remove`, and that both keep the keys ascending.
use watermelon.Prelude.{[], ◌∷◌, none, some, Ordering, ◌≡◌, refl, ◌∙◌, arith, ◌⊎◌, inl, inr}
use watermelon.OrdMap.{Entries, get, insert, remove}
use watermelon.OrdMap.Order.{IsOrder, IsBelow, IsAscending}

pub Ordering-cases : (o : Ordering) → (o ≡ Ordering.lt) ⊎ ((o ≡ Ordering.eq) ⊎ (o ≡ Ordering.gt))
Ordering-cases Ordering.lt = inl refl
Ordering-cases Ordering.eq = inr (inl refl)
Ordering-cases Ordering.gt = inr (inr refl)

-- `v` where the keys compare equal, and `o` elsewhere
abbrev pub if_eq {ℓ} : {A : Type ℓ} → Ordering → A → A → A
if_eq Ordering.eq v o = v
if_eq _ v o = o

module _ {K V : Type 0} (cmp : K → K → Ordering) (order : IsOrder cmp) where
  -- A look-up after an insertion finds the new value at the keys equal to the new one, and what was
  -- there before at every other key.
  pub get-insert :
      (x k : K) (v : V) (m : Entries K V)
      → get cmp x (insert cmp k v m) ≡ if_eq (cmp x k) (some v) (get cmp x m)
  unfolding get insert
  get-insert x k v [] = ground arith
  get-insert x k v ((j, w) ∷ m) = ground (
    arith,
    get-insert x k v m,
    order.eq_left x k j,
    order.eq_left x j k,
    order.eq_sym k j,
    order.eq_sym x j,
    order.eq_left j x k,
    order.eq_sym x k,
    order.eq_left k j x,
    order.eq_left j k x,
    order.lt_gt k j,
    order.eq_left k x j,
  )

  -- A key below the map is not in it.
  pub get_below : (k : K) (m : Entries K V) → IsBelow cmp k m → get cmp k m ≡ none
  unfolding get
  get_below k [] h = refl
  get_below k ((j, w) ∷ m) (h, hs) = rw (h, get) (get_below k m hs)

  pub IsBelow-trans :
      (k j : K) (m : Entries K V) → cmp k j ≡ Ordering.lt → IsBelow cmp j m → IsBelow cmp k m
  IsBelow-trans k j [] h b = tt
  IsBelow-trans k j ((i, w) ∷ m) h (b, bs) = (order.lt_trans k j i h b, IsBelow-trans k j m h bs)

  pub IsBelow-eq :
      (k j : K) (m : Entries K V) → cmp k j ≡ Ordering.eq → IsBelow cmp j m → IsBelow cmp k m
  IsBelow-eq k j [] h b = tt
  IsBelow-eq k j ((i, w) ∷ m) h (b, bs) = (order.eq_left k j i h ∙ b, IsBelow-eq k j m h bs)

  IsBelow-insert :
      (j k : K) (v : V) (m : Entries K V)
      → cmp j k ≡ Ordering.lt
      → IsBelow cmp j m
      → IsBelow cmp j (insert cmp k v m)
  unfolding insert
  IsBelow-insert j k v [] h b = (h, tt)
  IsBelow-insert j k v ((i, w) ∷ m) h (b, bs) = elim (Ordering-cases (cmp k i)) [
    | inl e ↦ rw (e, IsBelow, insert) (h, (b, bs))
    | inr (inl e) ↦ rw (e, IsBelow, insert) (b, bs)
    | inr (inr e) ↦ rw (e, IsBelow, insert) (b, IsBelow-insert j k v m h bs)
  ]

  -- Insertion keeps the keys ascending.
  pub insert-IsAscending :
      (k : K) (v : V) (m : Entries K V) → IsAscending cmp m → IsAscending cmp (insert cmp k v m)
  unfolding insert
  insert-IsAscending k v [] a = (tt, tt)
  insert-IsAscending k v ((j, w) ∷ m) (b, a) = elim (Ordering-cases (cmp k j)) [
    | inl e ↦ rw (e, IsAscending, insert) ((e, IsBelow-trans k j m e b), (b, a))
    | inr (inl e) ↦ rw (e, IsAscending, insert) (b, a)
    | inr (inr e) ↦
        rw (e, IsAscending, insert)
          (IsBelow-insert j k v m (order.gt_lt k j e) b, insert-IsAscending k v m a)
  ]

  IsBelow-remove : (j k : K) (m : Entries K V) → IsBelow cmp j m → IsBelow cmp j (remove cmp k m)
  unfolding remove
  IsBelow-remove j k [] b = tt
  IsBelow-remove j k ((i, w) ∷ m) (b, bs) = elim (Ordering-cases (cmp k i)) [
    | inl e ↦ rw (e, IsBelow, remove) (b, IsBelow-remove j k m bs)
    | inr (inl e) ↦ rw (e, IsBelow, remove) bs
    | inr (inr e) ↦ rw (e, IsBelow, remove) (b, IsBelow-remove j k m bs)
  ]

  -- Removal keeps the keys ascending.
  pub remove-IsAscending :
      (k : K) (m : Entries K V) → IsAscending cmp m → IsAscending cmp (remove cmp k m)
  unfolding remove
  remove-IsAscending k [] a = tt
  remove-IsAscending k ((j, w) ∷ m) (b, a) = elim (Ordering-cases (cmp k j)) [
    | inl e ↦ rw (e, IsAscending, remove) (IsBelow-remove j k m b, remove-IsAscending k m a)
    | inr (inl e) ↦ rw (e, IsAscending, remove) a
    | inr (inr e) ↦ rw (e, IsAscending, remove) (IsBelow-remove j k m b, remove-IsAscending k m a)
  ]

  -- After a removal nothing is found at the keys equal to the removed one, and every other key is as
  -- before.
  pub get-remove :
      (x k : K) (m : Entries K V)
      → IsAscending cmp m
      → get cmp x (remove cmp k m) ≡ if_eq (cmp x k) none (get cmp x m)
  unfolding get remove
  get-remove x k [] a = ground arith
  get-remove x k ((j, w) ∷ m) (b, a) = ground (
    arith,
    get-remove x k m a,
    order.eq_left x k j,
    order.eq_left x j k,
    order.eq_sym k j,
    order.eq_sym x j,
    order.eq_sym x k,
    order.eq_left k j x,
    order.eq_left j k x,
    get_below x m,
    IsBelow-eq x k m,
    IsBelow-eq k j m,
  )
