-- ===== src/Headers/Map/Laws.antt =====
-- The invariant of `HeaderMap`, and what each operation does to the values of every name.
use watermelon.Prelude.{
  ℕ, ◌+◌, ◌≤◌, true, List, [], ◌∷◌, ◌++◌, Option, none, some, Ordering, is_empty, length,
  length-append, ◌≡◌, ◌↔◌, refl, ◌∙◌, ap, arith, inl, inr,
}
use watermelon.OrdMap
use watermelon.OrdMap.{Entries}
use watermelon.OrdMap.Order.{IsOrder, IsAscending}
use watermelon.OrdMap.Laws.{
  if_eq, Ordering-cases, get-insert, get-remove, get_below, IsBelow-trans, insert-IsAscending,
  remove-IsAscending,
}
use watermelon.Headers.Name.{HeaderName}
use watermelon.Headers.Value.{HeaderValue}
use watermelon.Headers.Map.{
  OneOrMany, one, many, count, push, values, HeaderMap, new, keys_len, has_no_keys, clear, previous,
  values_or_empty, extended, get_all, insert, append, remove,
}

-- the number of values of all entries
pub total : Entries HeaderName OneOrMany → ℕ
total [] = 0
total ((name, vs) ∷ m) = count vs + total m

-- no entry is without a value
abbrev AreFilled : Entries HeaderName OneOrMany → Type 0
AreFilled [] = Unit
AreFilled ((name, vs) ∷ m) = (1 ≤ count vs) × AreFilled m

module _ (cmp : HeaderName → HeaderName → Ordering) where
  -- The keys ascend, no entry is empty, and `len` is the number of values stored.
  pub record IsValid (h : HeaderMap) : Type 0 where
    pub ascending : IsAscending cmp h.headers
    pub filled : AreFilled h.headers
    pub counted : h.len ≡ total h.headers

count-push : (vs : OneOrMany) (v : HeaderValue) → count (push vs v) ≡ count vs + 1
unfolding count push
count-push (one w) v = refl
count-push (many vec) v = length-append vec (v ∷ [])

values-push : (vs : OneOrMany) (v : HeaderValue) → values (push vs v) ≡ values vs ++ v ∷ []
unfolding values push
values-push (one w) v = refl
values-push (many vec) v = refl

count-extended : (o : Option OneOrMany) (v : HeaderValue) → count (extended o v) ≡ previous o + 1
unfolding extended previous
count-extended none v = refl
count-extended (some vs) v = count-push vs v

values-extended :
    (o : Option OneOrMany) (v : HeaderValue) → values (extended o v) ≡ values_or_empty o ++ v ∷ []
unfolding extended values_or_empty
values-extended none v = refl
values-extended (some vs) v = values-push vs v

values-if_eq :
    (o : Ordering) (vs : OneOrMany) (old : Option OneOrMany)
    → values_or_empty (if_eq o (some vs) old) ≡ if_eq o (values vs) (values_or_empty old)
unfolding values_or_empty
values-if_eq Ordering.eq vs old = refl
values-if_eq Ordering.lt vs old = refl
values-if_eq Ordering.gt vs old = refl

values_if_none :
    (o : Ordering) (old : Option OneOrMany)
    → values_or_empty (if_eq o none old) ≡ if_eq o [] (values_or_empty old)
unfolding values_or_empty
values_if_none Ordering.eq old = refl
values_if_none Ordering.lt old = refl
values_if_none Ordering.gt old = refl

module _ (cmp : HeaderName → HeaderName → Ordering) (order : IsOrder cmp) where
  total-insert :
      (k : HeaderName) (vs : OneOrMany) (m : Entries HeaderName OneOrMany)
      → IsAscending cmp m
      → total (OrdMap.insert cmp k vs m) + previous (OrdMap.get cmp k m) ≡ total m + count vs
  unfolding total OrdMap.insert OrdMap.get previous
  total-insert k vs [] a = omega arith
  total-insert k vs ((j, w) ∷ m) (b, a) =
      ground (arith, total-insert k vs m a, get_below cmp order k m, IsBelow-trans cmp order k j m)

  total-remove :
      (k : HeaderName) (m : Entries HeaderName OneOrMany)
      → total (OrdMap.remove cmp k m) + previous (OrdMap.get cmp k m) ≡ total m
  unfolding total OrdMap.remove OrdMap.get previous
  total-remove k [] = omega arith
  total-remove k ((j, w) ∷ m) = ground (arith, total-remove k m)

  AreFilled-insert :
      (k : HeaderName) (vs : OneOrMany) (m : Entries HeaderName OneOrMany)
      → 1 ≤ count vs
      → AreFilled m
      → AreFilled (OrdMap.insert cmp k vs m)
  unfolding OrdMap.insert
  AreFilled-insert k vs [] h f = (h, tt)
  AreFilled-insert k vs ((j, w) ∷ m) h (p, f) = elim (Ordering-cases (cmp k j)) [
    | inl e ↦ rw (e, AreFilled, OrdMap.insert) (h, (p, f))
    | inr (inl e) ↦ rw (e, AreFilled, OrdMap.insert) (h, f)
    | inr (inr e) ↦ rw (e, AreFilled, OrdMap.insert) (p, AreFilled-insert k vs m h f)
  ]

  AreFilled-remove :
      (k : HeaderName) (m : Entries HeaderName OneOrMany)
      → AreFilled m
      → AreFilled (OrdMap.remove cmp k m)
  unfolding OrdMap.remove
  AreFilled-remove k [] f = tt
  AreFilled-remove k ((j, w) ∷ m) (p, f) = elim (Ordering-cases (cmp k j)) [
    | inl e ↦ rw (e, AreFilled, OrdMap.remove) (p, AreFilled-remove k m f)
    | inr (inl e) ↦ rw (e, AreFilled, OrdMap.remove) f
    | inr (inr e) ↦ rw (e, AreFilled, OrdMap.remove) (p, AreFilled-remove k m f)
  ]

  pub new-IsValid : IsValid cmp new
  unfolding new total
  new-IsValid = record { ascending = tt; filled = tt; counted = refl }

  pub insert-IsValid :
      (k : HeaderName) (v : HeaderValue) (h : HeaderMap)
      → IsValid cmp h
      → IsValid cmp (insert cmp k v h)
  unfolding insert
  insert-IsValid k v h valid = record {
    ascending = insert-IsAscending cmp order k (one v) h.headers valid.ascending;
    filled = AreFilled-insert k (one v) h.headers (unfold count in omega arith) valid.filled;
    counted =
        let grown = total-insert k (one v) h.headers valid.ascending in
        let stored = total-remove k h.headers in unfold count in omega (arith, grown, stored);
  }

  pub append-IsValid :
      (k : HeaderName) (v : HeaderValue) (h : HeaderMap)
      → IsValid cmp h
      → IsValid cmp (append cmp k v h)
  unfolding append
  append-IsValid k v h valid =
      let old = OrdMap.get cmp k h.headers in
      let grown = count-extended old v in
      record {
        ascending = insert-IsAscending cmp order k (extended old v) h.headers valid.ascending;
        filled = AreFilled-insert k (extended old v) h.headers (omega arith) valid.filled;
        counted = omega (arith, total-insert k (extended old v) h.headers valid.ascending);
      }

  pub remove-IsValid :
      (k : HeaderName) (h : HeaderMap) → IsValid cmp h → IsValid cmp (remove cmp k h)
  unfolding remove
  remove-IsValid k h valid = record {
    ascending = remove-IsAscending cmp order k h.headers valid.ascending;
    filled = AreFilled-remove k h.headers valid.filled;
    counted = omega (arith, valid.counted, total-remove k h.headers);
  }

  -- What `get_all` sees after each operation: `append` adds the value behind those of its name,
  -- `insert` leaves the new value alone under its name, `remove` leaves none, and every other name
  -- keeps its values.
  pub get_all_laws :
      (x k : HeaderName) (v : HeaderValue) (h : HeaderMap)
      → IsValid cmp h
      → (get_all cmp x (append cmp k v h)
          ≡ if_eq (cmp x k) (get_all cmp k h ++ v ∷ []) (get_all cmp x h))
        × (get_all cmp x (insert cmp k v h) ≡ if_eq (cmp x k) (v ∷ []) (get_all cmp x h))
        × (get_all cmp x (remove cmp k h) ≡ if_eq (cmp x k) [] (get_all cmp x h))
  unfolding get_all append insert remove values_or_empty
  get_all_laws x k v h valid =
      let old = OrdMap.get cmp k h.headers in
      (
        rw (get-insert cmp order x k (extended old v) h.headers) (
            values-if_eq (cmp x k) (extended old v) (OrdMap.get cmp x h.headers)
            ∙ ap (λ vs. if_eq (cmp x k) vs (values_or_empty (OrdMap.get cmp x h.headers)))
                (values-extended old v)),
        rw (get-insert cmp order x k (one v) h.headers)
            (values-if_eq (cmp x k) (one v) (OrdMap.get cmp x h.headers)),
        rw (get-remove cmp order x k h.headers valid.ascending)
            (values_if_none (cmp x k) (OrdMap.get cmp x h.headers)),
      )

-- The calls that change a map.
pub data Call : Type 0 where
  inserts appends : HeaderName → HeaderValue → Call
  removes : HeaderName → Call
  clears : Call

module _ (cmp : HeaderName → HeaderName → Ordering) where
  abbrev pub call : Call → HeaderMap → HeaderMap
  call (inserts k v) h = insert cmp k v h
  call (appends k v) h = append cmp k v h
  call (removes k) h = remove cmp k h
  call clears h = clear h

  abbrev pub run : List Call → HeaderMap → HeaderMap
  run [] h = h
  run (c ∷ cs) h = run cs (call c h)

keys-le-total :
    (m : Entries HeaderName OneOrMany)
    → AreFilled m
    → (length m ≤ total m) × ((is_empty m ≡ true) ↔ (total m ≡ 0))
unfolding total
keys-le-total [] f = ground arith
keys-le-total ((name, vs) ∷ m) (p, f) = ground (arith, keys-le-total m f)

module _ (cmp : HeaderName → HeaderName → Ordering) (order : IsOrder cmp) where
  call-IsValid : (c : Call) (h : HeaderMap) → IsValid cmp h → IsValid cmp (call cmp c h)
  call-IsValid (inserts k v) h valid = insert-IsValid cmp order k v h valid
  call-IsValid (appends k v) h valid = append-IsValid cmp order k v h valid
  call-IsValid (removes k) h valid = remove-IsValid cmp order k h valid
  call-IsValid clears h valid =
      unfold clear total in record { ascending = tt; filled = tt; counted = refl }

  run-IsValid : (cs : List Call) (h : HeaderMap) → IsValid cmp h → IsValid cmp (run cmp cs h)
  run-IsValid [] h valid = valid
  run-IsValid (c ∷ cs) h valid = run-IsValid cs (call cmp c h) (call-IsValid c h valid)

  -- After any calls on a new map, `len` is the number of values stored, it is at least the number of
  -- keys, and the map is empty exactly when `len` is zero.
  pub len_total :
      (cs : List Call)
      → let h = run cmp cs new in
        (h.len ≡ total h.headers) × (keys_len h ≤ h.len) × ((has_no_keys h ≡ true) ↔ (h.len ≡ 0))
  unfolding keys_len has_no_keys
  len_total cs =
      let valid = run-IsValid cs new (new-IsValid cmp order) in
      let (le, iff) = keys-le-total _ valid.filled in
      (valid.counted, rw valid.counted le, rw valid.counted iff)
