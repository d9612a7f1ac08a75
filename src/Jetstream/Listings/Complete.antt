-- ===== src/Jetstream/Listings/Complete.antt =====
-- watermelon/src/client/jetstream/commands/stream_list.rs and consumer_list.rs: what a listing yields
-- over a server that answers every request for a page.
use watermelon.Prelude.{
  ℕ, zero, suc, ◌+◌, ◌*◌, ◌≤◌, ◌<◌, Bool, true, false, List, [], ◌∷◌, ◌++◌, Option, none, some,
  length, take, subst, sym, ◌∙◌, take-append-drop, length-take, length-drop, inl, inr, ap,
  Bool-cases, drop, is_empty, Result, ok, err, ◌≡◌, refl, arith, ◌^◌, ◌%◌, ltb,
}
use watermelon.Client.{Poll, pending, ready}
use watermelon.Jetstream.Listings.{
  Page, Listing, new, poll_next, poll_fetch, receive_page, fetch_offset, is_terminated,
}

module _ {A : Type 0} where
  -- the page of a server that has these items, at an offset
  abbrev page : ℕ → List A → ℕ → Page A
  page limit items offset = record { limit = limit; items = take limit (drop offset items) }

  -- one poll, the server answering at once
  poll_served : ℕ → List A → Listing A → Listing A × Poll (Option (Result ⊥ A))
  unfolding poll_next fetch_offset
  poll_served limit items s = poll_next (ready (ok (page limit items (fetch_offset s)))) s

  -- the items that a number of polls yields, and what the listing is then
  pub polls : ℕ → ℕ → List A → Listing A → Listing A × List A
  unfolding poll_served
  polls zero limit items s = (s, [])
  polls (suc n) limit items s =
      let (s', polled) = poll_served limit items s in
      let (last, yielded) = polls n limit items s' in
      elim polled [
        | ready (some (ok x)) ↦ (last, x ∷ yielded)
        | ready (some (err e)) ↦ (last, yielded)
        | ready none ↦ (last, yielded)
        | pending ↦ (last, yielded)
      ]

  -- a listing between two fetches
  abbrev between : ℕ → List A → Bool → Listing A
  between offset buffer exhausted = record {
    offset = offset;
    fetch = none;
    buffer = buffer;
    exhausted = exhausted;
  }

  -- what is still to come, and the polls that it takes
  abbrev to_come : List A → ℕ → List A → Bool → List A
  to_come items offset buffer true = buffer
  to_come items offset buffer false = buffer ++ drop offset items

  abbrev cost : List A → List A → Bool → ℕ
  cost rest [] false = suc (2 * length rest)
  cost rest [] true = 2 * length rest
  cost rest (x ∷ buffer) exhausted = 2 * length rest

  cost_le :
      (rest buffer : List A) (exhausted : Bool) → cost rest buffer exhausted ≤ suc (2 * length rest)
  cost_le rest [] true = omega arith
  cost_le rest [] false = omega arith
  cost_le rest (x ∷ buffer) exhausted = omega arith

  drop-drop : (n k m : ℕ) (xs : List A) → m ≡ n + k → drop k (drop n xs) ≡ drop m xs
  drop-drop zero k m xs e = ap (λ i. drop i xs) (omega arith)
  drop-drop (suc n) k zero xs e = absurd (omega arith)
  drop-drop (suc n) zero (suc m) [] e = refl
  drop-drop (suc n) (suc k) (suc m) [] e = refl
  drop-drop (suc n) k (suc m) (x ∷ xs) e = drop-drop n k m xs (omega (arith, e))

  take_short : (n : ℕ) (xs : List A) → length (take n xs) < n → take n xs ≡ xs
  take_short zero xs h = absurd (omega arith)
  take_short (suc n) [] h = refl
  take_short (suc n) (x ∷ xs) h = ap (◌∷◌ x) (take_short n xs (omega (arith, h)))

  is_empty_long : (xs : List A) → 1 ≤ length xs → is_empty xs ≡ false
  is_empty_long [] h = absurd (omega arith)
  is_empty_long (x ∷ xs) h = refl

  cost_exhausted : (rest buffer : List A) → cost rest buffer true ≡ 2 * length rest
  cost_exhausted rest [] = refl
  cost_exhausted rest (x ∷ buffer) = refl

  cost_filled :
      (rest buffer : List A) → 1 ≤ length buffer → cost rest buffer false ≡ 2 * length rest
  cost_filled rest [] h = absurd (omega arith)
  cost_filled rest (x ∷ buffer) h = refl

  -- the page that ends the listing
  receive_page_last :
      (limit : ℕ) (items : List A) (offset : ℕ)
      → length (take limit (drop offset items)) < limit
      → receive_page (page limit items offset) (between offset [] false)
        ≡ between offset (drop offset items) true
  unfolding receive_page
  receive_page_last limit items offset short = ground (arith, take_short limit (drop offset items))

  -- a page with more to come
  receive_page_full :
      (limit : ℕ) (items : List A) (offset : ℕ)
      → 1 ≤ limit
      → length items < 2 ^ 32
      → length (take limit (drop offset items)) ≡ limit
      → offset + limit ≤ length items
      → receive_page (page limit items offset) (between offset [] false)
        ≡ between (offset + limit) (take limit (drop offset items)) false
  unfolding receive_page
  receive_page_full limit items offset l b full room =
      let small : (offset + limit) % 2 ^ 32 ≡ offset + limit = omega arith in
      ground (arith, is_empty_long (take limit (drop offset items)))

  abbrev Completes : ℕ → ℕ → List A → Listing A → List A → Type 0
  Completes n limit items s rest =
      ((polls n limit items s).1 ≡ rest) × (is_terminated (polls n limit items s).0 ≡ true)

  polls-Completes :
      (n limit : ℕ) (items : List A) (offset : ℕ) (buffer : List A) (exhausted : Bool)
      → 1 ≤ limit
      → length items < 2 ^ 32
      → offset ≤ length items
      → cost (to_come items offset buffer exhausted) buffer exhausted ≤ n
      → Completes n limit items
          (between offset buffer exhausted)
          (to_come items offset buffer exhausted)
  unfolding polls is_terminated poll_served poll_next poll_fetch fetch_offset
  polls-Completes zero limit items offset [] true l b o h = (refl, refl)
  polls-Completes zero limit items offset [] false l b o h = absurd (omega arith)
  polls-Completes zero limit items offset (x ∷ buffer) true l b o h = absurd (omega arith)
  polls-Completes zero limit items offset (x ∷ buffer) false l b o h = absurd (omega arith)
  polls-Completes (suc n) limit items offset (x ∷ buffer) true l b o h =
      let (yielded, done) =
        polls-Completes n limit items offset buffer true l b o
          (omega (arith, cost_le buffer buffer true)) in
      (ap (◌∷◌ x) yielded, done)
  polls-Completes (suc n) limit items offset (x ∷ buffer) false l b o h =
      let (yielded, done) =
        polls-Completes n limit items offset buffer false l b o
          (omega (arith, cost_le (buffer ++ drop offset items) buffer false)) in
      (ap (◌∷◌ x) yielded, done)
  polls-Completes (suc n) limit items offset [] true l b o h =
      polls-Completes n limit items offset [] true l b o (omega arith)
  polls-Completes (suc n) limit items offset [] false l b o h =
      let rest = drop offset items in
      elim (Bool-cases (ltb (length (take limit rest)) limit)) [
        | inl short ↦
            let fits : length (take limit rest) < limit = ground arith in
            rw (receive_page_last limit items offset fits) (
              polls-Completes n limit items offset rest true l b o
                (omega (arith, cost_exhausted rest rest)))
        | inr full ↦
            let length_page = length-take limit rest in
            let length_rest = length-drop offset items in
            let page_full : length (take limit rest) ≡ limit = ground arith in
            let room : offset + limit ≤ length items = omega arith in
            let whole : take limit rest ++ drop (offset + limit) items ≡ rest =
              ap (◌++◌ (take limit rest)) (sym (drop-drop offset limit (offset + limit) items refl))
              ∙ take-append-drop limit rest in
            rw (receive_page_full limit items offset l b page_full room) (
              subst (Completes n limit items (between (offset + limit) (take limit rest) false))
                whole
                (polls-Completes n limit items (offset + limit) (take limit rest) false l b room (
                  omega (
                    arith,
                    cost_filled (take limit rest ++ drop (offset + limit) items) (take limit rest)
                        (omega arith),
                    ap length whole,
                  ))))
      ]

  -- Over a server whose pages hold up to `limit` of its items from an offset on, `limit` positive, and
  -- that answers each request at once, a new listing yields every item once and in order and then
  -- ends, also if the last page is full. Twice as many polls as items and one more are enough, and the
  -- items fit in a `u32`.
  pub polls-new_complete :
      (n limit : ℕ) (items : List A)
      → 1 ≤ limit
      → length items < 2 ^ 32
      → 2 * length items + 1 ≤ n
      → ((polls n limit items new).1 ≡ items) × (is_terminated (polls n limit items new).0 ≡ true)
  unfolding new
  polls-new_complete n limit items l b h =
      polls-Completes n limit items 0 [] false l b (omega arith) (omega arith)
