-- ===== src/HappyEyeballs/Runs.antt =====
-- watermelon-net/src/happy_eyeballs.rs: what the polls of a connection to a name attempt together.
use watermelon.Prelude.{
  ℕ, suc, ◌<◌, ◌+◌, Bool, true, false, not, List, [], ◌∷◌, ◌++◌, Option, none, some, length,
  length-append, ◌≡◌, inl, inr, refl, sym, ap, ◌∙◌, arith, append-nil, append_assoc, Bool-cases,
  Result,
}
use watermelon.HappyEyeballs.{
  SocketAddr, LastAttempted, HappyEyeballs, Round, Poll, new, receive, conclude, poll_next,
}
use watermelon.HappyEyeballs.Order.{of_kind, of_kind-append, known, attempts-SameAs}
use watermelon.HappyEyeballs.Total.{attempts-Ends}

-- what one poll meets: the addresses that the resolver yields, whether it ends, and the loop's rounds
pub record Input (E S : Type 0) : Type 0 where
  pub records : List SocketAddr
  pub ends : Bool
  pub rounds : ℕ → Round E S

-- what a poll hears from the resolver, and whether more can come
abbrev pub heard : {E S : Type 0} → Input E S → Bool → List SocketAddr
heard i true = i.records
heard i false = []

abbrev pub open_after : {E S : Type 0} → Input E S → Bool → Bool
open_after i true = not i.ends
open_after i false = false

-- the addresses that the resolver yields before it ends
abbrev pub resolved : {E S : Type 0} → List (Input E S) → Bool → List SocketAddr
resolved [] dns = []
resolved (i ∷ ins) dns = heard i dns ++ resolved ins (open_after i dns)

module _ (E S : Type 0) where
  -- polls in order, each with one round for every address and one more
  pub run : List (Input E S) → HappyEyeballs → Option HappyEyeballs
  unfolding poll_next
  run [] h = some h
  run (i ∷ ins) h =
      elim (poll_next (suc (length h.dns_received + length i.records)) i.records i.ends i.rounds
        h) [ none ↦ none | some (h', polled) ↦ run ins h' ]

  conclude_keeps : (result : HappyEyeballs × Option (Result E S)) → (conclude result).0 ≡ result.0
  unfolding conclude
  conclude_keeps (h, some conn) = refl
  conclude_keeps (h, none) = ground arith

  receive-known :
      (i : Input E S) (h : HappyEyeballs)
      → (known (receive i.records i.ends h) ≡ known h ++ heard i h.dns)
        × ((receive i.records i.ends h).dns ≡ open_after i h.dns)
        × (length (receive i.records i.ends h).dns_received
            < suc (length h.dns_received + length i.records))
  unfolding receive
  receive-known i h = elim (Bool-cases h.dns) [
    | inl on ↦ rw on (
      sym (append_assoc h.attempted h.dns_received i.records),
      refl,
      omega (arith, length-append h.dns_received i.records),
    )
    | inr off ↦ rw off (sym (append-nil (known h)), refl, omega arith)
  ]

  -- what a poll does
  abbrev Polled : Input E S → HappyEyeballs → Option (HappyEyeballs × Poll E S) → Type 0
  Polled i h o =
      (next : HappyEyeballs × Poll E S) × (o ≡ some next)
      × ((kind : LastAttempted)
          → of_kind kind (known next.0) ≡ of_kind kind (known h ++ heard i h.dns))
      × (next.0.dns ≡ open_after i h.dns)

  poll_next-Polled :
      (i : Input E S) (h : HappyEyeballs)
      → Polled i h
          (poll_next (suc (length h.dns_received + length i.records)) i.records i.ends i.rounds h)
  unfolding poll_next
  poll_next-Polled i h =
      let fuel = suc (length h.dns_received + length i.records) in
      let got = receive i.records i.ends h in
      let (known_then, dns_then, room) = receive-known i h in
      let (result, ended) = attempts-Ends E S fuel i.rounds got room in
      let (same, dns_same) = rw ended at (attempts-SameAs E S fuel i.rounds got) in
      let kept = conclude_keeps result in
      (
        conclude result,
        rw (ended, poll_next) refl,
        λ k. ap (λ x. of_kind k (known x)) kept ∙ same k ∙ ap (of_kind k) known_then,
        ap (λ x. HappyEyeballs.dns x) kept ∙ dns_same ∙ dns_then,
      )

  run_order :
      (ins : List (Input E S)) (h : HappyEyeballs)
      → (last : HappyEyeballs) × (run ins h ≡ some last)
        × ((kind : LastAttempted)
            → of_kind kind (known last) ≡ of_kind kind (known h ++ resolved ins h.dns))
  unfolding run
  run_order [] h = (h, refl, λ k. ap (of_kind k) (sym (append-nil (known h))))
  run_order (i ∷ ins) h =
      let ((h', polled), found, same, dns) = poll_next-Polled i h in
      let (last, ran, order) = run_order ins h' in
      (
        last,
        rw (found, run) ran,
        λ k.
            order k
            ∙ of_kind-append k (known h') (resolved ins h'.dns)
            ∙ ap (λ l. l ++ of_kind k (resolved ins h'.dns)) (same k)
            ∙ sym (of_kind-append k (known h ++ heard i h.dns) (resolved ins h'.dns))
            ∙ ap (of_kind k) (append_assoc (known h) (heard i h.dns) (resolved ins h'.dns))
            ∙ ap (λ b. of_kind k (known h ++ (heard i h.dns ++ resolved ins b))) dns,
      )

  -- However the resolver, the sockets and the timer behave, every poll ends, and of each family the
  -- addresses that were attempted, followed by those that wait, are those that the resolver yielded, in
  -- order: none is attempted twice, and none is lost.
  pub run-new_order :
      (ins : List (Input E S))
      → (last : HappyEyeballs) × (run ins new ≡ some last)
        × ((kind : LastAttempted)
            → of_kind kind (last.attempted ++ last.dns_received) ≡ of_kind kind (resolved ins true))
  unfolding new
  run-new_order ins = run_order ins new
