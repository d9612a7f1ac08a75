-- ===== src/HappyEyeballs/Total.antt =====
-- watermelon-net/src/happy_eyeballs.rs: the loop of a poll ends.
use watermelon.Prelude.{
  ℕ, zero, suc, ◌<◌, ◌==◌, false, List, [], ◌∷◌, Option, none, some, length, ◌≡◌, inl, inr, refl,
  ap, arith, Bool-cases, Option-cases, Result,
}
use watermelon.HappyEyeballs.{
  SocketAddr, LastAttempted, HappyEyeballs, Round, Step, stops, goes, yields, from_addr, same_kind,
  next_kind, remove_kind, choose, next_dns_record, attempt, round, attempts,
}

abbrev Shorter : List SocketAddr → Option (SocketAddr × List SocketAddr) → Type 0
Shorter l none = Unit
Shorter l (some (a, rest)) = suc (length rest) ≡ length l

skip-Shorter :
    (a : SocketAddr) (l : List SocketAddr) (found : Option (SocketAddr × List SocketAddr))
    → Shorter l found
    → Shorter (a ∷ l) (elim found [ none ↦ none | some (b, others) ↦ some (b, a ∷ others) ])
skip-Shorter a l none h = tt
skip-Shorter a l (some (b, others)) h = ap suc h

remove_kind-Shorter : (kind : LastAttempted) (l : List SocketAddr) → Shorter l (remove_kind kind l)
unfolding remove_kind
remove_kind-Shorter kind [] = tt
remove_kind-Shorter kind (a ∷ rest) = elim (Bool-cases (same_kind (from_addr a) kind)) [
  | inl same ↦ rw same refl
  | inr other ↦
      rw other (skip-Shorter a rest (remove_kind kind rest) (remove_kind-Shorter kind rest))
]

chosen-Shorter :
    (a : SocketAddr) (l : List SocketAddr) (o : Option (SocketAddr × List SocketAddr))
    → Shorter (a ∷ l) o
    → Shorter (a ∷ l) (elim o [ some f ↦ some f | none ↦ some (a, l) ])
chosen-Shorter a l none h = refl
chosen-Shorter a l (some f) h = h

choose-Shorter : (last : Option LastAttempted) (l : List SocketAddr) → Shorter l (choose last l)
unfolding choose
choose-Shorter last [] = tt
choose-Shorter last (a ∷ rest) =
    chosen-Shorter a rest (remove_kind (next_kind last) (a ∷ rest))
      (remove_kind-Shorter (next_kind last) (a ∷ rest))

module _ (E S : Type 0) where
  -- a round that goes on uses an address up
  abbrev Uses : HappyEyeballs → HappyEyeballs × Step E S → Type 0
  Uses h (h', stops) = Unit
  Uses h (h', yields conn) = Unit
  Uses h (h', goes) = suc (length h'.dns_received) ≡ length h.dns_received

  attempt-Uses : (h : HappyEyeballs) → Uses h (attempt {E = E} {S = S} (next_dns_record h))
  unfolding attempt next_dns_record
  attempt-Uses h = elim (Option-cases (choose h.last_attempted h.dns_received)) [
    | inl nothing ↦ rw (nothing, next_dns_record) tt
    | inr (found, chosen) ↦
        rw (chosen, next_dns_record) (rw chosen at (choose-Shorter h.last_attempted h.dns_received))
  ]

  round-Uses : (r : Round E S) (h : HappyEyeballs) → Uses h (round r h)
  unfolding round
  round-Uses r h = elim (Bool-cases (h.connecting == 0)) [
    | inl idle ↦ rw idle (attempt-Uses h)
    | inr busy ↦ elim (Option-cases r.joined) [
      | inr (conn, joined) ↦ rw (busy, joined) tt
      | inl running ↦ elim (Bool-cases h.next_attempt_delay) [
        | inl delays ↦ elim (Bool-cases r.elapsed) [
          | inl over ↦
              rw (busy, running, delays, over)
                (attempt-Uses (record h { next_attempt_delay = false }))
          | inr waits ↦ rw (busy, running, delays, waits) tt
        ]
        | inr free ↦
            rw (busy, running, free) (attempt-Uses (record h { next_attempt_delay = false }))
      ]
    ]
  ]

  abbrev pub Ends : Option (HappyEyeballs × Option (Result E S)) → Type 0
  Ends o = (result : HappyEyeballs × Option (Result E S)) × (o ≡ some result)

  onward-Ends :
      (h h' : HappyEyeballs) (step : Step E S) (fuel : ℕ)
      (rest : Option (HappyEyeballs × Option (Result E S)))
      → Uses h (h', step)
      → length h.dns_received < suc fuel
      → (length h'.dns_received < fuel → Ends rest)
      → Ends
          (elim step [ stops ↦ some (h', none) | yields conn ↦ some (h', some conn) | goes ↦ rest ])
  onward-Ends h h' stops fuel rest uses room later = ((h', none), refl)
  onward-Ends h h' (yields conn) fuel rest uses room later = ((h', some conn), refl)
  onward-Ends h h' goes fuel rest uses room later = later (omega arith)

  pub attempts-Ends :
      (fuel : ℕ) (rounds : ℕ → Round E S) (h : HappyEyeballs)
      → length h.dns_received < fuel
      → Ends (attempts fuel rounds h)
  unfolding attempts
  attempts-Ends zero rounds h room = absurd (omega arith)
  attempts-Ends (suc fuel) rounds h room =
      let (h', step) = round (rounds fuel) h in
      onward-Ends h h' step fuel (attempts fuel rounds h') (round-Uses (rounds fuel) h) room
        (attempts-Ends fuel rounds h')
