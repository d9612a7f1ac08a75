-- ===== src/HappyEyeballs/Order.antt =====
-- watermelon-net/src/happy_eyeballs.rs: which addresses are attempted, and in what order.
use mathlib.Core.Option.{some-injective}
use watermelon.Prelude.{
  ℕ, zero, suc, ◌==◌, Bool, true, false, List, [], ◌∷◌, ◌++◌, Option, none, some, if◌then◌else◌,
  Result, ◌≡◌, inl, inr, refl, sym, ap, ◌∙◌, arith, append_assoc, Bool-cases, Option-cases,
}
use watermelon.HappyEyeballs.{
  SocketAddr, LastAttempted, ipv4, ipv6, HappyEyeballs, Round, Step, stops, goes, yields, from_addr,
  same_kind, next_kind, remove_kind, choose, next_dns_record, attempt, round, attempts,
}

-- the addresses of a kind, in order
unfoldable pub of_kind : LastAttempted → List SocketAddr → List SocketAddr
unfolding from_addr same_kind
of_kind kind [] = []
of_kind kind (a ∷ rest) =
    if same_kind (from_addr a) kind then a ∷ of_kind kind rest else of_kind kind rest

pub of_kind-append :
    (kind : LastAttempted) (xs ys : List SocketAddr)
    → of_kind kind (xs ++ ys) ≡ of_kind kind xs ++ of_kind kind ys
unfolding of_kind
of_kind-append kind [] ys = refl
of_kind-append kind (a ∷ rest) ys = ground (arith, of_kind-append kind rest ys)

-- a list and a choice from it have the same addresses of each kind, in the same order
abbrev Picks : List SocketAddr → SocketAddr × List SocketAddr → Type 0
Picks l (a, rest) = (kind : LastAttempted) → of_kind kind l ≡ of_kind kind (a ∷ rest)

abbrev PicksKind : LastAttempted → List SocketAddr → Option (SocketAddr × List SocketAddr) → Type 0
PicksKind kind l none = of_kind kind l ≡ []
PicksKind kind l (some (a, rest)) = (from_addr a ≡ kind) × Picks l (a, rest)

same_kind_refl : (x kind : LastAttempted) → same_kind x kind ≡ true → x ≡ kind
unfolding same_kind
same_kind_refl ipv4 ipv4 h = refl
same_kind_refl ipv6 ipv6 h = refl
same_kind_refl ipv4 ipv6 h = cc
same_kind_refl ipv6 ipv4 h = cc

not_both :
    (x kind k : LastAttempted)
    → same_kind x kind ≡ false
    → same_kind x k ≡ true
    → same_kind kind k ≡ false
unfolding same_kind
not_both ipv4 ipv4 k h e = cc
not_both ipv6 ipv6 k h e = cc
not_both ipv4 ipv6 ipv4 h e = refl
not_both ipv4 ipv6 ipv6 h e = cc
not_both ipv6 ipv4 ipv4 h e = cc
not_both ipv6 ipv4 ipv6 h e = refl

-- an address that is skipped stands behind the one that is found
pass_over :
    (p q : Bool) (a b : SocketAddr) (x y : List SocketAddr)
    → x ≡ (if q then b ∷ y else y)
    → (p ≡ true → q ≡ false)
    → (if p then a ∷ x else x)
      ≡ (if q then b ∷ (if p then a ∷ y else y) else (if p then a ∷ y else y))
pass_over true true a b x y e apart = absurd (let no = apart refl in cc)
pass_over true false a b x y e apart = ap (◌∷◌ a) e
pass_over false true a b x y e apart = e
pass_over false false a b x y e apart = e

skip :
    (a : SocketAddr) (kind : LastAttempted) (l : List SocketAddr)
    (found : Option (SocketAddr × List SocketAddr))
    → same_kind (from_addr a) kind ≡ false
    → PicksKind kind l found
    → PicksKind kind (a ∷ l) (elim found [ none ↦ none | some (b, others) ↦ some (b, a ∷ others) ])
unfolding of_kind from_addr same_kind
skip a kind l none other none_there = rw other none_there
skip a kind l (some (b, others)) other (is_kind, picks) = (
  is_kind,
  λ k.
      pass_over (same_kind (from_addr a) k) (same_kind (from_addr b) k) a b (of_kind k l)
        (of_kind k others) (picks k)
        (λ same. ap (λ x. same_kind x k) is_kind ∙ not_both (from_addr a) kind k other same),
)

remove_kind-PicksKind :
    (kind : LastAttempted) (l : List SocketAddr) → PicksKind kind l (remove_kind kind l)
unfolding remove_kind of_kind
remove_kind-PicksKind kind [] = refl
remove_kind-PicksKind kind (a ∷ rest) = elim (Bool-cases (same_kind (from_addr a) kind)) [
  | inl same ↦ rw same (same_kind_refl (from_addr a) kind same, λ k. refl)
  | inr other ↦
      rw other (skip a kind rest (remove_kind kind rest) other (remove_kind-PicksKind kind rest))
]

choose-Picks :
    (last : Option LastAttempted) (l : List SocketAddr) (found : SocketAddr × List SocketAddr)
    → choose last l ≡ some found
    → Picks l found
unfolding choose
choose-Picks last [] found e = absurd (cc)
choose-Picks last (a ∷ rest) found e =
    chosen (remove_kind (next_kind last) (a ∷ rest))
      (remove_kind-PicksKind (next_kind last) (a ∷ rest)) e
  where
    chosen :
        (o : Option (SocketAddr × List SocketAddr))
        → PicksKind (next_kind last) (a ∷ rest) o
        → elim o [ some f ↦ some f | none ↦ some (a, rest) ] ≡ some found
        → Picks (a ∷ rest) found
    chosen none picks e = λ k. ap (λ p. of_kind k (p.0 ∷ p.1)) (some-injective (a, rest) found e)
    chosen (some f) picks e =
        λ k. picks.1 k ∙ ap (λ p. of_kind k (p.0 ∷ p.1)) (some-injective f found e)

-- the addresses that were attempted, and those that wait
abbrev pub known : HappyEyeballs → List SocketAddr
known h = h.attempted ++ h.dns_received

-- nothing is lost, repeated or, within a kind, moved
abbrev pub Same : HappyEyeballs → HappyEyeballs → Type 0
Same h h' =
    ((kind : LastAttempted) → of_kind kind (known h') ≡ of_kind kind (known h)) × (h'.dns ≡ h.dns)

-- an address that is chosen moves from the one list to the other
move :
    (tried l rest : List SocketAddr) (a : SocketAddr) (kind : LastAttempted)
    → of_kind kind l ≡ of_kind kind (a ∷ rest)
    → of_kind kind ((tried ++ a ∷ []) ++ rest) ≡ of_kind kind (tried ++ l)
move tried l rest a kind picks =
    ap (of_kind kind) (append_assoc tried (a ∷ []) rest)
    ∙ of_kind-append kind tried (a ∷ rest)
    ∙ ap (◌++◌ (of_kind kind tried)) (sym picks)
    ∙ sym (of_kind-append kind tried l)

module _ (E S : Type 0) where
  attempt-Same : (h : HappyEyeballs) → Same h (attempt {E = E} {S = S} (next_dns_record h)).0
  unfolding attempt next_dns_record
  attempt-Same h = elim (Option-cases (choose h.last_attempted h.dns_received)) [
    | inl nothing ↦ rw (nothing, next_dns_record) (λ k. refl, refl)
    | inr (found, chosen) ↦
        rw (chosen, next_dns_record)
          (
            λ k.
                move h.attempted h.dns_received found.1 found.0 k
                  (choose-Picks h.last_attempted h.dns_received found chosen k),
            refl,
          )
  ]

  round-Same : (r : Round E S) (h : HappyEyeballs) → Same h (round r h).0
  unfolding round
  round-Same r h = elim (Bool-cases (h.connecting == 0)) [
    | inl idle ↦ rw idle (attempt-Same h)
    | inr busy ↦ elim (Option-cases r.joined) [
      | inr (conn, joined) ↦ rw (busy, joined) (λ k. refl, refl)
      | inl running ↦ elim (Bool-cases h.next_attempt_delay) [
        | inl delays ↦ elim (Bool-cases r.elapsed) [
          | inl over ↦
              rw (busy, running, delays, over)
                (attempt-Same (record h { next_attempt_delay = false }))
          | inr waits ↦ rw (busy, running, delays, waits) (λ k. refl, refl)
        ]
        | inr free ↦
            rw (busy, running, free) (attempt-Same (record h { next_attempt_delay = false }))
      ]
    ]
  ]

  abbrev pub SameAs : HappyEyeballs → Option (HappyEyeballs × Option (Result E S)) → Type 0
  SameAs h none = Unit
  SameAs h (some (h', conn)) = Same h h'

  onward-SameAs :
      (h h' : HappyEyeballs) (rest : Option (HappyEyeballs × Option (Result E S)))
      → Same h h'
      → SameAs h' rest
      → SameAs h rest
  onward-SameAs h h' none same later = tt
  onward-SameAs h h' (some (last, conn)) (kept, dns) (later, still) =
      (λ k. later k ∙ kept k, still ∙ dns)

  onward :
      (h h' : HappyEyeballs) (step : Step E S) (rest : Option (HappyEyeballs × Option (Result E S)))
      → Same h h'
      → SameAs h' rest
      → SameAs h
          (elim step [ stops ↦ some (h', none) | yields conn ↦ some (h', some conn) | goes ↦ rest ])
  onward h h' stops rest same later = same
  onward h h' (yields conn) rest same later = same
  onward h h' goes rest same later = onward-SameAs h h' rest same later

  pub attempts-SameAs :
      (fuel : ℕ) (rounds : ℕ → Round E S) (h : HappyEyeballs) → SameAs h (attempts fuel rounds h)
  unfolding attempts
  attempts-SameAs zero rounds h = tt
  attempts-SameAs (suc fuel) rounds h =
      let (h', step) = round (rounds fuel) h in
      onward h h' step (attempts fuel rounds h') (round-Same (rounds fuel) h)
        (attempts-SameAs fuel rounds h')
