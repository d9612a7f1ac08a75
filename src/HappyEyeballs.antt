-- ===== src/HappyEyeballs.antt =====
-- watermelon-net/src/happy_eyeballs.rs: connecting to one of the addresses of a host. What the resolver,
-- the sockets and the timer answer are arguments. A set of running tasks is their number, and
-- `attempted` logs the addresses that were connected to.
pub mod Order
pub mod Total
pub mod Runs
use watermelon.Prelude.{
  ℕ, zero, suc, ◌+◌, ◌-◌, ◌==◌, ◌&&◌, Bool, true, false, not, List, [], ◌∷◌, ◌++◌, Option, none,
  some, if◌then◌else◌, Result, ok, err,
}

-- an address: the number of the host, and the port
pub data SocketAddr : Type 0 where
  v4 v6 : ℕ → ℕ → SocketAddr

pub data LastAttempted : Type 0 where
  ipv4 ipv6 : LastAttempted

-- `dns` says whether the resolver may still yield, `next_attempt_delay` whether the timer is set.
pub record HappyEyeballs : Type 0 where
  pub dns : Bool
  pub dns_received : List SocketAddr
  pub connecting : ℕ
  pub last_attempted : Option LastAttempted
  pub next_attempt_delay : Bool
  pub attempted : List SocketAddr

-- what a round of the loop meets: a task that has ended, and whether the timer has run out
pub record Round (E S : Type 0) : Type 0 where
  pub joined : Option (Result E S)
  pub elapsed : Bool

-- how a round ends
pub data Step (E S : Type 0) : Type 0 where
  stops goes : Step E S
  yields : Result E S → Step E S

pub data Poll (E S : Type 0) : Type 0 where
  pending ended : Poll E S
  item : Result E S → Poll E S

unfoldable pub new : HappyEyeballs
new = record {
  dns = true;
  dns_received = [];
  connecting = 0;
  last_attempted = none;
  next_attempt_delay = false;
  attempted = [];
}

unfoldable pub from_addr : SocketAddr → LastAttempted
from_addr (v4 host port) = ipv4
from_addr (v6 host port) = ipv6

unfoldable pub opposite : LastAttempted → LastAttempted
opposite ipv4 = ipv6
opposite ipv6 = ipv4

-- `==` of `LastAttempted`
unfoldable pub same_kind : LastAttempted → LastAttempted → Bool
same_kind ipv4 ipv4 = true
same_kind ipv6 ipv6 = true
same_kind ipv4 ipv6 = false
same_kind ipv6 ipv4 = false

unfoldable pub next_kind : Option LastAttempted → LastAttempted
unfolding opposite
next_kind none = ipv6
next_kind (some last) = opposite last

-- the first address of a kind, and the others
unfoldable pub remove_kind : LastAttempted → List SocketAddr → Option (SocketAddr × List SocketAddr)
unfolding from_addr same_kind
remove_kind kind [] = none
remove_kind kind (a ∷ rest) =
    let later = remove_kind kind rest in
    if same_kind (from_addr a) kind
    then some (a, rest)
    else elim later [ none ↦ none | some (b, others) ↦ some (b, a ∷ others) ]

-- the address that is tried next, and the others
unfoldable pub choose :
    Option LastAttempted → List SocketAddr → Option (SocketAddr × List SocketAddr)
unfolding remove_kind next_kind
choose last [] = none
choose last (a ∷ rest) = elim (remove_kind (next_kind last) (a ∷ rest)) [
  | some found ↦ some found
  | none ↦ some (a, rest)
]

unfoldable pub next_dns_record : HappyEyeballs → HappyEyeballs × Option SocketAddr
unfolding choose from_addr
next_dns_record h = elim (choose h.last_attempted h.dns_received) [
  | none ↦ (h, none)
  | some (a, rest) ↦ (record h { dns_received = rest; last_attempted = some (from_addr a) }, some a)
]

-- the resolver yields these, and then it is pending or ends
unfoldable pub receive : List SocketAddr → Bool → HappyEyeballs → HappyEyeballs
receive records ends h =
    if h.dns then record h { dns_received = h.dns_received ++ records; dns = not ends } else h

unfoldable pub is_terminated : HappyEyeballs → Bool
is_terminated h = not h.dns && (h.connecting == 0 && not h.next_attempt_delay)

module _ {E S : Type 0} where
  -- the next attempt, if there is an address
  unfoldable pub attempt : HappyEyeballs × Option SocketAddr → HappyEyeballs × Step E S
  attempt (h, none) = (record h { next_attempt_delay = false }, stops)
  attempt (h, some a) = (
    record h {
      connecting = h.connecting + 1;
      attempted = h.attempted ++ a ∷ [];
      next_attempt_delay = true;
    },
    goes,
  )

  -- a round of the loop
  unfoldable pub round : Round E S → HappyEyeballs → HappyEyeballs × Step E S
  unfolding attempt next_dns_record
  round r h =
      let next = attempt (next_dns_record h) in
      let without_delay = record h { next_attempt_delay = false } in
      let delayed = attempt (next_dns_record without_delay) in
      if h.connecting == 0 then next else elim r.joined [
        | some conn ↦ (record h { connecting = h.connecting - 1 }, yields conn)
        | none ↦ if h.next_attempt_delay then if r.elapsed then delayed else (h, stops) else next
      ]

  -- The loop, on fuel: the rounds meet what the function says. `none`: there is not enough fuel.
  unfoldable pub attempts :
      ℕ → (ℕ → Round E S) → HappyEyeballs → Option (HappyEyeballs × Option (Result E S))
  unfolding round
  attempts zero rounds h = none
  attempts (suc fuel) rounds h =
      let (h', step) = round (rounds fuel) h in
      let rest = attempts fuel rounds h' in
      elim step [ stops ↦ some (h', none) | yields conn ↦ some (h', some conn) | goes ↦ rest ]

  -- behind the loop
  unfoldable pub conclude : HappyEyeballs × Option (Result E S) → HappyEyeballs × Poll E S
  unfolding is_terminated
  conclude (h, some conn) = (h, item conn)
  conclude (h, none) = if is_terminated h then (h, ended) else (h, pending)

  unfoldable pub poll_next :
      ℕ
      → List SocketAddr
      → Bool
      → (ℕ → Round E S)
      → HappyEyeballs
      → Option (HappyEyeballs × Poll E S)
  unfolding receive attempts conclude
  poll_next fuel records ends rounds h = elim (attempts fuel rounds (receive records ends h)) [
    | none ↦ none
    | some result ↦ some (conclude result)
  ]

  -- `connect` to a name, over what the stream yields before it ends; `none` if it is pending.
  -- The first argument is the last error, at first that of a name without addresses.
  unfoldable pub connect : E → List (Poll E S) → Option (Result E S)
  connect last_err [] = none
  connect last_err (pending ∷ polls) = connect last_err polls
  connect last_err (ended ∷ polls) = some (err last_err)
  connect last_err (item (ok conn) ∷ polls) = some (ok conn)
  connect last_err (item (err e) ∷ polls) = connect e polls
