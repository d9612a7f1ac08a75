-- ===== src/Handler/Ping.antt =====
-- watermelon/src/handler/pinger.rs. The timer is its deadline, and the clock is an argument: it stands
-- still within one call. The times are in any unit in which `interval` is the ten seconds.
use watermelon.Prelude.{
  ℕ, ◌+◌, ◌-◌, ◌≤◌, ◌<◌, Bool, true, false, List, [], ◌∷◌, ltb, if◌then◌else◌, ◌≡◌, arith,
}

pub record Pinger : Type 0 where
  pub deadline : ℕ
  pub pending_pings : ℕ

pub data PingOutcome : Type 0 where
  ok too_many_in_flight_pings : PingOutcome

abbrev pub interval : ℕ
interval = 10

unfoldable pub new : ℕ → Pinger
new now = record { deadline = now + interval; pending_pings = 0 }

unfoldable pub reset : ℕ → Pinger → Pinger
reset now p = record p { deadline = now + interval }

-- `saturating_sub`
unfoldable pub handle_pong : Pinger → Pinger
handle_pong p = record p { pending_pings = p.pending_pings - 1 }

-- The flag says whether the callback that sends a `PING` was called. The loop around `reset` ends at
-- once, since a timer that was just set is pending.
do_ping : ℕ → Pinger → Pinger × PingOutcome × Bool
unfolding reset
do_ping now p =
    if ltb p.pending_pings 2
    then (reset now (record p { pending_pings = p.pending_pings + 1 }), ok, true)
    else (p, too_many_in_flight_pings, false)

unfoldable pub poll : ℕ → Pinger → Pinger × PingOutcome × Bool
unfolding do_ping
poll now p = if ltb now p.deadline then (p, ok, false) else do_ping now p

-- What happens to a pinger, each at its time.
pub data Event : Type 0 where
  polled received_pong read : Event

unfoldable pub next : ℕ → Event → Pinger → Pinger
unfolding poll handle_pong reset
next now polled p = (poll now p).0
next now received_pong p = handle_pong p
next now read p = reset now p

unfoldable pub run : List (ℕ × Event) → Pinger → Pinger
unfolding next
run [] p = p
run ((now, e) ∷ events) p = run events (next now e p)

-- A poll sends nothing before the deadline. At the deadline it sends a ping, counts it and waits for a
-- whole interval anew, unless two are unanswered: then it gives up.
pub poll-cases :
    (now : ℕ) (p : Pinger)
    → (now < p.deadline → poll now p ≡ (p, ok, false))
      × (p.deadline ≤ now
          → p.pending_pings < 2
          → poll now p
            ≡ (record { deadline = now + interval; pending_pings = p.pending_pings + 1 }, ok, true))
      × (p.deadline ≤ now → 2 ≤ p.pending_pings → poll now p ≡ (p, too_many_in_flight_pings, false))
unfolding poll
poll-cases now p = ground arith
