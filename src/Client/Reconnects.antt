-- ===== src/Client/Reconnects.antt =====
-- watermelon/src/client/mod.rs: the task that drives the handler, and the loop of `connect` that
-- establishes a connection anew. Durations are in seconds; what the attempts come to is an argument.
use watermelon.Prelude.{
  ℕ, zero, suc, ◌*◌, ◌≤◌, min, List, [], ◌∷◌, Option, none, some, length, ltb, if◌then◌else◌, ◌≡◌,
  refl, ap, arith,
}
use watermelon.Handler.{HandlerOutput, server_error, unexpected_state, disconnected, closed}

abbrev pub min_reconnect_delay : ℕ
min_reconnect_delay = 1

abbrev pub max_reconnect_delay : ℕ
max_reconnect_delay = 60

-- what a round of the loop meets: a shutdown while it waits, or the outcome of `Handler::connect`
pub data Attempt : Type 0 where
  shut_down_waiting connects shut_down_connecting fails : Attempt

-- how the loop ends
pub data Connected : Type 0 where
  connected shut_down : Connected

unfoldable pub next_delay : ℕ → ℕ
next_delay delay =
    if ltb delay min_reconnect_delay
    then min_reconnect_delay
    else min (delay * 2) max_reconnect_delay

-- The delays that are waited for, and how the loop ends; `none` if it goes on beyond the attempts.
unfoldable pub connect : List Attempt → ℕ → List ℕ × Option Connected
unfolding next_delay
connect [] delay = ([], none)
connect (shut_down_waiting ∷ attempts) delay = (delay ∷ [], some shut_down)
connect (connects ∷ attempts) delay = (delay ∷ [], some connected)
connect (shut_down_connecting ∷ attempts) delay = (delay ∷ [], some shut_down)
connect (fails ∷ attempts) delay =
    let (waits, end) = connect attempts (next_delay delay) in (delay ∷ waits, end)

-- The delay of `connect` behind an output of the handler; `none` if the task ends.
unfoldable pub resumes : HandlerOutput → Option ℕ
resumes server_error = some min_reconnect_delay
resumes disconnected = some min_reconnect_delay
resumes unexpected_state = some min_reconnect_delay
resumes closed = none

abbrev pub power : ℕ → ℕ
power zero = 1
power (suc k) = 2 * power k

-- `count` delays from the one behind `k` failures on: each is twice the one before it, up to a minute
abbrev pub backoff : ℕ → ℕ → List ℕ
backoff k zero = []
backoff k (suc count) = min (power k) 60 ∷ backoff (suc k) count

next_delay-power : (k : ℕ) → next_delay (min (power k) 60) ≡ min (power (suc k)) 60
unfolding next_delay
next_delay-power zero = refl
next_delay-power (suc k) = ground (arith, power_pos k)
  where
    power_pos : (j : ℕ) → 1 ≤ power j
    power_pos zero = omega arith
    power_pos (suc j) = omega (arith, power_pos j)

waits_from :
    (attempts : List Attempt) (k : ℕ)
    → let waits = (connect attempts (min (power k) 60)).0 in waits ≡ backoff k (length waits)
unfolding connect
waits_from [] k = refl
waits_from (shut_down_waiting ∷ attempts) k = refl
waits_from (connects ∷ attempts) k = refl
waits_from (shut_down_connecting ∷ attempts) k = refl
waits_from (fails ∷ attempts) k =
    rw (next_delay-power k) (ap (◌∷◌ (min (power k) 60)) (waits_from attempts (suc k)))

-- After a lost connection the client waits one second before its first attempt, and before each
-- further attempt twice as long as before the last, but a minute at most. Before its first attempt
-- ever, where it does not wait, the same delays follow.
pub connect-backoff :
    (attempts : List Attempt)
    → (let waits = (connect attempts min_reconnect_delay).0 in waits ≡ backoff 0 (length waits))
      × (let waits = (connect (fails ∷ attempts) 0).0 in
          waits ≡ 0 ∷ (connect attempts min_reconnect_delay).0)
unfolding connect next_delay
connect-backoff attempts = (waits_from attempts 0, refl)
