-- ===== src/Handler/Delay.antt =====
-- watermelon/src/handler/delayed.rs. The timer is its deadline, and the clock is an argument.
use watermelon.Prelude.{
  ℕ, ◌+◌, ◌≤◌, ◌<◌, ◌==◌, Bool, true, false, Option, none, some, leb, if◌then◌else◌, ◌≡◌, arith,
}

pub record DelayedInner : Type 0 where
  pub duration : ℕ
  pub delay : ℕ
  pub delay_consumed : Bool

pub record Delayed : Type 0 where
  pub inner : Option DelayedInner

unfoldable pub new : ℕ → ℕ → Delayed
new now duration = if duration == 0 then record { inner = none } else record {
  inner = some (record { duration = duration; delay = now + duration; delay_consumed = true });
}

-- a consumed delay starts anew
unfoldable pub rearm : ℕ → DelayedInner → DelayedInner
rearm now i =
    if i.delay_consumed then record i { delay = now + i.duration; delay_consumed = false } else i

-- The flag says whether the poll is ready.
unfoldable pub poll_can_proceed : ℕ → Delayed → Delayed × Bool
unfolding rearm
poll_can_proceed now d = elim d.inner [
  | none ↦ (d, true)
  | some i ↦
      let i' = rearm now i in
      if leb i'.delay now
      then (record { inner = some (record i' { delay_consumed = true }) }, true)
      else (record { inner = some i' }, false)
]

-- A new delay of a positive duration never proceeds at the poll that starts it. It proceeds at a later
-- poll exactly when the duration has passed since, and the poll after that starts the wait anew.
pub poll_can_proceed-new :
    (made first now again duration : ℕ)
    → 1 ≤ duration
    → let armed : Delayed = record {
      inner =
          some (record { duration = duration; delay = first + duration; delay_consumed = false });
    } in
      let done : Delayed = record {
        inner =
            some (record { duration = duration; delay = first + duration; delay_consumed = true });
      } in
      (poll_can_proceed first (new made duration) ≡ (armed, false))
      × (now < first + duration → poll_can_proceed now armed ≡ (armed, false))
      × (first + duration ≤ now → poll_can_proceed now armed ≡ (done, true))
      × (poll_can_proceed again done ≡ (
        record {
          inner =
              some
                (record { duration = duration; delay = again + duration; delay_consumed = false });
        },
        false,
      ))
unfolding poll_can_proceed new
poll_can_proceed-new made first now again duration h = ground arith
