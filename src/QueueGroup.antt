-- ===== src/QueueGroup.antt =====
-- watermelon-proto/src/queue_group.rs. The loop over the bytes is that of `Subject`.
use watermelon.Prelude.{
  [], ◌∷◌, false, All, ◌≡◌, ◌≢◌, ◌↔◌, arith, Bytes, is_empty, if◌then◌else◌, Result, ok, err, ◌>>=◌,
}
use watermelon.Subject.{has_delimiter, is_delimiter}
use watermelon.Subject.Grammar.{has_delimiter_iff}

pub record QueueGroup : Type 0 where
  pub text : Bytes

pub data QueueGroupValidateError : Type 0 where
  empty illegal_character : QueueGroupValidateError

unfoldable pub validate_queue_group : Bytes → Result QueueGroupValidateError (Unit {0})
unfolding has_delimiter
validate_queue_group queue_group =
    if is_empty queue_group
    then err empty
    else if has_delimiter queue_group
    then err illegal_character
    else ok tt

unfoldable pub from_dangerous_value : Bytes → QueueGroup
from_dangerous_value value = record { text = value }

unfoldable pub try_from : Bytes → Result QueueGroupValidateError QueueGroup
unfolding validate_queue_group from_dangerous_value
try_from value = do _ ← validate_queue_group value; ok (from_dangerous_value value)

-- A queue group is accepted exactly if it has a byte and none of its bytes delimits arguments; the
-- text is kept.
pub try_from_iff :
    (s : Bytes) (g : QueueGroup)
    → (try_from s ≡ ok g) ↔ ((s ≢ []) × All (λ c. is_delimiter c ≡ false) s × (g.text ≡ s))
unfolding try_from
try_from_iff [] g = ground arith
try_from_iff (c ∷ s) g = ground (arith, has_delimiter_iff (c ∷ s))
