-- ===== src/SubscriptionId.antt =====
-- watermelon-proto/src/subscription_id.rs. The number is a `u64`.
use watermelon.Prelude.{ℕ, Bytes, Result, ok, ◌>>=◌}
use watermelon.Wire.Uint.{ParseUintError, parse_u64, parse_unsigned, max_u64}

pub record SubscriptionId : Type 0 where
  pub id : ℕ

abbrev pub min_id : SubscriptionId
min_id = record { id = 1 }

abbrev pub max_id : SubscriptionId
max_id = record { id = max_u64 }

unfoldable pub from_ascii_bytes : Bytes → Result ParseUintError SubscriptionId
unfolding parse_unsigned
from_ascii_bytes buf = do n ← parse_u64 buf; ok (record { id = n })
