-- ===== src/Jetstream/Consumers/Returned.antt =====
-- watermelon/src/client/jetstream/resources/consumer.rs: what is read back of a configuration that was
-- written.
use watermelon.Prelude.{ℕ, Option, none, some, ◌≡◌, arith}
use watermelon.Jetstream.Consumers.{ℤ, serialize_number, deserialize_number}

-- A number that is written is read as it was, and so is the absence of one.
deserialize_number-serialize_number :
    (bits : ℕ) (n : Option ℕ) (z : ℤ)
    → serialize_number bits n ≡ some z
    → deserialize_number z ≡ some n
unfolding deserialize_number serialize_number
deserialize_number-serialize_number bits none z h = ground arith
deserialize_number-serialize_number bits (some n) z h = ground arith
