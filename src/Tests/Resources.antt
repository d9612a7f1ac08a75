-- ===== src/Tests/Resources.antt =====
-- The theorem on the configuration of a consumer at a concrete one.
use watermelon.Prelude.{[], ◌∷◌, none, some, false, codes, ◌≡◌, refl}
use watermelon.Jetstream.Consumers.{
  ConsumerConfig, durable, all, explicit, instant, push, disk, serialize,
}

-- a durable consumer that pushes, with one filter
abbrev config : ConsumerConfig
config = record {
  durability = durable;
  name = codes "orders";
  description = [];
  deliver_policy = all;
  ack_policy = explicit 30 (some 1000);
  max_deliver = none;
  backoff = [];
  filter_subjects = codes "orders.*" ∷ [];
  replay_policy = instant;
  rate_limit = none;
  headers_only = false;
  specs = push (codes "deliver") none false 5;
  inactive_threshold = 0;
  replicas = some 3;
  storage = disk;
  metadata = [];
}

-- The single filter is written in the singular.
filter_is_singular :
    ((serialize config).filter_subject ≡ some (codes "orders.*"))
    × ((serialize config).filter_subjects ≡ [])
unfolding serialize
filter_is_singular = (refl, refl)
