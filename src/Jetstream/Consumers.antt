-- ===== src/Jetstream/Consumers.antt =====
-- watermelon/src/client/jetstream/resources/consumer.rs: the configuration of a consumer, and the record
-- that its JSON is made of; and `nullable_number` of resources/mod.rs. A duration is its nanoseconds, a
-- timestamp a number, and `i32` a ℤ.
pub mod Returned
use watermelon.Prelude.{
  ℕ, zero, suc, ◌-◌, ◌^◌, ltb, Bool, false, List, [], ◌∷◌, Option, none, some, Bytes, is_empty,
  if◌then◌else◌, Result, ok, err, ◌>>=◌,
}

-- `pos n` is n, and `negsuc n` is -(n + 1)
pub data ℤ : Type 0 where
  pos negsuc : ℕ → ℤ

pub data ConsumerDurability : Type 0 where
  ephemeral durable : ConsumerDurability

pub data DeliverPolicy : Type 0 where
  all last last_per_subject new : DeliverPolicy
  start_sequence : ℕ → DeliverPolicy
  start_time : ℕ → DeliverPolicy

-- `no_ack` is `None`
pub data AckPolicy : Type 0 where
  explicit all : ℕ → Option ℕ → AckPolicy
  no_ack : AckPolicy

pub data ReplayPolicy : Type 0 where
  instant original : ReplayPolicy

pub data ConsumerStorage : Type 0 where
  disk memory : ConsumerStorage

pub data ConsumerSpecificConfig : Type 0 where
  pull : Option ℤ → Option ℤ → ℕ → Option ℤ → ConsumerSpecificConfig
  push : Bytes → Option Bytes → Bool → ℕ → ConsumerSpecificConfig

pub record ConsumerConfig : Type 0 where
  pub durability : ConsumerDurability
  pub name : Bytes
  pub description : Bytes
  pub deliver_policy : DeliverPolicy
  pub ack_policy : AckPolicy
  pub max_deliver : Option ℕ
  pub backoff : List ℕ
  pub filter_subjects : List Bytes
  pub replay_policy : ReplayPolicy
  pub rate_limit : Option ℕ
  pub headers_only : Bool
  pub specs : ConsumerSpecificConfig
  pub inactive_threshold : ℕ
  pub replicas : Option ℕ
  pub storage : ConsumerStorage
  pub metadata : List (Bytes × Bytes)

pub record RawConsumerConfig : Type 0 where
  pub name : Bytes
  pub durable_name : Bytes
  pub description : Bytes
  pub deliver_policy : DeliverPolicy
  pub ack_policy : AckPolicy
  pub max_deliver : Option ℕ
  pub backoff : List ℕ
  pub filter_subject : Option Bytes
  pub filter_subjects : List Bytes
  pub replay_policy : ReplayPolicy
  pub rate_limit : Option ℕ
  pub flow_control : Bool
  pub idle_heartbeat : ℕ
  pub headers_only : Bool
  pub max_waiting : Option ℤ
  pub max_request_batch : Option ℤ
  pub max_request_expires : ℕ
  pub max_request_max_bytes : Option ℤ
  pub deliver_subject : Option Bytes
  pub deliver_group : Option Bytes
  pub inactive_threshold : ℕ
  pub replicas : Option ℕ
  pub storage : ConsumerStorage
  pub metadata : List (Bytes × Bytes)

-- the two messages of `deserialize`
pub data ConfigError : Type 0 where
  both_filters no_name : ConfigError

unfoldable pub durable_name_of : ConsumerDurability → Bytes → Bytes
durable_name_of ephemeral name = []
durable_name_of durable name = name

-- `filter_subject` and `filter_subjects`
unfoldable pub split_filters : List Bytes → Option Bytes × List Bytes
split_filters (subject ∷ []) = (some subject, [])
split_filters [] = (none, [])
split_filters (subject ∷ another ∷ subjects) = (none, subject ∷ another ∷ subjects)

-- the fields for pulling and for pushing, those of the other kind at their defaults
unfoldable pub with_specs : ConsumerSpecificConfig → RawConsumerConfig → RawConsumerConfig
with_specs (pull waiting batch expires bytes) raw = record raw {
  max_waiting = waiting;
  max_request_batch = batch;
  max_request_expires = expires;
  max_request_max_bytes = bytes;
  deliver_subject = none;
  deliver_group = none;
  flow_control = false;
  idle_heartbeat = 0;
}
with_specs (push subject group flow heartbeat) raw = record raw {
  max_waiting = none;
  max_request_batch = none;
  max_request_expires = 0;
  max_request_max_bytes = none;
  deliver_subject = some subject;
  deliver_group = group;
  flow_control = flow;
  idle_heartbeat = heartbeat;
}

-- `serialize`, up to the record that serde writes
unfoldable pub serialize : ConsumerConfig → RawConsumerConfig
unfolding durable_name_of split_filters with_specs
serialize c =
    let (filter_subject, filter_subjects) = split_filters c.filter_subjects in
    with_specs c.specs (record {
      name = c.name;
      durable_name = durable_name_of c.durability c.name;
      description = c.description;
      deliver_policy = c.deliver_policy;
      ack_policy = c.ack_policy;
      max_deliver = c.max_deliver;
      backoff = c.backoff;
      filter_subject = filter_subject;
      filter_subjects = filter_subjects;
      replay_policy = c.replay_policy;
      rate_limit = c.rate_limit;
      flow_control = false;
      idle_heartbeat = 0;
      headers_only = c.headers_only;
      max_waiting = none;
      max_request_batch = none;
      max_request_expires = 0;
      max_request_max_bytes = none;
      deliver_subject = none;
      deliver_group = none;
      inactive_threshold = c.inactive_threshold;
      replicas = c.replicas;
      storage = c.storage;
      metadata = c.metadata;
    })

unfoldable pub join_filters : Option Bytes → List Bytes → Result ConfigError (List Bytes)
join_filters (some subject) [] = ok (subject ∷ [])
join_filters none subjects = ok subjects
join_filters (some subject) (another ∷ subjects) = err both_filters

unfoldable pub read_name : Bytes → Bytes → Result ConfigError (ConsumerDurability × Bytes)
read_name durable_name name =
    if is_empty durable_name
    then if is_empty name then err no_name else ok (ephemeral, name)
    else ok (durable, durable_name)

unfoldable pub read_specs : RawConsumerConfig → ConsumerSpecificConfig
read_specs raw = elim raw.deliver_subject [
  | some subject ↦ push subject raw.deliver_group raw.flow_control raw.idle_heartbeat
  | none ↦
      pull raw.max_waiting raw.max_request_batch raw.max_request_expires raw.max_request_max_bytes
]

-- `deserialize`, from the record that serde reads
unfoldable pub deserialize : RawConsumerConfig → Result ConfigError ConsumerConfig
unfolding join_filters read_name read_specs
deserialize raw = do
  filter_subjects ← join_filters raw.filter_subject raw.filter_subjects
  named ← read_name raw.durable_name raw.name
  ok (record {
    durability = named.0;
    name = named.1;
    description = raw.description;
    deliver_policy = raw.deliver_policy;
    ack_policy = raw.ack_policy;
    max_deliver = raw.max_deliver;
    backoff = raw.backoff;
    filter_subjects = filter_subjects;
    replay_policy = raw.replay_policy;
    rate_limit = raw.rate_limit;
    headers_only = raw.headers_only;
    specs = read_specs raw;
    inactive_threshold = raw.inactive_threshold;
    replicas = raw.replicas;
    storage = raw.storage;
    metadata = raw.metadata;
  })

-- `nullable_number` at the bits of the number: `none` is that it cannot be converted
unfoldable pub serialize_number : ℕ → Option ℕ → Option ℤ
serialize_number bits none = some (negsuc 0)
serialize_number bits (some n) = if ltb n (2 ^ (bits - 1)) then some (pos n) else none

unfoldable pub deserialize_number : ℤ → Option (Option ℕ)
deserialize_number (pos n) = some (some n)
deserialize_number (negsuc zero) = some none
deserialize_number (negsuc (suc n)) = none
