-- ===== src/Proto.antt =====
-- watermelon-proto/src/message.rs, proto/client.rs and proto/server.rs: messages and operations.
pub mod Decoder
pub mod Encoder
use watermelon.Prelude.{ℕ, Option, Bytes}
use watermelon.Subject.{Subject}
use watermelon.QueueGroup.{QueueGroup}
use watermelon.StatusCode.{StatusCode}
use watermelon.SubscriptionId.{SubscriptionId}
use watermelon.ServerError.{ServerError}
use watermelon.Headers.Map.{HeaderMap}

pub record MessageBase : Type 0 where
  pub subject : Subject
  pub reply_subject : Option Subject
  pub headers : HeaderMap
  pub payload : Bytes

pub record ServerMessage : Type 0 where
  pub status_code : Option StatusCode
  pub status_description : Option Bytes
  pub subscription_id : SubscriptionId
  pub base : MessageBase

-- `I` is `ServerInfo`.
pub data ServerOp (I : Type 0) : Type 0 where
  info : I → ServerOp I
  message : ServerMessage → ServerOp I
  success : ServerOp I
  error : ServerError → ServerOp I
  ping pong : ServerOp I

-- `C` is `Connect`. The `NonZero<u64>` of an unsubscription is a number.
pub data ClientOp (C : Type 0) : Type 0 where
  connect : C → ClientOp C
  publish : MessageBase → ClientOp C
  subscribe : SubscriptionId → Subject → Option QueueGroup → ClientOp C
  unsubscribe : SubscriptionId → Option ℕ → ClientOp C
  ping pong : ClientOp C
