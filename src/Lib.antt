-- ===== src/Lib.antt =====
-- A model of watermelon, a client of the NATS messaging system, and what it promises.
--
-- The crate watermelon-proto turns operations into bytes and bytes into operations. Its readers of
-- numbers, words and lines (watermelon-proto/src/util) are Wire.Uint, Wire.Spaces and Wire.Lines; its
-- list of buffers is BufList. Subject, QueueGroup, StatusCode, SubscriptionId, ServerError and Headers
-- are the checked types of watermelon-proto/src, each with its constructors (`try_from`,
-- `from_ascii_bytes`, `from_bytes`, `parse`) and the order of its checks. Proto holds the messages and
-- operations of message.rs, proto/server.rs and proto/client.rs.
--
-- Proto.Encoder is proto/encoder/mod.rs: `encode` over the trait `FrameEncoder`, which is an interface
-- (a record of the two methods, and a record of the laws that an implementation fills).
-- Proto.Encoder.Framed and Proto.Encoder.Stream are the two implementations, and Proto.Encoder.Wire
-- describes the text of each operation with no encoder in it.
--
-- Proto.Decoder is proto/decoder/mod.rs, stream.rs and framed.rs: Control reads the arguments of `MSG`
-- and `HMSG`, HeaderBlock the headers, Machine the loop of `decode`, where `step` is one round. Three
-- rounds are the most that a call makes, from a control line through the headers to a payload. A place
-- where the crate bytes panics is an outcome of its own there.
--
-- Handler is watermelon/src/handler/mod.rs: the state of `Handler`, `handle_server_op` and its arms;
-- Handler.Commands holds `connect` after the handshake, `recycle`, `failed_unsubscribe` and the arms of
-- `receive_command`; Handler.Runs lets `poll` make these calls in any order. Handler.Ping and
-- Handler.Delay are pinger.rs and delayed.rs, whose timers are their deadlines; QuickInfo is
-- watermelon/src/client/quick_info.rs. The operations that the handler enqueues are a list, in order;
-- Proto.Encoder.Stream says what becomes of them. A channel of tokio is a number, and what it does with
-- a value is an argument.
--
-- Handler.Polls is `poll` itself: Polls has `receive_command` and the writing loop over a Connection,
-- Whole the order of one call. What the clock, the channels, the socket and the scheduler of tokio
-- answer are fields of `Round` and `Inputs`; behind the rounds that are given the channel is empty and
-- the socket busy, so a call of the model ends where the code's loop ends.
--
-- Client is watermelon/src/client/mod.rs: each call that sends a command, which the channel takes or
-- not. Client.Subscribed is subscription.rs, Client.Publishes and Client.Requests are
-- client/commands/publish.rs and request.rs with multiplexed_subscription.rs, and Client.Reconnects is
-- the loop of `connect`. The commands of a Client are those that Handler.Commands carries out, and
-- Client.Requests.Registered follows a request from the one to the other.
--
-- Jetstream is watermelon/src/client/jetstream: mod.rs in Jetstream, the paged listings of
-- commands/stream_list.rs and consumer_list.rs in Listings, message.rs in Messages, consumer_batch.rs
-- and consumer_stream.rs in Batches, publish.rs in Publishes, and resources/consumer.rs in Consumers, up to the
-- record that serde writes and reads. A listing of n items ends within
-- twice n polls and one more.
--
-- Nkeys is watermelon-nkeys/src/seed.rs and crc.rs, with base32, the checksum and Ed25519 as the record
-- KeyCrates of functions and their laws as `IsKeyLawful`. Authenticator is
-- watermelon-mini/src/proto/authenticator.rs: credentials files and the answer to the server.
--
-- Connection is the writing half of watermelon-net/src/connection/streaming.rs: an encoder of the type
-- of Proto.Encoder.Stream in front of a socket, whose answers are arguments. Connection.Reads is the
-- reading half, a decoder of the type of Proto.Decoder.Machine behind a socket. Connection.Websocket is
-- websocket.rs, whose frames are messages of a websocket.
--
-- ServerAddr is watermelon-proto/src/server_addr.rs, with the crate url as the record UrlCrates.
--
-- Handshake is watermelon-mini/src/proto/connector.rs and `connect` of
-- watermelon-net/src/connection/mod.rs, step by step, and Handshake.Composed their composition: what the network, TLS and the server answer is
-- an argument, and the operations that are written are logged with the connection they go over.
--
-- HappyEyeballs is watermelon-net/src/happy_eyeballs.rs: connecting to the addresses of a name. The loop of
-- a poll is on fuel, one more than the addresses that wait, and each round that goes on uses one up.
--
-- Numbers are natural numbers; the limits of `u16`, `u64` and `usize` (64 bits) are written out. Texts
-- and buffers are lists of bytes. The crates memchr, bytestring, itoa, unicase and serde_json are the
-- record Crates of functions, and `IsLawful` states the documented behaviour that the theorems use; the
-- tests have functions that fulfil it. `BTreeMap` is OrdMap, a list of entries in ascending order.
--
-- Not modelled: the JSON that serde derives (of ServerInfo, Connect and the resources of JetStream), the
-- resources other than a consumer's configuration, the choice between the two kinds of connection of
-- watermelon-net, the arms of the handler for a websocket, the options of the client's builder, and
-- `close` of the client and of the handler, which wait. The wrappers around publications and requests
-- that carry a client along are the client that each call takes.
pub mod Prelude
pub mod Wire
pub mod Crates
pub mod Subject
pub mod QueueGroup
pub mod ServerAddr
pub mod StatusCode
pub mod SubscriptionId
pub mod OrdMap
pub mod Headers
pub mod ServerError
pub mod BufList
pub mod Proto
pub mod QuickInfo
pub mod Handler
pub mod Nkeys
pub mod Authenticator
pub mod Connection
pub mod HappyEyeballs
pub mod Handshake
pub mod Client
pub mod Jetstream
pub mod Tests
