-- ===== src/Tests/Websocket.antt =====
-- The theorem on a websocket that stops taking frames at a concrete input.
use watermelon.Prelude.{
  ℕ, Bytes, List, [], ◌∷◌, ◌++◌, Option, none, some, Bool, false, Result, err, codes, map, ◌≡◌,
  refl,
}
use watermelon.Proto.{ClientOp}
use watermelon.Proto
use watermelon.Proto.Encoder.Framed
use watermelon.Proto.Encoder.Wire.{wire}
use watermelon.Connection.Websocket.{
  WebsocketConnection, io, Item, Poll, ready, may_enqueue_more_ops, poll_flush, poll_read_next,
}
use watermelon.Connection.Websocket.Failures.{first_failure, accepted, enqueues, enqueues-cases}
use watermelon.Tests.Instance.{crates}

-- the second of three operations is refused
abbrev operations : List (ClientOp Bytes × Option ℕ)
operations =
    (Proto.ClientOp.ping, none) ∷ (Proto.ClientOp.pong, some 7) ∷ (Proto.ClientOp.ping, none) ∷ []

abbrev connection : WebsocketConnection ℕ
connection = record {
  encoder = record { buf = [] };
  residual_frame = codes "PING\r\n";
  should_flush = false;
  send_error = none;
  sent = [];
}

idle_encoder : connection.encoder ≡ Framed.new
unfolding Framed.new
idle_encoder = refl

enqueues-cases_example :
    ((enqueues crates operations connection).sent ≡ [] ++ map (wire crates) (accepted operations))
    × ((e : ℕ)
        → first_failure operations ≡ some e
        → ((is_ready : Bool)
            → may_enqueue_more_ops is_ready (enqueues crates operations connection) ≡ false)
          × ((flushed : Poll (Result ℕ (Unit {0})))
              → poll_flush flushed (enqueues crates operations connection) ≡ (
                record (enqueues crates operations connection) { send_error = none },
                ready (err e),
              ))
          × ((items : List (Item ℕ))
              → poll_read_next {I = Bytes} crates items (enqueues crates operations connection)
                ≡ some (
                  record (enqueues crates operations connection) { send_error = none },
                  ready (err (io e)),
                  items,
                )))
enqueues-cases_example = enqueues-cases crates operations connection refl idle_encoder
