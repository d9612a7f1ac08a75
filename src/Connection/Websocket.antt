-- ===== src/Connection/Websocket.antt =====
-- watermelon-net/src/connection/websocket.rs: a connection whose frames are messages of a websocket.
-- What the websocket yields, and whether it takes a frame, is an argument; `sent` logs the frames that
-- it took. `E` is the type of its errors.
pub mod Failures
use watermelon.Prelude.{
  List, [], ◌∷◌, ◌++◌, Option, none, some, Bool, true, false, Bytes, is_empty, Result, err, map_err,
}
use watermelon.Crates.{Crates}
use watermelon.Proto.{ClientOp, ServerOp}
use watermelon.Proto.Encoder.Framed.{FramedEncoder, encode}
use watermelon.Proto.Encoder.Framed
use watermelon.Proto.Decoder.Framed.{FrameDecoderError, decode_frame}

pub data WebsocketReadError (E : Type 0) : Type 0 where
  decoder : FrameDecoderError → WebsocketReadError E
  io : E → WebsocketReadError E
  closed : WebsocketReadError E

-- what `poll_next` of the websocket is ready with
pub data Item (E : Type 0) : Type 0 where
  binary : Bytes → Item E
  other ended : Item E
  failed : E → Item E

-- `Poll`
pub data Poll (A : Type 0) : Type 0 where
  pending : Poll A
  ready : A → Poll A

pub record WebsocketConnection (E : Type 0) : Type 0 where
  pub encoder : FramedEncoder
  pub residual_frame : Bytes
  pub should_flush : Bool
  pub send_error : Option E
  pub sent : List Bytes

module _ {E : Type 0} where
  -- behind the handshake of the websocket
  unfoldable pub new : WebsocketConnection E
  unfolding Framed.new
  new = record {
    encoder = Framed.new;
    residual_frame = [];
    should_flush = false;
    send_error = none;
    sent = [];
  }

  -- `is_ready` is what `poll_ready` says
  unfoldable pub may_enqueue_more_ops : Bool → WebsocketConnection E → Bool
  may_enqueue_more_ops is_ready w = elim w.send_error [ some e ↦ false | none ↦ is_ready ]

  -- `flushed` is what `poll_flush` of the websocket returns
  unfoldable pub poll_flush :
      Poll (Result E (Unit {0}))
      → WebsocketConnection E
      → WebsocketConnection E × Poll (Result E (Unit {0}))
  poll_flush flushed w = elim w.send_error [
    | some e ↦ (record w { send_error = none }, ready (err e))
    | none ↦ (w, flushed)
  ]

  module _ {I C : Type 0} (crates : Crates I C) where
    -- the second argument is the error of `start_send`
    unfoldable pub enqueue_write_op :
        ClientOp C → Option E → WebsocketConnection E → WebsocketConnection E
    unfolding encode
    enqueue_write_op item refused w = elim w.send_error [
      | some e ↦ w
      | none ↦
          let (payload, encoder) = encode crates item w.encoder in
          elim refused [
            | some e ↦ record w { encoder = encoder; send_error = some e; should_flush = true }
            | none ↦ record w {
              encoder = encoder;
              sent = w.sent ++ payload ∷ [];
              should_flush = true;
            }
          ]
    ]

    -- the operation at the front of what is left of the frame; `none` is a panic of the decoder
    unfoldable pub decode_residual :
        List (Item E)
        → WebsocketConnection E
        → Option (
            WebsocketConnection E
            × Poll (Result (WebsocketReadError E) (ServerOp I))
            × List (Item E))
    unfolding decode_frame
    decode_residual items w = elim (decode_frame crates w.residual_frame) [
      | none ↦ none
      | some (rest, r) ↦ some (record w { residual_frame = rest }, ready (map_err decoder r), items)
    ]

    -- the loop, with the items that are left; behind them the websocket is pending
    unfoldable pub read_loop :
        List (Item E)
        → WebsocketConnection E
        → Option (
            WebsocketConnection E
            × Poll (Result (WebsocketReadError E) (ServerOp I))
            × List (Item E))
    unfolding decode_residual
    read_loop [] w = elim (is_empty w.residual_frame) [
      | false ↦ decode_residual [] w
      | true ↦ some (w, pending, [])
    ]
    read_loop (item ∷ items) w = elim (is_empty w.residual_frame) [
      | false ↦ decode_residual (item ∷ items) w
      | true ↦ elim item [
        | binary payload ↦ read_loop items (record w { residual_frame = payload })
        | other ↦ read_loop items w
        | failed e ↦ some (w, ready (err (io e)), items)
        | ended ↦ some (w, ready (err closed), items)
      ]
    ]

    unfoldable pub poll_read_next :
        List (Item E)
        → WebsocketConnection E
        → Option (
            WebsocketConnection E
            × Poll (Result (WebsocketReadError E) (ServerOp I))
            × List (Item E))
    unfolding read_loop
    poll_read_next items w = elim w.send_error [
      | some e ↦ some (record w { send_error = none }, ready (err (io e)), items)
      | none ↦ read_loop items w
    ]
