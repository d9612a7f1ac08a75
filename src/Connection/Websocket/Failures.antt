-- ===== src/Connection/Websocket/Failures.antt =====
-- watermelon-net/src/connection/websocket.rs: what becomes of operations when the websocket stops
-- taking frames.
use watermelon.Prelude.{
  List, [], ◌∷◌, ◌++◌, Option, none, some, Bool, false, Result, err, ◌≡◌, refl, map, arith,
  append_assoc, append-nil, sym, ap, ◌∙◌,
}
use watermelon.Crates.{Crates}
use watermelon.Proto.{ClientOp}
use watermelon.Proto.Encoder.Framed.{encode, encode-wire}
use watermelon.Proto.Encoder.Framed
use watermelon.Proto.Encoder.Wire.{wire}
use watermelon.Connection.Websocket.{
  WebsocketConnection, io, Item, Poll, ready, enqueue_write_op, may_enqueue_more_ops, poll_flush,
  poll_read_next,
}

module _ {E C : Type 0} where
  -- the error of the first operation that the websocket refuses
  abbrev pub first_failure : List (ClientOp C × Option E) → Option E
  first_failure [] = none
  first_failure ((item, some e) ∷ items) = some e
  first_failure ((item, none) ∷ items) = first_failure items

  -- the operations before it
  abbrev pub accepted : List (ClientOp C × Option E) → List (ClientOp C)
  accepted [] = []
  accepted ((item, some e) ∷ items) = []
  accepted ((item, none) ∷ items) = item ∷ accepted items

  module _ {I : Type 0} (crates : Crates I C) where
    abbrev pub enqueues :
        List (ClientOp C × Option E) → WebsocketConnection E → WebsocketConnection E
    enqueues [] w = w
    enqueues ((item, refused) ∷ items) w = enqueues items (enqueue_write_op crates item refused w)

    enqueue_write_op-failed :
        (item : ClientOp C) (refused : Option E) (w : WebsocketConnection E) (e : E)
        → w.send_error ≡ some e
        → enqueue_write_op crates item refused w ≡ w
    unfolding enqueue_write_op
    enqueue_write_op-failed item refused w e h = ground arith

    enqueues-failed :
        (items : List (ClientOp C × Option E)) (w : WebsocketConnection E) (e : E)
        → w.send_error ≡ some e
        → enqueues items w ≡ w
    enqueues-failed [] w e h = refl
    enqueues-failed ((item, refused) ∷ items) w e h =
        ap (enqueues items) (enqueue_write_op-failed item refused w e h)
        ∙ enqueues-failed items w e h

    enqueue_write_op-refused :
        (item : ClientOp C) (e : E) (w : WebsocketConnection E)
        → w.send_error ≡ none
        → ((enqueue_write_op crates item (some e) w).sent ≡ w.sent)
          × ((enqueue_write_op crates item (some e) w).send_error ≡ some e)
    unfolding enqueue_write_op
    enqueue_write_op-refused item e w sound = ground arith

    enqueue_write_op-taken :
        (item : ClientOp C) (w : WebsocketConnection E)
        → w.send_error ≡ none
        → w.encoder ≡ Framed.new
        → ((enqueue_write_op crates item none w).sent ≡ w.sent ++ wire crates item ∷ [])
          × ((enqueue_write_op crates item none w).send_error ≡ none)
          × ((enqueue_write_op crates item none w).encoder ≡ Framed.new)
    unfolding enqueue_write_op Framed.new
    enqueue_write_op-taken item w sound idle =
        let framed : encode crates item w.encoder ≡ (wire crates item, Framed.new) =
          ap (encode crates item) idle ∙ encode-wire crates item Framed.new in
        rw sound (ap (λ r. w.sent ++ r.0 ∷ []) framed, refl, refl)

    enqueues_sent :
        (items : List (ClientOp C × Option E)) (w : WebsocketConnection E)
        → w.send_error ≡ none
        → w.encoder ≡ Framed.new
        → ((enqueues items w).sent ≡ w.sent ++ map (wire crates) (accepted items))
          × ((enqueues items w).send_error ≡ first_failure items)
    enqueues_sent [] w sound idle = (sym (append-nil w.sent), sound)
    enqueues_sent ((item, some e) ∷ items) w sound idle =
        let (same, stored) = enqueue_write_op-refused item e w sound in
        let rest = enqueues-failed items (enqueue_write_op crates item (some e) w) e stored in
        (
          ap (λ v. v.sent) rest ∙ same ∙ sym (append-nil w.sent),
          ap (λ v. v.send_error) rest ∙ stored,
        )
    enqueues_sent ((item, none) ∷ items) w sound idle =
        let (grown, sound', idle') = enqueue_write_op-taken item w sound idle in
        let (sent, stored) =
          enqueues_sent items (enqueue_write_op crates item none w) sound' idle' in
        (
          sent
              ∙ ap (λ s. s ++ map (wire crates) (accepted items)) grown
              ∙ append_assoc w.sent (wire crates item ∷ []) (map (wire crates) (accepted items)),
          stored,
        )

    poll_flush-failed :
        (flushed : Poll (Result E (Unit {0}))) (w : WebsocketConnection E) (e : E)
        → w.send_error ≡ some e
        → poll_flush flushed w ≡ (record w { send_error = none }, ready (err e))
    unfolding poll_flush
    poll_flush-failed flushed w e h = ground arith

    poll_read_next-failed :
        (items : List (Item E)) (w : WebsocketConnection E) (e : E)
        → w.send_error ≡ some e
        → poll_read_next {I = I} crates items w
          ≡ some (record w { send_error = none }, ready (err (io e)), items)
    unfolding poll_read_next
    poll_read_next-failed items w e h = ground arith

    may_enqueue_more_ops-failed :
        (is_ready : Bool) (w : WebsocketConnection E) (e : E)
        → w.send_error ≡ some e
        → may_enqueue_more_ops is_ready w ≡ false
    unfolding may_enqueue_more_ops
    may_enqueue_more_ops-failed is_ready w e h = ground arith

    -- Operations are enqueued on a connection without a stored error. The frames that the websocket takes
    -- are the texts of those before the first that it refuses, in order. If it refuses one, the
    -- connection takes no more, and the next flush and the next read, whatever the websocket says, report
    -- this very error, once, and read nothing.
    pub enqueues-cases :
        (operations : List (ClientOp C × Option E)) (w : WebsocketConnection E)
        → w.send_error ≡ none
        → w.encoder ≡ Framed.new
        → ((enqueues operations w).sent ≡ w.sent ++ map (wire crates) (accepted operations))
          × ((e : E)
              → first_failure operations ≡ some e
              → ((is_ready : Bool) → may_enqueue_more_ops is_ready (enqueues operations w) ≡ false)
                × ((flushed : Poll (Result E (Unit {0})))
                    → poll_flush flushed (enqueues operations w)
                      ≡ (record (enqueues operations w) { send_error = none }, ready (err e)))
                × ((items : List (Item E))
                    → poll_read_next {I = I} crates items (enqueues operations w)
                      ≡ some (
                        record (enqueues operations w) { send_error = none },
                        ready (err (io e)),
                        items,
                      )))
    enqueues-cases operations w sound idle =
        let (sent, stored) = enqueues_sent operations w sound idle in
        (
          sent,
          (λ e first. (
            (λ is_ready.
                may_enqueue_more_ops-failed is_ready (enqueues operations w) e (stored ∙ first)),
            (λ flushed. poll_flush-failed flushed (enqueues operations w) e (stored ∙ first)),
            (λ items. poll_read_next-failed items (enqueues operations w) e (stored ∙ first)),
          )),
        )
