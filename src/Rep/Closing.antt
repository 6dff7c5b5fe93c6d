-- ===== src/Rep/Closing.antt =====
-- rep.go: the writer's Close, and what its closed channel does to the operations that use it.
use quicmq.Base.{
  ℕ, if◌then◌else◌, ◌≡◌, ◌⊎◌, inl, inr, refl, ap, Bool, true, false, Option, none, some, [],
}
use quicmq.Result.{Error, rep_no_request}
use quicmq.Msg.{Msg}
use quicmq.Sub.{close_loop}
use quicmq.Conn.{NetConn, Store}
use quicmq.Rep.{RepSocket, Payload, send, send_payload, send_to, new_state}

-- A send on a closed channel, and a second `close`, panic.
pub data Outcome (A : Type 0) : Type 0 where
  panics : Outcome A
  waits : Outcome A
  returns : A → Outcome A

-- A socket, with whether `sendCh` was closed.
pub record Writer (S : Type 0) : Type 0 where
  pub socket : RepSocket S
  pub send_ch_closed : Bool

module _ {S : Type 0} where
  -- `NewRep`: the reader and the writer share one state; both are empty.
  unfoldable pub new_rep : Store S → Writer S
  unfolding new_state
  new_rep st = record {
    socket = record {
      state = new_state;
      reader_conns = [];
      msg_ch = [];
      writer_conns = [];
      running = none;
      store = st;
    };
    send_ch_closed = false;
  }

  abbrev sent : Writer S → Option (Option Error × RepSocket S) → Outcome (Option Error × Writer S)
  sent w none = waits
  sent w (some (e, sk)) = returns (e, record w { socket = sk })

  -- `repWriter.write` where `sendCh` may be closed: without a requester the channel is not used, and with
  -- a context that is done the select may still take the case that panics, if `picks`.
  write_closed : Option Error → Bool → Writer S → Option ℕ → Outcome (Option Error × Writer S)
  write_closed cancelled picks w none = returns (some rep_no_request, w)
  write_closed none picks w (some c) = panics
  write_closed (some e) picks w (some c) = if picks then panics else returns (some e, w)

  unfoldable pub write : Option Error → Bool → Msg → Writer S → Outcome (Option Error × Writer S)
  unfolding write_closed send
  write cancelled picks msg w =
      if w.send_ch_closed
      then write_closed cancelled picks w w.socket.state.conn
      else sent w (send cancelled msg w.socket)

  module _ (io : NetConn S) where
    -- A round of `run` while the context is not done, on the payload that it has received or, if there
    -- is none, on the closed channel: the Boolean says whether it goes on.
    round_with : Writer S → Option Payload → Option Bool × Writer S
    unfolding send_payload
    round_with w none = (if w.send_ch_closed then some false else none, w)
    round_with w (some p) = (some true, record w { socket = send_payload io w.socket (some p) })

    unfoldable pub round : Writer S → Option Bool × Writer S
    unfolding round_with
    round w = round_with w w.socket.running

    -- `repWriter.Close`.
    unfoldable pub close_writer : Writer S → Outcome (Option Error × Writer S)
    unfolding close_loop
    close_writer w =
        let (e, st) = close_loop io w.socket.writer_conns none w.socket.store in
        if w.send_ch_closed
        then panics
        else returns (
          e,
          record {
            socket = record (w.socket) { writer_conns = []; store = st };
            send_ch_closed = true;
          },
        )

    idle_round :
        (w : Writer S) (held : Option Payload)
        → w.socket.writer_conns ≡ []
        → (round_with w held).1.socket.store ≡ w.socket.store
    unfolding round_with send_payload send_to
    idle_round w none empty = refl
    idle_round w (some p) empty = ap (λ cs. send_to io p cs w.socket.store) empty

    write_after :
        (w : Writer S) (picks : Bool) (msg : Msg) (c : Option ℕ)
        → w.socket.state.conn ≡ c
        → w.send_ch_closed ≡ true
        → (write none picks msg w ≡ panics)
          ⊎ (write none picks msg w ≡ returns (some rep_no_request, w))
    unfolding write write_closed
    write_after w picks msg none e closed = inr (rw (closed, e, write) refl)
    write_after w picks msg (some c) e closed = inl (rw (closed, e, write) refl)

    -- After Close of a writer that was open: its goroutine drops the reply that it still holds, a Send
    -- panics if a request waits for its reply and is refused otherwise, and a second Close panics.
    pub close_writer_lem :
        (w : Writer S) (picks : Bool) (msg : Msg)
        → w.send_ch_closed ≡ false
        → (e : Option Error) × (w1 : Writer S) × (close_writer w ≡ returns (e, w1))
          × ((round w1).1.socket.store ≡ w1.socket.store)
          × ((write none picks msg w1 ≡ panics)
              ⊎ (write none picks msg w1 ≡ returns (some rep_no_request, w1)))
          × (close_writer w1 ≡ panics)
    unfolding close_writer round
    close_writer_lem w picks msg open_before =
        let r = close_loop io w.socket.writer_conns none w.socket.store in
        let w1 : Writer S = record {
          socket = record (w.socket) { writer_conns = []; store = r.1 };
          send_ch_closed = true;
        } in
        (
          r.0,
          w1,
          rw (open_before, close_writer) refl,
          idle_round w1 w1.socket.running refl,
          write_after w1 picks msg w1.socket.state.conn refl refl,
          refl,
        )
