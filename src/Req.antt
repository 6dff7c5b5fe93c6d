-- ===== src/Req.antt =====
-- req.go: the REQ socket, its state machine, its round-robin writer and its reader.
pub mod Fsm
pub mod Rotation
use quicmq.Base.{
  ℕ, zero, suc, ◌+◌, ◌%◌, Bool, true, false, ◌&&◌, not, Option, none, some, List, [], ◌∷◌, ◌++◌,
  length, ltb, ◌==◌, if◌then◌else◌, get_or, drop,
}
use quicmq.Base.Conns.{remove_conn, same_conn}
use quicmq.Base.Bytes.{Bytes}
use quicmq.Result.{
  Error, req_pending, req_not_pending, req_no_conn, req_no_connections, req_all_failed,
}
use quicmq.Msg.{Msg, msg_of}
use quicmq.Sub.{close_loop}
use quicmq.Conn.{NetConn, Store, send_msg, read}

-- A request is in flight exactly while `ready_to_req` is false.
pub record ReqState : Type 0 where
  pub last_conn : Option ℕ
  pub ready_to_req : Bool

pub record ReqWriter : Type 0 where
  pub conns : List ℕ
  pub next_conn : ℕ

pub record ReqSocket (S : Type 0) : Type 0 where
  pub state : ReqState
  pub writer : ReqWriter
  pub store : Store S

-- NewReq's state.
unfoldable pub new_state : ReqState
new_state = record { last_conn = none; ready_to_req = true }

-- `NewReq`.
unfoldable pub new_req : {S : Type 0} → Store S → ReqSocket S
unfolding new_state
new_req st = record { state = new_state; writer = record { conns = []; next_conn = 0 }; store = st }

unfoldable pub begin_request : ReqState → Option Error × ReqState
begin_request rs =
    if rs.ready_to_req then (none, record rs { ready_to_req = false }) else (some req_pending, rs)

unfoldable pub abort_request : ReqState → ReqState
abort_request rs = record { last_conn = none; ready_to_req = true }

unfoldable pub before_recv : ReqState → Option Error
before_recv rs = if rs.ready_to_req then some req_not_pending else none

unfoldable pub finish_request : ReqState → ReqState
finish_request rs = record { last_conn = none; ready_to_req = true }

unfoldable pub set : ReqState → ℕ → ReqState
set rs c = record rs { last_conn = some c }

unfoldable pub reset : ReqState → ℕ → ReqState
reset rs c =
    if same_conn rs.last_conn c then record { last_conn = none; ready_to_req = true } else rs

unfoldable pub get : ReqState → Option ℕ
get rs = rs.last_conn

-- `conns[(i + nextConn) % len(conns)]`: the index is below the length, so the default is not used.
abbrev pub cur_index : ReqWriter → ℕ → ℕ
cur_index w i = (i + w.next_conn) % length w.conns

abbrev pub cur_conn : ReqWriter → ℕ → ℕ
cur_conn w i = get_or w.conns (cur_index w i) 0

-- `len(msg.Frames) > 1 && len(msg.Frames[0]) == 0`
unfoldable pub strip_delimiter : List Bytes → List Bytes
strip_delimiter ([] ∷ f ∷ fs) = f ∷ fs
strip_delimiter fs = fs

module _ {S : Type 0} where
  unfoldable pub add_conn : ReqSocket S → ℕ → ReqSocket S
  add_conn sk c = record sk { writer = record (sk.writer) { conns = sk.writer.conns ++ c ∷ [] } }

  unfoldable pub rm_conn : ReqSocket S → ℕ → ReqSocket S
  unfolding reset
  rm_conn sk c = record sk {
    writer = record (sk.writer) { conns = remove_conn c sk.writer.conns };
    state = reset sk.state c;
  }

  -- What an accepted request leaves: the next connection, and where the reply is to come from.
  abbrev pub accepted : ReqSocket S → ℕ → Store S → ReqSocket S
  accepted sk i st = record {
    state = set sk.state (cur_conn sk.writer i);
    writer = record (sk.writer) {
      next_conn = (cur_index sk.writer i + 1) % length sk.writer.conns;
    };
    store = st;
  }

  abbrev pub after_attempt :
      ReqSocket S
      → ℕ
      → (Error → ReqSocket S → Option Error × ReqSocket S)
      → Option Error × Store S
      → Option Error × ReqSocket S
  after_attempt sk i failed (none, st) = (none, accepted sk i st)
  after_attempt sk i failed (some e, st) = failed e (record sk { store = st })

  abbrev pub after_write : Option Error × ReqSocket S → Option Error × ReqSocket S
  after_write (none, sk) = (none, sk)
  after_write (some e, sk) = (some e, record sk { state = abort_request sk.state })

  abbrev pub deliver :
      ReqSocket S → Option (Msg × Store S) → Option ((Msg × Option Error) × ReqSocket S)
  deliver sk none = none
  deliver sk (some (m, st)) = elim m.err [
    | some e ↦ some ((m, some e), record sk { store = st })
    | none ↦ some ((record m { frames = strip_delimiter m.frames }, none), record sk { store = st })
  ]

  abbrev pub after_read :
      Option ((Msg × Option Error) × ReqSocket S) → Option ((Msg × Option Error) × ReqSocket S)
  after_read none = none
  after_read (some ((m, some e), sk)) =
      some ((m, some e), record sk { state = abort_request sk.state })
  after_read (some ((m, none), sk)) =
      some ((m, none), record sk { state = finish_request sk.state })

  module _ (io : NetConn S) where
    -- The loop of `write` from index i on, with `more` attempts after the one at i.
    unfoldable pub write_loop : Msg → ℕ → ℕ → ReqSocket S → Option Error × ReqSocket S
    unfolding set
    write_loop msg zero i sk =
        after_attempt sk i (λ e sk'. (some (req_all_failed e), sk'))
          (send_msg io (cur_conn sk.writer i) msg sk.store)
    write_loop msg (suc more) i sk =
        after_attempt sk i (λ e sk'. write_loop msg more (i + 1) sk')
          (send_msg io (cur_conn sk.writer i) msg sk.store)

    unfoldable pub write_to : Msg → List ℕ → ReqSocket S → Option Error × ReqSocket S
    unfolding write_loop
    write_to msg [] sk = (some req_no_connections, sk)
    write_to msg (c ∷ cs) sk = write_loop msg (length cs) 0 sk

    -- `reqWriter.write`: the empty delimiter frame goes in front.
    unfoldable pub write : Msg → ReqSocket S → Option Error × ReqSocket S
    unfolding write_to
    write msg sk = write_to (record msg { frames = [] ∷ msg.frames }) sk.writer.conns sk

    abbrev pub after_begin :
        ReqSocket S → Msg → Option Error × ReqState → Option Error × ReqSocket S
    after_begin sk msg (some e, rs) = (some e, record sk { state = rs })
    after_begin sk msg (none, rs) = after_write (write msg (record sk { state = rs }))

    -- `reqSocket.Send`. The writer does not look at its context.
    unfoldable pub send : Msg → ReqSocket S → Option Error × ReqSocket S
    unfolding begin_request abort_request write
    send msg sk = after_begin sk msg (begin_request sk.state)

    unfoldable pub send_multi : Msg → ReqSocket S → Option Error × ReqSocket S
    unfolding begin_request abort_request write
    send_multi msg sk = after_begin sk (record msg { multipart = true }) (begin_request sk.state)

    -- `reqWriter.Close`.
    unfoldable pub close_writer : ReqSocket S → Option Error × ReqSocket S
    unfolding close_loop
    close_writer sk =
        let (e, st) = close_loop io sk.writer.conns none sk.store in
        (e, record sk { writer = record (sk.writer) { conns = [] }; store = st })

    -- `reqReader.read` into an empty message. The outer `none` means that the fuel ran out.
    unfoldable pub read_reply : ℕ → ReqSocket S → Option ((Msg × Option Error) × ReqSocket S)
    unfolding get strip_delimiter
    read_reply fuel sk = elim (get sk.state) [
      | none ↦ some ((msg_of [], some req_no_conn), sk)
      | some c ↦ deliver sk (read io fuel c sk.store)
    ]

    -- `reqSocket.Recv`.
    unfoldable pub recv : ℕ → ReqSocket S → Option ((Msg × Option Error) × ReqSocket S)
    unfolding before_recv read_reply abort_request finish_request
    recv fuel sk = elim (before_recv sk.state) [
      | some e ↦ some ((msg_of [], some e), sk)
      | none ↦ after_read (read_reply fuel sk)
    ]
