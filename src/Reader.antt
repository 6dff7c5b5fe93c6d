-- ===== src/Reader.antt =====
-- msgio.go: `qreader`, which the sockets without a reader of their own use (SUB, XSUB).
pub mod Order
use quicmq.Base.{
  ℕ, Bool, true, false, Option, none, some, List, [], ◌∷◌, ◌++◌, length, ltb, if◌then◌else◌,
}
use quicmq.Base.Conns.{remove_conn}
use quicmq.Result.{Error}
use quicmq.Msg.{Msg, msg_of}
use quicmq.Conn.{NetConn, Store, close_conn}
use quicmq.Sub.{Semaphore, enable, lock_passes, close_loop}

pub record QReader (S : Type 0) : Type 0 where
  pub rs : List ℕ
  pub ch : List Msg
  pub sem : Semaphore
  pub store : Store S

abbrev pub qrsize : ℕ
qrsize = 10

module _ {S : Type 0} where
  unfoldable pub add_conn : QReader S → ℕ → QReader S
  unfolding enable
  add_conn q c = record q { rs = q.rs ++ c ∷ []; sem = enable q.sem }

  unfoldable pub rm_conn : QReader S → ℕ → QReader S
  rm_conn q c = record q { rs = remove_conn c q.rs }

  -- The `select` of `read`: `cancelled` is the error of the context where that case is taken.
  unfoldable pub take_msg :
      Option Error → QReader S → List Msg → Option ((Msg × Option Error) × QReader S)
  take_msg (some e) q ms = some ((msg_of [], some e), q)
  take_msg none q [] = none
  take_msg none q (m ∷ ms) = some ((m, m.err), record q { ch = ms })

  -- `read` into an empty message. `done`: the context is done. `none`: it waits, for the first
  -- connection or for a message.
  unfoldable pub read : Bool → Option Error → QReader S → Option ((Msg × Option Error) × QReader S)
  unfolding lock_passes take_msg
  read done cancelled q = if lock_passes q.sem done then take_msg cancelled q q.ch else none

  module _ (io : NetConn S) where
    -- The deferred calls of `listen`.
    unfoldable pub leave : QReader S → ℕ → QReader S
    unfolding rm_conn
    leave q c = rm_conn (record q { store = (close_conn io c q.store).1 }) c

    -- Behind `q.c <- msg`: an error ends the goroutine, once it is queued.
    unfoldable pub after_put : QReader S → ℕ → Option Error → Bool × QReader S
    unfolding leave
    after_put q c none = (true, q)
    after_put q c (some e) = (false, leave q c)

    -- One round of `listen` with the message that `r.read()` returned; the Boolean says whether it
    -- goes on. `none`: it waits for room.
    unfoldable pub listen_step : Bool → QReader S → ℕ → Msg → Option (Bool × QReader S)
    unfolding after_put leave
    listen_step done q c msg =
        if done
        then some (false, leave q c)
        else if ltb (length q.ch) qrsize
        then some (after_put (record q { ch = q.ch ++ msg ∷ [] }) c msg.err)
        else none

    unfoldable pub close : QReader S → Option Error × QReader S
    unfolding close_loop
    close q = let (e, st) = close_loop io q.rs none q.store in (e, record q { rs = []; store = st })
