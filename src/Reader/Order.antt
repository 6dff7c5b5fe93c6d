-- ===== src/Reader/Order.antt =====
-- What the listeners queue, and what Recv returns of it.
use quicmq.Base.{
  ℕ, ◌≤◌, ◌≡◌, Bool, false, Option, none, some, List, [], ◌∷◌, ◌++◌, length, if◌then◌else◌,
}
use quicmq.Result.{Error}
use quicmq.Msg.{Msg}
use quicmq.Conn.{NetConn}
use quicmq.Reader.{QReader, qrsize, listen_step, read}

-- A step of a listener on the message that it has read, for any connection, or a call of Recv. The
-- first component of `listens` says that the socket's context is done.
pub data Action : Type 0 where
  listens : Bool → ℕ → Msg → Action
  receives : Action

-- The reader with its history: the messages that listeners have queued and those that Recv returned.
pub record History (S : Type 0) : Type 0 where
  pub reader : QReader S
  pub queued : List Msg
  pub returned : List Msg

module _ {S : Type 0} where
  abbrev pub after_listen : Bool → Msg → History S → Option (Bool × QReader S) → History S
  after_listen done m h none = h
  after_listen done m h (some (_, q)) = record h {
    reader = q;
    queued = if done then h.queued else h.queued ++ m ∷ [];
  }

  abbrev pub after_receive : History S → Option ((Msg × Option Error) × QReader S) → History S
  after_receive h none = h
  after_receive h (some ((m, _), q)) = record h { reader = q; returned = h.returned ++ m ∷ [] }

  module _ (io : NetConn S) where
    -- A step that has to wait changes nothing.
    unfoldable pub act : Action → History S → History S
    act (listens done c m) h = after_listen done m h (listen_step io done h.reader c m)
    act receives h = after_receive h (read false none h.reader)

    unfoldable pub act_all : List Action → History S → History S
    unfolding act
    act_all [] h = h
    act_all (a ∷ more) h = act_all more (act a h)

    -- Nothing is lost, repeated or reordered: what was queued is what was returned and then what is in
    -- the channel, which stays within its size.
    pub record InOrder (h : History S) : Type 0 where
      pub complete : h.returned ++ h.reader.ch ≡ h.queued
      pub bounded : length h.reader.ch ≤ qrsize
