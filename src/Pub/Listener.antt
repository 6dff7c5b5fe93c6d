-- ===== src/Pub/Listener.antt =====
-- pub.go: the reader of the PUB socket, which XPUB shares: it takes subscription commands.
pub mod Commands
use quicmq.Base.{
  ℕ, zero, suc, ◌+◌, Bool, true, false, ◌||◌, Option, none, some, List, [], ◌∷◌, ◌++◌, length, ltb,
  ◌==◌, if◌then◌else◌,
}
use quicmq.Base.Conns.{remove_conn}
use quicmq.Base.Bytes.{Bytes}
use quicmq.Result.{Error}
use quicmq.Msg.{Msg, msg_of}
use quicmq.Conn.{NetConn, Store, close_conn, subscribe}
use quicmq.Sub.{Semaphore, enable, lock_passes, close_loop}

abbrev is_command : Bytes → Bool
is_command [] = false
is_command (b ∷ bs) = b == 0 || b == 1

-- `isTopic`: one frame, not empty, that begins with 0x00 or 0x01.
is_topic_frames : List Bytes → Bool
is_topic_frames (f ∷ []) = is_command f
is_topic_frames _ = false

unfoldable pub is_topic : Msg → Bool
unfolding is_topic_frames
is_topic m = is_topic_frames m.frames

-- `pubQReader`: its connections and its channel, which holds qrsize = 10 messages at most.
pub record PubReader (S : Type 0) : Type 0 where
  pub rs : List ℕ
  pub ch : List Msg
  pub sem : Semaphore
  pub store : Store S

abbrev pub qrsize : ℕ
qrsize = 10

-- What one round of a `listen` goroutine comes to after its `r.read()` returned.
pub data Round (S : Type 0) : Type 0 where
  goes_on ends : PubReader S → Round S
  waits panics : Round S

module _ {S : Type 0} where
  unfoldable pub add_conn : PubReader S → ℕ → PubReader S
  unfolding enable
  add_conn q c = record q { rs = q.rs ++ c ∷ []; sem = enable q.sem }

  unfoldable pub rm_conn : PubReader S → ℕ → PubReader S
  rm_conn q c = record q { rs = remove_conn c q.rs }

  -- The `select` of `read` into an empty message: the case of the context, which is taken where
  -- `cancelled`, leaves the message as it is and so without an error.
  unfoldable pub take_msg :
      Bool → PubReader S → List Msg → Option ((Msg × Option Error) × PubReader S)
  take_msg true q ms = some ((msg_of [], none), q)
  take_msg false q [] = none
  take_msg false q (m ∷ ms) = some ((m, m.err), record q { ch = ms })

  -- `read`, which Recv of XPUB calls. `done`: the context is done. `none`: it waits.
  unfoldable pub read : Bool → Bool → PubReader S → Option ((Msg × Option Error) × PubReader S)
  unfolding lock_passes take_msg
  read done cancelled q = if lock_passes q.sem done then take_msg cancelled q q.ch else none

  module _ (io : NetConn S) where
    unfoldable pub close : PubReader S → Option Error × PubReader S
    unfolding close_loop
    close q = let (e, st) = close_loop io q.rs none q.store in (e, record q { rs = []; store = st })

    -- `return` in `listen` runs the deferred `r.Close()` and `q.rmConn(r)`.
    leave : PubReader S → ℕ → PubReader S
    unfolding rm_conn
    leave q c = rm_conn (record q { store = (close_conn io c q.store).1 }) c

    after_subscribe : PubReader S → Option (Store S) → Round S
    after_subscribe q none = panics
    after_subscribe q (some st) = goes_on (record q { store = st })

    listen_ok : PubReader S → ℕ → Msg → Round S
    unfolding after_subscribe
    listen_ok q c msg =
        if is_topic msg
        then after_subscribe q (subscribe q.store c msg)
        else if ltb (length q.ch) qrsize
        then goes_on (record q { ch = q.ch ++ msg ∷ [] })
        else waits

    listen_open : PubReader S → ℕ → Msg → Option Error → Round S
    unfolding leave listen_ok
    listen_open q c msg (some e) = ends (leave q c)
    listen_open q c msg none = listen_ok q c msg

    -- One round of `listen` on connection c, with the message that `r.read()` returned.
    unfoldable pub listen_step : Bool → PubReader S → ℕ → Msg → Round S
    unfolding listen_open
    listen_step done q c msg = if done then ends (leave q c) else listen_open q c msg msg.err

    abbrev pub after_round : Round S → (PubReader S → Round S) → Round S
    after_round (goes_on q) next = next q
    after_round (ends q) next = ends q
    after_round waits next = waits
    after_round panics next = panics

    -- The rounds on the messages that one connection's reads return, nothing else happening.
    unfoldable pub listen_all : PubReader S → ℕ → List Msg → Round S
    unfolding listen_step
    listen_all q c [] = goes_on q
    listen_all q c (m ∷ ms) = after_round (listen_step false q c m) (λ q'. listen_all q' c ms)
