-- ===== src/Pub.antt =====
-- pub.go: the PUB socket and its writer, which XPUB shares: it filters by topic into one bounded channel
-- for each subscriber.
pub mod Listener
pub mod Delivery
pub mod Bounds
pub mod Capacity
pub mod Order
pub mod Stream
use quicmq.Base.{
  ℕ, zero, suc, ◌+◌, Bool, true, false, ◌||◌, Option, none, some, List, [], ◌∷◌, ◌++◌, length, ltb,
  ◌==◌, if◌then◌else◌,
}
use quicmq.Base.Int.{ℤ, pos, negsuc}
use quicmq.Base.Conns.{remove_conn}
use quicmq.Base.Bytes.{Bytes}
use quicmq.Result.{Error, bad_property, pub_cannot_recv}
use quicmq.Msg.{Msg, msg_of}
use quicmq.Conn.{NetConn, Store, send_msg, close_conn, subscribe, subscribed}

-- One subscriber of `pubMWriter`: its channel's capacity and content, and the message that the
-- channel's goroutine has taken and not yet sent; with none it waits at its receive.
pub record Subscriber : Type 0 where
  pub conn : ℕ
  pub cap : ℕ
  pub buf : List Msg
  pub sending : Option Msg

-- `subscribers` is the map, in the order of the next `range`; `none` is the nil map that Close
-- leaves. `detached` are the channels that are no longer in the map: their goroutines still send
-- what they hold.
pub record PubWriter : Type 0 where
  pub subscribers : Option (List Subscriber)
  pub detached : List Subscriber
  pub hwm : ℤ

pub data Value : Type 0 where
  int_value : ℤ → Value
  string_value : Bytes → Value
  other_value : ℕ → Value

-- `pubSocket.Recv`.
unfoldable pub recv : Msg × Option Error
recv = (record (msg_of []) { err = some pub_cannot_recv }, some pub_cannot_recv)

-- The default high-water mark.
abbrev pub default_send_hwm : ℕ
default_send_hwm = 1000

unfoldable pub new_pub_writer : PubWriter
new_pub_writer = record { subscribers = some []; detached = []; hwm = pos default_send_hwm }

-- The part of `pubSocket.SetOption` behind the base socket's, which stores the property and never
-- fails: `is_hwm` is `name == OptionHWM`.
unfoldable pub set_option : Bool → Value → PubWriter → Option Error × PubWriter
set_option false v w = (some bad_property, w)
set_option true (int_value n) w = (none, record w { hwm = n })
set_option true _ w = (some bad_property, w)

unfoldable pub has_subscriber : ℕ → List Subscriber → Bool
has_subscriber c [] = false
has_subscriber c (s ∷ ss) = if s.conn == c then true else has_subscriber c ss

-- The map without c, and the channels of c.
unfoldable pub without : ℕ → List Subscriber → List Subscriber
without c [] = []
without c (s ∷ ss) = let rest = without c ss in if s.conn == c then rest else s ∷ rest

unfoldable pub channels_of : ℕ → List Subscriber → List Subscriber
channels_of c [] = []
channels_of c (s ∷ ss) = let rest = channels_of c ss in if s.conn == c then s ∷ rest else rest

-- `make(chan Msg, hwm)` panics on a negative size and the write on a nil map: `none`. An entry that
-- the map has for the connection is replaced; its channel is no longer in the map.
add_to : Option (List Subscriber) → ℤ → PubWriter → ℕ → Option PubWriter
unfolding without channels_of
add_to (some subs) (pos n) w c = some (record w {
  subscribers =
      some (without c subs ++ record { conn = c; cap = n; buf = []; sending = none } ∷ []);
  detached = w.detached ++ channels_of c subs;
})
add_to _ _ w c = none

unfoldable pub add_conn : PubWriter → ℕ → Option PubWriter
unfolding add_to
add_conn w c = add_to w.subscribers w.hwm w c

-- `select` of `write` for one subscriber. `done` says that the context is done; with a channel that
-- has room Go then takes either case, and `picks_send` is its choice.
pub data Offer : Type 0 where
  cancels drops : Offer
  sends : Subscriber → Offer

-- A channel without a buffer (capacity 0) takes a message when its goroutine waits at the receive.
unfoldable pub hands_over : ℕ → Option Msg → Bool
hands_over cap (some m) = false
hands_over cap none = cap == 0

abbrev choose : Bool → Bool → Subscriber → Offer
choose done picks_send s = if done then (if picks_send then sends s else cancels) else sends s

offer : Bool → Bool → Msg → Subscriber → Offer
unfolding hands_over
offer done picks_send msg s =
    if ltb (length s.buf) s.cap
    then choose done picks_send (record s { buf = s.buf ++ msg ∷ [] })
    else if hands_over s.cap s.sending
    then choose done picks_send (record s { sending = some msg })
    else if done
    then cancels
    else drops

abbrev keep_first : Subscriber → Option Error × List Subscriber → Option Error × List Subscriber
keep_first s (e, ss) = (e, s ∷ ss)

-- `string(msg.Frames[0])`, or the empty string if there is no frame.
unfoldable pub topic_of : List Bytes → Bytes
topic_of [] = []
topic_of (f ∷ fs) = f

-- What the loop of `write` does with the outcome; `next` is the rest of the loop, and `err` is
-- `ctx.Err()` where the context is done.
after_offer :
    Error
    → Subscriber
    → List Subscriber
    → (Unit {0} → Option Error × List Subscriber)
    → Offer
    → Option Error × List Subscriber
after_offer err s ss next cancels = (some err, s ∷ ss)
after_offer err s ss next drops = keep_first s (next tt)
after_offer err s ss next (sends s') = keep_first s' (next tt)

abbrev with_subscribers : PubWriter → Option Error × List Subscriber → Option Error × PubWriter
with_subscribers w (e, ss) = (e, record w { subscribers = some ss })

module _ {S : Type 0} where
  -- The loop of `write` over the map.
  unfoldable pub write_loop :
      Bool → Error → (ℕ → Bool) → Store S → Msg → List Subscriber → Option Error × List Subscriber
  unfolding offer after_offer
  write_loop done err picks st msg [] = (none, [])
  write_loop done err picks st msg (s ∷ ss) =
      let rest = write_loop done err picks st msg ss in
      if subscribed st s.conn (topic_of msg.frames)
      then after_offer err s ss (λ _. rest) (offer done (picks s.conn) msg s)
      else keep_first s rest

  -- `write`; a range over the nil map does nothing.
  unfoldable pub write :
      Bool → Error → (ℕ → Bool) → Store S → Msg → PubWriter → Option Error × PubWriter
  unfolding write_loop
  write done err picks st msg w = elim w.subscribers [
    | none ↦ (none, w)
    | some ss ↦ with_subscribers w (write_loop done err picks st msg ss)
  ]

  module _ (io : NetConn S) where
    -- `rmConn`: close the connection, and take its channel out of the map and close it.
    rm_from : Option (List Subscriber) → PubWriter → Store S → ℕ → PubWriter × Store S
    unfolding has_subscriber without channels_of
    rm_from none w st c = (w, st)
    rm_from (some ss) w st c =
        if has_subscriber c ss
        then (
          record w { subscribers = some (without c ss); detached = w.detached ++ channels_of c ss },
          (close_conn io c st).1,
        )
        else (w, st)

    unfoldable pub rm_conn : PubWriter → Store S → ℕ → PubWriter × Store S
    unfolding rm_from
    rm_conn w st c = rm_from w.subscribers w st c

    -- `Close`.
    close_all : List Subscriber → Store S → Store S
    close_all [] st = st
    close_all (s ∷ ss) st = close_all ss (close_conn io s.conn st).1

    unfoldable pub close_writer : PubWriter → Store S → PubWriter × Store S
    unfolding close_all
    close_writer w st = elim w.subscribers [
      | none ↦ (w, st)
      | some ss ↦ (record w { subscribers = none; detached = w.detached ++ ss }, close_all ss st)
    ]

    -- A step of a subscriber's goroutine: it takes the oldest message, or sends the one that it has
    -- taken, whatever comes of that.
    pump_step : Subscriber → Option Msg → List Msg → Store S → Subscriber × Store S
    pump_step s (some m) ms st = (record s { sending = none }, (send_msg io s.conn m st).1)
    pump_step s none [] st = (s, st)
    pump_step s none (m ∷ ms) st = (record s { buf = ms; sending = some m }, st)

    unfoldable pub pump : Subscriber → Store S → Subscriber × Store S
    unfolding pump_step
    pump s st = pump_step s s.sending s.buf st
