-- ===== src/Sub.antt =====
-- sub.go and msgio.go: the SUB socket's topic set and its commands, and the writer that sends one
-- message to every connection.
pub mod Broadcast
pub mod Connected
pub mod Sync
use quicmq.Base.{
  ℕ, suc, ◌+◌, Bool, true, false, Option, none, some, List, [], ◌∷◌, ◌++◌, ◌==◌, if◌then◌else◌,
  length, ltb,
}
use quicmq.Base.Conns.{remove_conn}
use quicmq.Base.Bytes.{Bytes}
use quicmq.Result.{Error, bad_property}
use quicmq.Msg.{Msg, new_msg}
use quicmq.Conn.{NetConn, Store, Step, send_msg, close_conn, add_topic, delete_topic}

-- `semaphore`: its channel is closed by the first `enable`, and never again; `lock` goes on when it
-- is closed or the context is done.
pub record Semaphore : Type 0 where
  pub ready : Bool

unfoldable pub enable : Semaphore → Semaphore
enable s = if s.ready then s else record { ready = true }

unfoldable pub lock_passes : Semaphore → Bool → Bool
lock_passes s done = if done then true else s.ready

-- `subSocket.Topics`: the keys of the map, in the order in which it is ranged over, sorted by `sort`,
-- which is `sort.Strings`.
unfoldable pub sorted_topics : (List Bytes → List Bytes) → List Bytes → List Bytes
sorted_topics sort listing = sort listing

-- `mwriter`.
pub record MWriter : Type 0 where
  pub ws : List ℕ
  pub sem : Semaphore

unfoldable pub add_conn : MWriter → ℕ → MWriter
unfolding enable
add_conn w c = record { ws = w.ws ++ c ∷ []; sem = enable w.sem }

unfoldable pub rm_conn : MWriter → ℕ → MWriter
rm_conn w c = record w { ws = remove_conn c w.ws }

-- `firstErr`.
abbrev pub first_error : Option Error → Option Error → Option Error
first_error (some e) _ = some e
first_error none e = e

module _ {S : Type 0} (io : NetConn S) where
  -- The loop of `write`: every connection is sent the message, whatever came of the others.
  abbrev pub after_send :
      Option Error
      → (Option Error → Store S → Option Error × Store S)
      → Option Error × Store S
      → Option Error × Store S
  after_send first next (e, st) = next (first_error first e) st

  unfoldable pub write_loop : Msg → List ℕ → Option Error → Store S → Option Error × Store S
  write_loop msg [] first st = (first, st)
  write_loop msg (c ∷ cs) first st =
      after_send first (λ e st'. write_loop msg cs e st') (send_msg io c msg st)

  -- `mwriter.write` behind its `lock`.
  unfoldable pub write_all : Msg → MWriter → Store S → Option Error × Store S
  unfolding write_loop
  write_all msg w st = write_loop msg w.ws none st

  -- The loop of `Close`: the first error is the answer.
  unfoldable pub close_loop : List ℕ → Option Error → Store S → Option Error × Store S
  close_loop [] first st = (first, st)
  close_loop (c ∷ cs) first st =
      after_send first (λ e st'. close_loop cs e st') (close_conn io c st)

  unfoldable pub close_writer : MWriter → Store S → Option Error × MWriter × Store S
  unfolding close_loop
  close_writer w st = let (e, st') = close_loop w.ws none st in (e, record w { ws = [] }, st')

pub data Name : Type 0 where
  subscribe_name unsubscribe_name hwm_name : Name
  other_name : Bytes → Name

-- `subSocket`, with the parts of the base socket that it uses.
pub record SubSocket (S : Type 0) : Type 0 where
  pub subs : List Bytes
  pub conns : List ℕ
  pub writer : MWriter
  pub store : Store S

-- `NewSub`, over the writer that `newDefaultSocket` makes.
unfoldable pub new_sub : {S : Type 0} → Store S → SubSocket S
new_sub st = record {
  subs = [];
  conns = [];
  writer = record { ws = []; sem = record { ready = false } };
  store = st;
}

-- `sub.subscribe(topic, v)`.
unfoldable pub subscribe : Bytes → ℕ → List Bytes → List Bytes
subscribe topic v subs =
    if v == 0 then delete_topic topic subs else if v == 1 then add_topic topic subs else subs

module _ {S : Type 0} (io : NetConn S) where
  -- The end of `SetOption`: the command goes out if there is a connection. The lock that it holds
  -- keeps connections from coming and going meanwhile.
  abbrev with_store : SubSocket S → Option Error × Store S → Option Error × SubSocket S
  with_store sk (e, st) = (e, record sk { store = st })

  announce : Bytes → SubSocket S → Option Error × SubSocket S
  unfolding write_all
  announce topic sk =
      if length sk.conns == 0
      then (none, sk)
      else with_store sk (write_all io (new_msg topic) sk.writer sk.store)

  -- `SetOption` with a string value; the base socket's SetOption, which comes first, stores the
  -- property and does not fail. A value of another type makes the type assertion panic.
  unfoldable pub set_option : Name → Bytes → SubSocket S → Option Error × SubSocket S
  unfolding subscribe announce
  set_option subscribe_name k sk = announce (1 ∷ k) (record sk { subs = subscribe k 1 sk.subs })
  set_option unsubscribe_name k sk = announce (0 ∷ k) (record sk { subs = subscribe k 0 sk.subs })
  set_option _ k sk = (some bad_property, sk)

  -- `onConnAdded`: every topic of `sub.Topics()`, in that order, to the new connection, whatever
  -- comes of the sends.
  unfoldable pub on_conn_added : ℕ → List Bytes → Store S → Store S
  on_conn_added c [] st = st
  on_conn_added c (t ∷ ts) st = on_conn_added c ts (send_msg io c (new_msg (1 ∷ t)) st).1
