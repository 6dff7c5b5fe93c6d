-- ===== src/Conn.antt =====
-- conn.go: a connection over a `net.Conn`, with its framing, its topic set and its closing, in a
-- store of connections, where a `*Conn` is a number. With it the part of a socket that a
-- connection's callback writes (`scheduleRmConn`, socket.go).
pub mod Stream
pub mod Topics
pub mod TopicSet
pub mod Send
pub mod Read
pub mod Closing
pub mod Link
pub mod Transfer
use quicmq.Base.{
  ℕ, zero, suc, ◌+◌, Bool, true, false, not, ◌&&◌, Option, none, some, List, [], ◌∷◌, ◌++◌, length,
  ◌==◌, if◌then◌else◌,
}
use quicmq.Base.Bytes.{Bytes, beq, has_prefix}
use quicmq.Result.{Result, ok, err, Error, closed_conn, send_flag, send_length, send_frame}
use quicmq.Msg.{Msg, msg_of, SocketType}
use quicmq.Wire.{to_uint32, put_uint32, uint32, flag_of, has_more, first_byte}

-- The `net.Conn` is a parameter: its states S, and `Write`, `io.ReadFull` and `Close` on them.
pub record NetConn (S : Type 0) : Type 0 where
  pub write : S → Bytes → Option Error × S
  pub read_exactly : S → ℕ → Result Bytes × S
  pub close : S → Option Error × S

pub record Conn (S : Type 0) : Type 0 where
  pub typ : SocketType
  pub rw : S
  pub server : Bool
  pub topics : List Bytes
  pub closed : Bool
  pub has_callback : Bool

-- What `scheduleRmConn` reads and writes of the socket that owns the connections.
pub record Reaper : Type 0 where
  pub closed_conns : List ℕ
  pub reconnects : ℕ
  pub auto_reconnect : Bool
  pub is_dialer : Bool

pub record Store (S : Type 0) : Type 0 where
  pub conns : ℕ → Conn S
  pub reaper : Reaper

-- `socket.scheduleRmConn`: queue the connection for the reaper, and start a reconnection.
unfoldable pub schedule_rm_conn : Reaper → ℕ → Reaper
schedule_rm_conn r c = record r {
  closed_conns = r.closed_conns ++ c ∷ [];
  reconnects = if r.auto_reconnect && r.is_dialer then r.reconnects + 1 else r.reconnects;
}

-- The set of topics as a list without duplicates: `m[k] = struct{}{}` and `delete(m, k)`.
unfoldable pub has_topic : Bytes → List Bytes → Bool
has_topic k [] = false
has_topic k (t ∷ ts) = if beq t k then true else has_topic k ts

unfoldable pub add_topic : Bytes → List Bytes → List Bytes
unfolding has_topic
add_topic k ts = if has_topic k ts then ts else ts ++ k ∷ []

unfoldable pub delete_topic : Bytes → List Bytes → List Bytes
delete_topic k [] = []
delete_topic k (t ∷ ts) = let rest = delete_topic k ts in if beq t k then rest else t ∷ rest

-- The loop of `subscribed`, in the order of the list.
unfoldable pub matches : List Bytes → Bytes → Bool
matches [] topic = false
matches (k ∷ ks) topic =
    let rest = matches ks topic in
    if beq k [] then true else if has_prefix topic k then true else rest

-- The switch of `subscribe` on v[0]; any other byte changes nothing.
unfoldable pub apply_cmd : ℕ → Bytes → List Bytes → List Bytes
unfolding add_topic delete_topic
apply_cmd b k ts = if b == 0 then delete_topic k ts else if b == 1 then add_topic k ts else ts

-- `msg.Frames[0]`, `v[1:]` and `v[0]` panic where they do not exist: `none`.
unfoldable pub subscribe_topics : List Bytes → List Bytes → Option (List Bytes)
unfolding apply_cmd
subscribe_topics ((b ∷ k) ∷ fs) ts = some (apply_cmd b k ts)
subscribe_topics _ ts = none

-- A write through a pointer.
unfoldable pub update {ℓ} : {A : Type ℓ} → (ℕ → A) → ℕ → A → ℕ → A
update f c v d = if d == c then v else f d

-- A step that may fail; what it did before it failed stays done.
abbrev pub Step : Type 0 → Type 0
Step S = Store S → Option Error × Store S

module _ {S : Type 0} where
  abbrev pub set_conn : Store S → ℕ → Conn S → Store S
  set_conn st c v = record st { conns = update st.conns c v }

  -- `Open`: the new connection; `none` stands for the error on a nil `net.Conn`.
  unfoldable pub open_conn : Option S → SocketType → Bool → Bool → Option (Conn S)
  open_conn none typ server cb = none
  open_conn (some rw) typ server cb = some (record {
    typ = typ;
    rw = rw;
    server = server;
    topics = [];
    closed = false;
    has_callback = cb;
  })

  unfoldable pub subscribe : Store S → ℕ → Msg → Option (Store S)
  unfolding subscribe_topics
  subscribe st c msg = elim (subscribe_topics msg.frames (st.conns c).topics) [
    | none ↦ none
    | some ts ↦ some (set_conn st c (record (st.conns c) { topics = ts }))
  ]

  unfoldable pub subscribed : Store S → ℕ → Bytes → Bool
  unfolding matches
  subscribed st c topic = matches (st.conns c).topics topic

  unfoldable pub is_closed : Store S → ℕ → Bool
  is_closed st c = (st.conns c).closed

  notify_on_close_error : Store S → ℕ → Store S
  unfolding schedule_rm_conn
  notify_on_close_error st c =
      if (st.conns c).has_callback then record st { reaper = schedule_rm_conn st.reaper c } else st

  -- The compare-and-swap succeeds on the first call only.
  unfoldable pub set_closed : Store S → ℕ → Store S
  unfolding notify_on_close_error
  set_closed st c =
      if (st.conns c).closed
      then st
      else notify_on_close_error (set_conn st c (record (st.conns c) { closed = true })) c

  unfoldable pub check_io : Store S → ℕ → Option Error → Store S
  unfolding set_closed
  check_io st c none = st
  check_io st c (some e) = set_closed st c

  abbrev pub set_rw : Store S → ℕ → S → Store S
  set_rw st c s = set_conn st c (record (st.conns c) { rw = s })

  abbrev pub go_on : Option Error × Store S → Step S → Option Error × Store S
  go_on (none, st) k = k st
  go_on (some x, st) k = (some x, st)

  infixl 5 ◌>>◌
  abbrev pub ◌>>◌ : Step S → Step S → Step S
  ◌>>◌ m k st = go_on (m st) k

  abbrev pub received : ℕ → Store S → Result Bytes × S → Result Bytes × Store S
  received c st (ok bs, s) = (ok bs, set_rw st c s)
  received c st (err e, s) = (err e, check_io (set_rw st c s) c (some e))

  -- A read that fails ends `read`, with the frames so far and the error in the message.
  abbrev pub unless_failed :
      List Bytes
      → Result Bytes × Store S
      → (Bytes → Store S → Option (Msg × Store S))
      → Option (Msg × Store S)
  unless_failed frames (ok bs, st) k = k bs st
  unless_failed frames (err e, st) k = some (record (msg_of frames) { err = some e }, st)

  module _ (io : NetConn S) where
    unfoldable pub close_conn : ℕ → Step S
    close_conn c st = let (e, s) = io.close (st.conns c).rw in (e, set_rw st c s)

    -- One `c.rw.Write` of SendMsg, with what is done on its error.
    unfoldable pub write_part : (Error → Error) → ℕ → Bytes → Step S
    write_part wrap c bs st =
        let (e, s) = io.write (st.conns c).rw bs in
        let st' = set_rw st c s in
        elim e [ none ↦ (none, st') | some x ↦ (some (wrap x), check_io st' c (some x)) ]

    -- The loop of SendMsg from frame i of n on.
    unfoldable pub send_frames : ℕ → ℕ → ℕ → List Bytes → Step S
    unfolding write_part
    send_frames c n i [] st = (none, st)
    send_frames c n i (frame ∷ rest) st =
        let tail = send_frames c n (i + 1) rest in
        (write_part send_flag c (flag_of i n ∷ [])
            >> write_part send_length c (put_uint32 (to_uint32 (length frame)))
            >> write_part (send_frame (i + 1) n) c frame
            >> tail)
          st

    unfoldable pub send_msg : ℕ → Msg → Step S
    unfolding is_closed send_frames
    send_msg c msg st =
        if is_closed st c
        then (some closed_conn, st)
        else send_frames c (length msg.frames) 0 msg.frames st

    -- `io.ReadFull(c.rw, buf)` for a buffer of n bytes, and `checkIO` on its error.
    unfoldable pub read_part : ℕ → ℕ → Store S → Result Bytes × Store S
    read_part c n st = received c st (io.read_exactly (st.conns c).rw n)

    -- The loop of `read`. `none` means that the fuel ran out.
    unfoldable pub read_loop : ℕ → ℕ → List Bytes → Store S → Option (Msg × Store S)
    unfolding read_part
    read_loop c zero frames st = none
    read_loop c (suc fuel) frames st = unless_failed frames (read_part c 1 st) λ flag st1.
        unless_failed frames (read_part c 4 st1) λ len st2.
          unless_failed frames (read_part c (uint32 len) st2) λ body st3.
            elim (has_more (first_byte flag)) [
              | true ↦ read_loop c fuel (frames ++ body ∷ []) st3
              | false ↦ some (msg_of (frames ++ body ∷ []), st3)
            ]

    unfoldable pub read : ℕ → ℕ → Store S → Option (Msg × Store S)
    unfolding read_loop
    read fuel c st = read_loop c fuel [] st
