-- ===== src/Socket.antt =====
-- socket.go: the base socket under every stream socket, with its two pools, its reaper and its dialing.
pub mod Backoff
pub mod Dialing
pub mod Failure
pub mod Properties
pub mod Reconnecting
pub mod Opening
pub mod Pools
pub mod TopicList
pub mod Traffic
use quicmq.Base.{ℕ, ◌≡◌, Option, none, some, List, [], ◌∷◌, ◌++◌, ◌==◌, Bool, if◌then◌else◌}
use quicmq.Base.Bytes.{Bytes}
use quicmq.Base.Conns.{remove_conn, count_conn}
use quicmq.Conn.{Store, has_topic}

-- `rpool` and `wpool`: what the base socket calls of a pool when connections come and go.
pub record Pool (P : Type 0) : Type 0 where
  pub add_conn : P → ℕ → P
  pub rm_conn : P → ℕ → P

pub record BaseSocket (S R W : Type 0) : Type 0 where
  pub conns : List ℕ
  pub r : R
  pub w : W
  pub store : Store S

-- The inner loop of `topics`: the topics of one connection that are not among the keys yet.
unfoldable pub topics_of : List Bytes → List Bytes → List Bytes
topics_of [] found = found
topics_of (t ∷ ts) found = topics_of ts (if has_topic t found then found else found ++ t ∷ [])

module _ {S : Type 0} where
  -- `topics`; a Go map has no order of its own, so the order of each topic list is any.
  unfoldable pub topics_loop : Store S → List ℕ → List Bytes → List Bytes
  unfolding topics_of
  topics_loop st [] found = found
  topics_loop st (c ∷ cs) found = topics_loop st cs (topics_of (st.conns c).topics found)

module _ {S R W : Type 0} (readers : Pool R) (writers : Pool W) where
  -- `addConn`, before its callback.
  unfoldable pub add_conn : BaseSocket S R W → ℕ → BaseSocket S R W
  add_conn sk c = record sk {
    conns = sk.conns ++ c ∷ [];
    w = writers.add_conn sk.w c;
    r = readers.add_conn sk.r c;
  }

  -- `rmConn`: a connection that the socket does not have is left alone.
  unfoldable pub rm_conn : BaseSocket S R W → ℕ → BaseSocket S R W
  rm_conn sk c = if count_conn c sk.conns == 0 then sk else record sk {
    conns = remove_conn c sk.conns;
    r = readers.rm_conn sk.r c;
    w = writers.rm_conn sk.w c;
  }

  -- The loop of `connReaper` over the copy of the closed connections.
  unfoldable pub rm_all : List ℕ → BaseSocket S R W → BaseSocket S R W
  unfolding rm_conn
  rm_all [] sk = sk
  rm_all (c ∷ cs) sk = rm_all cs (rm_conn sk c)

  -- A round of `connReaper` that found closed connections.
  unfoldable pub reap : BaseSocket S R W → BaseSocket S R W
  unfolding rm_all
  reap sk = rm_all sk.store.reaper.closed_conns (record sk {
    store = record (sk.store) { reaper = record (sk.store.reaper) { closed_conns = [] } };
  })
