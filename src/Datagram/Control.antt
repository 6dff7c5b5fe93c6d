-- ===== src/Datagram/Control.antt =====
-- datagram.go: the control stream between a DatagramSub and a DatagramPub.
pub mod Agreement
use quicmq.Base.{
  ℕ, zero, suc, ◌≡◌, refl, Bool, true, false, Option, none, some, List, [], ◌∷◌, ◌++◌, arith,
}
use quicmq.Base.Bytes.{Bytes}
use quicmq.Result.{Error, Result, ok, err}
use quicmq.Conn.{NetConn}
use quicmq.Conn.Stream.{IsStream, Pipe, pipe_io, pipe_io-IsStream}
use quicmq.Sub.{first_error}
use quicmq.Sub.Sync.{Change}
use quicmq.Datagram.Codec.{sub_cmd, read_sub_cmd}
use quicmq.Datagram.Peers.{Hub, handle_cmd}
use quicmq.Datagram.Subscriber.{DatagramSub, new_datagram_sub, set_option, connect}

module _ {S : Type 0} (io : NetConn S) where
  -- Calls of SetOption, with the first error that one of them returns.
  unfoldable pub change_all : List Change → DatagramSub S → Option Error × DatagramSub S
  unfolding set_option
  change_all [] sk = (none, sk)
  change_all ((sub, k) ∷ cs) sk =
      let (e, sk1) = set_option io sub k sk in
      let (e', sk2) = change_all cs sk1 in (first_error e e', sk2)

  -- A subscriber that was given topics before its Dial, which opened stream s, and after it.
  abbrev pub dialed_sub : List Change → List Bytes → S → List Change → Option Error × DatagramSub S
  dialed_sub before listing s after =
      change_all after (connect io listing s (change_all before new_datagram_sub).1)

-- What is relied on of a control stream: a write that fails breaks it, and a broken stream stays so, for
-- quic-go keeps the error of a stream that was reset or whose connection is gone.
pub record IsControl {S : Type 0} (io : NetConn S) : Type 0 where
  pub broken : S → Bool
  pub fail_breaks :
      (s : S) (bs : Bytes) (e : Error)
      → (io.write s bs).0 ≡ some e
      → broken (io.write s bs).1 ≡ true
  pub stays_broken : (s : S) (bs : Bytes) → broken s ≡ true → broken (io.write s bs).1 ≡ true

-- The pipes in memory.
pub pipe_fail_breaks :
    (s : Pipe) (bs : Bytes) (e : Error)
    → (pipe_io.write s bs).0 ≡ some e
    → (pipe_io.write s bs).1.cut ≡ true
unfolding pipe_io
pipe_fail_breaks s bs e h = ground arith

pub pipe_stays_broken : (s : Pipe) (bs : Bytes) → s.cut ≡ true → (pipe_io.write s bs).1.cut ≡ true
unfolding pipe_io
pipe_stays_broken s bs h = ground arith

unfoldable pub pipe_control : IsControl pipe_io
pipe_control = record {
  broken = λ s. s.cut;
  fail_breaks = pipe_fail_breaks;
  stays_broken = pipe_stays_broken;
}

module _ {S : Type 0} where
  abbrev pub after_read :
      ℕ → Hub S → (Bytes → Hub S → Hub S) → Result ((Bool × Bytes) × Bytes) → Hub S
  after_read p hub next (err e) = hub
  after_read p hub next (ok ((sub, k), rest)) = next rest (handle_cmd hub p sub k)

  -- The loop of `handlePeer` on the bytes that have arrived: it stops where no command can be read.
  unfoldable pub handle_all : ℕ → Bytes → ℕ → Hub S → Hub S
  handle_all zero bs p hub = hub
  handle_all (suc fuel) bs p hub =
      after_read p hub (λ rest hub'. handle_all fuel rest p hub') (read_sub_cmd bs)

-- The commands for changes, as bytes.
unfoldable pub change_bytes : List Change → Bytes
change_bytes [] = []
change_bytes ((sub, k) ∷ cs) = sub_cmd sub k ++ change_bytes cs
