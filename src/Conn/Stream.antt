-- ===== src/Conn/Stream.antt =====
-- What the connection layer relies on of the QUIC stream below it: bytes written arrive at the end
-- of what was sent, and `io.ReadFull` takes exactly n bytes off what the peer has sent, or fails.
use quicmq.Base.{
  not, ℕ, ◌≤◌, ◌<◌, ◌≡◌, Bool, true, false, none, some, [], ◌++◌, arith, length, take, drop, leb,
  if◌then◌else◌, ◌≢◌,
}
use mathlib.Core.Path.{fun_ext}
use quicmq.Base.Bytes.{Bytes}
use quicmq.Result.{Result, ok, err, Error, net_error, unexpected_eof}
use quicmq.Conn.{NetConn, Store, set_rw, update}

-- `sent` is what was written so far; `pending` is what can still be read before the stream ends or
-- fails.
pub record IsStream {S : Type 0} (io : NetConn S) : Type 0 where
  pub sent : S → Bytes
  pub pending : S → Bytes
  pub write_sent :
      (s : S) (bs : Bytes) → (io.write s bs).0 ≡ none → sent (io.write s bs).1 ≡ sent s ++ bs
  pub read_enough :
      (s : S) (n : ℕ)
      → n ≤ length (pending s)
      → ((io.read_exactly s n).0 ≡ ok (take n (pending s)))
        × (pending (io.read_exactly s n).1 ≡ drop n (pending s))
  pub read_short :
      (s : S) (n : ℕ) → length (pending s) < n → (e : Error) × ((io.read_exactly s n).0 ≡ err e)

pub update_self {ℓ} : {A : Type ℓ} (f : ℕ → A) (c : ℕ) (v : A) → update f c v c ≡ v
unfolding update
update_self f c v = ground arith

pub update_ne {ℓ} : {A : Type ℓ} (f : ℕ → A) (c : ℕ) (v : A) (d : ℕ) → d ≢ c → update f c v d ≡ f d
unfolding update
update_ne f c v d h = ground arith

pub update-update {ℓ} :
    {A : Type ℓ} (f : ℕ → A) (c : ℕ) (v w : A) → update (update f c v) c w ≡ update f c w
unfolding update
update-update f c v w = fun_ext λ d. ground arith

pub update_same {ℓ} : {A : Type ℓ} (f : ℕ → A) (c : ℕ) → update f c (f c) ≡ f
unfolding update
update_same f c = fun_ext λ d. ground arith

pub ruleset updates = (update_self, update-update)

module _ {S : Type 0} where
  pub set_rw-set_rw :
      (st : Store S) (c : ℕ) (s s' : S) → set_rw (set_rw st c s) c s' ≡ set_rw st c s'
  set_rw-set_rw st c s s' = simp updates

-- A stream in memory that works until it is cut.
pub record Pipe : Type 0 where
  pub outbox : Bytes
  pub inbox : Bytes
  pub cut : Bool

pipe_read : Pipe → ℕ → Bool → Result Bytes × Pipe
pipe_read p n true = (ok (take n p.inbox), record p { inbox = drop n p.inbox })
pipe_read p n false = (err unexpected_eof, record p { inbox = [] })

unfoldable pub pipe_io : NetConn Pipe
unfolding pipe_read
pipe_io = record {
  write = λ p bs.
      if p.cut then (some (net_error 1), p) else (none, record p { outbox = p.outbox ++ bs });
  read_exactly = λ p n. pipe_read p n (leb n (length p.inbox));
  close = λ p. (none, record p { cut = true });
}

pub pipe_write_sent :
    (p : Pipe) (bs : Bytes)
    → (pipe_io.write p bs).0 ≡ none
    → ((pipe_io.write p bs).1).outbox ≡ p.outbox ++ bs
unfolding pipe_io
pipe_write_sent p bs h = ground arith

pub pipe_read_enough :
    (p : Pipe) (n : ℕ)
    → n ≤ length p.inbox
    → ((pipe_io.read_exactly p n).0 ≡ ok (take n p.inbox))
      × (((pipe_io.read_exactly p n).1).inbox ≡ drop n p.inbox)
unfolding pipe_io pipe_read
pipe_read_enough p n h = ground arith

pub pipe_read_short :
    (p : Pipe) (n : ℕ) → length p.inbox < n → (pipe_io.read_exactly p n).0 ≡ err unexpected_eof
unfolding pipe_io pipe_read
pipe_read_short p n h = ground arith

-- A pipe that works goes on working, and its two directions are independent.
pub pipe_write_works :
    (p : Pipe) (bs : Bytes)
    → not p.cut ≡ true
    → ((pipe_io.write p bs).0 ≡ none)
      × (not (pipe_io.write p bs).1.cut ≡ true)
      × ((pipe_io.write p bs).1.inbox ≡ p.inbox)
unfolding pipe_io
pipe_write_works p bs up = ground arith

pub pipe_read_works :
    (p : Pipe) (n : ℕ)
    → (not (pipe_io.read_exactly p n).1.cut ≡ not p.cut)
      × ((pipe_io.read_exactly p n).1.outbox ≡ p.outbox)
unfolding pipe_io pipe_read
pipe_read_works p n = ground arith

unfoldable pub pipe_io-IsStream : IsStream pipe_io
pipe_io-IsStream = record {
  sent = λ p. p.outbox;
  pending = λ p. p.inbox;
  write_sent = pipe_write_sent;
  read_enough = pipe_read_enough;
  read_short = λ p n h. (unexpected_eof, pipe_read_short p n h);
}
