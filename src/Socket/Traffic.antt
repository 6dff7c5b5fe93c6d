-- ===== src/Socket/Traffic.antt =====
-- socket.go: Send, SendMulti and Recv of the base socket, which go through its pools, and what `mwriter`
-- makes of them.
use quicmq.Base.{ℕ, ◌≡◌, ap, ◌∙◌, Bool, true, Option, none, some, ◌++◌, All, if◌then◌else◌}
use quicmq.Base.Conns.{count_conn}
use quicmq.Result.{Error}
use quicmq.Msg.{Msg}
use quicmq.Wire.Format.{wire_format}
use quicmq.Conn.{NetConn, Store}
use quicmq.Conn.Stream.{IsStream}
use quicmq.Conn.Link.{IsLink}
use quicmq.Reader
use quicmq.Reader.{QReader}
use quicmq.Sub.{MWriter, lock_passes, write_all, write_loop}
use quicmq.Sub.Broadcast.{copies, IsReady, sent_on, write_loop-copies}
use quicmq.Socket.{BaseSocket}

-- `wpool` and `rpool`: `write`, with whether its context is done, and `read` into an empty message, with
-- the error of its context if that case of a select is taken. `none`: it waits.
pub record Writes (S W : Type 0) : Type 0 where
  pub write : Bool → Msg → W → Store S → Option (Option Error × W × Store S)

pub record Reads (R : Type 0) : Type 0 where
  pub read : Bool → Option Error → R → Option ((Msg × Option Error) × R)

module _ {S R W : Type 0} where
  written :
      BaseSocket S R W
      → Option (Option Error × W × Store S)
      → Option (Option Error × BaseSocket S R W)
  written sk none = none
  written sk (some (e, w, st)) = some (e, record sk { w = w; store = st })

  got :
      BaseSocket S R W
      → Option ((Msg × Option Error) × R)
      → Option ((Msg × Option Error) × BaseSocket S R W)
  got sk none = none
  got sk (some (m, r)) = some (m, record sk { r = r })

  unfoldable pub send :
      Writes S W → Bool → Msg → BaseSocket S R W → Option (Option Error × BaseSocket S R W)
  unfolding written
  send writers done msg sk = written sk (writers.write done msg sk.w sk.store)

  unfoldable pub send_multi :
      Writes S W → Bool → Msg → BaseSocket S R W → Option (Option Error × BaseSocket S R W)
  unfolding written
  send_multi writers done msg sk =
      written sk (writers.write done (record msg { multipart = true }) sk.w sk.store)

  unfoldable pub recv :
      Reads R
      → Bool
      → Option Error
      → BaseSocket S R W
      → Option ((Msg × Option Error) × BaseSocket S R W)
  unfolding got
  recv readers done cancelled sk = got sk (readers.read done cancelled sk.r)

-- The pools that `newDefaultSocket` makes.
unfoldable pub qreader_reads : {S : Type 0} → Reads (QReader S)
qreader_reads = record { read = Reader.read }

module _ {S : Type 0} (io : NetConn S) where
  unfoldable pub write_unlocked :
      Msg → MWriter → Store S → Bool → Option (Option Error × MWriter × Store S)
  unfolding write_all
  write_unlocked msg w st passes =
      if passes then some ((write_all io msg w st).0, w, (write_all io msg w st).1) else none

  unfoldable pub mwriter_writes : Writes S MWriter
  unfolding write_unlocked
  mwriter_writes = record {
    write = λ done msg w st. write_unlocked msg w st (lock_passes w.sem done);
  }

module _ {S R : Type 0} {io : NetConn S} {a : IsStream io} (link : IsLink a) where
  -- `Send` of a socket whose writer holds its connections, once the writer's semaphore lets it pass: if
  -- every connection is open and works, it reports no error, and each connection is sent the message in
  -- the wire format, once for each time that the socket holds it, and nothing else. So without any
  -- connection it reports no error either, and the message is gone.
  pub send-copies :
      (done : Bool) (msg : Msg) (sk : BaseSocket S R MWriter)
      → lock_passes sk.w.sem done ≡ true
      → sk.w.ws ≡ sk.conns
      → All (IsReady link sk.store) sk.conns
      → (st : Store S) × (send (mwriter_writes io) done msg sk
          ≡ some (none, record sk { store = st }))
        × ((c : ℕ)
            → sent_on link st c
              ≡ sent_on link sk.store c ++ copies (count_conn c sk.conns) (wire_format msg.frames))
  unfolding send mwriter_writes written write_unlocked write_all
  send-copies done msg sk passes same v =
      let (st, sent, each) = write_loop-copies link msg sk.conns sk.store v in
      (
        st,
        ap (λ b. written sk (write_unlocked io msg sk.w sk.store b)) passes
            ∙ ap (λ r. written sk (some (r.0, sk.w, r.1)))
                (ap (λ cs. write_loop io msg cs none sk.store) same ∙ sent),
        each,
      )
