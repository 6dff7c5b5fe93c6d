-- ===== src/Conn/Link/Ends.antt =====
-- One end of a working connection: what is pending on it and what was sent.
use quicmq.Base.{
  ℕ, suc, ◌≡◌, ◌≢◌, ap, ◌∙◌, sym, true, false, none, some, List, [], ◌++◌, length, drop,
  drop-length-append, All,
}
use quicmq.Base.Bytes.{Bytes}
use quicmq.Msg.{Msg, msg_of}
use quicmq.Wire.Format.{Fits, wire_format}
use quicmq.Conn.{NetConn, Conn, Store, set_rw, send_msg, read}
use quicmq.Conn.Stream.{IsStream, update_self}
use quicmq.Conn.Transfer.{read_wire}
use quicmq.Conn.Link.{IsLink, new_bytes, arrive, fuel_for, rw_self, send_msg_works}
use quicmq.Conn.Link.Keeping.{read_keeps}

module _ {S : Type 0} {io : NetConn S} {a : IsStream io} (link : IsLink a) (c : ℕ) where
  -- Connection c is open and its stream works, with these pending bytes, after these were sent.
  pub record AtEnd (pending sent : Bytes) (st : Store S) : Type 0 where
    pub is_open : (st.conns c).closed ≡ false
    pub working : link.works (st.conns c).rw ≡ true
    pub waits : a.pending (st.conns c).rw ≡ pending
    pub wrote : a.sent (st.conns c).rw ≡ sent

  same_open : (st : Store S) (s : S) → ((set_rw st c s).conns c).closed ≡ (st.conns c).closed
  same_open st s = ap (λ (k : Conn S). k.closed) (update_self st.conns c _)

  set_rw-AtEnd :
      (p o : Bytes) (st : Store S) (s : S)
      → (st.conns c).closed ≡ false
      → link.works s ≡ true
      → a.pending s ≡ p
      → a.sent s ≡ o
      → AtEnd p o (set_rw st c s)
  set_rw-AtEnd p o st s is_open works pending sent =
      let now = rw_self link c st s in
      record {
        is_open = same_open st s ∙ is_open;
        working = ap link.works now ∙ works;
        waits = ap a.pending now ∙ pending;
        wrote = ap a.sent now ∙ sent;
      }

  pub arrive-AtEnd :
      (p o bs : Bytes) (st : Store S) → AtEnd p o st → AtEnd (p ++ bs) o (arrive link c bs st)
  arrive-AtEnd p o bs st v =
      let s = (st.conns c).rw in
      set_rw-AtEnd (p ++ bs) o st (link.deliver s bs) v.is_open
        (link.deliver_works s bs ∙ v.working)
        (link.deliver_pending s bs ∙ ap (λ x. x ++ bs) v.waits) (link.deliver_sent s bs ∙ v.wrote)

  pub send-AtEnd :
      (p o : Bytes) (msg : Msg) (st : Store S)
      → AtEnd p o st
      → (st1 : Store S) × (send_msg io c msg st ≡ (none, st1))
        × AtEnd p (o ++ wire_format msg.frames) st1
  send-AtEnd p o msg st v =
      let (s, sending, works, sent, pending) = send_msg_works link c msg st v.is_open v.working in
      (
        set_rw st c s,
        sending,
        set_rw-AtEnd p (o ++ wire_format msg.frames) st s v.is_open works (pending ∙ v.waits)
            (sent ∙ ap (λ x. x ++ wire_format msg.frames) v.wrote),
      )

  -- A read of the next message changes nothing but the stream.
  pub read_rw-AtEnd :
      (p o : Bytes) (fs : List Bytes) (st : Store S)
      → AtEnd (wire_format fs ++ p) o st
      → fs ≢ []
      → All Fits fs
      → (s : S) × (read io (fuel_for link c st) c st ≡ some (msg_of fs, set_rw st c s))
        × AtEnd p o (set_rw st c s)
  read_rw-AtEnd p o fs st v ne fits =
      let (s, got, pending) = read_wire a c fs st p v.waits ne fits in
      let (works, sent) = read_keeps link c _ fs st (set_rw st c s) got in
      let now = rw_self link c st s in
      (
        s,
        ap (λ bs. read io (suc (length bs)) c st) v.waits ∙ got,
        set_rw-AtEnd p o st s v.is_open (sym (ap link.works now) ∙ works ∙ v.working) pending
            (sym (ap a.sent now) ∙ sent ∙ v.wrote),
      )

  pub read-AtEnd :
      (p o : Bytes) (fs : List Bytes) (st : Store S)
      → AtEnd (wire_format fs ++ p) o st
      → fs ≢ []
      → All Fits fs
      → (st1 : Store S) × (read io (fuel_for link c st) c st ≡ some (msg_of fs, st1))
        × AtEnd p o st1
  read-AtEnd p o fs st v ne fits =
      let (s, got, end) = read_rw-AtEnd p o fs st v ne fits in (set_rw st c s, got, end)

  pub new_bytes-AtEnd :
      (p q o more : Bytes) (st st1 : Store S)
      → AtEnd p o st
      → AtEnd q (o ++ more) st1
      → new_bytes link (st.conns c).rw (st1.conns c).rw ≡ more
  new_bytes-AtEnd p q o more st st1 v w =
      ap (λ x. drop (length x) (a.sent (st1.conns c).rw)) v.wrote
      ∙ ap (drop (length o)) w.wrote
      ∙ drop-length-append o more
