-- ===== src/Socket/Failure.antt =====
-- From a failed send to the connection's removal: conn.go's callback and socket.go's reaper.
use quicmq.Base.{
  ℕ, ◌+◌, ◌≤◌, ◌≡◌, refl, ap, ◌∙◌, sym, true, false, ◌&&◌, some, List, [], ◌∷◌, ◌++◌, arith,
  if◌then◌else◌, inl, inr,
}
use mathlib.Core.Path.{subst}
use quicmq.Base.Conns.{count_conn}
use quicmq.Result.{Error}
use quicmq.Msg.{Msg}
use quicmq.Conn.{NetConn, Conn, Store, Reaper, schedule_rm_conn, set_rw, send_msg}
use quicmq.Conn.Stream.{IsStream, update_self}
use quicmq.Conn.Closing.{after_close}
use quicmq.Conn.Send.{send_msg_failed}
use quicmq.Socket.{Pool, BaseSocket, rm_conn, rm_all, reap}
use quicmq.Socket.Pools.{IsPool, InStep, reap_lem}

-- The reconnections that are started after a failure, counted.
abbrev pub reconnects_after : Reaper → ℕ
reconnects_after r = if r.auto_reconnect && r.is_dialer then r.reconnects + 1 else r.reconnects

count-last : (c : ℕ) (cs : List ℕ) → 1 ≤ count_conn c (cs ++ c ∷ [])
unfolding count_conn
count-last c [] = ground arith
count-last c (d ∷ cs) = ground (arith, count-last c cs)

reaper-after_close :
    {S : Type 0} (st : Store S) (c : ℕ) (s : S)
    → (st.conns c).has_callback ≡ true
    → (after_close (set_rw st c s) c).reaper ≡ schedule_rm_conn st.reaper c
reaper-after_close {S} st c s h =
    ap (λ (k : Conn S). if k.has_callback then schedule_rm_conn st.reaper c else st.reaper)
      (update_self st.conns c _)
    ∙ ap (λ b. if b then schedule_rm_conn st.reaper c else st.reaper) h

module _ {S R W : Type 0} {readers : Pool R} {writers : Pool W} (a : IsPool readers)
    (b : IsPool writers) where
  rm_all-store :
      (cs : List ℕ) (sk : BaseSocket S R W) → (rm_all readers writers cs sk).store ≡ sk.store
  unfolding rm_all rm_conn
  rm_all-store [] sk = refl
  rm_all-store (c ∷ cs) sk = rm_all-store cs (rm_conn readers writers sk c) ∙ ground arith

  -- Connection c is gone, nothing waits for the reaper, and n reconnections were started in all.
  pub record Removed (c n : ℕ) (sk : BaseSocket S R W) : Type 0 where
    pub in_step : InStep a b sk
    pub gone : count_conn c sk.conns ≡ 0
    pub reaped : sk.store.reaper.closed_conns ≡ []
    pub started : sk.store.reaper.reconnects ≡ n

  -- A send that fails on an open connection takes that connection out of the socket: the reaper's next
  -- round removes it from the connections and keeps both pools in step, nothing is left for a further
  -- round, and exactly one reconnection was started if the socket dials and reconnects, and none if
  -- not. The connection stands once in the socket and has the socket's callback.
  pub failed_conn_leaves :
      {io : NetConn S} (stream : IsStream io) (c : ℕ) (msg : Msg) (sk : BaseSocket S R W)
      (st : Store S) (x : Error)
      → InStep a b sk
      → count_conn c sk.conns ≡ 1
      → (sk.store.conns c).closed ≡ false
      → (sk.store.conns c).has_callback ≡ true
      → send_msg io c msg sk.store ≡ (some x, st)
      → Removed c
          (reconnects_after sk.store.reaper)
          (reap readers writers (record sk { store = st }))
  unfolding reap schedule_rm_conn
  failed_conn_leaves stream c msg sk st x v once opened callback failed =
      elim (send_msg_failed stream c msg sk.store st x failed) [
        | inl (shut, _, _) ↦ absurd (ground arith)
        | inr (_, s, e) ↦
            let sk1 : BaseSocket S R W = record sk { store = st } in
            let (step, count) =
              reap_lem a b sk1 (record { reading = v.reading; writing = v.writing }) in
            let scheduled : st.reaper ≡ schedule_rm_conn sk.store.reaper c =
              ap (λ (t : Store S). t.reaper) e ∙ reaper-after_close sk.store c s callback in
            let emptied = rm_all-store st.reaper.closed_conns (record sk1 {
              store = record st { reaper = record (st.reaper) { closed_conns = [] } };
            }) in
            let queued : 1 ≤ count_conn c st.reaper.closed_conns =
              subst (λ (r : Reaper). 1 ≤ count_conn c r.closed_conns) (sym scheduled)
                (count-last c sk.store.reaper.closed_conns) in
            record {
              in_step = step;
              gone = omega (arith, count c);
              reaped = ap (λ (t : Store S). t.reaper.closed_conns) emptied;
              started =
                  ap (λ (t : Store S). t.reaper.reconnects) emptied
                  ∙ ap (λ (r : Reaper). r.reconnects) scheduled;
            }
      ]
