-- ===== src/Socket/Pools.antt =====
-- Connections that come and go: the socket and its pools stay in step, and the reaper removes exactly
-- what was closed.
use quicmq.Base.{
  ℕ, ◌-◌, ◌≡◌, refl, ap, ◌∙◌, List, [], ◌∷◌, ◌++◌, ◌==◌, arith, if◌then◌else◌, Bool-cases, inl, inr,
}
use quicmq.Base.Conns.{remove_conn, count_conn, count-remove}
use quicmq.Socket.{Pool, BaseSocket, add_conn, rm_conn, rm_all, reap}
use quicmq.Sub
use quicmq.Sub.{MWriter}

-- What the base socket relies on: a pool holds a list of connections, `addConn` puts one at the end
-- and `rmConn` takes its first occurrence out.
pub record IsPool {P : Type 0} (pool : Pool P) : Type 0 where
  pub held : P → List ℕ
  pub held_add : (p : P) (c : ℕ) → held (pool.add_conn p c) ≡ held p ++ c ∷ []
  pub held_rm : (p : P) (c : ℕ) → held (pool.rm_conn p c) ≡ remove_conn c (held p)

-- `mwriter` is such a pool.
unfoldable pub mwriter_pool : Pool MWriter
mwriter_pool = record { add_conn = Sub.add_conn; rm_conn = Sub.rm_conn }

unfoldable pub mwriter_pool-IsPool : IsPool mwriter_pool
unfolding mwriter_pool Sub.add_conn Sub.rm_conn
mwriter_pool-IsPool = record { held = λ w. w.ws; held_add = λ w c. refl; held_rm = λ w c. refl }

module _ {S R W : Type 0} {readers : Pool R} {writers : Pool W} (a : IsPool readers)
    (b : IsPool writers) where
  -- The pools hold the connections of the socket.
  pub record InStep (sk : BaseSocket S R W) : Type 0 where
    pub reading : a.held sk.r ≡ sk.conns
    pub writing : b.held sk.w ≡ sk.conns

  -- A connection that is added reaches both pools.
  pub add_conn-InStep :
      (sk : BaseSocket S R W) (c : ℕ) → InStep sk → InStep (add_conn readers writers sk c)
  unfolding add_conn
  add_conn-InStep sk c v = record {
    reading = a.held_add sk.r c ∙ ap (λ cs. cs ++ c ∷ []) v.reading;
    writing = b.held_add sk.w c ∙ ap (λ cs. cs ++ c ∷ []) v.writing;
  }

  rm_conn-InStep :
      (sk : BaseSocket S R W) (c : ℕ) → InStep sk → InStep (rm_conn readers writers sk c)
  unfolding rm_conn
  rm_conn-InStep sk c v = elim (Bool-cases (count_conn c sk.conns == 0)) [
    | inl absent ↦ rw absent v
    | inr there ↦ rw there (record {
      reading = a.held_rm sk.r c ∙ ap (remove_conn c) v.reading;
      writing = b.held_rm sk.w c ∙ ap (remove_conn c) v.writing;
    })
  ]

  rm_all-InStep :
      (cs : List ℕ) (sk : BaseSocket S R W) → InStep sk → InStep (rm_all readers writers cs sk)
  unfolding rm_all
  rm_all-InStep [] sk v = v
  rm_all-InStep (c ∷ cs) sk v =
      rm_all-InStep cs (rm_conn readers writers sk c) (rm_conn-InStep sk c v)

  count-rm_conn :
      (sk : BaseSocket S R W) (c d : ℕ)
      → count_conn d (rm_conn readers writers sk c).conns
        ≡ (if d == c then count_conn d sk.conns - 1 else count_conn d sk.conns)
  unfolding rm_conn
  count-rm_conn sk c d = elim (Bool-cases (count_conn c sk.conns == 0)) [
    | inl absent ↦ rw absent ground arith
    | inr there ↦ rw there (count-remove c d sk.conns)
  ]

  count-rm_all :
      (cs : List ℕ) (sk : BaseSocket S R W) (d : ℕ)
      → count_conn d (rm_all readers writers cs sk).conns ≡ count_conn d sk.conns - count_conn d cs
  unfolding rm_all count_conn
  count-rm_all [] sk d = omega arith
  count-rm_all (c ∷ cs) sk d =
      ground (arith, count-rm_all cs (rm_conn readers writers sk c) d, count-rm_conn sk c d)

  -- A round of the reaper keeps the pools in step with the socket, and takes each connection out as
  -- often as it was reported closed and leaves every other connection there.
  pub reap_lem :
      (sk : BaseSocket S R W)
      → InStep sk
      → InStep (reap readers writers sk)
        × ((d : ℕ)
            → count_conn d (reap readers writers sk).conns
              ≡ count_conn d sk.conns - count_conn d sk.store.reaper.closed_conns)
  unfolding reap
  reap_lem sk v =
      let sk0 = record sk {
        store = record (sk.store) { reaper = record (sk.store.reaper) { closed_conns = [] } };
      } in
      (
        rm_all-InStep sk.store.reaper.closed_conns sk0
            (record { reading = v.reading; writing = v.writing }),
        λ d. count-rm_all sk.store.reaper.closed_conns sk0 d,
      )
