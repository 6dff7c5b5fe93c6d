-- ===== src/ConnectionPool/Ownership.antt =====
-- The pool's UDP sockets: exactly those of its entries are open, whatever net and quic-go answer.
use quicmq.Base.{
  ℕ, ◌+◌, ◌≡◌, refl, ap, ◌∙◌, sym, Option, none, some, List, [], ◌∷◌, ◌==◌, arith, if◌then◌else◌,
  Bool-cases, inl, inr,
}
use mathlib.Core.Path.{subst}
use quicmq.Base.Bytes.{Bytes, beq, beq_iff}
use quicmq.Base.Conns.{count_conn, count-remove}
use quicmq.Result.{Error, Result, ok, err}
use quicmq.Quic.{Os, open_socket, close_socket, close_with_error, parse_quic_addr}
use quicmq.ConnectionPool.{
  Entry, Entries, Pool, PoolAnswers, get_entry, delete_entry, put_entry, stream_on, after_handshake,
  with_conn, with_socket, dial_fresh, forget, dial_entry, dial, close_loop, close,
}

-- The sockets of the entries.
unfoldable pub sockets : Entries → List ℕ
sockets [] = []
sockets ((a, e) ∷ es) = e.udp ∷ sockets es

-- No address has two entries.
abbrev pub DistinctKeys : Entries → Type 0
DistinctKeys [] = Unit {0}
DistinctKeys ((a, e) ∷ es) = (get_entry a es ≡ none) × DistinctKeys es

-- The open sockets are those of the entries and, besides them, `others`, which the pool has not made.
pub record Owns (others : List ℕ) (p : Pool) : Type 0 where
  pub distinct : DistinctKeys p.entries
  pub balanced :
      (d : ℕ) → count_conn d p.os.open_udp ≡ count_conn d others + count_conn d (sockets p.entries)

delete_missing :
    (addr : Bytes) (es : Entries) → get_entry addr es ≡ none → delete_entry addr es ≡ es
unfolding get_entry delete_entry
delete_missing addr [] h = refl
delete_missing addr ((a, e) ∷ es) h = elim (Bool-cases (beq a addr)) [
  | inl same ↦ absurd (ground arith)
  | inr other ↦ rw (other, delete_entry) (ap (◌∷◌ (a, e)) (delete_missing addr es (ground arith)))
]

get-delete :
    (k addr : Bytes) (es : Entries)
    → get_entry k (delete_entry addr es) ≡ (if beq addr k then none else get_entry k es)
unfolding get_entry delete_entry
get-delete k addr [] = ground arith
get-delete k addr ((a, e) ∷ es) =
    ground (arith, get-delete k addr es, beq_iff a addr, beq_iff addr k, beq_iff a k)

delete-DistinctKeys :
    (addr : Bytes) (es : Entries) → DistinctKeys es → DistinctKeys (delete_entry addr es)
unfolding delete_entry
delete-DistinctKeys addr [] h = tt
delete-DistinctKeys addr ((a, e) ∷ es) h = elim (Bool-cases (beq a addr)) [
  | inl same ↦ rw (same, delete_entry) (delete-DistinctKeys addr es h.1)
  | inr other ↦
      rw (other, delete_entry)
        (ground (arith, get-delete a addr es, h.0), delete-DistinctKeys addr es h.1)
]

count-delete :
    (d : ℕ) (addr : Bytes) (e : Entry) (es : Entries)
    → DistinctKeys es
    → get_entry addr es ≡ some e
    → count_conn d (sockets es) ≡ (
        if e.udp == d
        then count_conn d (sockets (delete_entry addr es)) + 1
        else count_conn d (sockets (delete_entry addr es)))
unfolding get_entry delete_entry sockets count_conn
count-delete d addr e [] v h = absurd (ground arith)
count-delete d addr e ((a, e1) ∷ es) v h = elim (Bool-cases (beq a addr)) [
  | inl same ↦
      let q : a ≡ addr = (beq_iff a addr).0 same in
      let missing : get_entry addr es ≡ none = ap (λ k. get_entry k es) (sym q) ∙ v.0 in
      let kept = ap (λ x. count_conn d (sockets x)) (delete_missing addr es missing) in
      let found : e1.udp ≡ e.udp = ground arith in
      rw (same, delete_entry) (ground (arith, kept, found))
  | inr other ↦
      let found : get_entry addr es ≡ some e = ground arith in
      rw (other, delete_entry) (ground (arith, count-delete d addr e es v.1 found))
]

module _ (others : List ℕ) where
  -- Socket u is open besides, and the address has no entry.
  abbrev Fresh : ℕ → Pool → Type 0
  Fresh u p =
      (d : ℕ)
      → count_conn d p.os.open_udp ≡ (
          if u == d
          then count_conn d others + count_conn d (sockets p.entries) + 1
          else count_conn d others + count_conn d (sockets p.entries))

  stream-Owns :
      (e : Entry) (r : Result ℕ) (p : Pool) → Owns others p → Owns others (stream_on e r p).1
  unfolding stream_on
  stream-Owns e (ok s) p v = v
  stream-Owns e (err x) p v = v

  closed-Owns :
      (u : ℕ) (p : Pool) (os : Os)
      → DistinctKeys p.entries
      → Fresh u p
      → os.open_udp ≡ p.os.open_udp
      → Owns others (record p { os = close_socket u os })
  closed-Owns u p os v h same = record {
    distinct = v;
    balanced = λ d. ground (arith, count-remove u d os.open_udp, ap (count_conn d) same, h d);
  }

  handshake-Owns :
      (a : PoolAnswers) (addr : Bytes) (e : Entry) (r : Option Error) (p : Pool)
      → DistinctKeys p.entries
      → get_entry addr p.entries ≡ none
      → Fresh e.udp p
      → Owns others (after_handshake a addr e r p).1
  unfolding after_handshake put_entry sockets count_conn
  handshake-Owns a addr e (some x) p v absent h =
      closed-Owns e.udp p (close_with_error e.qconn p.os) v h refl
  handshake-Owns a addr e none p v absent h =
      let kept = delete_missing addr p.entries absent in
      stream-Owns e a.stream (record p { entries = put_entry addr e p.entries })
        (record {
          distinct = subst (λ es. DistinctKeys ((addr, e) ∷ es)) (sym kept) (absent, v);
          balanced = λ d. ground (arith, h d, ap (λ es. count_conn d (sockets es)) kept);
        })

  conn-Owns :
      (a : PoolAnswers) (addr : Bytes) (u : ℕ) (r : Result ℕ) (p : Pool)
      → DistinctKeys p.entries
      → get_entry addr p.entries ≡ none
      → Fresh u p
      → Owns others (with_conn a addr u r p).1
  unfolding with_conn
  conn-Owns a addr u (err x) p v absent h = closed-Owns u p p.os v h refl
  conn-Owns a addr u (ok q) p v absent h =
      handshake-Owns a addr (record { qconn = q; udp = u }) a.handshake p v absent h

  socket-Owns :
      (a : PoolAnswers) (addr : Bytes) (r : Result ℕ) (p : Pool)
      → get_entry addr p.entries ≡ none
      → Owns others p
      → Owns others (with_socket a addr r p).1
  unfolding with_socket count_conn
  socket-Owns a addr (err x) p absent v = v
  socket-Owns a addr (ok u) p absent v =
      conn-Owns a addr u a.early (record p { os = open_socket u p.os }) v.distinct absent
        (λ d. ground (arith, v.balanced d))

  fresh-Owns :
      (a : PoolAnswers) (addr : Bytes) (r : Option Error) (p : Pool)
      → get_entry addr p.entries ≡ none
      → Owns others p
      → Owns others (dial_fresh a addr r p).1
  unfolding dial_fresh
  fresh-Owns a addr (some x) p absent v = v
  fresh-Owns a addr none p absent v = socket-Owns a addr a.udp p absent v

  forget-Owns :
      (addr : Bytes) (e : Entry) (p : Pool)
      → get_entry addr p.entries ≡ some e
      → Owns others p
      → Owns others (forget addr e p)
  forget-Owns addr e p found v = record {
    distinct = delete-DistinctKeys addr p.entries v.distinct;
    balanced = λ d. ground (
      arith,
      count-remove e.udp d p.os.open_udp,
      v.balanced d,
      count-delete d addr e p.entries v.distinct found,
    );
  }

  entry-Owns :
      (a : PoolAnswers) (addr : Bytes) (r : Option Entry) (p : Pool)
      → get_entry addr p.entries ≡ r
      → Owns others p
      → Owns others (dial_entry a addr r p).1
  unfolding dial_entry
  entry-Owns a addr none p absent v = fresh-Owns a addr a.resolve p absent v
  entry-Owns a addr (some e) p found v = elim (Bool-cases (a.alive e.qconn)) [
    | inl alive ↦ rw (alive, dial_entry) (stream-Owns e a.stream p v)
    | inr dead ↦
        rw (dead, dial_entry)
          (fresh-Owns a addr a.resolve (forget addr e p)
            (get-delete addr addr p.entries ∙ ground (arith, beq_iff addr addr))
            (forget-Owns addr e p found v))
  ]

  -- Dial keeps the pool's books: whatever the address is and whatever net and quic-go answer, on
  -- success and on every error, no address has two entries afterwards and the open UDP sockets are
  -- those of the entries and the ones that the pool has not made.
  pub dial-Owns :
      (a : PoolAnswers) (ep : Bytes) (p : Pool) → Owns others p → Owns others (dial a ep p).1
  unfolding dial
  dial-Owns a ep p v = entry-Owns a (parse_quic_addr ep) _ p refl v

  close_loop_count :
      (d : ℕ) (es : Entries) (os : Os)
      → count_conn d os.open_udp ≡ count_conn d others + count_conn d (sockets es)
      → count_conn d (close_loop es os).open_udp ≡ count_conn d others
  unfolding close_loop sockets count_conn
  close_loop_count d [] os h = omega (arith, h)
  close_loop_count d ((a, e) ∷ es) os h =
      close_loop_count d es (close_socket e.udp (close_with_error e.qconn os))
        (ground (arith, count-remove e.udp d os.open_udp, h))

  -- Close leaves no socket of the pool open, and no entry.
  pub close_lem :
      (p : Pool)
      → Owns others p
      → ((close p).entries ≡ [])
        × ((d : ℕ) → count_conn d (close p).os.open_udp ≡ count_conn d others)
  unfolding close
  close_lem p v = (refl, λ d. close_loop_count d p.entries p.os (v.balanced d))
