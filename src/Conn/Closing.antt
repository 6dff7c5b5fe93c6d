-- ===== src/Conn/Closing.antt =====
-- Closing: `SetClosed` marks a connection once and runs its callback once.
use quicmq.Base.{ℕ, ◌≡◌, refl, true, false, if◌then◌else◌, Bool-cases, inl, inr}
use quicmq.Conn.{Store, schedule_rm_conn, set_closed, update}
use quicmq.Conn.Stream.{update_self}

module _ {S : Type 0} where
  -- What `SetClosed` makes of a store in which c is open: the mark on c, and its callback run once.
  abbrev pub after_close : Store S → ℕ → Store S
  after_close st c = record st {
    conns = update st.conns c (record (st.conns c) { closed = true });
    reaper = if (st.conns c).has_callback then schedule_rm_conn st.reaper c else st.reaper;
  }

  pub set_closed_open :
      (st : Store S) (c : ℕ) → (st.conns c).closed ≡ false → set_closed st c ≡ after_close st c
  unfolding set_closed
  set_closed_open st c h = elim (Bool-cases (st.conns c).has_callback) [
    | inl e ↦ rw (h, set_closed) (rw (update_self, e) refl)
    | inr e ↦ rw (h, set_closed) (rw (update_self, e) refl)
  ]

  pub set_closed_again : (st : Store S) (c : ℕ) → (st.conns c).closed ≡ true → set_closed st c ≡ st
  unfolding set_closed
  set_closed_again st c h = rw (h, set_closed)

  -- Errors after the first leave the store alone: however often `SetClosed` is called, the callback
  -- has run once.
  pub set_closed_idem : (st : Store S) (c : ℕ) → set_closed (set_closed st c) c ≡ set_closed st c
  set_closed_idem st c = elim (Bool-cases (st.conns c).closed) [
    | inl e ↦ rw (set_closed_again st c e) (set_closed_again st c e)
    | inr e ↦
        rw (set_closed_open st c e)
          (set_closed_again (after_close st c) c (rw (update_self st.conns c _) refl))
  ]
