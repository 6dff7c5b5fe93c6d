-- ===== src/Conn/Link/Keeping.antt =====
-- What `read` leaves of a stream that works.
use quicmq.Base.{
  ℕ, zero, suc, ◌≡◌, refl, ap, ◌∙◌, sym, Bool, true, false, Option, some, List, [], ◌∷◌, ◌++◌,
  arith,
}
use quicmq.Base.Bytes.{Bytes}
use quicmq.Result.{Result, ok, err}
use quicmq.Msg.{Msg, msg_of}
use quicmq.Wire.{uint32, has_more, first_byte}
use quicmq.Conn.{NetConn, Store, received, unless_failed, read_part, read_loop, read}
use quicmq.Conn.Stream.{IsStream}
use quicmq.Conn.Link.{IsLink, rw_self}

module _ {S : Type 0} {io : NetConn S} {a : IsStream io} (link : IsLink a) (c : ℕ) where
  open link use {works, read_works}

  -- What a read that succeeds leaves of a stream.
  abbrev Keeps : Store S → Store S → Type 0
  Keeps st st1 =
      (works (st1.conns c).rw ≡ works (st.conns c).rw)
      × (a.sent (st1.conns c).rw ≡ a.sent (st.conns c).rw)

  Keeps-Keeps : (st st1 st2 : Store S) → Keeps st st1 → Keeps st1 st2 → Keeps st st2
  Keeps-Keeps st st1 st2 (w, s) (w1, s1) = (w1 ∙ w, s1 ∙ s)

  received-Keeps :
      (st st1 : Store S) (n : ℕ) (bs : Bytes) (r : Result Bytes × S)
      → io.read_exactly (st.conns c).rw n ≡ r
      → received c st r ≡ (ok bs, st1)
      → Keeps st st1
  received-Keeps st st1 n bs (err e, s) h k = absurd (ground arith)
  received-Keeps st st1 n bs (ok xs, s) h k =
      let now : (st1.conns c).rw ≡ s =
        sym (ap (λ (x : Result Bytes × Store S). (x.1.conns c).rw) k) ∙ rw_self link c st s in
      let (w, p) = read_works (st.conns c).rw n xs (ap (λ x. x.0) h) in
      let end : (io.read_exactly (st.conns c).rw n).1 ≡ (st1.conns c).rw =
        ap (λ x. x.1) h ∙ sym now in
      (sym (ap works end) ∙ w, sym (ap a.sent end) ∙ p)

  part-Keeps :
      (st st1 : Store S) (n : ℕ) (bs : Bytes) → read_part io c n st ≡ (ok bs, st1) → Keeps st st1
  unfolding read_part
  part-Keeps st st1 n bs h = received-Keeps st st1 n bs (io.read_exactly (st.conns c).rw n) refl h

  -- A read in a loop that ends without an error has succeeded.
  after_part :
      (frames fs : List Bytes) (st st2 : Store S) (n : ℕ)
      (k : Bytes → Store S → Option (Msg × Store S)) (r : Result Bytes × Store S)
      → read_part io c n st ≡ r
      → unless_failed frames r k ≡ some (msg_of fs, st2)
      → ((bs : Bytes) (st1 : Store S) → k bs st1 ≡ some (msg_of fs, st2) → Keeps st1 st2)
      → Keeps st st2
  after_part frames fs st st2 n k (err e, st1) h end rest = absurd (ground arith)
  after_part frames fs st st2 n k (ok bs, st1) h end rest =
      Keeps-Keeps st st1 st2 (part-Keeps st st1 n bs h) (rest bs st1 end)

  loop-Keeps :
      (fuel : ℕ) (frames fs : List Bytes) (st st2 : Store S)
      → read_loop io c fuel frames st ≡ some (msg_of fs, st2)
      → Keeps st st2
  unfolding read_loop
  loop-Keeps zero frames fs st st2 h = absurd (ground arith)
  loop-Keeps (suc fuel) frames fs st st2 h = after_part frames fs st st2 1 _ _ refl h λ flag st3 h3.
      after_part frames fs st3 st2 4 _ _ refl h3 λ len st4 h4.
        after_part frames fs st4 st2 (uint32 len) _ _ refl h4 λ body st5 h5.
          frame_read (has_more (first_byte flag)) body st5 h5
            (λ st6 h6. loop-Keeps fuel (frames ++ body ∷ []) fs st6 st2 h6)
    where
      frame_read :
          (more : Bool) (body : Bytes) (st5 : Store S)
          → ◌≡◌ {A = Option (Msg × Store S)}
              (elim more [
                | true ↦ read_loop io c fuel (frames ++ body ∷ []) st5
                | false ↦ some (msg_of (frames ++ body ∷ []), st5)
              ])
              (some (msg_of fs, st2))
          → ((st6 : Store S)
              → read_loop io c fuel (frames ++ body ∷ []) st6 ≡ some (msg_of fs, st2)
              → Keeps st6 st2)
          → Keeps st5 st2
      frame_read true body st5 e rest = rest st5 e
      frame_read false body st5 e rest =
          let same : st5 ≡ st2 = cc in
          (
            ap (λ (t : Store S). works (t.conns c).rw) (sym same),
            ap (λ (t : Store S). a.sent (t.conns c).rw) (sym same),
          )

  -- A read that returns a message without an error leaves a working stream working, and what was sent.
  pub read_keeps :
      (fuel : ℕ) (fs : List Bytes) (st st2 : Store S)
      → read io fuel c st ≡ some (msg_of fs, st2)
      → (works (st2.conns c).rw ≡ works (st.conns c).rw)
        × (a.sent (st2.conns c).rw ≡ a.sent (st.conns c).rw)
  unfolding read
  read_keeps fuel fs st st2 h = loop-Keeps fuel [] fs st st2 h
