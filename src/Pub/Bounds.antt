-- ===== src/Pub/Bounds.antt =====
-- The high-water mark over the life of a publisher's writer.
use quicmq.Base.{
  ℕ, zero, suc, ◌≤◌, ◌≡◌, ◌≢◌, refl, ap, ◌∙◌, sym, Bool, true, false, Option, none, some, List, [],
  ◌∷◌, arith, length, ltb, if◌then◌else◌, All, All-append, Bool-cases, inl, inr,
}
use mathlib.Core.Path.{subst}
use quicmq.Base.Int.{ℤ, pos, negsuc}
use quicmq.Result.{Error}
use quicmq.Msg.{Msg}
use quicmq.Conn.{NetConn, Store, update}
use quicmq.Conn.Stream.{update_self, update_ne}
use quicmq.Pub.{
  Subscriber, PubWriter, Value, int_value, string_value, other_value, set_option, add_conn, add_to,
  without, has_subscriber, write, rm_from, rm_conn, close_writer, pump, pump_step,
}
use quicmq.Pub.Capacity.{
  Holds, All-Holds, without-Holds, channels_of-Holds, ap_le, write_loop-Holds,
}

-- What can happen to a writer.
pub data Op : Type 0 where
  writes : Bool → Error → (ℕ → Bool) → Msg → Op
  adds removes : ℕ → Op
  sets : Bool → Value → Op
  pumps pumps_detached : ℕ → Op
  closes : Op

-- A channel's size is fixed when its connection is added: the high-water mark now, the size that each
-- connection's channel was last made with, and the largest size that any was made with.
pub record Sizing : Type 0 where
  pub mark : ℤ
  pub size : ℕ → ℕ
  pub most : ℕ

abbrev pub whole : ℤ → ℕ
whole (pos n) = n
whole (negsuc n) = 0

abbrev pub larger : ℕ → ℕ → ℕ
larger a b = if ltb a b then b else a

-- Only `SetOption` with an int for OptionHWM moves the mark, and only a new connection takes it.
unfoldable pub sizing : Op → Sizing → Sizing
sizing (sets true (int_value n)) z = record z { mark = n }
sizing (adds c) z = record z {
  size = update z.size c (whole z.mark);
  most = larger z.most (whole z.mark);
}
sizing _ z = z

unfoldable pub sizing_all : List Op → Sizing → Sizing
unfolding sizing
sizing_all [] z = z
sizing_all (o ∷ more) z = sizing_all more (sizing o z)

-- A channel in the map has the size recorded for its connection; one that is no longer in the map has
-- one of the sizes that there were.
abbrev pub Recorded : Sizing → ℕ → ℕ → Type 0
Recorded z c n = (n ≡ z.size c) × (n ≤ z.most)

abbrev pub Earlier : Sizing → ℕ → ℕ → Type 0
Earlier z c n = n ≤ z.most

abbrev pub InMap : Sizing → Option (List Subscriber) → Type 0
InMap z none = Unit {0}
InMap z (some ss) = All (Holds (Recorded z)) ss

pub record Bounded (z : Sizing) (w : PubWriter) : Type 0 where
  pub marked : w.hwm ≡ z.mark
  pub in_map : InMap z w.subscribers
  pub outside : All (Holds (Earlier z)) w.detached

to_earlier : (z : Sizing) (d n : ℕ) → Recorded z d n → Earlier z d n
to_earlier z d n h = h.1

Recorded-self : (z : Sizing) (c d n : ℕ) → d ≢ c → Recorded z d n → Recorded z d n
Recorded-self z c d n other h = h

Earlier-kept :
    (z : Sizing) (c m d n : ℕ)
    → Earlier z d n
    → Earlier (record z { size = update z.size c m; most = larger z.most m }) d n
Earlier-kept z c m d n h = ground arith

Recorded-kept :
    (z : Sizing) (c m d n : ℕ)
    → d ≢ c
    → Recorded z d n
    → Recorded (record z { size = update z.size c m; most = larger z.most m }) d n
Recorded-kept z c m d n other h =
    (h.0 ∙ sym (update_ne z.size c m d other), Earlier-kept z c m d n h.1)

new_record :
    (z : Sizing) (c m : ℕ)
    → Recorded (record z { size = update z.size c m; most = larger z.most m }) c m
new_record z c m = (sym (update_self z.size c m), ground arith)

-- A step of the goroutine of the subscriber at a position of a list.
module _ {S : Type 0} (io : NetConn S) where
  unfoldable pub pump_at : ℕ → List Subscriber → Store S → List Subscriber × Store S
  unfolding pump
  pump_at i [] st = ([], st)
  pump_at zero (s ∷ ss) st = let (t, st') = pump io s st in (t ∷ ss, st')
  pump_at (suc i) (s ∷ ss) st = let (ts, st') = pump_at i ss st in (s ∷ ts, st')

  abbrev pump_map : ℕ → PubWriter → Store S → Option (List Subscriber) → PubWriter × Store S
  pump_map i w st none = (w, st)
  pump_map i w st (some ss) =
      let (ts, st') = pump_at i ss st in (record w { subscribers = some ts }, st')

  abbrev with_store : Store S → Option PubWriter → Option (PubWriter × Store S)
  with_store st none = none
  with_store st (some w) = some (w, st)

  -- `none`: the step panics.
  unfoldable pub op : Op → PubWriter → Store S → Option (PubWriter × Store S)
  unfolding pump_at write add_conn rm_conn set_option close_writer
  op (writes done err picks msg) w st = some ((write done err picks st msg w).1, st)
  op (adds c) w st = with_store st (add_conn w c)
  op (removes c) w st = some (rm_conn io w st c)
  op (sets name v) w st = some ((set_option name v w).1, st)
  op (pumps i) w st = some (pump_map i w st w.subscribers)
  op (pumps_detached i) w st =
      let (ts, st') = pump_at i w.detached st in some (record w { detached = ts }, st')
  op closes w st = some (close_writer io w st)

  unfoldable pub op_all : List Op → PubWriter → Store S → Option (PubWriter × Store S)
  unfolding op
  op_all [] w st = some (w, st)
  op_all (o ∷ more) w st = elim (op o w st) [ none ↦ none | some (w', st') ↦ op_all more w' st' ]

  abbrev BoundedResult : Sizing → Option (PubWriter × Store S) → Type 0
  BoundedResult z none = Unit {0}
  BoundedResult z (some (w, st)) = Bounded z w

  step-Holds :
      (Q : ℕ → ℕ → Type 0) (s : Subscriber) (sending : Option Msg) (buf : List Msg) (st : Store S)
      → Q s.conn s.cap
      → length buf ≤ s.cap
      → s.buf ≡ buf
      → Holds Q (pump_step io s sending buf st).0
  unfolding pump_step
  step-Holds Q s (some m) buf st q h e = (q, ap_le e h)
  step-Holds Q s none [] st q h e = (q, ap_le e h)
  step-Holds Q s none (m ∷ ms) st q h e = (q, omega arith)

  pump_at-Holds :
      (Q : ℕ → ℕ → Type 0) (i : ℕ) (ss : List Subscriber) (st : Store S)
      → All (Holds Q) ss
      → All (Holds Q) (pump_at i ss st).0
  unfolding pump_at pump
  pump_at-Holds Q i [] st h = tt
  pump_at-Holds Q zero (s ∷ ss) st h = (step-Holds Q s s.sending s.buf st h.0.0 h.0.1 refl, h.1)
  pump_at-Holds Q (suc i) (s ∷ ss) st h = (h.0, pump_at-Holds Q i ss st h.1)

  -- A new connection's channel gets the mark as its size, and a channel that it replaces keeps its own.
  add-Bounded :
      (z : Sizing) (w : PubWriter) (st : Store S) (c : ℕ) (subs : Option (List Subscriber))
      (hwm : ℤ)
      → w.subscribers ≡ subs
      → z.mark ≡ hwm
      → Bounded z w
      → BoundedResult (sizing (adds c) z) (with_store st (add_to subs hwm w c))
  unfolding add_to sizing
  add-Bounded z w st c (some subs) (pos n) e f v =
      let held : InMap z (some subs) = subst (InMap z) e v.in_map in
      let m = whole z.mark in
      let size_is : n ≡ m = ap whole (sym f) in
      let z1 = record z { size = update z.size c m; most = larger z.most m } in
      record {
        marked = v.marked;
        in_map =
            All-append (Holds (Recorded z1)) (without c subs) _
              (without-Holds (Recorded z) (Recorded z1) c subs
                (λ d k other h. Recorded-kept z c m d k other h) held)
              ((subst (Recorded z1 c) (sym size_is) (new_record z c m), omega arith), tt);
        outside =
            All-append (Holds (Earlier z1)) w.detached _
              (All-Holds (Earlier z) (Earlier z1) w.detached (λ d k h. Earlier-kept z c m d k h)
                v.outside)
              (channels_of-Holds (Recorded z) (Earlier z1) c subs
                (λ d k h. Earlier-kept z c m d k h.1) held);
      }
  add-Bounded z w st c (some subs) (negsuc n) e f v = tt
  add-Bounded z w st c none hwm e f v = tt

  rm-Bounded :
      (z : Sizing) (w : PubWriter) (st : Store S) (c : ℕ) (subs : Option (List Subscriber))
      → w.subscribers ≡ subs
      → Bounded z w
      → Bounded z (rm_from io subs w st c).0
  unfolding rm_from
  rm-Bounded z w st c none e v = v
  rm-Bounded z w st c (some subs) e v = elim (Bool-cases (has_subscriber c subs)) [
    | inr absent ↦ rw (absent, rm_from) v
    | inl there ↦
        let held : InMap z (some subs) = subst (InMap z) e v.in_map in
        rw (there, rm_from)
          (record {
            marked = v.marked;
            in_map =
                without-Holds (Recorded z) (Recorded z) c subs
                  (λ d n other h. Recorded-self z c d n other h) held;
            outside =
                All-append (Holds (Earlier z)) w.detached _ v.outside
                  (channels_of-Holds (Recorded z) (Earlier z) c subs (to_earlier z) held);
          })
  ]

  set-Bounded :
      (name : Bool) (x : Value) (z : Sizing) (w : PubWriter)
      → Bounded z w
      → Bounded (sizing (sets name x) z) (set_option name x w).1
  unfolding set_option sizing
  set-Bounded false x z w b = b
  set-Bounded true (int_value n) z w b = record {
    marked = refl;
    in_map = b.in_map;
    outside = b.outside;
  }
  set-Bounded true (string_value s) z w b = b
  set-Bounded true (other_value n) z w b = b

  write-Bounded :
      (z : Sizing) (done : Bool) (err : Error) (picks : ℕ → Bool) (st : Store S) (msg : Msg)
      (w : PubWriter) (subs : Option (List Subscriber))
      → w.subscribers ≡ subs
      → Bounded z w
      → Bounded z (write done err picks st msg w).1
  unfolding write
  write-Bounded z done err picks st msg w none e b = rw (e, write) b
  write-Bounded z done err picks st msg w (some ss) e b =
      rw (e, write)
        (record {
          marked = b.marked;
          in_map =
              write_loop-Holds (Recorded z) done err picks st msg ss (subst (InMap z) e b.in_map);
          outside = b.outside;
        })

  pump-Bounded :
      (z : Sizing) (i : ℕ) (w : PubWriter) (st : Store S) (subs : Option (List Subscriber))
      → w.subscribers ≡ subs
      → Bounded z w
      → Bounded z (pump_map i w st subs).0
  pump-Bounded z i w st none e b = b
  pump-Bounded z i w st (some ss) e b = record {
    marked = b.marked;
    in_map = pump_at-Holds (Recorded z) i ss st (subst (InMap z) e b.in_map);
    outside = b.outside;
  }

  close-Bounded :
      (z : Sizing) (w : PubWriter) (st : Store S) (subs : Option (List Subscriber))
      → w.subscribers ≡ subs
      → Bounded z w
      → Bounded z (close_writer io w st).0
  unfolding close_writer
  close-Bounded z w st none e b = rw (e, close_writer) b
  close-Bounded z w st (some ss) e b =
      let held : InMap z (some ss) = subst (InMap z) e b.in_map in
      rw (e, close_writer)
        (record {
          marked = b.marked;
          in_map = tt;
          outside =
              All-append (Holds (Earlier z)) w.detached ss b.outside
                (All-Holds (Recorded z) (Earlier z) ss (to_earlier z) held);
        })

  op-Bounded :
      (o : Op) (z : Sizing) (w : PubWriter) (st : Store S)
      → Bounded z w
      → BoundedResult (sizing o z) (op o w st)
  unfolding op add_conn rm_conn sizing
  op-Bounded (writes done err picks msg) z w st b =
      write-Bounded z done err picks st msg w w.subscribers refl b
  op-Bounded (adds c) z w st b = add-Bounded z w st c w.subscribers w.hwm refl (sym b.marked) b
  op-Bounded (removes c) z w st b = rm-Bounded z w st c w.subscribers refl b
  op-Bounded (sets name v) z w st b = set-Bounded name v z w b
  op-Bounded (pumps i) z w st b = pump-Bounded z i w st w.subscribers refl b
  op-Bounded (pumps_detached i) z w st b = record {
    marked = b.marked;
    in_map = b.in_map;
    outside = pump_at-Holds (Earlier z) i w.detached st b.outside;
  }
  op-Bounded closes z w st b = close-Bounded z w st w.subscribers refl b

  -- The high-water mark: over any sequence of writes, connections added and removed, options set, steps
  -- of the subscribers' goroutines and Close that does not panic, with any choices of the selects, the
  -- channel of every connection in the map has the size that the high-water mark had when the
  -- connection was last added, the last int that SetOption stored before that or else the mark at the
  -- start, and holds that many messages at most. A channel that is no longer in the map holds at most
  -- as many as its size, which is no larger than the largest that any channel was made with. So it is
  -- from a writer of which all this holds, such as a new one.
  pub op_all-Bounded :
      (ops : List Op) (z : Sizing) (w w' : PubWriter) (st st' : Store S)
      → Bounded z w
      → op_all ops w st ≡ some (w', st')
      → Bounded (sizing_all ops z) w'
  unfolding op_all sizing_all
  op_all-Bounded [] z w w' st st' b h = subst (λ r. BoundedResult z r) h b
  op_all-Bounded (o ∷ more) z w w' st st' b h =
      then_more (op o w st) (op-Bounded o z w st b) h
        (λ w1 st1 b1 e. op_all-Bounded more (sizing o z) w1 w' st1 st' b1 e)
    where
      then_more :
          (r : Option (PubWriter × Store S))
          → BoundedResult (sizing o z) r
          → elim r [ none ↦ none | some (w1, st1) ↦ op_all more w1 st1 ] ≡ some (w', st')
          → ((w1 : PubWriter) (st1 : Store S)
              → Bounded (sizing o z) w1
              → op_all more w1 st1 ≡ some (w', st')
              → Bounded (sizing_all more (sizing o z)) w')
          → Bounded (sizing_all more (sizing o z)) w'
      then_more none b1 e rest = absurd (ground arith)
      then_more (some (w1, st1)) b1 e rest = rest w1 st1 b1 e
