-- ===== src/Pub/Order.antt =====
-- What one subscriber is sent, over the life of its channel.
use quicmq.Base.{
  ℕ, ◌≤◌, ◌≡◌, refl, ap, ◌∙◌, sym, Bool, true, false, Option, none, some, List, [], ◌∷◌, ◌++◌,
  arith, length, ltb, if◌then◌else◌, append_assoc, append-nil, Bool-cases, inl, inr,
}
use mathlib.Core.List.{Sublist, sublist-append_left}
use mathlib.Core.List.Sublist as Sublists
use quicmq.Base.{length-append}
use quicmq.Msg.{Msg}
use quicmq.Conn.{NetConn, Store, send_msg}
use quicmq.Pub.{
  Subscriber, Offer, cancels, drops, sends, choose, offer, hands_over, pump, pump_step,
}

-- A message that `write` offers to the subscriber, with the choice of the select, or a step of its
-- goroutine.
pub data Turn : Type 0 where
  offers : Bool → Bool → Msg → Turn
  pumps : Turn

-- The subscriber with its history: what was offered, what the channel took, and what the goroutine
-- has passed to SendMsg.
pub record Life (S : Type 0) : Type 0 where
  pub sub : Subscriber
  pub store : Store S
  pub offered : List Msg
  pub taken : List Msg
  pub passed : List Msg

abbrev pub held : Option Msg → List Msg
held none = []
held (some m) = m ∷ []

module _ {S : Type 0} where
  abbrev pub after_choice : Msg → Life S → Offer → Life S
  after_choice m h cancels = record h { offered = h.offered ++ m ∷ [] }
  after_choice m h drops = record h { offered = h.offered ++ m ∷ [] }
  after_choice m h (sends s) = record h {
    sub = s;
    offered = h.offered ++ m ∷ [];
    taken = h.taken ++ m ∷ [];
  }

  module _ (io : NetConn S) where
    -- SendMsg of each message on connection c, whatever comes of it.
    unfoldable pub send_each : ℕ → List Msg → Store S → Store S
    send_each c [] st = st
    send_each c (m ∷ ms) st = send_each c ms (send_msg io c m st).1

    send_each-append :
        (c : ℕ) (xs ys : List Msg) (st : Store S)
        → send_each c (xs ++ ys) st ≡ send_each c ys (send_each c xs st)
    unfolding send_each
    send_each-append c [] ys st = refl
    send_each-append c (x ∷ xs) ys st = send_each-append c xs ys (send_msg io c x st).1

    unfoldable pub turn : Turn → Life S → Life S
    unfolding offer pump
    turn (offers done picks m) h = after_choice m h (offer done picks m h.sub)
    turn pumps h =
        let (s, st) = pump io h.sub h.store in
        record h { sub = s; store = st; passed = h.passed ++ held h.sub.sending }

    unfoldable pub turns : List Turn → Life S → Life S
    unfolding turn
    turns [] h = h
    turns (t ∷ ts) h = turns ts (turn t h)

    -- Nothing is repeated or reordered: the messages that the channel took are those that went through
    -- SendMsg on connection c, from the store at the start, then the one in the goroutine, then those in
    -- the channel, and they were offered in that order.
    pub record InOrder (c : ℕ) (start : Store S) (h : Life S) : Type 0 where
      pub of_conn : h.sub.conn ≡ c
      pub went_out : h.store ≡ send_each c h.passed start
      pub complete : (h.passed ++ held h.sub.sending) ++ h.sub.buf ≡ h.taken
      pub offered_so : Sublist h.taken h.offered
      pub within : length h.sub.buf ≤ h.sub.cap

    taken_so :
        (taken offered : List Msg) (m : Msg)
        → Sublist taken offered
        → Sublist (taken ++ m ∷ []) (offered ++ m ∷ [])
    taken_so taken offered m h = Sublists.append h (Sublists.refl (m ∷ []))

    skipped_so :
        (taken offered : List Msg) (m : Msg)
        → Sublist taken offered
        → Sublist taken (offered ++ m ∷ [])
    skipped_so taken offered m h = Sublists.trans h (sublist-append_left offered (m ∷ []))

    -- A channel without a buffer hands over to a goroutine that waits, so nothing is before the message.
    nothing_held :
        (cap : ℕ) (sending : Option Msg) (buf passed : List Msg) (m : Msg)
        → hands_over cap sending ≡ true
        → length buf ≤ cap
        → (passed ++ held (some m)) ++ buf ≡ ((passed ++ held sending) ++ buf) ++ m ∷ []
    unfolding hands_over
    nothing_held cap (some x) buf passed m waits bound = absurd (ground arith)
    nothing_held cap none (b ∷ buf) passed m waits bound = absurd (ground arith)
    nothing_held cap none [] passed m waits bound =
        rw (append-nil (passed ++ m ∷ []), append-nil passed, append-nil passed) refl

    module _ (c : ℕ) (start : Store S) where
      -- A select that has to decide between a full channel and a context that is done.
      refused-InOrder :
          (done : Bool) (m : Msg) (h : Life S)
          → InOrder c start h
          → InOrder c start (after_choice m h (if done then cancels else drops))
      refused-InOrder true m h v = record {
        of_conn = v.of_conn;
        went_out = v.went_out;
        complete = v.complete;
        offered_so = skipped_so h.taken h.offered m v.offered_so;
        within = v.within;
      }
      refused-InOrder false m h v = record {
        of_conn = v.of_conn;
        went_out = v.went_out;
        complete = v.complete;
        offered_so = skipped_so h.taken h.offered m v.offered_so;
        within = v.within;
      }

      choose-InOrder :
          (done picks : Bool) (m : Msg) (s : Subscriber) (h : Life S)
          → InOrder c start h
          → s.conn ≡ c
          → (h.passed ++ held s.sending) ++ s.buf ≡ h.taken ++ m ∷ []
          → length s.buf ≤ s.cap
          → InOrder c start (after_choice m h (choose done picks s))
      choose-InOrder true false m s h v k e bound = record {
        of_conn = v.of_conn;
        went_out = v.went_out;
        complete = v.complete;
        offered_so = skipped_so h.taken h.offered m v.offered_so;
        within = v.within;
      }
      choose-InOrder true true m s h v k e bound = record {
        of_conn = k;
        went_out = v.went_out;
        complete = e;
        offered_so = taken_so h.taken h.offered m v.offered_so;
        within = bound;
      }
      choose-InOrder false picks m s h v k e bound = record {
        of_conn = k;
        went_out = v.went_out;
        complete = e;
        offered_so = taken_so h.taken h.offered m v.offered_so;
        within = bound;
      }

      offer-InOrder :
          (done picks : Bool) (m : Msg) (h : Life S)
          → InOrder c start h
          → InOrder c start (after_choice m h (offer done picks m h.sub))
      unfolding offer
      offer-InOrder done picks m h v = elim (Bool-cases (ltb (length h.sub.buf) h.sub.cap)) [
        | inl room ↦
            rw (room, offer)
              (choose-InOrder done picks m (record (h.sub) { buf = h.sub.buf ++ m ∷ [] }) h v
                v.of_conn
                (sym (append_assoc (h.passed ++ held h.sub.sending) h.sub.buf (m ∷ []))
                  ∙ ap (λ ms. ms ++ m ∷ []) v.complete)
                (ground (arith, length-append h.sub.buf (m ∷ []))))
        | inr full ↦ elim (Bool-cases (hands_over h.sub.cap h.sub.sending)) [
          | inl waits ↦
              rw (full, waits, offer)
                (choose-InOrder done picks m (record (h.sub) { sending = some m }) h v v.of_conn
                  (nothing_held h.sub.cap h.sub.sending h.sub.buf h.passed m waits v.within
                    ∙ ap (λ ms. ms ++ m ∷ []) v.complete)
                  v.within)
          | inr busy ↦ rw (full, busy, offer) (refused-InOrder done m h v)
        ]
      ]

      stepped-InOrder :
          (h : Life S) (sending : Option Msg) (buf : List Msg)
          → h.sub.conn ≡ c
          → h.store ≡ send_each c h.passed start
          → h.sub.sending ≡ sending
          → h.sub.buf ≡ buf
          → (h.passed ++ held sending) ++ buf ≡ h.taken
          → Sublist h.taken h.offered
          → length buf ≤ h.sub.cap
          → (let (s, st) = pump_step io h.sub sending buf h.store in
              InOrder c start (record h { sub = s; store = st; passed = h.passed ++ held sending }))
      unfolding pump_step send_each
      stepped-InOrder h (some m) buf k gone e f whole so bound = record {
        of_conn = k;
        went_out =
            ap (λ d. (send_msg io d m h.store).1) k
            ∙ ap (λ st. (send_msg io c m st).1) gone
            ∙ sym (send_each-append c h.passed (m ∷ []) start);
        complete = rw (append-nil (h.passed ++ m ∷ []), f) whole;
        offered_so = so;
        within = rw f bound;
      }
      stepped-InOrder h none (m ∷ ms) k gone e f whole so bound = record {
        of_conn = k;
        went_out = gone ∙ ap (λ ms. send_each c ms start) (sym (append-nil h.passed));
        complete = append_assoc (h.passed ++ []) (m ∷ []) ms ∙ whole;
        offered_so = so;
        within = omega (arith, bound);
      }
      stepped-InOrder h none [] k gone e f whole so bound = record {
        of_conn = k;
        went_out = gone ∙ ap (λ ms. send_each c ms start) (sym (append-nil h.passed));
        complete = rw (e, f) (rw (append-nil (h.passed ++ [])) whole);
        offered_so = so;
        within = rw f bound;
      }

      turn-InOrder : (t : Turn) (h : Life S) → InOrder c start h → InOrder c start (turn t h)
      unfolding turn pump
      turn-InOrder (offers done picks m) h v = offer-InOrder done picks m h v
      turn-InOrder pumps h v =
          stepped-InOrder h h.sub.sending h.sub.buf v.of_conn v.went_out refl refl v.complete
            v.offered_so v.within

      -- Whatever is offered to a subscriber on connection c and whenever its goroutine runs, with the
      -- select's choices and any failures included, an order is kept that a new subscriber has: what the
      -- channel took is a subsequence of what was offered, and it is a row of messages, then the one that
      -- the goroutine holds, then the channel's content, which is within its capacity; and the store is
      -- what one SendMsg on c for each message of that row, in its order, makes of the store at the start.
      -- So no message that the channel took is lost, repeated or reordered before SendMsg.
      pub turns-InOrder :
          (ts : List Turn) (h : Life S) → InOrder c start h → InOrder c start (turns ts h)
      unfolding turns
      turns-InOrder [] h v = v
      turns-InOrder (t ∷ ts) h v = turns-InOrder ts (turn t h) (turn-InOrder t h v)
