-- ===== src/Socket/Opening/Outcome.antt =====
-- What a Dial comes to: the socket as it was, or one connection more.
use quicmq.Base.{ℕ, ◌<◌, ◌≡◌, true, Option, none, some, List, [], ◌∷◌, ◌++◌, All}
use quicmq.Base.Bytes.{Bytes}
use quicmq.Base.Conns.{count_conn}
use quicmq.Result.{Error, Result, ok, err}
use quicmq.Conn.{Store, set_conn}
use quicmq.Socket.{Pool, add_conn}
use quicmq.Socket.Dialing.{Attempt}
use quicmq.Socket.Dialing.Tries.{Tries}
use quicmq.Socket.Opening.{Socket, set_dialer, client_conn, aim}

-- The connections were allocated before `next`.
abbrev pub Below : ℕ → List ℕ → Type 0
Below next = All (λ c. c < next)

module _ {S R W : Type 0} (readers : Pool R) (writers : Pool W)
    (on_conn_added : ℕ → Store S → Store S) where
  -- One connection more, over s: it is none of those that were there, both pools got it, and
  -- `onConnAdded` ran on it once it was open, on the client's side and without topics.
  pub record Joined (ep : Bytes) (s : S) (sk sk1 : Socket S R W) : Type 0 where
    pub held : sk1.base.conns ≡ sk.base.conns ++ sk.fresh ∷ []
    pub is_new : count_conn sk.fresh sk.base.conns ≡ 0
    pub numbered : Below sk1.fresh sk1.base.conns
    pub reading : sk1.base.r ≡ readers.add_conn sk.base.r sk.fresh
    pub writing : sk1.base.w ≡ writers.add_conn sk.base.w sk.fresh
    pub stored :
        sk1.base.store
        ≡ on_conn_added sk.fresh
            (set_conn (set_dialer true sk.base.store) sk.fresh (client_conn sk.settings.typ s))
    pub aimed : sk1.ep ≡ ep
    pub reaping : sk1.reaper_started ≡ true

  module _ (attempts : ℕ → Bytes → ℕ → Attempt S) (n : ℕ) where
    -- What the target of an endpoint and the attempts to dial it come to.
    abbrev pub Reaches : Result (ℕ × Bytes) → Result S → Type 0
    Reaches (err e) r = r ≡ err e
    Reaches (ok (t, addr)) r = Tries n (attempts t addr) 0 r

    abbrev pub Outcome : Bytes → Socket S R W → Result S → Option Error × Socket S R W → Type 0
    Outcome ep sk (err e) o = o ≡ (some e, aim ep true sk)
    Outcome ep sk (ok s) o = (o.0 ≡ none) × Joined ep s sk o.1
