-- ===== src/Socket/Opening.antt =====
-- socket.go: Listen, accept, Dial and Close of the base socket, around its pools and its transport.
pub mod Outcome
use quicmq.Base.{
  ℕ, suc, ◌≡◌, refl, ap, ◌∙◌, Bool, true, false, Option, none, some, List, [], ◌∷◌, ◌++◌,
}
use quicmq.Base.Bytes.{Bytes}
use quicmq.Base.Int.{pos}
use quicmq.Result.{
  Error, Result, ok, err, nil_conn, invalid_address, unknown_transport, listen_failed,
}
use quicmq.Msg.{SocketType}
use quicmq.Conn.{NetConn, Conn, Store, open_conn, set_conn}
use quicmq.Options.{Config}
use quicmq.Transport.{split_addr, get_transport}
use quicmq.Sub.{close_loop}
use quicmq.Socket.{Pool, BaseSocket, add_conn}
use quicmq.Socket.Dialing.{Attempt, dial_loop}
use quicmq.Socket.Pools.{IsPool, InStep, add_conn-InStep}

-- The parts of `socket` that decide how it connects. A transport is known by a number; `fresh` is the
-- next connection that is allocated.
pub record Settings : Type 0 where
  pub typ : SocketType
  pub config : Config
  pub drivers : List (Bytes × ℕ)

pub record Socket (S R W : Type 0) : Type 0 where
  pub settings : Settings
  pub base : BaseSocket S R W
  pub ep : Bytes
  pub fresh : ℕ
  pub listener : Option ℕ
  pub closed_listeners : List ℕ
  pub reaper_started : Bool
  pub cancelled : Bool

-- The transport of an endpoint for Dial, and its address.
unfoldable pub dial_target : Settings → Bytes → Result (ℕ × Bytes)
dial_target s ep = elim (split_addr ep) [
  | none ↦ err invalid_address
  | some (network, addr) ↦ elim s.config.dial_transport [
    | some t ↦ ok (t, addr)
    | none ↦ elim (get_transport network s.drivers) [
      | none ↦ err unknown_transport
      | some t ↦ ok (t, addr)
    ]
  ]
]

-- For Listen, which does not use `dialTransport`.
unfoldable pub listen_target : Settings → Bytes → Result (ℕ × Bytes)
listen_target s ep = elim (split_addr ep) [
  | none ↦ err invalid_address
  | some (network, addr) ↦ elim (get_transport network s.drivers) [
    | none ↦ err unknown_transport
    | some t ↦ ok (t, addr)
  ]
]

abbrev pub after_listener : Option ℕ → List ℕ → List ℕ
after_listener none ls = ls
after_listener (some l) ls = ls ++ l ∷ []

module _ {S : Type 0} where
  abbrev pub set_dialer : Bool → Store S → Store S
  set_dialer d st = record st { reaper = record (st.reaper) { is_dialer = d } }

  -- The connection that a Dial opens.
  abbrev pub client_conn : SocketType → S → Conn S
  client_conn typ rw = record {
    typ = typ;
    rw = rw;
    server = false;
    topics = [];
    closed = false;
    has_callback = true;
  }

module _ {S R W : Type 0} where
  -- `sck.ep = endpoint` and `sck.isDialer`.
  abbrev pub aim : Bytes → Bool → Socket S R W → Socket S R W
  aim ep d sk = record sk {
    ep = ep;
    base = record (sk.base) { store = set_dialer d sk.base.store };
  }

  -- `Listen`; `answer` is what the transport's Listen returns.
  unfoldable pub start_listener : Result ℕ → Socket S R W → Option Error × Socket S R W
  start_listener (err e) sk = (some (listen_failed e), sk)
  start_listener (ok l) sk = (none, record sk { listener = some l; reaper_started = true })

  unfoldable pub listen_at :
      (ℕ → Bytes → Result ℕ) → Result (ℕ × Bytes) → Socket S R W → Option Error × Socket S R W
  unfolding start_listener
  listen_at answer (err e) sk = (some e, sk)
  listen_at answer (ok (t, addr)) sk = start_listener (answer t addr) sk

  unfoldable pub listen :
      (ℕ → Bytes → Result ℕ) → Bytes → Socket S R W → Option Error × Socket S R W
  unfolding listen_target listen_at
  listen answer ep sk = listen_at answer (listen_target sk.settings ep) (aim ep false sk)

  -- `Close`: the context is cancelled, the listener and every connection are closed; the answer is
  -- the first error of a connection.
  unfoldable pub close : NetConn S → Socket S R W → Option Error × Socket S R W
  unfolding close_loop
  close io sk =
      let (e, st) = close_loop io sk.base.conns none sk.base.store in
      (
        e,
        record sk {
          cancelled = true;
          closed_listeners = after_listener sk.listener sk.closed_listeners;
          base = record (sk.base) { store = st };
        },
      )

module _ {S R W : Type 0} (readers : Pool R) (writers : Pool W)
    (on_conn_added : ℕ → Store S → Store S) where
  -- `Open` gives a new connection, and `addConn` puts it into the socket and calls `onConnAdded`.
  unfoldable pub join : Conn S → Socket S R W → Socket S R W
  unfolding add_conn
  join conn sk =
      let c = sk.fresh in
      let added =
        add_conn readers writers (record (sk.base) { store = set_conn sk.base.store c conn }) c in
      record sk { fresh = suc c; base = record added { store = on_conn_added c added.store } }

  -- What follows a transport's connection, on the server's side or not: `none` is the error of `Open`.
  unfoldable pub join_opened : Bool → Option S → Socket S R W → Option (Socket S R W)
  unfolding open_conn join
  join_opened server rw sk = elim (open_conn rw sk.settings.typ server true) [
    | none ↦ none
    | some conn ↦ some (join conn sk)
  ]

  -- A round of `accept` on what the listener's Accept returned: a failure is logged at most.
  unfoldable pub accept_step : Result (Option S) → Socket S R W → Socket S R W
  unfolding join_opened
  accept_step (err e) sk = sk
  accept_step (ok rw) sk = elim (join_opened true rw sk) [ none ↦ sk | some sk' ↦ sk' ]

  -- Dial behind its loop.
  unfoldable pub after_dial : Result S → Socket S R W → Option Error × Socket S R W
  unfolding join_opened
  after_dial (err e) sk = (some e, sk)
  after_dial (ok rw) sk = elim (join_opened false (some rw) (record sk { reaper_started = true })) [
    | none ↦ (some nil_conn, sk)
    | some sk' ↦ (none, sk')
  ]

  abbrev pub dialed : Socket S R W → Option (Result S) → Option (Option Error × Socket S R W)
  dialed sk none = none
  dialed sk (some r) = some (after_dial r sk)

  unfoldable pub dial_to :
      (ℕ → Bytes → ℕ → Attempt S)
      → ℕ
      → Result (ℕ × Bytes)
      → Socket S R W
      → Option (Option Error × Socket S R W)
  unfolding after_dial dial_loop
  dial_to attempts fuel (err e) sk = some (some e, sk)
  dial_to attempts fuel (ok (t, addr)) sk =
      dialed sk (dial_loop sk.settings.config.max_retries (attempts t addr) fuel 0)

  -- `Dial`; `attempts` is what happens around the transport's Dial to an address, attempt by attempt.
  unfoldable pub dial :
      (ℕ → Bytes → ℕ → Attempt S) → ℕ → Bytes → Socket S R W → Option (Option Error × Socket S R W)
  unfolding dial_target dial_to
  dial attempts fuel ep sk = dial_to attempts fuel (dial_target sk.settings ep) (aim ep true sk)
