-- ===== src/Tests/Publishing.antt =====
-- Publisher and subscriber on concrete topics.
use quicmq.Base.{◌≡◌, refl, true, false, none, some, List, [], ◌∷◌, ◌++◌, arith}
use quicmq.Base.Bytes.{Bytes}
use quicmq.Result.{net_error}
use quicmq.Msg.{Msg}
use quicmq.Conn.{Store, set_conn, subscribed, matches}
use quicmq.Conn.Stream.{Pipe, pipe_io, pipe_io-IsStream}
use quicmq.Tests.{holding, conn_over, store_over, greeting}
use quicmq.Pub.{PubWriter, Subscriber, write}
use quicmq.Pub.Listener.{PubReader, goes_on, waits, is_topic, listen_all}
use quicmq.Base.Int.{pos}
use quicmq.Pub.Listener.Commands.{listen_all_stuck}
use quicmq.Pub.Delivery.{Delivered, write-Delivered}
use quicmq.Conn.Link.{pipe_link, arrive, new_bytes}
use quicmq.Conn.Link.Ends.{AtEnd}
use quicmq.Sub.{SubSocket, sorted_topics}
use quicmq.Sub.Sync.{own_topics, as_changes, Change}
use quicmq.Sub.Connected.{join_conn, set_options, listen_rounds}
use quicmq.Sub.Connected.Following.{subscription_follows}
use quicmq.Conn.Topics.{cmd_msg}

abbrev reader : PubReader Pipe
reader = record {
  rs = 3 ∷ [];
  ch = greeting ∷ [];
  sem = record { ready = true };
  store = store_over (holding []);
}

abbrev ten : List Msg
ten =
    greeting ∷ greeting ∷ greeting ∷ greeting ∷ greeting ∷ greeting ∷ greeting ∷ greeting ∷ greeting
    ∷ greeting ∷ []

listen_all_stuck_example : listen_all pipe_io reader 3 (ten ++ cmd_msg true (97 ∷ []) ∷ []) ≡ waits
unfolding is_topic
listen_all_stuck_example =
    listen_all_stuck pipe_io reader 3 ten (cmd_msg true (97 ∷ []) ∷ [])
      (
        (refl, refl),
        (
          (refl, refl),
          (
            (refl, refl),
            (
              (refl, refl),
              (
                (refl, refl),
                ((refl, refl), ((refl, refl), ((refl, refl), ((refl, refl), ((refl, refl), tt))))),
              ),
            ),
          ),
        ),
      )
      (omega arith) (omega arith)

abbrev changes : List Change
changes = (true, 97 ∷ []) ∷ (false, 98 ∷ []) ∷ []

abbrev two_topics : List Bytes
two_topics = (98 ∷ []) ∷ [] ∷ []

-- A subscriber of two topics without a connection; the order of its map is that of the list.
abbrev subscriber : SubSocket Pipe
subscriber = record {
  subs = two_topics;
  conns = [];
  writer = record { ws = []; sem = record { ready = false } };
  store = store_over (holding []);
}

end_of_pipe : AtEnd pipe_link 3 [] [] (store_over (holding []))
unfolding pipe_link pipe_io-IsStream
end_of_pipe = record { is_open = refl; working = refl; waits = refl; wrote = refl }

subscription_follows_example :
    (sk1 : SubSocket Pipe) × (q1 : PubReader Pipe) × (set_options pipe_io changes
        (join_conn pipe_io (λ ts. ts) 3 subscriber)
      ≡ (none, sk1))
    × (listen_rounds pipe_link 3 4 (record reader {
      store =
          arrive pipe_link 3
            (new_bytes pipe_link (subscriber.store.conns 3).rw (sk1.store.conns 3).rw)
            reader.store;
    })
        ≡ goes_on q1)
    × (q1.ch ≡ reader.ch)
    × (sk1.subs ≡ own_topics changes subscriber.subs)
    × ((topic : Bytes) → subscribed q1.store 3 topic ≡ matches sk1.subs topic)
unfolding sorted_topics as_changes
subscription_follows_example =
    subscription_follows pipe_link pipe_link 3 3 (λ ts. ts) changes subscriber reader [] [] [] refl
      refl (λ k. refl) (omega arith, (omega arith, (omega arith, (omega arith, tt)))) end_of_pipe
      end_of_pipe refl

abbrev pub topic_store : Store Pipe
topic_store =
    set_conn (store_over (holding [])) 3
      (record (conn_over (holding [])) { topics = (104 ∷ []) ∷ [] })

abbrev channels : List Subscriber
channels =
    record { conn = 3; cap = 1; buf = []; sending = none }
    ∷ record { conn = 4; cap = 1; buf = []; sending = none }
    ∷ []

abbrev writer : PubWriter
writer = record { subscribers = some channels; detached = []; hwm = pos 1 }

write-Delivered_example :
    (ts : List Subscriber) × (write false (net_error 1) (λ _. true) topic_store greeting writer
      ≡ (none, record writer { subscribers = some ts }))
    × Delivered topic_store greeting channels ts
write-Delivered_example =
    write-Delivered topic_store greeting (net_error 1) (λ _. true) writer channels refl
