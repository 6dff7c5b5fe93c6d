-- ===== src/Lib.antt =====
-- QuicMQ is a messaging library in Go: ZeroMQ's socket patterns (REQ/REP, PUB/SUB, XPUB/XSUB and
-- datagram PUB/SUB) over QUIC. This development models the library's own logic, function by
-- function, and proves what a caller relies on.
--
-- Parts and files
-- - quicmq.go, messages and socket types: Msg.antt and Msg/Copy.antt. Go's errors are the values
--   of Result.antt.
-- - conn.go, the framed connection: Conn.antt. Connections are pointers in Go, here numbers into
--   a Store, so that two pools that hold one connection share its state; the store also has the
--   part of the socket that the close callback changes (closedConns, the reconnects that were
--   started). SendMsg is send_msg, read is read, subscribe, subscribed and SetClosed keep their
--   names. The net.Conn is a parameter (NetConn), and Conn/Stream.antt names what is relied on:
--   bytes that Write accepted are sent in order, and io.ReadFull returns the next bytes or fails
--   if there are too few. Wire.antt has the frame header, and Wire/Format.antt the wire format as
--   a specification. Conn/Topics.antt has the laws of a connection's topics and
--   Conn/TopicSet.antt takes them as a set, a quotient. Conn/Link.antt adds a stream that works,
--   as an interface that the pipes in memory fill; Conn/Link/Ends.antt (over
--   Conn/Link/Keeping.antt) is one end of it and Conn/Link/Messages.antt sends many messages over
--   it.
-- - datagram.go: Datagram/Codec.antt (packed messages, subscription commands),
--   Datagram/Peers.antt (the publisher and its peers) with Datagram/Broadcast.antt,
--   Datagram/Subscriber.antt (SetOption, the end of Dial, Recv), Datagram/Control.antt (the
--   control stream from SetOption and Dial to handlePeer, and what is relied on of it: a write
--   that fails breaks it for good) with Datagram/Control/Agreement.antt, Datagram/Sockets.antt
--   (Dial and Close of the subscriber) and Datagram/Publisher.antt (Listen, acceptLoop and Close
--   of the publisher), Datagram/Construction.antt (the constructors and their options) and
--   Datagram/Directions.antt (what a datagram socket refuses).
-- - req.go: Req.antt. The mutexes make each operation one step; Req/Fsm/Machine.antt has the
--   two-state machine that it refines, Req/Fsm.antt the steps from one to the other, and
--   Req/Rotation.antt the round robin as a specification.
-- - rep.go: Rep.antt. The listeners, the queue msgCh and the goroutine `run` are explicit steps;
--   Rep/Closing.antt adds whether sendCh is closed.
-- - req.go and rep.go with conn.go between them: Exchange/Request.antt and Exchange/Reply.antt,
--   and Exchange/Session.antt with Exchange/Session/Sides.antt and Exchange/Session/Rounds.antt
--   for one call after another; pub.go, conn.go and msgio.go from Send to Recv:
--   Exchange/Publication.antt; datagram.go from Send to Recv: Exchange/Broadcast.antt.
-- - pub.go and xpub.go: Pub.antt is the writer, where a subscriber's channel is a bounded buffer
--   with the message that its goroutine is sending, with Pub/Delivery.antt, Pub/Capacity.antt,
--   Pub/Bounds.antt (the life of a writer as a sequence of operations), Pub/Order.antt (the life
--   of one subscriber's channel) and Pub/Stream.antt (from that channel to the reads of the
--   peer). Pub/Listener.antt is pubQReader; a round of a listener is listen_step, and
--   Pub/Listener/Commands.antt is about what it queues.
-- - sub.go and the mwriter and semaphore of msgio.go: Sub.antt; Sub/Broadcast.antt is about the
--   writer's loop, Sub/Sync.antt has a subscriber's own topics over calls of SetOption, and
--   Sub/Connected.antt with Sub/Connected/Sides.antt and Sub/Connected/Following.antt puts a
--   subscriber and a publisher's listener together over a connection. The removal loop that every
--   pool repeats is remove_conn of Base/Conns.antt.
-- - msgio.go, qreader: Reader.antt, and Reader/Order.antt with its listeners and readers
--   interleaved.
-- - transport.go, endpoints and the registry: Transport.antt and Transport/Endpoint.antt;
--   Transport/Contexts.antt has the settings that go through a context.
-- - transport_quic.go: Quic.antt (Dial and Listen; Os is what the process holds open) with
--   Quic/Dialing.antt, Quic/Config.antt (the QUIC configurations), and Quic/Listener.antt, the
--   listener as a step function on the events of its goroutines.
-- - pool.go: ConnectionPool.antt with ConnectionPool/Ownership.antt and
--   ConnectionPool/Sharing.antt.
-- - options.go and the constructors of socket.go: Options.antt and Options/Override.antt.
-- - tls.go: Tls.antt and Tls/Roles.antt. qlog.go: Qlog.antt and Qlog/Paths.antt.
-- - socket.go: Socket.antt (pools, reaper, topics; the two pools are an interface, which
--   Socket/Pools.antt fills for mwriter), Socket/Opening.antt (Dial, Listen, accept, Close) with
--   Socket/Opening/Outcome.antt, Socket/Dialing.antt (the retry loop of Dial) with
--   Socket/Dialing/Tries.antt (how it may end), Socket/Backoff.antt (the waits of reconnect, on
--   64-bit patterns), Socket/Reconnecting.antt (its loop), Socket/Properties.antt (GetOption,
--   SetOption), Socket/Traffic.antt (Send, SendMulti, Recv) and Socket/Failure.antt (from a
--   failed send to the reaper).
--
-- Choices
-- - A select whose cases are ready together takes either: the choice is an argument. An operation
--   that waits is an Option, with none for waiting.
-- - Lengths on the wire are taken modulo 2^32, as uint32(len(frame)) is; theorems about a message
--   that arrives ask for frames below that.
-- - The read loops run on fuel; the theorems give one unit for each pending byte and one more,
--   which is enough since a frame takes five bytes at least. The loops of Dial and of reconnect
--   have one unit for each attempt, and the loop of handlePeer one for each command.
-- - What net and quic-go answer is a record of answers, for any answers: each call succeeds with
--   a handle, a number, or fails.
-- - A map is a list without an order that counts; what depends on it is stated up to membership.
--
-- Not modelled: streamConn's methods that only forward to the stream, which is the parameter
-- NetConn of the framed connection; the text of errors; reconnection of streams inside quic-go;
-- benchmarks and examples. The functions sort.Strings and %q of fmt are parameters of the
-- definitions that use them, and so are crypto, crypto/x509, encoding/pem, os, bufio and
-- qlogwriter.
pub mod Base
pub mod Result
pub mod Msg
pub mod Wire
pub mod Conn
pub mod Datagram
pub mod Req
pub mod Rep
pub mod Exchange
pub mod Options
pub mod Pub
pub mod Sub
pub mod ConnectionPool
pub mod Quic
pub mod Reader
pub mod Socket
pub mod Transport
pub mod Qlog
pub mod Tls
pub mod Tests
