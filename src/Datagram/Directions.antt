-- ===== src/Datagram/Directions.antt =====
-- datagram.go: the operations of the Socket interface that a datagram socket refuses or shares with the
-- base socket, and SendMulti.
use quicmq.Base.{true, Option, none, some, List, []}
use quicmq.Base.Bytes.{Bytes}
use quicmq.Result.{Error, Result, dpub_cannot, dsub_cannot}
use quicmq.Msg.{Msg, msg_of}
use quicmq.Socket.Properties.{get_option, set_option}
use quicmq.Datagram.Peers.{DatagramConn, Hub, send}

unfoldable pub pub_recv : Msg × Option Error
pub_recv = (msg_of [], some dpub_cannot)

unfoldable pub pub_dial : Bytes → Option Error
pub_dial ep = some dpub_cannot

unfoldable pub sub_send : Msg → Option Error
sub_send msg = some dsub_cannot

unfoldable pub sub_send_multi : Msg → Option Error
sub_send_multi msg = some dsub_cannot

unfoldable pub sub_listen : Bytes → Option Error
sub_listen ep = some dsub_cannot

-- `Topics` of the subscriber, over sort.Strings and the keys in the order of the range.
unfoldable pub sub_topics : (List Bytes → List Bytes) → List Bytes → List Bytes
sub_topics sort listing = sort listing

module _ {V : Type 0} where
  unfoldable pub pub_get_option : Bytes → List (Bytes × V) → Result V
  unfolding get_option
  pub_get_option name props = get_option name props

  unfoldable pub pub_set_option : Bytes → V → List (Bytes × V) → Option Error × List (Bytes × V)
  unfolding set_option
  pub_set_option name value props = (none, set_option name value props)

  unfoldable pub sub_get_option : Bytes → List (Bytes × V) → Result V
  unfolding get_option
  sub_get_option name props = get_option name props

module _ {S : Type 0} (io : DatagramConn S) where
  unfoldable pub send_multi : Msg → Hub S → Option Error × Hub S
  unfolding send
  send_multi msg hub = send io (record msg { multipart = true }) hub
