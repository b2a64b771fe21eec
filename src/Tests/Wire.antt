-- ===== src/Tests/Wire.antt =====
-- The results about streams of bytes, each applied at a concrete input.
use os_irose_new.Common.{
  ℕ, ◌+◌, ◌<◌, ◌≡◌, refl, ap, arith, List, [], ◌∷◌, ◌++◌, Bool, true, false, map, length, get_or,
  ◌%◌, ◌^◌, ◌*◌, some, zero, suc, length-append,
}
use os_irose_new.Common.Memory.{Memory, IsBytes, load16}
use os_irose_new.Packet.Bytes.{store_bytes, load_bytes, length-load_bytes}
use os_irose_new.Crypt.Codec.{Table}
use os_irose_new.Messages.Account.{pack_cli_login_req}
use os_irose_new.Messages.Fields.{c_str}
use os_irose_new.Messages.Request.{Request, cli_login_req, pack, type_of}
use os_irose_new.Crypt.Codec.{encode_client_packet}
use os_irose_new.Packet.{Field, raw, text}
use os_irose_new.Packet.Invariant.{encode_all}
use os_irose_new.Delivery.Requests.{Sending, sendable, carried, handle_packet, receive-requests}
use os_irose_new.Socket
use os_irose_new.Socket.{
  Connection, recv_data, filled, completed, on_received, isc_codec, client_codec, server_codec,
}
use os_irose_new.Socket.Frames.{reading}
use os_irose_new.Socket.Stream.{handle_all}
use os_irose_new.Socket.Bounds.{IsFramed, IsDone, recv_data-IsFramed, receive-IsDone}
use os_irose_new.Socket.Codecs.{
  Sendable, server_stream, server_arrival, receive-server_stream, client_stream,
}
use os_irose_new.Socket.SendQueue.{
  Sender, is_empty, send_front, process_locked, process_send, send_data, fresh,
}
use os_irose_new.Socket.SendQueue.Order.{
  wire_of, IsSending, Reaches, started, sent, Reaches-IsSending, drained, drained-Reaches,
}
use os_irose_new.Socket.SendQueue.Race.{send_at_once, send_at_once-overlaps}
use os_irose_new.Socket.Isc.{Short, isc_stream, isc_arrival, receive-isc_stream, receive-isc_wraps}

abbrev table : Table
table i j = (37 * i + 4099 * j + 11) % 2 ^ 32

abbrev memory : List ℕ → Memory
memory bs j = get_or bs j 0 % 256

memory-IsBytes : (bs : List ℕ) → IsBytes (memory bs)
memory-IsBytes bs j = omega arith

abbrev blank : Memory
blank j = 0

-- The client is the list of what was handled; a packet is counted by its command, a request by its type.
abbrev note_packet : Memory → List ℕ → Bool × List ℕ
note_packet p seen = (true, load16 p 2 ∷ seen)

abbrev none_seen : List ℕ
none_seen = []

abbrev note_request : Request → List ℕ → Bool × List ℕ
note_request r seen = (true, type_of r ∷ seen)

abbrev letters : ℕ → List ℕ
letters zero = []
letters (suc n) = 112 ∷ letters n

abbrev login_request : Request
login_request = cli_login_req (record { password = letters 32; username = 97 ∷ 98 ∷ [] })

abbrev login_fields : List Field
login_fields = raw (letters 32) ∷ text (97 ∷ 98 ∷ []) ∷ []

login_packed : pack login_request ≡ login_fields
unfolding pack pack_cli_login_req c_str
login_packed = refl

abbrev login : Sending
login = record {
  request = login_request;
  garbage = blank;
  garbage_bytes = λ j. omega arith;
  fields = rw login_packed (ground arith);
  chars = rw login_packed (ground arith);
  password = ground arith;
  fits = rw login_packed (omega arith);
}

login_size : load16 (sendable login).packet 0 ≡ 41
unfolding sendable
login_size = omega (
  arith,
  (carried login).size_bytes,
  ap (λ (fs : List Field). length (encode_all fs)) login_packed,
)

login_bytes :
    (rest : List ℕ)
    → length (
        load_bytes
          (encode_client_packet table (sendable login).packet)
          0
          (load16 (sendable login).packet 0)
        ++ rest)
      ≡ 41 + length rest
login_bytes rest = omega (
  arith,
  login_size,
  length-append
      (load_bytes (encode_client_packet table (sendable login).packet) 0
        (load16 (sendable login).packet 0))
      rest,
  length-load_bytes (encode_client_packet table (sendable login).packet) 0
      (load16 (sendable login).packet 0),
)

receive-requests_example :
    let r =
      Socket.receive
        (handle_packet note_request blank)
        83
        (client_codec table)
        (reading 6 0 blank none_seen)
        (client_stream table (map sendable (login ∷ login ∷ []))) in
    (r.0.active, r.0.client) ≡ handle_all note_request (login.request ∷ login.request ∷ []) []
receive-requests_example =
    receive-requests note_request blank table 83 blank [] (login ∷ login ∷ []) (
      rw (login_bytes (client_stream table (map sendable (login ∷ []))))
        (rw (login_bytes []) (omega arith)))

-- A packet of nine bytes with the command 0x708, and one of six.
abbrev nine : Sendable
nine = record {
  packet = memory (9 ∷ 0 ∷ 8 ∷ 7 ∷ 0 ∷ 0 ∷ 1 ∷ 250 ∷ 77 ∷ []);
  bytes = memory-IsBytes (9 ∷ 0 ∷ 8 ∷ 7 ∷ 0 ∷ 0 ∷ 1 ∷ 250 ∷ 77 ∷ []);
  header = omega arith;
  length_fits = omega arith;
  command_fits = omega arith;
}

abbrev six : Sendable
six = record {
  packet = memory (6 ∷ 0 ∷ 3 ∷ 7 ∷ []);
  bytes = memory-IsBytes (6 ∷ 0 ∷ 3 ∷ 7 ∷ []);
  header = omega arith;
  length_fits = omega arith;
  command_fits = omega arith;
}

receive-server_stream_example :
    let r =
      Socket.receive note_packet 22
        (server_codec table)
        (reading 6 0 blank none_seen)
        (server_stream table (nine ∷ six ∷ six ∷ [])) in
    (r.0.active, r.0.client)
    ≡ handle_all note_packet (map (server_arrival table) (nine ∷ six ∷ six ∷ [])) []
unfolding load_bytes
receive-server_stream_example =
    receive-server_stream note_packet table 22 blank [] (nine ∷ six ∷ six ∷ []) (omega arith)

abbrev pair : List Short
pair =
    record {
      packet = nine.packet;
      bytes = nine.bytes;
      header = omega arith;
      length_fits = omega arith;
    }
    ∷ record {
      packet = six.packet;
      bytes = six.bytes;
      header = omega arith;
      length_fits = omega arith;
    }
    ∷ []

receive-isc_stream_example :
    let r =
      Socket.receive note_packet 16
        (isc_codec true)
        (reading 6 0 blank none_seen)
        (isc_stream pair) in
    (r.0.active, r.0.client) ≡ handle_all note_packet (map isc_arrival pair) []
unfolding load_bytes
receive-isc_stream_example = receive-isc_stream note_packet 16 blank [] pair (omega arith)

-- The length 0x102.
abbrev long : Memory
long = memory (2 ∷ 1 ∷ 8 ∷ 7 ∷ [])

receive-isc_wraps_example :
    let r =
      Socket.receive note_packet 2
        (isc_codec false)
        (reading 6 0 blank none_seen)
        (load_bytes long 0 6 ++ 5 ∷ []) in
    (r.0.active ≡ true) × (r.0.client ≡ []) × (r.1 ≡ 5 ∷ [])
receive-isc_wraps_example =
    receive-isc_wraps note_packet false 0 blank long [] (5 ∷ [])
      (memory-IsBytes (2 ∷ 1 ∷ 8 ∷ 7 ∷ [])) (omega arith)

abbrev framed : IsFramed (reading 6 0 blank none_seen)
framed = record { wants = omega arith; fits = omega arith }

abbrev nine_bytes : List ℕ
nine_bytes = 9 ∷ 0 ∷ 8 ∷ 7 ∷ 0 ∷ 0 ∷ 1 ∷ 250 ∷ 77 ∷ []

abbrev body_bytes : List ℕ
body_bytes = 1 ∷ 250 ∷ 77 ∷ []

abbrev header_read : Connection (List ℕ)
header_read = reading 9 6 (store_bytes blank 0 (9 ∷ 0 ∷ 8 ∷ 7 ∷ 0 ∷ 0 ∷ [])) none_seen

header_recv :
    recv_data note_packet (isc_codec true) (reading 6 0 blank none_seen) nine_bytes
    ≡ some (header_read, body_bytes)
unfolding recv_data filled completed on_received store_bytes isc_codec
header_recv = refl

recv_data-IsFramed_example : IsFramed header_read × (length body_bytes < length nine_bytes)
recv_data-IsFramed_example =
    recv_data-IsFramed note_packet (isc_codec true) (reading 6 0 blank none_seen) header_read
      nine_bytes body_bytes framed header_recv

receive-IsDone_example :
    IsDone note_packet
      (isc_codec true)
      (Socket.receive note_packet 10 (isc_codec true) (reading 6 0 blank none_seen) nine_bytes)
receive-IsDone_example =
    receive-IsDone note_packet (isc_codec true) 10 (reading 6 0 blank none_seen) nine_bytes framed
      refl (omega arith)

-- OnSend of CRoseISC, which changes nothing.
abbrev as_is : Memory → Bool × Memory
as_is m = (true, m)

abbrev queued : Sender
queued = record {
  active = true;
  send_queue = six.packet ∷ [];
  discard_queue = nine.packet ∷ [];
  written = nine_bytes ∷ [];
}

queued-Reaches : Reaches as_is (λ m. refl) (nine.packet ∷ six.packet ∷ []) queued
unfolding send_data process_send process_locked send_front is_empty fresh load_bytes
queued-Reaches = sent {given = nine.packet ∷ []} six.packet (sent {given = []} nine.packet started)

Reaches-IsSending_example : IsSending as_is (λ m. refl) (nine.packet ∷ six.packet ∷ []) queued
Reaches-IsSending_example =
    Reaches-IsSending as_is (λ m. refl) (nine.packet ∷ six.packet ∷ []) queued queued-Reaches

drained-Reaches_example :
    (drained as_is (λ m. refl) 2 queued).written
    ≡ map (wire_of as_is (λ m. refl)) (nine.packet ∷ six.packet ∷ [])
drained-Reaches_example =
    drained-Reaches as_is (λ m. refl) 2 (nine.packet ∷ six.packet ∷ []) queued queued-Reaches refl
      (omega arith)

send_at_once-overlaps_example :
    let s' = send_at_once as_is nine.packet six.packet fresh in
    (s'.discard_queue ≡ nine.packet ∷ six.packet ∷ []) × (length s'.written ≡ 2)
unfolding fresh
send_at_once-overlaps_example =
    send_at_once-overlaps as_is fresh nine.packet six.packet refl refl refl refl refl
