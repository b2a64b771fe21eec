-- ===== src/Socket/Codecs.antt =====
-- The codec's packets are frames to the decoders of the other side.
use os_irose_new.Common.{
  ℕ, ◌+◌, ◌%◌, ◌^◌, ◌≤◌, ◌<◌, ◌≡◌, ◌≢◌, refl, ap, ◌∙◌, Bool, true, List, [], ◌∷◌, ◌++◌, map, length,
  arith,
}
use os_irose_new.Common.Memory.{Memory, IsBytes, load16, load40}
use os_irose_new.Crypt.Head.{Layout, Head, word_head, head_crypted_client, head_crypted_server}
use os_irose_new.Crypt.Head.Layouts.{
  IsLayout, head_crypted_client-IsLayout, head_crypted_server-IsLayout,
}
use os_irose_new.Crypt.Codec.{
  Table, packet_head, encode_packet, decode_header, decode_packet_body, client_buflen,
  server_buflen, encode_client_packet, encode_server_packet, decode_client_header,
  decode_server_header, decode_client_body, decode_server_body,
}
use os_irose_new.Crypt.Codec.RoundTrip.{h, decode_header-head, encode_packet-Delivers}
use os_irose_new.Crypt.Codec.Locality.{
  decode_header-Agree, decode_header_above, decode_packet_body-Agree,
}
use os_irose_new.Packet.Bytes.{load_bytes}
use os_irose_new.Socket.{client_codec, server_codec, receive}
use os_irose_new.Socket.Frames.{IsFrame, taken_from, reading}
use os_irose_new.Socket.Stream.{Frame, packet_of, stream_of, handle_all, receive_refines}

-- A packet that can be sent: bytes, with the length and the command in their eleven bits.
pub record Sendable : Type 0 where
  pub packet : Memory
  pub bytes : IsBytes packet
  pub header : 6 ≤ load16 packet 0
  pub length_fits : load16 packet 0 < 2 ^ 11
  pub command_fits : load16 packet 2 < 2 ^ 11

module _ (l : Layout) (lay : IsLayout l) (encrypt_value : ℕ) (buflen_of : Head → ℕ) (rt : Table)
    (s : Sendable)
    (len : buflen_of (h l lay encrypt_value rt s.packet s.bytes) ≡ load16 s.packet 0 % 2 ^ 11) where
  abbrev wire : Memory
  wire = encode_packet l encrypt_value rt s.packet

  abbrev plain : Memory
  plain = (decode_header l rt wire).1

  encode_packet-IsFrame :
      IsFrame
        (record {
          decode_header = decode_header l rt;
          decode_body = decode_packet_body buflen_of rt;
          closes = true;
        })
        wire
        plain
        (decode_packet_body buflen_of rt plain).1
        (load16 s.packet 0)
  unfolding packet_head
  encode_packet-IsFrame = record {
    lower = s.header;
    upper = omega (arith, s.length_fits);
    header = λ b same.
        (decode_header-Agree l rt b wire 6 (omega arith) same).0
        ∙ (delivered 0 (omega arith) (omega arith)).0;
    opened = λ b same. (decode_header-Agree l rt b wire 6 (omega arith) same).1;
    rest = λ j p. decode_header_above l rt wire j (omega arith);
    body = λ b same.
        (decode_packet_body-Agree buflen_of rt b plain (load16 s.packet 0) s.header same short).0
        ∙ (delivered 0 (omega arith) (omega arith)).1;
    left = λ b same.
        (decode_packet_body-Agree buflen_of rt b plain (load16 s.packet 0) s.header same short).1;
    shuts = refl;
    says = omega (
      arith,
      (delivered 0 (omega arith) (omega arith)).2,
      (delivered 1 (omega arith) (omega arith)).2,
    );
  }
    where
      delivered :
          (j : ℕ)
          → j ≢ 4
          → j ≢ 5
          → ((decode_header l rt wire).0 ≡ load16 s.packet 0)
            × ((decode_packet_body buflen_of rt plain).0 ≡ true)
            × ((decode_packet_body buflen_of rt plain).1 j ≡ s.packet j)
      delivered j four five =
          encode_packet-Delivers l lay encrypt_value rt s.packet s.bytes buflen_of len j
            s.length_fits s.command_fits four five

      short : buflen_of (word_head (load40 plain)) ≤ load16 s.packet 0
      short = omega (
        arith,
        ap buflen_of (decode_header-head l lay encrypt_value rt s.packet s.bytes),
        len,
        s.length_fits,
      )

client_frame : (rt : Table) → Sendable → Frame (client_codec rt)
unfolding client_codec encode_client_packet decode_client_header decode_client_body client_buflen
    packet_head
client_frame rt s = record {
  wire = encode_client_packet rt s.packet;
  plain = (decode_client_header rt (encode_client_packet rt s.packet)).1;
  out = (decode_client_body rt (decode_client_header rt (encode_client_packet rt s.packet)).1).1;
  size = load16 s.packet 0;
  is =
      encode_packet-IsFrame head_crypted_client head_crypted_client-IsLayout 0 client_buflen rt s
        (omega arith);
}

-- The bytes that packets make on the wire, one after the other.
abbrev pub client_stream : Table → List Sendable → List ℕ
client_stream rt [] = []
client_stream rt (s ∷ ss) =
    load_bytes (encode_client_packet rt s.packet) 0 (load16 s.packet 0) ++ client_stream rt ss

-- What the other side has of a packet: its bytes as they are deciphered, up to its length.
abbrev pub client_arrival : Table → Sendable → Memory
client_arrival rt s =
    taken_from (load16 s.packet 0)
      (decode_client_body rt (decode_client_header rt (encode_client_packet rt s.packet)).1).1

client_stream-frames :
    (rt : Table) (ss : List Sendable) → stream_of (map (client_frame rt) ss) ≡ client_stream rt ss
unfolding client_frame
client_stream-frames rt [] = refl
client_stream-frames rt (s ∷ ss) =
    ap (λ (bs : List ℕ). load_bytes (encode_client_packet rt s.packet) 0 (load16 s.packet 0) ++ bs)
      (client_stream-frames rt ss)

client_arrival-frames :
    (rt : Table) (ss : List Sendable)
    → map packet_of (map (client_frame rt) ss) ≡ map (client_arrival rt) ss
unfolding client_frame
client_arrival-frames rt [] = refl
client_arrival-frames rt (s ∷ ss) =
    ap (λ (ps : List Memory). client_arrival rt s ∷ ps) (client_arrival-frames rt ss)

server_frame : (rt : Table) → Sendable → Frame (server_codec rt)
unfolding server_codec encode_server_packet decode_server_header decode_server_body server_buflen
    packet_head
server_frame rt s = record {
  wire = encode_server_packet rt s.packet;
  plain = (decode_server_header rt (encode_server_packet rt s.packet)).1;
  out = (decode_server_body rt (decode_server_header rt (encode_server_packet rt s.packet)).1).1;
  size = load16 s.packet 0;
  is =
      encode_packet-IsFrame head_crypted_server head_crypted_server-IsLayout (0x100 + 0x04)
        server_buflen rt s (omega arith);
}

-- The bytes that packets make on the wire, one after the other.
abbrev pub server_stream : Table → List Sendable → List ℕ
server_stream rt [] = []
server_stream rt (s ∷ ss) =
    load_bytes (encode_server_packet rt s.packet) 0 (load16 s.packet 0) ++ server_stream rt ss

-- What the other side has of a packet: its bytes as they are deciphered, up to its length.
abbrev pub server_arrival : Table → Sendable → Memory
server_arrival rt s =
    taken_from (load16 s.packet 0)
      (decode_server_body rt (decode_server_header rt (encode_server_packet rt s.packet)).1).1

server_stream-frames :
    (rt : Table) (ss : List Sendable) → stream_of (map (server_frame rt) ss) ≡ server_stream rt ss
unfolding server_frame
server_stream-frames rt [] = refl
server_stream-frames rt (s ∷ ss) =
    ap (λ (bs : List ℕ). load_bytes (encode_server_packet rt s.packet) 0 (load16 s.packet 0) ++ bs)
      (server_stream-frames rt ss)

server_arrival-frames :
    (rt : Table) (ss : List Sendable)
    → map packet_of (map (server_frame rt) ss) ≡ map (server_arrival rt) ss
unfolding server_frame
server_arrival-frames rt [] = refl
server_arrival-frames rt (s ∷ ss) =
    ap (λ (ps : List Memory). server_arrival rt s ∷ ps) (server_arrival-frames rt ss)

module _ {ℓ} {A : Type ℓ} (handle_packet : Memory → A → Bool × A) (rt : Table) (fuel : ℕ)
    (b : Memory) (a : A) (ss : List Sendable) where
  -- Packets of 6 to 2047 bytes that a client enciphers and sends are handled in order and once each, until one is refused: from between
  -- two packets, whatever the buffer holds, with rounds for every byte.
  pub receive-client_stream :
      length (client_stream rt ss) < fuel
      → let r =
          receive handle_packet fuel (client_codec rt) (reading 6 0 b a) (client_stream rt ss) in
        (r.0.active, r.0.client) ≡ handle_all handle_packet (map (client_arrival rt) ss) a
  receive-client_stream enough =
      rw (← client_stream-frames rt ss, ← client_arrival-frames rt ss)
        (receive_refines handle_packet (client_codec rt) fuel b a (map (client_frame rt) ss)
          (rw (client_stream-frames rt ss) enough))

  -- Packets of 6 to 2047 bytes that a server enciphers and sends are handled in order and once each, until one is
  -- refused: from between two packets, whatever the buffer holds, with rounds for every byte.
  pub receive-server_stream :
      length (server_stream rt ss) < fuel
      → let r =
          receive handle_packet fuel (server_codec rt) (reading 6 0 b a) (server_stream rt ss) in
        (r.0.active, r.0.client) ≡ handle_all handle_packet (map (server_arrival rt) ss) a
  receive-server_stream enough =
      rw (← server_stream-frames rt ss, ← server_arrival-frames rt ss)
        (receive_refines handle_packet (server_codec rt) fuel b a (map (server_frame rt) ss)
          (rw (server_stream-frames rt ss) enough))
