-- ===== src/Socket.antt =====
-- The receiving half of a connection: CNetwork_Asio::recv_data (src/core/src/cnetwork_asio.cpp) reads from the
-- stream of bytes what the callback still wants, and the callback, OnReceived or OnServerReceived of CRoseSocket
-- (src/rosecommon/src/crosesocket.cpp) or OnReceived of CRoseISC (src/rosecommon/src/croseisc.cpp), cuts it into
-- packets. The three callbacks differ in how they decode, which is a `Codec`. HandlePacket is an argument: from
-- the packet and the client to its answer and the client afterwards. dispatch runs its
-- handler at once. shutdown closes the connection where OnShutdown and disconnect answer true, which is the `closes`
-- of a `Codec`: CRoseSocket registers neither OnShutdown nor OnDisconnect, and their defaults answer true, but
-- OnShutdown of CCharISC and CMapISC answers false where it has reconnected. The stream is what the reads get, so from
-- there on what the new socket gets.
pub mod Bounds
pub mod Frames
pub mod Stream
pub mod Codecs
pub mod Isc
pub mod SendQueue
use os_irose_new.Common.{
  ℕ, zero, suc, ◌+◌, ◌-◌, ◌*◌, ◌%◌, Bool, true, false, ◌&&◌, List, [], ◌∷◌, ◌++◌, Option, none,
  some, ◌==◌, ltb, leb, if◌then◌else◌, length, take, drop,
}
use os_irose_new.Common.Memory.{Memory, load16}
use os_irose_new.Crypt.Codec.{
  Table, decode_server_header, decode_client_header, decode_server_body, decode_client_body,
}
use os_irose_new.Packet.{max_packet_size, copy_bytes}
use os_irose_new.Packet.Bytes.{store_bytes}

pub record Codec : Type 0 where
  pub decode_header : Memory → ℕ × Memory
  pub decode_body : Memory → Bool × Memory
  pub closes : Bool

-- OnReceived of CRoseSocket.
unfoldable pub client_codec : Table → Codec
client_codec rt = record {
  decode_header = decode_client_header rt;
  decode_body = decode_client_body rt;
  closes = true;
}

-- OnServerReceived.
unfoldable pub server_codec : Table → Codec
server_codec rt = record {
  decode_header = decode_server_header rt;
  decode_body = decode_server_body rt;
  closes = true;
}

-- OnReceived of CRoseISC: (uint16_t)buffer_[0], and nothing is enciphered. `closes` is whether OnShutdown, which
-- may reconnect, and disconnect answer true.
unfoldable pub isc_codec : Bool → Codec
isc_codec closes = record {
  decode_header = λ m. (m 0, m);
  decode_body = λ m. (true, m);
  closes = closes;
}

-- `client` is what HandlePacket reads and changes. `receives` is whether a callback has not refused: after one that
-- has, recv_data is not called again.
pub record Connection {ℓ} (A : Type ℓ) : Type ℓ where
  pub packet_size : ℕ
  pub packet_offset : ℕ
  pub buffer : Memory
  pub active : Bool
  pub receives : Bool
  pub recv_queue : List Memory
  pub client : A

module _ {ℓ} {A : Type ℓ} where
  unfoldable pub reset_internal_buffer : Connection A → Connection A
  reset_internal_buffer c = record c { packet_offset = 0; packet_size = 6 }

  -- shutdown(false), but for its answer; `closes` is whether OnShutdown and disconnect answer true.
  unfoldable pub shutdown : Bool → Connection A → Connection A
  shutdown closes c = if closes then record c { active = false } else c

  -- What async_read leaves: the bytes it wanted, in the buffer.
  unfoldable pub filled : Connection A → List ℕ → Connection A
  filled c stream =
      let bytes_to_read = c.packet_size - c.packet_offset in
      record c {
        buffer = store_bytes c.buffer c.packet_offset (take bytes_to_read stream);
        packet_offset = c.packet_offset + bytes_to_read;
      }

  -- What the completion handler does with the answer of the callback.
  unfoldable pub completed : Bool → Bool × Connection A → Connection A
  completed closes (ok, c) = if ok then c else shutdown closes (record c { receives = false })

  module _ (handle_packet : Memory → A → Bool × A) where
    -- The handler that is dispatched, at a queue that is known.
    unfoldable pub handle_next : Bool → Connection A → List Memory → Connection A
    handle_next closes c [] = c
    handle_next closes c (packet ∷ queue) =
        let (ok, client) = handle_packet packet c.client in
        let c' : Connection A = record c { recv_queue = queue; client = client } in
        if ok then c' else shutdown closes c'

    unfoldable pub handle_queued : Bool → Connection A → Connection A
    handle_queued closes c = if c.active then handle_next closes c c.recv_queue else c

    -- From the decoding of the body on.
    unfoldable pub on_body : Codec → Connection A → Bool × Connection A
    on_body codec c =
        let (ok, m) = codec.decode_body c.buffer in
        let res = copy_bytes (load16 m 0) m (λ _. 0) in
        let refused : Bool × Connection A =
          (false, reset_internal_buffer (record c { buffer = m })) in
        let taken : Bool × Connection A = (
          true,
          reset_internal_buffer (
              handle_queued codec.closes
                (record c { buffer = m; recv_queue = c.recv_queue ++ res ∷ [] })),
        ) in
        if ok then taken else refused

    unfoldable pub on_received : Codec → Connection A → Bool × Connection A
    on_received codec c =
        let (size, m) = codec.decode_header c.buffer in
        let c' : Connection A = record c { packet_size = size; buffer = m } in
        let refused : Bool × Connection A = (false, reset_internal_buffer c') in
        let more : Bool × Connection A = (true, c') in
        if c.packet_size == 6
        then (if ltb size 6
            then refused
            else (if ltb max_packet_size size
                then refused
                else (if ltb 6 size then more else on_body codec c')))
        else on_body codec c

    -- recv_data, and its completion handler: `none` is a read that waits for bytes. What is returned is the
    -- connection, and what is left in the stream.
    unfoldable pub recv_data : Codec → Connection A → List ℕ → Option (Connection A × List ℕ)
    recv_data codec c stream =
        let bytes_to_read = c.packet_size - c.packet_offset in
        if ltb (length stream) bytes_to_read
        then none
        else some (
          completed codec.closes (on_received codec (filled c stream)),
          drop bytes_to_read stream,
        )

    -- recv_data again and again, while the connection is active and no callback has refused.
    next_recv :
        (Connection A → List ℕ → Connection A × List ℕ)
        → Connection A
        → List ℕ
        → Option (Connection A × List ℕ)
        → Connection A × List ℕ
    next_recv go c stream none = (c, stream)
    next_recv go c stream (some r) = go r.0 r.1

    unfoldable pub receive : ℕ → Codec → Connection A → List ℕ → Connection A × List ℕ
    unfolding next_recv
    receive zero codec c stream = (c, stream)
    receive (suc fuel) codec c stream =
        if c.active && c.receives
        then next_recv (receive fuel codec) c stream (recv_data codec c stream)
        else (c, stream)
