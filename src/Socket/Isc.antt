-- ===== src/Socket/Isc.antt =====
-- What a server receives from another server: OnReceived of CRoseISC (src/rosecommon/src/croseisc.cpp), which
-- deciphers nothing and takes the length from one byte.
use os_irose_new.Common.{
  ℕ, suc, ◌%◌, ◌≤◌, ◌<◌, ◌≡◌, refl, ap, Bool, true, false, not, ◌&&◌, List, [], ◌∷◌, ◌++◌, some,
  map, length, arith,
}
use os_irose_new.Common.Memory.{Memory, IsBytes, load16}
use os_irose_new.Packet.Bytes.{load_bytes, store_bytes, store_bytes-load_bytes}
use os_irose_new.Socket.{
  Connection, isc_codec, recv_data, receive, filled, completed, on_received, reset_internal_buffer,
  shutdown,
}
use os_irose_new.Socket.Bounds.{receive_next, receive_closed}
use os_irose_new.Socket.Frames.{taken_from, reading}
use os_irose_new.Socket.Stream.{Frame, packet_of, stream_of, handle_all, receive_refines}

-- A packet between servers, of less than 256 bytes.
pub record Short : Type 0 where
  pub packet : Memory
  pub bytes : IsBytes packet
  pub header : 6 ≤ load16 packet 0
  pub length_fits : load16 packet 0 < 256

isc_frame : Short → Frame (isc_codec true)
unfolding isc_codec
isc_frame s = record {
  wire = s.packet;
  plain = s.packet;
  out = s.packet;
  size = load16 s.packet 0;
  is = record {
    lower = s.header;
    upper = omega (arith, s.length_fits);
    header = λ b same. omega (arith, same 0, s.length_fits, s.bytes 0, s.bytes 1);
    opened = λ b same. same;
    rest = λ j p. refl;
    body = λ b same. refl;
    left = λ b same. same;
    says = refl;
    shuts = refl;
  };
}

-- The bytes that packets make between two servers, one after the other.
abbrev pub isc_stream : List Short → List ℕ
isc_stream [] = []
isc_stream (s ∷ ss) = load_bytes s.packet 0 (load16 s.packet 0) ++ isc_stream ss

abbrev pub isc_arrival : Short → Memory
isc_arrival s = taken_from (load16 s.packet 0) s.packet

isc_stream-frames : (ss : List Short) → stream_of (map isc_frame ss) ≡ isc_stream ss
unfolding isc_frame
isc_stream-frames [] = refl
isc_stream-frames (s ∷ ss) =
    ap (λ (bs : List ℕ). load_bytes s.packet 0 (load16 s.packet 0) ++ bs) (isc_stream-frames ss)

isc_arrival-frames : (ss : List Short) → map packet_of (map isc_frame ss) ≡ map isc_arrival ss
unfolding isc_frame
isc_arrival-frames [] = refl
isc_arrival-frames (s ∷ ss) = ap (λ (ps : List Memory). isc_arrival s ∷ ps) (isc_arrival-frames ss)

module _ {ℓ} {A : Type ℓ} (handle_packet : Memory → A → Bool × A) where
  -- Packets of 6 to 255 bytes from another server are handled in order and once each, until one is refused:
  -- from between two packets, whatever the buffer holds, with rounds for every byte, on a connection that shutdown
  -- closes.
  pub receive-isc_stream :
      (fuel : ℕ) (b : Memory) (a : A) (ss : List Short)
      → length (isc_stream ss) < fuel
      → let r = receive handle_packet fuel (isc_codec true) (reading 6 0 b a) (isc_stream ss) in
        (r.0.active, r.0.client) ≡ handle_all handle_packet (map isc_arrival ss) a
  receive-isc_stream fuel b a ss enough =
      rw (← isc_stream-frames ss, ← isc_arrival-frames ss)
        (receive_refines handle_packet (isc_codec true) fuel b a (map isc_frame ss)
          (rw (isc_stream-frames ss) enough))

  refused_first :
      (closes : Bool) (b : Memory) (a : A)
      → b 0 < 6
      → completed
          (isc_codec closes).closes
          (on_received handle_packet (isc_codec closes) (reading 6 6 b a))
        ≡ record (reading 6 0 b a) { active = not closes; receives = false }
  unfolding completed on_received isc_codec reset_internal_buffer shutdown
  refused_first true b a h = ground (arith, h)
  refused_first false b a h = ground (arith, h)

  recv_refused :
      (closes : Bool) (b packet : Memory) (a : A) (more : List ℕ)
      → store_bytes b 0 (load_bytes packet 0 6) 0 < 6
      → recv_data handle_packet (isc_codec closes) (reading 6 0 b a) (load_bytes packet 0 6 ++ more)
        ≡ some (
          record (reading 6 0 (store_bytes b 0 (load_bytes packet 0 6)) a) {
            active = not closes;
            receives = false;
          },
          more,
        )
  unfolding recv_data filled load_bytes
  recv_refused closes b packet a more low =
      ground (arith, refused_first closes (store_bytes b 0 (load_bytes packet 0 6)) a low)

  -- A packet whose length has a low byte below 6, such as one of 256 to 261 bytes, is not handled, and nothing that
  -- follows its first six bytes is read; the connection is closed just when OnShutdown and disconnect answer true,
  -- and stays active where they do not, as after a reconnect.
  pub receive-isc_wraps :
      (closes : Bool) (fuel : ℕ) (b packet : Memory) (a : A) (more : List ℕ)
      → IsBytes packet
      → load16 packet 0 % 256 < 6
      → let r =
          receive handle_packet
            (suc (suc fuel))
            (isc_codec closes)
            (reading 6 0 b a)
            (load_bytes packet 0 6 ++ more) in
        (r.0.active ≡ not closes) × (r.0.client ≡ a) × (r.1 ≡ more)
  receive-isc_wraps closes fuel b packet a more bytes low =
      let closed : Connection A = record (reading 6 0 (store_bytes b 0 (load_bytes packet 0 6)) a) {
        active = not closes;
        receives = false;
      } in
      rw
        (receive_next handle_packet (isc_codec closes) (suc fuel) (reading 6 0 b a) closed
          (load_bytes packet 0 6 ++ more) more refl (recv_refused closes b packet a more low_byte))
        (rw (receive_closed handle_packet (isc_codec closes) fuel closed more stopped)
          (refl, refl, refl))
    where
      stopped : not closes && false ≡ false
      stopped = ground arith

      low_byte : store_bytes b 0 (load_bytes packet 0 6) 0 < 6
      low_byte = omega (
        arith,
        store_bytes-load_bytes b packet 0 6 0 (omega arith) (omega arith),
        bytes 0,
        bytes 1,
        low,
      )
