-- ===== src/Packet/Invariant.antt =====
-- What a packet holds while it is written: the header in its first six bytes, and after it the
-- bytes of all fields so far.
use os_irose_new.Common.{
  ℕ, ◌+◌, ◌^◌, ◌≤◌, ◌<◌, ◌≡◌, ◌∙◌, List, [], ◌∷◌, ◌++◌, arith, subst, u16, length, length-append,
}
use mathlib.Core.List.{append_assoc, append-nil}
use os_irose_new.Common.Memory.{Memory, load16, store16}
use os_irose_new.Packet.Bytes.{
  le, store_bytes, Holds, Holds-store_bytes, Holds-congr, Holds-append, store_bytes_outside_before,
}
use os_irose_new.Packet.{
  CRosePacket, max_packet_size, write_next, write_chars, write_field, write_fields, make_packet,
  Field, num8, num16, num32, text, raw,
}

-- The bytes that a field takes.
abbrev pub encode : Field → List ℕ
encode (num8 v) = le 1 v
encode (num16 v) = le 2 v
encode (num32 v) = le 4 v
encode (text cs) = cs ++ 0 ∷ []
encode (raw cs) = cs

abbrev pub encode_all : List Field → List ℕ
encode_all [] = []
encode_all (f ∷ fs) = encode f ++ encode_all fs

-- `p` holds its header and the bytes `bs`.
pub record Contains (p : CRosePacket) (bs : List ℕ) : Type 0 where
  pub cursor : p.current ≡ 6 + length bs
  pub sized : p.size ≡ p.current
  pub fits : p.current < max_packet_size
  pub size_bytes : load16 p.buffer 0 ≡ p.size
  pub type_bytes : load16 p.buffer 2 ≡ p.packet_type
  pub crc_bytes : load16 p.buffer 4 ≡ p.crc
  pub body : Holds p.buffer 6 bs

store16_above : (m : Memory) (v j : ℕ) → 2 ≤ j → store16 m 0 v j ≡ m j
store16_above m v j p = ground arith

load16-store16 : (m : Memory) (v : ℕ) → v < 2 ^ 16 → load16 (store16 m 0 v) 0 ≡ v
load16-store16 m v p = omega arith

-- The packet after a value that fits.
abbrev written : List ℕ → CRosePacket → CRosePacket
written payload p = record p {
  buffer = store16 (store_bytes p.buffer p.current payload) 0 (u16 (p.size + length payload));
  current = p.current + length payload;
  size = u16 (p.size + length payload);
}

write_next_fits :
    (p : CRosePacket) (payload : List ℕ)
    → p.current + length payload < max_packet_size
    → write_next payload p ≡ written payload p
unfolding write_next
write_next_fits p payload h = ground arith

written-body :
    (p : CRosePacket) (bs payload : List ℕ)
    → Contains p bs
    → Holds (written payload p).buffer 6 (bs ++ payload)
written-body p bs payload c =
    Holds-append _ 6 bs payload
      (Holds-congr _ p.buffer 6 bs
        (λ j lo hi.
          store16_above (store_bytes p.buffer p.current payload) _ j (omega arith)
          ∙ store_bytes_outside_before p.buffer p.current payload j (omega (arith, c.cursor)))
        c.body)
      (Holds-congr _ (store_bytes p.buffer p.current payload) (6 + length bs) payload
        (λ j lo hi. store16_above (store_bytes p.buffer p.current payload) _ j (omega arith))
        (rw (← c.cursor) (Holds-store_bytes p.buffer p.current payload)))

-- A byte of the header that is not the size is not touched.
written_header :
    (p : CRosePacket) (bs payload : List ℕ) (j : ℕ)
    → Contains p bs
    → 2 ≤ j
    → j < 6
    → (written payload p).buffer j ≡ p.buffer j
written_header p bs payload j c lo hi =
    store16_above (store_bytes p.buffer p.current payload) _ j lo
    ∙ store_bytes_outside_before p.buffer p.current payload j (omega (arith, c.cursor))

written-Contains :
    (p : CRosePacket) (bs payload : List ℕ)
    → Contains p bs
    → 6 + length bs + length payload < max_packet_size
    → Contains (written payload p) (bs ++ payload)
written-Contains p bs payload c h = record {
  cursor = omega (arith, c.cursor, length-append bs payload);
  sized = omega (arith, c.cursor, c.sized);
  fits = omega (arith, c.cursor);
  size_bytes =
      load16-store16 (store_bytes p.buffer p.current payload) (u16 (p.size + length payload))
        (omega arith);
  type_bytes =
      omega (arith, written_header p bs payload 2 c, written_header p bs payload 3 c, c.type_bytes);
  crc_bytes =
      omega (arith, written_header p bs payload 4 c, written_header p bs payload 5 c, c.crc_bytes);
  body = written-body p bs payload c;
}

-- A value that fits is appended.
pub write_next-Contains :
    (p : CRosePacket) (bs payload : List ℕ)
    → Contains p bs
    → 6 + length bs + length payload < max_packet_size
    → Contains (write_next payload p) (bs ++ payload)
write_next-Contains p bs payload c h =
    rw (write_next_fits p payload (omega (arith, c.cursor))) (written-Contains p bs payload c h)

-- A value that does not fit is dropped, and nothing changes.
pub write_next_full :
    (p : CRosePacket) (payload : List ℕ)
    → max_packet_size ≤ p.current + length payload
    → write_next payload p ≡ p
unfolding write_next
write_next_full p payload h = ground arith

pub make_packet-Contains :
    (garbage : Memory) (packet_type crc : ℕ)
    → packet_type < 2 ^ 16
    → crc < 2 ^ 16
    → Contains (make_packet garbage packet_type crc) []
unfolding make_packet write_next store_bytes
make_packet-Contains garbage t c p q = ground arith

write_chars-Contains :
    (p : CRosePacket) (bs cs : List ℕ)
    → Contains p bs
    → 6 + length bs + length cs < max_packet_size
    → Contains (write_chars cs p) (bs ++ cs)
unfolding write_chars
write_chars-Contains p bs [] c h = rw append-nil c
write_chars-Contains p bs (x ∷ cs) c h =
    subst (Contains (write_chars cs (write_next (x ∷ []) p))) (append_assoc bs (x ∷ []) cs) (
      write_chars-Contains (write_next (x ∷ []) p) (bs ++ x ∷ []) cs
        (write_next-Contains p bs (x ∷ []) c (omega arith))
        (omega (arith, length-append bs (x ∷ []))))

write_field-Contains :
    (p : CRosePacket) (bs : List ℕ) (f : Field)
    → Contains p bs
    → 6 + length bs + length (encode f) < max_packet_size
    → Contains (write_field f p) (bs ++ encode f)
unfolding write_field
write_field-Contains p bs (num8 v) c h = write_next-Contains p bs (le 1 v) c h
write_field-Contains p bs (num16 v) c h = write_next-Contains p bs (le 2 v) c h
write_field-Contains p bs (num32 v) c h = write_next-Contains p bs (le 4 v) c h
write_field-Contains p bs (raw cs) c h = write_chars-Contains p bs cs c h
write_field-Contains p bs (text cs) c h =
    subst (Contains (write_next (0 ∷ []) (write_chars cs p))) (append_assoc bs cs (0 ∷ [])) (
      write_next-Contains (write_chars cs p) (bs ++ cs) (0 ∷ [])
        (write_chars-Contains p bs cs c (omega (arith, length-append cs (0 ∷ []))))
        (omega (arith, length-append bs cs, length-append cs (0 ∷ []))))

-- Fields that fit are appended in their order, and the header stays right.
pub write_fields-Contains :
    (p : CRosePacket) (bs : List ℕ) (fs : List Field)
    → Contains p bs
    → 6 + length bs + length (encode_all fs) < max_packet_size
    → Contains (write_fields fs p) (bs ++ encode_all fs)
unfolding write_fields
write_fields-Contains p bs [] c h = rw append-nil c
write_fields-Contains p bs (f ∷ fs) c h =
    subst (Contains (write_fields fs (write_field f p)))
      (append_assoc bs (encode f) (encode_all fs))
      (write_fields-Contains (write_field f p) (bs ++ encode f) fs
        (write_field-Contains p bs f c (omega (arith, length-append (encode f) (encode_all fs))))
        (omega (arith, length-append bs (encode f), length-append (encode f) (encode_all fs))))
