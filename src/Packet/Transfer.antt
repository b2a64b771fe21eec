-- ===== src/Packet/Transfer.antt =====
-- What was written is read back: field by field, and for a whole packet that is sent and received.
use os_irose_new.Common.{
  ℕ, zero, suc, ◌+◌, ◌^◌, ◌≤◌, ◌<◌, ◌≡◌, refl, ap, ◌∙◌, List, [], ◌∷◌, ◌++◌, map, some, arith,
  length, length-append,
}
use os_irose_new.Common.Memory.{Memory, load16}
use os_irose_new.Packet.Bytes.{
  le, from_le, load_bytes, Holds, Holds-congr, Holds-left, Holds-right, load_bytes-Holds,
}
use os_irose_new.Packet.{
  CRosePacket, max_packet_size, read_next, read_text, read_raw, read_field, read_fields, Field,
  num8, num16, num32, text, raw, Kind, k8, k16, k32, k_text, k_raw, make_packet, packet_of_buffer,
  copy_bytes, get_packed,
}
use os_irose_new.Packet.Keeps.{type-write_fields, type-make_packet}
use os_irose_new.Packet.Invariant.{
  encode, encode_all, Contains, write_fields-Contains, make_packet-Contains,
}

-- The kind of a field.
abbrev pub kind : Field → Kind
kind (num8 v) = k8
kind (num16 v) = k16
kind (num32 v) = k32
kind (text cs) = k_text
kind (raw cs) = k_raw (length cs)

-- The characters of a std::string that survives: bytes, and none of them 0.
abbrev pub IsText : List ℕ → Type 0
IsText [] = Unit {0}
IsText (c ∷ cs) = (0 < c) × IsText cs

-- A field that can be sent.
abbrev pub IsField : Field → Type 0
IsField (num8 v) = v < 2 ^ 8
IsField (num16 v) = v < 2 ^ 16
IsField (num32 v) = v < 2 ^ 32
IsField (text cs) = IsText cs
IsField (raw cs) = Unit {0}

abbrev pub AreFields : List Field → Type 0
AreFields [] = Unit {0}
AreFields (f ∷ fs) = IsField f × AreFields fs

abbrev at : CRosePacket → ℕ → CRosePacket
at p i = record p { current = i }

read_next-Holds :
    (p : CRosePacket) (bs : List ℕ)
    → Holds p.buffer p.current bs
    → p.current + length bs < max_packet_size
    → read_next (length bs) p ≡ (from_le bs, at p (p.current + length bs))
unfolding read_next
read_next-Holds p bs h fits = ground (arith, ap from_le (load_bytes-Holds p.buffer p.current bs h))

read_next_byte :
    (p : CRosePacket) (c : ℕ)
    → p.buffer p.current ≡ c
    → p.current + 1 < max_packet_size
    → read_next 1 p ≡ (c, at p (p.current + 1))
read_next_byte p c h fits =
    read_next-Holds p (c ∷ []) (h, tt) fits
    ∙ ap (λ (t : ℕ). (t, at p (p.current + 1))) (omega arith)

-- The reader of a text stops at its end, within the fuel.
read_text-Holds :
    (fuel : ℕ) (p : CRosePacket) (cs : List ℕ)
    → IsText cs
    → Holds p.buffer p.current (cs ++ 0 ∷ [])
    → length cs < fuel
    → p.current + length cs + 1 < max_packet_size
    → read_text fuel p ≡ (cs, at p (p.current + length cs + 1))
unfolding read_text
read_text-Holds zero p cs t h short fits = absurd (omega arith)
read_text-Holds (suc fuel) p [] t h short fits =
    rw (read_next_byte p 0 h.0 (omega arith)) (ap (λ (i : ℕ). ([], at p i)) (omega arith))
read_text-Holds (suc fuel) p (c ∷ cs) t h short fits =
    rw
      (
        read_next_byte p c h.0 (omega arith),
        read_text-Holds fuel (at p (p.current + 1)) cs t.1 h.1 (omega arith) (omega arith),
      )
      (ground (arith, t.0))

read_raw-Holds :
    (p : CRosePacket) (cs : List ℕ)
    → Holds p.buffer p.current cs
    → p.current + length cs < max_packet_size
    → read_raw (length cs) p ≡ (cs, at p (p.current + length cs))
unfolding read_raw
read_raw-Holds p [] h fits = ap (λ (i : ℕ). ([], at p i)) (omega arith)
read_raw-Holds p (c ∷ cs) h fits =
    rw
      (
        read_next_byte p c h.0 (omega arith),
        read_raw-Holds (at p (p.current + 1)) cs h.1 (omega arith),
      )
      (ap (λ (i : ℕ). (c ∷ cs, at p i)) (omega arith))

-- One field.
read_field-Holds :
    (p : CRosePacket) (f : Field)
    → IsField f
    → Holds p.buffer p.current (encode f)
    → p.current + length (encode f) < max_packet_size
    → read_field (kind f) p ≡ (f, at p (p.current + length (encode f)))
unfolding read_field
read_field-Holds p (num8 v) r h fits =
    rw (read_next-Holds p (le 1 v) h fits)
      (ap (λ (t : ℕ). (num8 t, at p (p.current + 1))) (omega arith))
read_field-Holds p (num16 v) r h fits =
    rw (read_next-Holds p (le 2 v) h fits)
      (ap (λ (t : ℕ). (num16 t, at p (p.current + 2))) (omega arith))
read_field-Holds p (num32 v) r h fits =
    rw (read_next-Holds p (le 4 v) h fits)
      (ap (λ (t : ℕ). (num32 t, at p (p.current + 4))) (omega arith))
read_field-Holds p (text cs) r h fits =
    rw
      (read_text-Holds max_packet_size p cs r h (omega (arith, length-append cs (0 ∷ [])))
        (omega (arith, length-append cs (0 ∷ []))))
      (ap (λ (i : ℕ). (text cs, at p i)) (omega (arith, length-append cs (0 ∷ []))))
read_field-Holds p (raw cs) r h fits = rw (read_raw-Holds p cs h fits)

-- All fields, in their order.
pub read_fields-Holds :
    (p : CRosePacket) (fs : List Field)
    → AreFields fs
    → Holds p.buffer p.current (encode_all fs)
    → p.current + length (encode_all fs) < max_packet_size
    → (read_fields (map kind fs) p).0 ≡ fs
unfolding read_fields
read_fields-Holds p [] r h fits = refl
read_fields-Holds p (f ∷ fs) r h fits =
    rw
      (read_field-Holds p f r.0 (Holds-left p.buffer p.current (encode f) (encode_all fs) h)
        (omega (arith, length-append (encode f) (encode_all fs))))
      (ap (λ (gs : List Field). f ∷ gs)
        (read_fields-Holds (at p (p.current + length (encode f))) fs r.1
          (Holds-right p.buffer p.current (encode f) (encode_all fs) h)
          (omega (arith, length-append (encode f) (encode_all fs)))))

-- What a receiver gets out of a buffer.
pub record Received (b garbage : Memory) (packet_type size : ℕ) (fs : List Field) : Type 0 where
  pub packet : CRosePacket
  pub accepted : packet_of_buffer garbage b ≡ some packet
  pub its_type : packet.packet_type ≡ packet_type
  pub its_size : packet.size ≡ size
  pub its_fields : (read_fields (map kind fs) packet).0 ≡ fs

-- What `packet_of_buffer` makes of a buffer that it accepts.
abbrev received : Memory → Memory → CRosePacket
received garbage b =
    let c = copy_bytes (load16 b 0) b garbage in
    record {
      buffer = c;
      current = 6;
      size = load16 c 0;
      packet_type = load16 c 2;
      crc = load16 c 4;
    }

packet_of_buffer-received :
    (garbage b : Memory)
    → load16 b 0 ≤ max_packet_size
    → packet_of_buffer garbage b ≡ some (received garbage b)
unfolding packet_of_buffer read_next load_bytes
packet_of_buffer-received garbage b h = ground arith

-- A buffer that holds the size, the type and the fields of a packet.
pub record Carries (b : Memory) (packet_type : ℕ) (fs : List Field) : Type 0 where
  pub size_bytes : load16 b 0 ≡ 6 + length (encode_all fs)
  pub type_bytes : load16 b 2 ≡ packet_type
  pub body : Holds b 6 (encode_all fs)

-- It is received as that packet.
pub receive :
    (garbage b : Memory) (packet_type : ℕ) (fs : List Field)
    → AreFields fs
    → Carries b packet_type fs
    → 6 + length (encode_all fs) < max_packet_size
    → Received b garbage packet_type (6 + length (encode_all fs)) fs
receive garbage b t fs r c fits = record {
  packet = received garbage b;
  accepted = packet_of_buffer-received garbage b (omega (arith, c.size_bytes));
  its_type = omega (arith, copied 2, copied 3, c.size_bytes, c.type_bytes);
  its_size = omega (arith, copied 0, copied 1, c.size_bytes);
  its_fields =
      read_fields-Holds (received garbage b) fs r
        (Holds-congr _ b 6 (encode_all fs) (λ j lo hi. copied j (omega (arith, c.size_bytes)))
          c.body)
        fits;
}
  where
    copied : (j : ℕ) → j < load16 b 0 → copy_bytes (load16 b 0) b garbage j ≡ b j
    copied j p = unfold copy_bytes in ground arith

-- The copy that getPacked makes of a fresh packet.
pub get_packed-Contains :
    (garbage : Memory) (packet_type crc : ℕ) (fs : List Field)
    → packet_type < 2 ^ 16
    → crc < 2 ^ 16
    → 6 + length (encode_all fs) < max_packet_size
    → Contains (get_packed fs (make_packet garbage packet_type crc)).0 (encode_all fs)
unfolding get_packed
get_packed-Contains garbage t crc fs p q fits =
    write_fields-Contains (make_packet garbage t crc) [] fs (make_packet-Contains garbage t crc p q)
      fits

pub get_packed_copied :
    (fs : List Field) (p : CRosePacket) (j : ℕ)
    → j < (get_packed fs p).0.size
    → (get_packed fs p).1 j ≡ (get_packed fs p).0.buffer j
unfolding get_packed copy_bytes
get_packed_copied fs p j h = ground arith

-- A fresh packet whose fields fit is packed into a buffer that carries it.
pub get_packed-Carries :
    (garbage : Memory) (packet_type crc : ℕ) (fs : List Field)
    → packet_type < 2 ^ 16
    → crc < 2 ^ 16
    → 6 + length (encode_all fs) < max_packet_size
    → Carries (get_packed fs (make_packet garbage packet_type crc)).1 packet_type fs
get_packed-Carries garbage t crc fs p q fits = record {
  size_bytes = omega (arith, copied 0, copied 1, c.size_bytes, c.sized, c.cursor);
  type_bytes = omega (arith, copied 2, copied 3, c.type_bytes, same_type, c.sized, c.cursor);
  body =
      Holds-congr _ sent.0.buffer 6 (encode_all fs)
        (λ j lo hi. copied j (omega (arith, c.sized, c.cursor))) c.body;
}
  where
    sent : CRosePacket × Memory
    sent = get_packed fs (make_packet garbage t crc)

    c : Contains sent.0 (encode_all fs)
    c = get_packed-Contains garbage t crc fs p q fits

    copied : (j : ℕ) → j < sent.0.size → sent.1 j ≡ sent.0.buffer j
    copied = get_packed_copied fs (make_packet garbage t crc)

    same_type : sent.0.packet_type ≡ t
    same_type =
        unfold get_packed in
        (type-write_fields fs (make_packet garbage t crc) ∙ type-make_packet garbage t crc)

-- A fresh packet whose fields fit, packed by getPacked and handed to a receiver as it is, is
-- received with its type, its size and its fields.
pub receive-get_packed :
    (garbage garbage' : Memory) (packet_type crc : ℕ) (fs : List Field)
    → packet_type < 2 ^ 16
    → crc < 2 ^ 16
    → AreFields fs
    → 6 + length (encode_all fs) < max_packet_size
    → Received
        (get_packed fs (make_packet garbage packet_type crc)).1
        garbage'
        packet_type
        (6 + length (encode_all fs))
        fs
receive-get_packed garbage garbage' t crc fs p q r fits =
    receive garbage' (get_packed fs (make_packet garbage t crc)).1 t fs r
      (get_packed-Carries garbage t crc fs p q fits) fits
