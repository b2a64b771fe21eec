-- ===== src/Packet/Keeps.antt =====
-- What writing to a packet leaves alone: its type, and that its buffer holds bytes.
use os_irose_new.Common.{ℕ, ◌+◌, ◌<◌, ◌≡◌, refl, ◌∙◌, List, [], ◌∷◌, arith}
use os_irose_new.Common.Memory.{Memory, IsBytes, store, store-IsBytes}
use os_irose_new.Packet.Bytes.{le, store_bytes}
use os_irose_new.Packet.{
  CRosePacket, write_next, write_chars, write_field, write_fields, empty_packet, make_packet,
  copy_bytes, get_packed, Field, num8, num16, num32, text, raw,
}

type-write_next : (bs : List ℕ) (p : CRosePacket) → (write_next bs p).packet_type ≡ p.packet_type
unfolding write_next
type-write_next bs p = ground arith

type-write_chars : (cs : List ℕ) (p : CRosePacket) → (write_chars cs p).packet_type ≡ p.packet_type
unfolding write_chars
type-write_chars [] p = refl
type-write_chars (c ∷ cs) p =
    type-write_chars cs (write_next (c ∷ []) p) ∙ type-write_next (c ∷ []) p

type-write_field : (f : Field) (p : CRosePacket) → (write_field f p).packet_type ≡ p.packet_type
unfolding write_field
type-write_field (num8 v) p = type-write_next (le 1 v) p
type-write_field (num16 v) p = type-write_next (le 2 v) p
type-write_field (num32 v) p = type-write_next (le 4 v) p
type-write_field (text cs) p = type-write_next (0 ∷ []) (write_chars cs p) ∙ type-write_chars cs p
type-write_field (raw cs) p = type-write_chars cs p

pub type-write_fields :
    (fs : List Field) (p : CRosePacket) → (write_fields fs p).packet_type ≡ p.packet_type
unfolding write_fields
type-write_fields [] p = refl
type-write_fields (f ∷ fs) p = type-write_fields fs (write_field f p) ∙ type-write_field f p

pub type-make_packet :
    (garbage : Memory) (packet_type crc : ℕ)
    → (make_packet garbage packet_type crc).packet_type ≡ packet_type
unfolding make_packet
type-make_packet garbage t crc =
    type-write_fields (num16 2 ∷ num16 t ∷ num16 crc ∷ []) (empty_packet garbage t crc)

abbrev pub AreBytes : List ℕ → Type 0
AreBytes [] = Unit {0}
AreBytes (b ∷ bs) = (b < 256) × AreBytes bs

-- The characters of a field are bytes; its numbers are cut to bytes when they are written.
abbrev pub HasBytes : Field → Type 0
HasBytes (num8 v) = Unit {0}
HasBytes (num16 v) = Unit {0}
HasBytes (num32 v) = Unit {0}
HasBytes (text cs) = AreBytes cs
HasBytes (raw cs) = AreBytes cs

abbrev pub HaveBytes : List Field → Type 0
HaveBytes [] = Unit {0}
HaveBytes (f ∷ fs) = HasBytes f × HaveBytes fs

store_bytes-IsBytes :
    (m : Memory) (i : ℕ) (bs : List ℕ) → IsBytes m → AreBytes bs → IsBytes (store_bytes m i bs)
unfolding store_bytes
store_bytes-IsBytes m i [] v h = v
store_bytes-IsBytes m i (b ∷ bs) v h =
    store_bytes-IsBytes (store m i b) (i + 1) bs (store-IsBytes m i b h.0 v) h.1

write_next-IsBytes :
    (bs : List ℕ) (p : CRosePacket)
    → AreBytes bs
    → IsBytes p.buffer
    → IsBytes (write_next bs p).buffer
unfolding write_next
write_next-IsBytes bs p h v j = ground (arith, v j, store_bytes-IsBytes p.buffer p.current bs v h j)

write_chars-IsBytes :
    (cs : List ℕ) (p : CRosePacket)
    → AreBytes cs
    → IsBytes p.buffer
    → IsBytes (write_chars cs p).buffer
unfolding write_chars
write_chars-IsBytes [] p h v = v
write_chars-IsBytes (c ∷ cs) p h v =
    write_chars-IsBytes cs (write_next (c ∷ []) p) h.1 (write_next-IsBytes (c ∷ []) p (h.0, tt) v)

write_field-IsBytes :
    (f : Field) (p : CRosePacket) → HasBytes f → IsBytes p.buffer → IsBytes (write_field f p).buffer
unfolding write_field
write_field-IsBytes (num8 v) p h m = write_next-IsBytes (le 1 v) p (omega arith) m
write_field-IsBytes (num16 v) p h m = write_next-IsBytes (le 2 v) p (omega arith) m
write_field-IsBytes (num32 v) p h m = write_next-IsBytes (le 4 v) p (omega arith) m
write_field-IsBytes (text cs) p h m =
    write_next-IsBytes (0 ∷ []) (write_chars cs p) (omega arith) (write_chars-IsBytes cs p h m)
write_field-IsBytes (raw cs) p h m = write_chars-IsBytes cs p h m

write_fields-IsBytes :
    (fs : List Field) (p : CRosePacket)
    → HaveBytes fs
    → IsBytes p.buffer
    → IsBytes (write_fields fs p).buffer
unfolding write_fields
write_fields-IsBytes [] p h v = v
write_fields-IsBytes (f ∷ fs) p h v =
    write_fields-IsBytes fs (write_field f p) h.1 (write_field-IsBytes f p h.0 v)

-- The copy that is sent holds bytes, if the uninitialised array does.
pub get_packed-IsBytes :
    (garbage : Memory) (packet_type crc : ℕ) (fs : List Field)
    → HaveBytes fs
    → IsBytes garbage
    → IsBytes (get_packed fs (make_packet garbage packet_type crc)).1
unfolding get_packed copy_bytes make_packet
get_packed-IsBytes garbage t crc fs h v j =
    ground (arith, write_fields-IsBytes fs (make_packet garbage t crc) h fresh j)
  where
    fresh : IsBytes (make_packet garbage t crc).buffer
    fresh =
        write_fields-IsBytes (num16 2 ∷ num16 t ∷ num16 crc ∷ []) (empty_packet garbage t crc)
          (omega arith) v
