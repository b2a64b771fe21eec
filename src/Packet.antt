-- ===== src/Packet.antt =====
-- CRosePacket (src/rosecommon/include/crosepacket.h): a packet is a buffer of MAX_PACKET_SIZE bytes with
-- a cursor. `Field` is what the operators `<<` and `>>` are used at; a float is written as the
-- `u32` of its bit pattern, an enum as its underlying number.
pub mod Types
pub mod Bytes
pub mod Resend
pub mod Keeps
pub mod Transfer
pub mod Invariant
use os_irose_new.Common.{
  ℕ, zero, suc, ◌+◌, ◌-◌, ◌*◌, ◌%◌, ◌^◌, List, [], ◌∷◌, ◌++◌, Option, none, some, leb, ltb, ◌==◌,
  if◌then◌else◌, u8, u16, length,
}
use os_irose_new.Common.Memory.{Memory, load16, store16}
use Bytes.{le, from_le, store_bytes, load_bytes}

abbrev pub max_packet_size : ℕ
max_packet_size = 0x7FF

-- `packet_type` is the number of the ePacketType.
pub record CRosePacket : Type 0 where
  pub buffer : Memory
  pub current : ℕ
  pub size : ℕ
  pub packet_type : ℕ
  pub crc : ℕ

-- writeNext: `payload` is the bytes of the value. What does not fit is dropped without a trace.
unfoldable pub write_next : List ℕ → CRosePacket → CRosePacket
write_next payload p =
    let size' = u16 (p.size + length payload) in
    if leb max_packet_size (p.current + length payload) then p else record p {
      buffer = store16 (store_bytes p.buffer p.current payload) 0 size';
      current = p.current + length payload;
      size = size';
    }

-- readNext of a value of `n` bytes: T() past the end.
unfoldable pub read_next : ℕ → CRosePacket → ℕ × CRosePacket
read_next n p =
    if leb max_packet_size (p.current + n)
    then (0, p)
    else (from_le (load_bytes p.buffer p.current n), record p { current = p.current + n })

pub data Field : Type 0 where
  num8 num16 num32 : ℕ → Field
  -- std::string, sent with a terminating 0
  text : List ℕ → Field
  -- char[] or char*, sent as it is
  raw : List ℕ → Field

unfoldable pub write_chars : List ℕ → CRosePacket → CRosePacket
unfolding write_next
write_chars [] p = p
write_chars (c ∷ cs) p = write_chars cs (write_next (c ∷ []) p)

-- os << data
unfoldable pub write_field : Field → CRosePacket → CRosePacket
unfolding write_next write_chars
write_field (num8 v) p = write_next (le 1 v) p
write_field (num16 v) p = write_next (le 2 v) p
write_field (num32 v) p = write_next (le 4 v) p
write_field (text cs) p = write_next (0 ∷ []) (write_chars cs p)
write_field (raw cs) p = write_chars cs p

unfoldable pub write_fields : List Field → CRosePacket → CRosePacket
unfolding write_field
write_fields [] p = p
write_fields (f ∷ fs) p = write_fields fs (write_field f p)

-- What a receiver asks for.
pub data Kind : Type 0 where
  k8 k16 k32 k_text : Kind
  k_raw : ℕ → Kind

-- while (auto next = os.readNext<char>()) data.push_back(next);
unfoldable pub read_text : ℕ → CRosePacket → List ℕ × CRosePacket
unfolding read_next
read_text zero p = ([], p)
read_text (suc fuel) p =
    let (c, q) = read_next 1 p in
    let rest = read_text fuel q in if c == 0 then ([], q) else (c ∷ rest.0, rest.1)

unfoldable pub read_raw : ℕ → CRosePacket → List ℕ × CRosePacket
unfolding read_next
read_raw zero p = ([], p)
read_raw (suc n) p = let (c, q) = read_next 1 p in let (cs, r) = read_raw n q in (c ∷ cs, r)

-- os >> data. A text ends at the latest where the buffer does, so this fuel is enough.
unfoldable pub read_field : Kind → CRosePacket → Field × CRosePacket
unfolding read_next read_text read_raw
read_field k8 p = let (v, q) = read_next 1 p in (num8 v, q)
read_field k16 p = let (v, q) = read_next 2 p in (num16 v, q)
read_field k32 p = let (v, q) = read_next 4 p in (num32 v, q)
read_field k_text p = let (cs, q) = read_text max_packet_size p in (text cs, q)
read_field (k_raw n) p = let (cs, q) = read_raw n p in (raw cs, q)

unfoldable pub read_fields : List Kind → CRosePacket → List Field × CRosePacket
unfolding read_field
read_fields [] p = ([], p)
read_fields (k ∷ ks) p =
    let (f, q) = read_field k p in let (fs, r) = read_fields ks q in (f ∷ fs, r)

-- The member initialisers. `garbage` is what the uninitialised array holds.
abbrev pub empty_packet : Memory → ℕ → ℕ → CRosePacket
empty_packet garbage packet_type crc = record {
  buffer = garbage;
  current = 0;
  size = 0;
  packet_type = packet_type;
  crc = crc;
}

-- CRosePacket(type, CRC): *this << size_ << type_ << CRC. The first writes `size_` itself, which the
-- write has just made 2.
unfoldable pub make_packet : Memory → ℕ → ℕ → CRosePacket
unfolding write_fields
make_packet garbage packet_type crc =
    write_fields (num16 2 ∷ num16 packet_type ∷ num16 crc ∷ [])
      (empty_packet garbage packet_type crc)

-- memcpy of `n` bytes.
unfoldable pub copy_bytes : ℕ → Memory → Memory → Memory
copy_bytes n from to j = if ltb j n then from j else to j

-- CRosePacket(buffer). `none` is a copy that overruns the array.
unfoldable pub packet_of_buffer : Memory → Memory → Option CRosePacket
unfolding copy_bytes read_next
packet_of_buffer garbage b =
    let size = load16 b 0 in
    let start : CRosePacket = record {
      buffer = copy_bytes size b garbage;
      current = 0;
      size = 0;
      packet_type = 0;
      crc = 0;
    } in
    let (s, p) = read_next 2 start in
    let (t, q) = read_next 2 p in
    let (c, r) = read_next 2 q in
    if ltb max_packet_size size
    then none
    else some (record r { size = s; packet_type = t; crc = c })

-- getPacked, where pack() writes `fs`: the packet afterwards, and the copy.
unfoldable pub get_packed : List Field → CRosePacket → CRosePacket × Memory
unfolding write_fields copy_bytes
get_packed fs p = let q = write_fields fs p in (q, copy_bytes q.size q.buffer (λ _. 0))
