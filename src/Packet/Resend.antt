-- ===== src/Packet/Resend.antt =====
-- One packet object that is packed more than once. Nothing sets the cursor back (resetCurrent has no
-- caller), so every call of getPacked writes the fields behind those of the call before.
use os_irose_new.Common.{
  ℕ, zero, suc, ◌+◌, ◌*◌, ◌^◌, ◌<◌, ◌≡◌, ◌∙◌, List, [], ◌++◌, arith, length, length-append,
}
use mathlib.Core.List.{append_assoc, append-nil}
use os_irose_new.Common.Memory.{Memory, load16}
use os_irose_new.Packet.Bytes.{Holds, Holds-congr}
use os_irose_new.Packet.{CRosePacket, max_packet_size, Field, get_packed, make_packet}
use os_irose_new.Packet.Invariant.{
  encode_all, Contains, write_fields-Contains, make_packet-Contains,
}
use os_irose_new.Packet.Transfer.{get_packed_copied}

-- The copy that the call of getPacked after `n` others makes.
unfoldable pub packed_nth : List Field → ℕ → CRosePacket → Memory
packed_nth fs zero p = (get_packed fs p).1
packed_nth fs (suc n) p = packed_nth fs n (get_packed fs p).0

abbrev pub copies : ℕ → List ℕ → List ℕ
copies zero bs = []
copies (suc n) bs = bs ++ copies n bs

pub length-copies : (n : ℕ) (bs : List ℕ) → length (copies n bs) ≡ n * length bs
length-copies zero bs = omega arith
length-copies (suc n) bs = omega (arith, length-append bs (copies n bs), length-copies n bs)

get_packed-extends :
    (fs : List Field) (p : CRosePacket) (bs : List ℕ)
    → Contains p bs
    → 6 + length bs + length (encode_all fs) < max_packet_size
    → Contains (get_packed fs p).0 (bs ++ encode_all fs)
unfolding get_packed
get_packed-extends fs p bs c h = write_fields-Contains p bs fs c h

-- The copy holds what the packet holds after the call.
sent-Holds :
    (fs : List Field) (p : CRosePacket) (bs : List ℕ)
    → Contains (get_packed fs p).0 bs
    → (load16 (get_packed fs p).1 0 ≡ 6 + length bs) × Holds (get_packed fs p).1 6 bs
sent-Holds fs p bs c = (
  omega
      (arith, get_packed_copied fs p 0, get_packed_copied fs p 1, c.sized, c.cursor, c.size_bytes),
  Holds-congr _ (get_packed fs p).0.buffer 6 bs
      (λ j lo hi. get_packed_copied fs p j (omega (arith, c.sized, c.cursor))) c.body,
)

packed_nth-Contains :
    (n : ℕ) (fs : List Field) (p : CRosePacket) (bs : List ℕ)
    → Contains p bs
    → 6 + length bs + (n + 1) * length (encode_all fs) < max_packet_size
    → (load16 (packed_nth fs n p) 0 ≡ 6 + length (bs ++ copies (suc n) (encode_all fs)))
      × Holds (packed_nth fs n p) 6 (bs ++ copies (suc n) (encode_all fs))
unfolding packed_nth
packed_nth-Contains zero fs p bs c h =
    rw append-nil
      (sent-Holds fs p (bs ++ encode_all fs) (get_packed-extends fs p bs c (omega arith)))
packed_nth-Contains (suc n) fs p bs c h =
    rw (← append_assoc bs (encode_all fs) (copies (suc n) (encode_all fs))) (
      packed_nth-Contains n fs (get_packed fs p).0 (bs ++ encode_all fs)
        (get_packed-extends fs p bs c (grind arith))
        (grind (arith, length-append bs (encode_all fs))))

-- The copy that the call of getPacked after `n` others makes of a fresh packet has the fields n + 1
-- times over, and a size to match, while that fits the buffer.
pub packed_nth_grows :
    (n : ℕ) (garbage : Memory) (packet_type crc : ℕ) (fs : List Field)
    → packet_type < 2 ^ 16
    → crc < 2 ^ 16
    → 6 + (n + 1) * length (encode_all fs) < max_packet_size
    → (load16 (packed_nth fs n (make_packet garbage packet_type crc)) 0
        ≡ 6 + (n + 1) * length (encode_all fs))
      × Holds
          (packed_nth fs n (make_packet garbage packet_type crc))
          6
          (copies (suc n) (encode_all fs))
packed_nth_grows n garbage t crc fs p q h =
    (held.0 ∙ omega (arith, length-copies (suc n) (encode_all fs)), held.1)
  where
    held :
        (load16 (packed_nth fs n (make_packet garbage t crc)) 0
          ≡ 6 + length (copies (suc n) (encode_all fs)))
        × Holds (packed_nth fs n (make_packet garbage t crc)) 6 (copies (suc n) (encode_all fs))
    held =
        packed_nth-Contains n fs (make_packet garbage t crc) []
          (make_packet-Contains garbage t crc p q) h
