-- ===== src/Delivery.antt =====
-- CRoseSocket::send and what it meets on the other side: a packet is packed, enciphered by the sender's
-- callback OnSend, deciphered by the receiver's OnReceived, and read.
pub mod Requests
use os_irose_new.Common.{ℕ, ◌+◌, ◌^◌, ◌<◌, ◌≡◌, ◌≢◌, ◌∙◌, List, some, Bool, true, arith, length}
use os_irose_new.Common.Memory.{Memory, IsBytes, load16}
use os_irose_new.Packet.Bytes.{Holds-congr}
use os_irose_new.Packet.{max_packet_size, Field, make_packet, get_packed}
use os_irose_new.Packet.Invariant.{encode_all}
use os_irose_new.Packet.Keeps.{HaveBytes, get_packed-IsBytes}
use os_irose_new.Packet.Transfer.{AreFields, Received, Carries, receive, get_packed-Carries}
use os_irose_new.Crypt.Codec.{
  Table, encode_server_packet, decode_server_header, decode_server_body, encode_client_packet,
  decode_client_header, decode_client_body,
}
use os_irose_new.Crypt.Codec.RoundTrip.{decode_server-encode_server, decode_client-encode_client}
use os_irose_new.Messages.Reply.{Reply, reply_type, pack_reply, reply_type-lt}
use os_irose_new.Messages.Request.{
  Request, type_of, pack, HasPassword, type_of-lt, fetch_packet, fetch_packet-Received,
}

-- The bytes that carry a packet are not those that the checksums take.
Carries-congr :
    (m n : Memory) (packet_type : ℕ) (fs : List Field)
    → ((j : ℕ) → j ≢ 4 → j ≢ 5 → n j ≡ m j)
    → Carries m packet_type fs
    → Carries n packet_type fs
Carries-congr m n t fs same c = record {
  size_bytes = omega (arith, same 0, same 1, c.size_bytes);
  type_bytes = omega (arith, same 2, same 3, c.type_bytes);
  body = Holds-congr n m 6 (encode_all fs) (λ j lo hi. same j (omega arith) (omega arith)) c.body;
}

-- What the receiver of client packets makes of the bytes that a client sends for a packet.
abbrev pub from_client : Table → Memory → (ℕ × (Bool × Memory))
from_client rt sent =
    let head = decode_client_header rt (encode_client_packet rt sent) in
    (head.0, decode_client_body rt head.1)

abbrev pub from_server : Table → Memory → (ℕ × (Bool × Memory))
from_server rt sent =
    let head = decode_server_header rt (encode_server_packet rt sent) in
    (head.0, decode_server_body rt head.1)

-- A fresh packet of type `t` with the fields `fs`, as getPacked makes it.
abbrev pub packed : Memory → ℕ → List Field → Memory
packed garbage t fs = (get_packed fs (make_packet garbage t 0)).1

module _ (rt : Table) (garbage : Memory) (t : ℕ) (fs : List Field) (v : IsBytes garbage)
    (short : t < 2 ^ 11) (bytes : HaveBytes fs)
    (fits : 6 + length (encode_all fs) < max_packet_size) where
  abbrev sent : Memory
  sent = packed garbage t fs

  carried : Carries sent t fs
  carried = get_packed-Carries garbage t 0 fs (omega arith) (omega arith) fits

  pub client-Carries :
      ((from_client rt sent).0 ≡ 6 + length (encode_all fs))
      × ((from_client rt sent).1.0 ≡ true)
      × Carries (from_client rt sent).1.1 t fs
  client-Carries = (
    (delivered 0 (omega arith) (omega arith)).0 ∙ carried.size_bytes,
    (delivered 0 (omega arith) (omega arith)).1,
    Carries-congr sent (from_client rt sent).1.1 t fs (λ j a b. (delivered j a b).2) carried,
  )
    where
      delivered :
          (j : ℕ)
          → j ≢ 4
          → j ≢ 5
          → ((from_client rt sent).0 ≡ load16 sent 0)
            × ((from_client rt sent).1.0 ≡ true)
            × ((from_client rt sent).1.1 j ≡ sent j)
      delivered j =
          decode_client-encode_client rt sent j (get_packed-IsBytes garbage t 0 fs bytes v)
            (omega (arith, carried.size_bytes)) (omega (arith, carried.type_bytes))

  pub server-Carries :
      ((from_server rt sent).0 ≡ 6 + length (encode_all fs))
      × ((from_server rt sent).1.0 ≡ true)
      × Carries (from_server rt sent).1.1 t fs
  server-Carries = (
    (delivered 0 (omega arith) (omega arith)).0 ∙ carried.size_bytes,
    (delivered 0 (omega arith) (omega arith)).1,
    Carries-congr sent (from_server rt sent).1.1 t fs (λ j a b. (delivered j a b).2) carried,
  )
    where
      delivered :
          (j : ℕ)
          → j ≢ 4
          → j ≢ 5
          → ((from_server rt sent).0 ≡ load16 sent 0)
            × ((from_server rt sent).1.0 ≡ true)
            × ((from_server rt sent).1.1 j ≡ sent j)
      delivered j =
          decode_server-encode_server rt sent j (get_packed-IsBytes garbage t 0 fs bytes v)
            (omega (arith, carried.size_bytes)) (omega (arith, carried.type_bytes))

-- A request that a client packs, enciphers and sends is deciphered by the server without complaint and
-- fetched as the same request, if its members fit their types, its texts hold no 0, the passwords have 32
-- characters and the packet fits the buffer.
pub fetch_packet-from_client :
    (rt : Table) (garbage garbage' : Memory) (r : Request)
    → IsBytes garbage
    → AreFields (pack r)
    → HaveBytes (pack r)
    → HasPassword r
    → 6 + length (encode_all (pack r)) < max_packet_size
    → let got = from_client rt (packed garbage (type_of r) (pack r)) in
      (got.0 ≡ 6 + length (encode_all (pack r)))
      × (got.1.0 ≡ true)
      × (fetch_packet garbage' got.1.1 ≡ some r)
fetch_packet-from_client rt garbage garbage' r v fields bytes password fits = (
  got.0,
  got.1,
  fetch_packet-Received garbage' _ _ r password got.2.type_bytes
      (receive garbage' _ (type_of r) (pack r) fields got.2 fits),
)
  where
    got :
        ((from_client rt (packed garbage (type_of r) (pack r))).0
          ≡ 6 + length (encode_all (pack r)))
        × ((from_client rt (packed garbage (type_of r) (pack r))).1.0 ≡ true)
        × Carries (from_client rt (packed garbage (type_of r) (pack r))).1.1 (type_of r) (pack r)
    got = client-Carries rt garbage (type_of r) (pack r) v (type_of-lt r) bytes fits

-- A packet of any fields that a server packs, enciphers and sends is deciphered by its client and received
-- with its type, its size and its fields, under the same conditions.
pub receive-from_server :
    (rt : Table) (garbage garbage' : Memory) (packet_type : ℕ) (fs : List Field)
    → IsBytes garbage
    → packet_type < 2 ^ 11
    → AreFields fs
    → HaveBytes fs
    → 6 + length (encode_all fs) < max_packet_size
    → let got = from_server rt (packed garbage packet_type fs) in
      (got.0 ≡ 6 + length (encode_all fs))
      × (got.1.0 ≡ true)
      × Received got.1.1 garbage' packet_type (6 + length (encode_all fs)) fs
receive-from_server rt garbage garbage' t fs v short fields bytes fits =
    (got.0, got.1, receive garbage' _ t fs fields got.2 fits)
  where
    got :
        ((from_server rt (packed garbage t fs)).0 ≡ 6 + length (encode_all fs))
        × ((from_server rt (packed garbage t fs)).1.0 ≡ true)
        × Carries (from_server rt (packed garbage t fs)).1.1 t fs
    got = server-Carries rt garbage t fs v short bytes fits

-- The same of each reply class: its client receives the type and exactly the fields that its pack wrote.
pub reply-from_server :
    (rt : Table) (garbage garbage' : Memory) (r : Reply)
    → IsBytes garbage
    → AreFields (pack_reply r)
    → HaveBytes (pack_reply r)
    → 6 + length (encode_all (pack_reply r)) < max_packet_size
    → let got = from_server rt (packed garbage (reply_type r) (pack_reply r)) in
      (got.0 ≡ 6 + length (encode_all (pack_reply r)))
      × (got.1.0 ≡ true)
      × Received got.1.1 garbage'
          (reply_type r)
          (6 + length (encode_all (pack_reply r)))
          (pack_reply r)
reply-from_server rt garbage garbage' r v fields bytes fits =
    receive-from_server rt garbage garbage' (reply_type r) (pack_reply r) v (reply_type-lt r) fields
      bytes fits
