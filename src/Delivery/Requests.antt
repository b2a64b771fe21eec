-- ===== src/Delivery/Requests.antt =====
-- A client's requests through the whole server side: packed, enciphered, joined to one stream of bytes, cut into
-- packets again, deciphered, fetched and handled.
use os_irose_new.Common.{
  ℕ, ◌+◌, ◌<◌, ◌≡◌, refl, ap, ◌∙◌, List, [], ◌∷◌, Option, none, some, Bool, false, arith, length,
  map, if◌then◌else◌,
}
use os_irose_new.Common.Memory.{Memory, IsBytes, load16}
use os_irose_new.Packet.Bytes.{Holds-congr}
use os_irose_new.Packet.{max_packet_size, Field, copy_bytes}
use os_irose_new.Packet.Invariant.{encode_all}
use os_irose_new.Packet.Keeps.{HaveBytes, get_packed-IsBytes}
use os_irose_new.Packet.Transfer.{AreFields, Carries, receive, get_packed-Carries}
use os_irose_new.Crypt.Codec.{Table}
use os_irose_new.Messages.Request.{
  Request, type_of, type_of-lt, pack, HasPassword, fetch_packet, fetch_packet-Received,
}
use os_irose_new.Delivery.{packed, client-Carries, from_client}
use os_irose_new.Socket.{client_codec}
use os_irose_new.Socket
use os_irose_new.Socket.Frames.{reading, taken_from}
use os_irose_new.Socket.Stream.{handle_all}
use os_irose_new.Socket.Codecs.{Sendable, client_stream, client_arrival, receive-client_stream}

-- A request as a client may send it, in an array that held `garbage`.
pub record Sending : Type 0 where
  pub request : Request
  pub garbage : Memory
  pub garbage_bytes : IsBytes garbage
  pub fields : AreFields (pack request)
  pub chars : HaveBytes (pack request)
  pub password : HasPassword request
  pub fits : 6 + length (encode_all (pack request)) < max_packet_size

abbrev pub carried :
    (q : Sending)
    → Carries
        (packed q.garbage (type_of q.request) (pack q.request))
        (type_of q.request)
        (pack q.request)
carried q =
    get_packed-Carries q.garbage (type_of q.request) 0 (pack q.request)
      (omega (arith, type_of-lt q.request)) (omega arith) q.fits

unfoldable pub sendable : Sending → Sendable
sendable q = record {
  packet = packed q.garbage (type_of q.request) (pack q.request);
  bytes =
      get_packed-IsBytes q.garbage (type_of q.request) 0 (pack q.request) q.chars q.garbage_bytes;
  header = omega (arith, (carried q).size_bytes);
  length_fits = omega (arith, (carried q).size_bytes, q.fits);
  command_fits = omega (arith, (carried q).type_bytes, type_of-lt q.request);
}

Carries-taken_from :
    (m : Memory) (packet_type size : ℕ) (fs : List Field)
    → size ≡ 6 + length (encode_all fs)
    → Carries m packet_type fs
    → Carries (taken_from size m) packet_type fs
Carries-taken_from m t size fs e c = record {
  size_bytes = omega (arith, copied 0, copied 1, c.size_bytes, e);
  type_bytes = omega (arith, copied 2, copied 3, c.type_bytes, e);
  body = Holds-congr _ m 6 (encode_all fs) (λ j lo hi. copied j (omega (arith, e))) c.body;
}
  where
    copied : (j : ℕ) → j < size → taken_from size m j ≡ m j
    copied j p = unfold copy_bytes in ground arith

-- What arrives is fetched as the request that was sent.
fetch_packet-client_arrival :
    (rt : Table) (garbage : Memory) (q : Sending)
    → fetch_packet garbage (client_arrival rt (sendable q)) ≡ some q.request
unfolding sendable
fetch_packet-client_arrival rt garbage q =
    fetch_packet-Received garbage (client_arrival rt (sendable q)) _ q.request q.password
      there.type_bytes
      (receive garbage (client_arrival rt (sendable q)) (type_of q.request) (pack q.request)
        q.fields there q.fits)
  where
    there : Carries (client_arrival rt (sendable q)) (type_of q.request) (pack q.request)
    there =
        Carries-taken_from (from_client rt (sendable q).packet).1.1 (type_of q.request)
          (load16 (sendable q).packet 0) (pack q.request) (carried q).size_bytes
          (client-Carries rt q.garbage (type_of q.request) (pack q.request) q.garbage_bytes
            (type_of-lt q.request) q.chars q.fits).2

module _ {ℓ} {A : Type ℓ} (on_request : Request → A → Bool × A) (garbage : Memory) where
  -- A HandlePacket that fetches the packet, and refuses what it cannot fetch.
  unfoldable pub handle_fetched : Option Request → A → Bool × A
  handle_fetched none a = (false, a)
  handle_fetched (some r) a = on_request r a

  unfoldable pub handle_packet : Memory → A → Bool × A
  handle_packet packet a = handle_fetched (fetch_packet garbage packet) a

  handle_all-arrivals :
      (rt : Table) (qs : List Sending) (a : A)
      → handle_all handle_packet (map (client_arrival rt) (map sendable qs)) a
        ≡ handle_all on_request (map (λ q. q.request) qs) a
  unfolding handle_all handle_packet handle_fetched
  handle_all-arrivals rt [] a = refl
  handle_all-arrivals rt (q ∷ qs) a = rw (fetch_packet-client_arrival rt garbage q) (
      ap
        (λ (later : Bool × A). if (on_request q.request a).0 then later else on_request q.request a)
        (handle_all-arrivals rt qs (on_request q.request a).1))

  -- The server handles the requests of a client in the order in which they were sent, each of them once, until
  -- one is refused: from between two packets, whatever its buffer holds, if it is given rounds for every byte.
  pub receive-requests :
      (rt : Table) (fuel : ℕ) (b : Memory) (a : A) (qs : List Sending)
      → length (client_stream rt (map sendable qs)) < fuel
      → let r =
          Socket.receive handle_packet fuel
            (client_codec rt)
            (reading 6 0 b a)
            (client_stream rt (map sendable qs)) in
        (r.0.active, r.0.client) ≡ handle_all on_request (map (λ q. q.request) qs) a
  receive-requests rt fuel b a qs enough =
      receive-client_stream handle_packet rt fuel b a (map sendable qs) enough
      ∙ handle_all-arrivals rt qs a
