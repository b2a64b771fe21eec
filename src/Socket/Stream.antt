-- ===== src/Socket/Stream.antt =====
-- A stream of packets against what a receiver promises: each packet to HandlePacket, in order and once, until
-- one is refused.
use os_irose_new.Common.{
  ℕ, zero, suc, ◌<◌, ◌≡◌, refl, ap, ◌∙◌, Bool, true, false, List, [], ◌∷◌, ◌++◌, none,
  if◌then◌else◌, length, map, arith,
}
use os_irose_new.Common.Memory.{Memory}
use os_irose_new.Packet.Bytes.{load_bytes}
use os_irose_new.Socket.{Codec, Connection, recv_data, receive}
use os_irose_new.Socket.Bounds.{receive_closed, receive_waits}
use os_irose_new.Socket.Frames.{IsFrame, taken_from, reading, ready, receive-IsFrame}

-- A packet on the wire.
pub record Frame (codec : Codec) : Type 0 where
  pub wire : Memory
  pub plain : Memory
  pub out : Memory
  pub size : ℕ
  pub is : IsFrame codec wire plain out size

abbrev pub packet_of : {codec : Codec} → Frame codec → Memory
packet_of f = taken_from f.size f.out

abbrev pub stream_of : {codec : Codec} → List (Frame codec) → List ℕ
stream_of [] = []
stream_of (f ∷ fs) = load_bytes f.wire 0 f.size ++ stream_of fs

-- The promise: whether the connection lives, and the client, once each of `ps` has been handled in turn,
-- until one is refused.
unfoldable pub handle_all {ℓ κ} :
    {A : Type ℓ} {P : Type κ} → (P → A → Bool × A) → List P → A → Bool × A
handle_all handle [] a = (true, a)
handle_all handle (p ∷ ps) a =
    let r = handle p a in let later = handle_all handle ps r.1 in if r.0 then later else r

module _ {ℓ} {A : Type ℓ} (handle_packet : Memory → A → Bool × A) where
  abbrev outcome : Connection A × List ℕ → Bool × A
  outcome r = (r.0.active, r.0.client)

  -- What follows a packet is only read if the packet was not refused.
  after_packet :
      (codec : Codec) (fuel : ℕ) (m : Memory) (r : Bool × A) (stream : List ℕ) (later : Bool × A)
      → 0 < fuel
      → outcome (receive handle_packet fuel codec (reading 6 0 m r.1) stream) ≡ later
      → outcome (receive handle_packet fuel codec (ready m r) stream) ≡ (if r.0 then later else r)
  after_packet codec fuel m (true, a) stream later h e = e
  after_packet codec zero m (false, a) stream later h e = absurd (omega arith)
  after_packet codec (suc k) m (false, a) stream later h e =
      ap outcome (receive_closed handle_packet codec k (ready m (false, a)) stream refl)

  -- From between two packets, with rounds for every byte of the packets in the stream, the receiver hands
  -- over what the promise says, and the connection lives just as long.
  pub receive_refines :
      (codec : Codec) (fuel : ℕ) (b : Memory) (a : A) (fs : List (Frame codec))
      → length (stream_of fs) < fuel
      → let r = receive handle_packet fuel codec (reading 6 0 b a) (stream_of fs) in
        (r.0.active, r.0.client) ≡ handle_all handle_packet (map packet_of fs) a
  unfolding handle_all
  receive_refines codec zero b a [] h = absurd (omega arith)
  receive_refines codec (suc k) b a [] h =
      ap outcome (receive_waits handle_packet codec k (reading 6 0 b a) [] refl waits)
    where
      waits : recv_data handle_packet codec (reading 6 0 b a) [] ≡ none
      waits = unfold recv_data in refl
  receive_refines codec fuel b a (f ∷ fs) h =
      let (m, fuel', spare, e) =
        receive-IsFrame handle_packet codec f.wire f.plain f.out f.size f.is fuel b a (stream_of fs)
          h in
      ap outcome e
      ∙ after_packet codec fuel' m (handle_packet (packet_of f) a) (stream_of fs)
          (handle_all handle_packet (map packet_of fs) (handle_packet (packet_of f) a).1)
          (omega arith) (receive_refines codec fuel' m (handle_packet (packet_of f) a).1 fs spare)
