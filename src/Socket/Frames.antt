-- ===== src/Socket/Frames.antt =====
-- One packet through a connection: if the decoders read what an encoder wrote, whatever else the buffer holds,
-- the packet's bytes are taken in one read or two, and it is handed to HandlePacket.
use os_irose_new.Common.{
  ℕ, zero, suc, ◌+◌, ◌-◌, ◌≤◌, ◌<◌, ◌≡◌, refl, sym, ap, ◌∙◌, Bool, true, List, [], ◌++◌, some,
  length, take-append, drop-append, arith, length-append,
}
use native.Mathlib.Decide.{ℕ_discrete, dec_lt}
use mathlib.Core.Path.{fun_ext}
use mathlib.Core.List.{append_assoc}
use os_irose_new.Common.Memory.{Memory, Agree, load16}
use os_irose_new.Packet.{max_packet_size, copy_bytes}
use os_irose_new.Packet.Bytes.{
  store_bytes, load_bytes, store_bytes_outside_before, store_bytes-load_bytes, length-load_bytes,
  load_bytes-append,
}
use os_irose_new.Socket.{
  Codec, Connection, reset_internal_buffer, shutdown, handle_next, handle_queued, filled, completed,
  on_body, on_received, recv_data, receive,
}
use os_irose_new.Socket.Bounds.{receive_next}

-- The `size` bytes of `wire` are a packet to the decoders: the header decoder turns its header into that of
-- `plain`, and the body decoder accepts it and leaves `out`. Neither looks at another byte of the buffer. shutdown closes the connection.
pub record IsFrame (codec : Codec) (wire plain out : Memory) (size : ℕ) : Type 0 where
  pub lower : 6 ≤ size
  pub upper : size ≤ max_packet_size
  pub header : (b : Memory) → Agree 6 b wire → (codec.decode_header b).0 ≡ size
  pub opened : (b : Memory) → Agree 6 b wire → Agree 6 (codec.decode_header b).1 plain
  pub rest : (j : ℕ) → 6 ≤ j → plain j ≡ wire j
  pub body : (b : Memory) → Agree size b plain → (codec.decode_body b).0 ≡ true
  pub left : (b : Memory) → Agree size b plain → Agree size (codec.decode_body b).1 out
  pub says : load16 out 0 ≡ size
  pub shuts : codec.closes ≡ true

-- What HandlePacket is given: a copy of `size` bytes.
abbrev pub taken_from : ℕ → Memory → Memory
taken_from size out = copy_bytes size out (λ _. 0)

copy_bytes-Agree :
    (n : ℕ) (m out : Memory) → Agree n m out → copy_bytes n m (λ _. 0) ≡ copy_bytes n out (λ _. 0)
unfolding copy_bytes
copy_bytes-Agree n m out a = fun_ext (λ j. ground (arith, a j))

module _ {ℓ} {A : Type ℓ} where
  -- An active connection with an empty queue, `size` and `offset` into a packet.
  abbrev pub reading : ℕ → ℕ → Memory → A → Connection A
  reading size offset m a = record {
    packet_size = size;
    packet_offset = offset;
    buffer = m;
    active = true;
    receives = true;
    recv_queue = [];
    client = a;
  }

  -- Between two packets, where HandlePacket may have closed the connection.
  abbrev pub ready : Memory → Bool × A → Connection A
  ready m r = record (reading 6 0 m r.1) { active = r.0 }

  module _ (handle_packet : Memory → A → Bool × A) (codec : Codec) (wire plain out : Memory)
      (size : ℕ) (f : IsFrame codec wire plain out size) where
    on_body-IsFrame :
        (n o : ℕ) (b : Memory) (a : A)
        → Agree size b plain
        → on_body handle_packet codec (reading n o b a)
          ≡ (true, ready (codec.decode_body b).1 (handle_packet (taken_from size out) a))
    unfolding on_body handle_queued handle_next shutdown reset_internal_buffer
    on_body-IsFrame n o b a same = rw (f.body b same, copied, f.shuts) (ground arith)
      where
        copied :
            copy_bytes (load16 (codec.decode_body b).1 0) (codec.decode_body b).1 (λ _. 0)
            ≡ taken_from size out
        copied =
            ap (λ (k : ℕ). copy_bytes k (codec.decode_body b).1 (λ _. 0))
              (omega (arith, f.left b same 0, f.left b same 1, f.says, f.lower))
            ∙ copy_bytes-Agree size (codec.decode_body b).1 out (f.left b same)

    -- The header of a packet of six bytes, and of a longer one.
    on_received_short :
        (b : Memory) (a : A)
        → Agree 6 b wire
        → size ≡ 6
        → on_received handle_packet codec (reading 6 6 b a) ≡ (
          true,
          ready
              (codec.decode_body (codec.decode_header b).1).1
              (handle_packet (taken_from size out) a),
        )
    unfolding on_received
    on_received_short b a same six = rw (f.header b same) (
        ground (
          arith,
          six,
          f.upper,
          on_body-IsFrame size 6 (codec.decode_header b).1 a
              (λ j h. f.opened b same j (omega arith)),
        ))

    on_received_long :
        (b : Memory) (a : A)
        → Agree 6 b wire
        → 6 < size
        → on_received handle_packet codec (reading 6 6 b a)
          ≡ (true, reading size 6 (codec.decode_header b).1 a)
    unfolding on_received
    on_received_long b a same long = rw (f.header b same) (ground (arith, f.upper))

    -- The bytes of the packet, and the first six of them.
    abbrev pub bytes : List ℕ
    bytes = load_bytes wire 0 size

    first-Agree : (b : Memory) → Agree 6 (store_bytes b 0 (load_bytes wire 0 6)) wire
    first-Agree b j h = store_bytes-load_bytes b wire 0 6 j (omega arith) (omega arith)

    recv_six :
        (b : Memory) (a : A) (more : List ℕ)
        → recv_data handle_packet codec (reading 6 0 b a) (load_bytes wire 0 6 ++ more)
          ≡ some (
            completed codec.closes (
                on_received handle_packet codec
                  (reading 6 6 (store_bytes b 0 (load_bytes wire 0 6)) a)),
            more,
          )
    unfolding recv_data filled load_bytes
    recv_six b a more = ground (arith)

    recv_body :
        (b : Memory) (a : A) (more : List ℕ)
        → 6 < size
        → recv_data handle_packet codec (reading size 6 b a) (load_bytes wire 6 (size - 6) ++ more)
          ≡ some (
            completed codec.closes (
                on_received handle_packet codec
                  (reading size size (store_bytes b 6 (load_bytes wire 6 (size - 6))) a)),
            more,
          )
    unfolding recv_data filled
    recv_body b a more long =
        rw
          (
            take-append (load_bytes wire 6 (size - 6)) more (size - 6)
                (sym (length-load_bytes wire 6 (size - 6))),
            drop-append (load_bytes wire 6 (size - 6)) more (size - 6)
                (sym (length-load_bytes wire 6 (size - 6))),
          )
          (rw padded (
            ground (
              arith,
              length-append (load_bytes wire 6 (size - 6)) more,
              length-load_bytes wire 6 (size - 6),
            )))
      where
        padded : 6 + (size - 6) ≡ size
        padded = omega arith

    on_received_rest :
        (b : Memory) (a : A)
        → 6 < size
        → on_received handle_packet codec (reading size size b a)
          ≡ on_body handle_packet codec (reading size size b a)
    unfolding on_received
    on_received_rest b a long = ground arith

    -- The buffer once the rest of the packet has been read behind the deciphered header.
    whole-Agree :
        (b : Memory)
        → Agree 6 b wire
        → Agree size (store_bytes (codec.decode_header b).1 6 (load_bytes wire 6 (size - 6))) plain
    whole-Agree b same j h = elim (dec_lt j 6) [
      | yes front ↦
          store_bytes_outside_before (codec.decode_header b).1 6 (load_bytes wire 6 (size - 6)) j
            front
          ∙ f.opened b same j front
      | no back ↦
          store_bytes-load_bytes (codec.decode_header b).1 wire 6 (size - 6) j (omega arith)
            (omega arith)
          ∙ sym (f.rest j (omega arith))
    ]

    -- A packet in one read, and in two.
    receive_short :
        (k : ℕ) (b : Memory) (a : A) (more : List ℕ)
        → size ≡ 6
        → receive handle_packet (suc k) codec (reading 6 0 b a) (load_bytes wire 0 6 ++ more)
          ≡ receive handle_packet k codec
              (ready
                (codec.decode_body
                  (codec.decode_header (store_bytes b 0 (load_bytes wire 0 6))).1).1
                (handle_packet (taken_from size out) a))
              more
    unfolding completed
    receive_short k b a more six =
        receive_next handle_packet codec k (reading 6 0 b a) _ (load_bytes wire 0 6 ++ more) more
          refl
          (recv_six b a more
            ∙ ap (λ (r : Bool × Connection A). some (completed codec.closes r, more))
                (on_received_short (store_bytes b 0 (load_bytes wire 0 6)) a (first-Agree b) six))

    receive_long :
        (k : ℕ) (b : Memory) (a : A) (more : List ℕ)
        → 6 < size
        → let b' = store_bytes b 0 (load_bytes wire 0 6) in
          let whole = store_bytes (codec.decode_header b').1 6 (load_bytes wire 6 (size - 6)) in
          receive handle_packet
            (suc (suc k))
            codec
            (reading 6 0 b a)
            (load_bytes wire 0 6 ++ (load_bytes wire 6 (size - 6) ++ more))
          ≡ receive handle_packet k codec
              (ready (codec.decode_body whole).1 (handle_packet (taken_from size out) a))
              more
    unfolding completed
    receive_long k b a more long =
        let b' = store_bytes b 0 (load_bytes wire 0 6) in
        let whole = store_bytes (codec.decode_header b').1 6 (load_bytes wire 6 (size - 6)) in
        receive_next handle_packet codec (suc k) (reading 6 0 b a)
          (reading size 6 (codec.decode_header b').1 a) _ (load_bytes wire 6 (size - 6) ++ more)
          refl
          (recv_six b a (load_bytes wire 6 (size - 6) ++ more)
            ∙ ap
                (λ (r : Bool × Connection A).
                  some (completed codec.closes r, load_bytes wire 6 (size - 6) ++ more))
                (on_received_long b' a (first-Agree b) long))
        ∙ receive_next handle_packet codec k (reading size 6 (codec.decode_header b').1 a) _ _ more
            refl
            (recv_body (codec.decode_header b').1 a more long
              ∙ ap (λ (r : Bool × Connection A). some (completed codec.closes r, more))
                  (on_received_rest whole a long
                    ∙ on_body-IsFrame size size whole a (whole-Agree b' (first-Agree b))))

    split :
        (more : List ℕ)
        → bytes ++ more ≡ load_bytes wire 0 6 ++ (load_bytes wire 6 (size - 6) ++ more)
    split more =
        ap (λ (bs : List ℕ). bs ++ more)
          (ap (load_bytes wire 0) (padded) ∙ load_bytes-append wire 0 6 (size - 6))
        ∙ append_assoc (load_bytes wire 0 6) (load_bytes wire 6 (size - 6)) more
      where
        padded : size ≡ 6 + (size - 6)
        padded = omega (arith, f.lower)

    -- A packet at the front of the stream is handed over, and what follows it is read next, in a buffer that
    -- holds `m` by then, with rounds to spare.
    pub receive-IsFrame :
        (fuel : ℕ) (b : Memory) (a : A) (more : List ℕ)
        → length (bytes ++ more) < fuel
        → (m : Memory) × (fuel' : ℕ) × (length more < fuel')
          × (receive handle_packet fuel codec (reading 6 0 b a) (bytes ++ more)
              ≡ receive handle_packet fuel' codec
                  (ready m (handle_packet (taken_from size out) a))
                  more)
    receive-IsFrame zero b a more enough = absurd (omega arith)
    receive-IsFrame (suc zero) b a more enough =
        absurd (omega (arith, length-append bytes more, length-load_bytes wire 0 size, f.lower))
    receive-IsFrame (suc (suc k)) b a more enough = elim (ℕ_discrete size 6) [
      | yes six ↦ (
        _,
        suc k,
        omega (arith, length-append bytes more, length-load_bytes wire 0 size),
        ap
              (λ (n : ℕ).
                receive handle_packet (suc (suc k)) codec (reading 6 0 b a)
                  (load_bytes wire 0 n ++ more))
              six
            ∙ receive_short (suc k) b a more six,
      )
      | no other ↦ (
        _,
        k,
        omega (arith, length-append bytes more, length-load_bytes wire 0 size, f.lower),
        ap (receive handle_packet (suc (suc k)) codec (reading 6 0 b a)) (split more)
            ∙ receive_long k b a more (omega (arith, f.lower)),
      )
    ]
