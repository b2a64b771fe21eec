-- ===== src/Socket/Bounds.antt =====
-- Where a connection stands between two reads, and that a finite stream is read in finitely many of them.
use os_irose_new.Common.{
  ℕ, zero, suc, ◌-◌, ◌≤◌, ◌<◌, ◌≡◌, refl, Bool, true, false, ◌&&◌, ◌∙◌, List, none, some, length,
  length-drop, Bool-cases, Option-cases, inl, inr, ◌⊎◌, arith,
}
use os_irose_new.Common.Memory.{Memory}
use os_irose_new.Packet.{max_packet_size}
use os_irose_new.Socket.{
  Codec, Connection, reset_internal_buffer, shutdown, handle_next, handle_queued, filled, completed,
  on_body, on_received, recv_data, receive,
}

module _ {ℓ} {A : Type ℓ} where
  -- A read is outstanding, and it ends within the buffer.
  pub record IsFramed (c : Connection A) : Type 0 where
    pub wants : c.packet_offset < c.packet_size
    pub fits : c.packet_size ≤ max_packet_size

  completed-IsFramed :
      (closes : Bool) (r : Bool × Connection A) → IsFramed r.1 → IsFramed (completed closes r)
  unfolding completed shutdown
  completed-IsFramed closes r v = ground (arith, v)

  -- A connection whose callback has refused, and that is still open, has not been closed by its shutdown.
  abbrev IsStopped : Bool → Connection A → Type 0
  IsStopped closes c = (c.receives ≡ false) × (closes ≡ false)

  abbrev IsLive : Bool → Connection A → Type 0
  IsLive closes c = (c.receives ≡ true) ⊎ ((c.active ≡ false) ⊎ IsStopped closes c)

  completed-IsLive :
      (closes : Bool) (r : Bool × Connection A)
      → r.1.receives ≡ true
      → IsLive closes (completed closes r)
  unfolding completed shutdown
  completed-IsLive closes (true, c) e = inl e
  completed-IsLive true (false, c) e = inr (inl refl)
  completed-IsLive false (false, c) e = inr (inr (refl, refl))

  module _ (handle_packet : Memory → A → Bool × A) (codec : Codec) where
    on_body-IsFramed : (c : Connection A) → IsFramed (on_body handle_packet codec c).1
    unfolding on_body reset_internal_buffer
    on_body-IsFramed c = ground arith

    on_received-IsFramed :
        (c : Connection A)
        → c.packet_offset ≡ c.packet_size
        → IsFramed (on_received handle_packet codec c).1
    unfolding on_received reset_internal_buffer
    on_received-IsFramed c full = ground (
      arith,
      on_body-IsFramed c,
      on_body-IsFramed (record c {
        packet_size = (codec.decode_header c.buffer).0;
        buffer = (codec.decode_header c.buffer).1;
      }),
    )

    -- A read that completes consumes a byte at least, and leaves the next read within the buffer, whatever the
    -- decoders and the handler answer.
    pub recv_data-IsFramed :
        (c c' : Connection A) (stream rest : List ℕ)
        → IsFramed c
        → recv_data handle_packet codec c stream ≡ some (c', rest)
        → IsFramed c' × (length rest < length stream)
    unfolding recv_data filled
    recv_data-IsFramed c c' stream rest v e = ground (
      arith,
      e,
      completed-IsFramed codec.closes (on_received handle_packet codec (filled c stream))
          (on_received-IsFramed (filled c stream) (omega arith)),
      length-drop (c.packet_size - c.packet_offset) stream,
    )

    on_body-receives : (c : Connection A) → (on_body handle_packet codec c).1.receives ≡ c.receives
    unfolding on_body reset_internal_buffer handle_queued handle_next shutdown
    on_body-receives c = ground arith

    on_received-receives :
        (c : Connection A) → (on_received handle_packet codec c).1.receives ≡ c.receives
    unfolding on_received reset_internal_buffer
    on_received-receives c = ground (
      arith,
      on_body-receives c,
      on_body-receives (record c {
        packet_size = (codec.decode_header c.buffer).0;
        buffer = (codec.decode_header c.buffer).1;
      }),
    )

    recv_data-IsLive :
        (c c' : Connection A) (stream rest : List ℕ)
        → c.receives ≡ true
        → recv_data handle_packet codec c stream ≡ some (c', rest)
        → IsLive codec.closes c'
    unfolding recv_data filled
    recv_data-IsLive c c' stream rest r e = ground (
      arith,
      e,
      completed-IsLive codec.closes (on_received handle_packet codec (filled c stream))
          (on_received-receives (filled c stream) ∙ r),
    )

    -- Nothing is left to read: the connection is closed, or waits for bytes, or a callback has refused and the
    -- shutdown after it has not closed the connection.
    abbrev pub IsDone : Connection A × List ℕ → Type ℓ
    IsDone r =
        (r.0.active ≡ false)
        ⊎ ((recv_data handle_packet codec r.0 r.1 ≡ none)
            ⊎ ((r.0.receives ≡ false) × (codec.closes ≡ false)))

    pub receive_closed :
        (fuel : ℕ) (c : Connection A) (stream : List ℕ)
        → c.active && c.receives ≡ false
        → receive handle_packet (suc fuel) codec c stream ≡ (c, stream)
    unfolding receive
    receive_closed fuel c stream closed = rw closed refl

    pub receive_waits :
        (fuel : ℕ) (c : Connection A) (stream : List ℕ)
        → c.active && c.receives ≡ true
        → recv_data handle_packet codec c stream ≡ none
        → receive handle_packet (suc fuel) codec c stream ≡ (c, stream)
    unfolding receive
    receive_waits fuel c stream opened e = rw e (rw opened refl)

    pub receive_next :
        (fuel : ℕ) (c c' : Connection A) (stream rest : List ℕ)
        → c.active && c.receives ≡ true
        → recv_data handle_packet codec c stream ≡ some (c', rest)
        → receive handle_packet (suc fuel) codec c stream ≡ receive handle_packet fuel codec c' rest
    unfolding receive
    receive_next fuel c c' stream rest opened e = rw e (rw opened refl)

    receive_live :
        (fuel : ℕ) (c : Connection A) (stream : List ℕ)
        → IsFramed c
        → IsLive codec.closes c
        → length stream < fuel
        → IsDone (receive handle_packet fuel codec c stream)
    receive_live zero c stream v l h = absurd (omega arith)
    receive_live (suc fuel) c stream v l h = elim (Bool-cases (c.active && c.receives)) [
      | inr closed ↦ rw (receive_closed fuel c stream closed) (over c stream l closed)
      | inl opened ↦ elim (Option-cases (recv_data handle_packet codec c stream)) [
        | inl waits ↦ rw (receive_waits fuel c stream opened waits) (inr (inl waits))
        | inr (r, e) ↦
            let (framed, shorter) = recv_data-IsFramed c r.0 stream r.1 v e in
            let receives : c.receives ≡ true = ground (arith, opened) in
            rw (receive_next fuel c r.0 stream r.1 opened e) (
              receive_live fuel r.0 r.1 framed (recv_data-IsLive c r.0 stream r.1 receives e)
                (omega arith))
      ]
    ]
      where
        over :
            (c : Connection A) (stream : List ℕ)
            → IsLive codec.closes c
            → c.active && c.receives ≡ false
            → IsDone (c, stream)
        over c stream (inl e) closed = inl (ground (arith, e, closed))
        over c stream (inr (inl e)) closed = inl e
        over c stream (inr (inr e)) closed = inr (inr e)

    -- As many rounds as the stream has bytes, and one, are enough to read all that can be read.
    pub receive-IsDone :
        (fuel : ℕ) (c : Connection A) (stream : List ℕ)
        → IsFramed c
        → c.receives ≡ true
        → length stream < fuel
        → IsDone (receive handle_packet fuel codec c stream)
    receive-IsDone fuel c stream v r h = receive_live fuel c stream v (inl r) h
