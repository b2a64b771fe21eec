-- ===== src/Socket/SendQueue/Race.antt =====
-- Two threads that call send_data at once.
use os_irose_new.Common.{
  ◌+◌, ◌≡◌, refl, Bool, true, [], ◌∷◌, ◌++◌, length, length-append, arith, if◌then◌else◌,
}
use os_irose_new.Common.Memory.{Memory, load16}
use os_irose_new.Packet.Bytes.{load_bytes}
use os_irose_new.Socket.SendQueue.{Sender, is_empty, send_front, process_locked}

module _ (on_send : Memory → Bool × Memory) where
  -- What two threads leave that push a packet each, then both look at discard_queue_, and only then take the
  -- lock of ProcessSend one after the other.
  unfoldable pub send_at_once : Memory → Memory → Sender → Sender
  send_at_once first second s =
      let pushed : Sender = record s { send_queue = s.send_queue ++ first ∷ second ∷ [] } in
      let seen = is_empty pushed.discard_queue in
      let locked = λ (t : Sender). if s.active then process_locked on_send seen t else t in
      locked (locked pushed)

  -- Two threads that send on an idle, active connection, each looking before either takes the lock, begin two
  -- writes with none ended: both packets are being written, if OnSend refuses neither.
  pub send_at_once-overlaps :
      (s : Sender) (first second : Memory)
      → s.active ≡ true
      → s.send_queue ≡ []
      → s.discard_queue ≡ []
      → (on_send first).0 ≡ true
      → (on_send second).0 ≡ true
      → let s' = send_at_once first second s in
        (s'.discard_queue ≡ (on_send first).1 ∷ (on_send second).1 ∷ [])
        × (length s'.written ≡ length s.written + 2)
  unfolding send_at_once process_locked send_front is_empty
  send_at_once-overlaps s first second a q d yes1 yes2 =
      let w1 = load_bytes (on_send first).1 0 (load16 first 0) in
      let w2 = load_bytes (on_send second).1 0 (load16 second 0) in
      rw (a, q, d, yes1, yes2)
        (
          refl,
          omega (
            arith,
            length-append s.written (w1 ∷ []),
            length-append (s.written ++ w1 ∷ []) (w2 ∷ []),
          ),
        )
