-- ===== src/Socket/SendQueue/Order.antt =====
-- What is sent is what was given to send_data, in its order, one packet at a time and each of them in the end.
use os_irose_new.Common.{
  ℕ, zero, suc, ◌+◌, ◌≤◌, ◌<◌, ◌≡◌, refl, sym, subst, ap, ◌∙◌, Bool, true, false, List, [], ◌∷◌,
  ◌++◌, map, length, if◌then◌else◌, arith,
}
use mathlib.Core.List.{append_assoc, append-nil}
use os_irose_new.Common.Memory.{Memory, load16}
use os_irose_new.Packet.Bytes.{load_bytes}
use os_irose_new.Socket.SendQueue.{
  Sender, Ending, ok, reset, other, is_empty, fresh, send_front, process_locked, process_send,
  send_data, pop, ended, on_written,
}

module _ (on_send : Memory → Bool × Memory) (agrees : (m : Memory) → (on_send m).0 ≡ true) where
  -- What goes over the wire for a packet: as many bytes as it has before OnSend, as OnSend leaves them.
  abbrev pub wire_of : Memory → List ℕ
  wire_of packet = load_bytes (on_send packet).1 0 (load16 packet 0)

  -- `given` went to send_data. At most one packet is being written, and while the connection is active none waits for
  -- nothing.
  pub record IsSending (given : List Memory) (s : Sender) : Type 0 where
    pub order : s.written ++ map wire_of s.send_queue ≡ map wire_of given
    pub one : length s.discard_queue ≤ 1
    pub busy : s.active ≡ true → s.discard_queue ≡ [] → s.send_queue ≡ []

  map-snoc : (ps qs : List Memory) → map wire_of (ps ++ qs) ≡ map wire_of ps ++ map wire_of qs
  map-snoc [] qs = refl
  map-snoc (p ∷ ps) qs = ap (λ (ws : List (List ℕ)). wire_of p ∷ ws) (map-snoc ps qs)

  -- ProcessSend sees to it that no packet waits for nothing.
  process_send-IsSending :
      (given : List Memory) (a : Bool) (q d : List Memory) (w : List (List ℕ))
      → w ++ map wire_of q ≡ map wire_of given
      → length d ≤ 1
      → IsSending given (
          process_send on_send
            (record { active = a; send_queue = q; discard_queue = d; written = w }))
  unfolding process_send process_locked send_front is_empty
  process_send-IsSending given false q d w order one = record {
    order = order;
    one = one;
    busy = λ h. absurd (ground arith);
  }
  process_send-IsSending given true [] [] w order one = record {
    order = order;
    one = one;
    busy = λ h e. refl;
  }
  process_send-IsSending given true (p ∷ q) [] w order one = rw (agrees p) (record {
    order = append_assoc w (wire_of p ∷ []) (map wire_of q) ∙ order;
    one = omega arith;
    busy = λ h e. absurd (ground arith);
  })
  process_send-IsSending given true q (m ∷ d) w order one = record {
    order = order;
    one = one;
    busy = λ h e. absurd (ground arith);
  }

  send_data-IsSending :
      (given : List Memory) (s : Sender) (packet : Memory)
      → IsSending given s
      → IsSending (given ++ packet ∷ []) (send_data on_send packet s)
  unfolding send_data
  send_data-IsSending given s packet v =
      process_send-IsSending (given ++ packet ∷ []) s.active (s.send_queue ++ packet ∷ [])
        s.discard_queue s.written
        (ap (λ (ws : List (List ℕ)). s.written ++ ws) (map-snoc s.send_queue (packet ∷ []))
          ∙ sym (append_assoc s.written (map wire_of s.send_queue) (wire_of packet ∷ []))
          ∙ ap (λ (ws : List (List ℕ)). ws ++ wire_of packet ∷ []) v.order
          ∙ sym (map-snoc given (packet ∷ [])))
        v.one

  length-pop : (q : List Memory) → length q ≤ 1 → length (pop on_send q) ≤ 1
  unfolding pop
  length-pop [] h = h
  length-pop (p ∷ q) h = omega arith

  on_written-IsSending :
      (given : List Memory) (s : Sender) (e : Ending)
      → IsSending given s
      → IsSending given (on_written on_send e s)
  unfolding on_written ended
  on_written-IsSending given s ok v =
      process_send-IsSending given s.active s.send_queue (pop on_send s.discard_queue) s.written
        v.order (length-pop s.discard_queue v.one)
  on_written-IsSending given s reset v =
      process_send-IsSending given false s.send_queue (pop on_send s.discard_queue) s.written
        v.order (length-pop s.discard_queue v.one)
  on_written-IsSending given s other v =
      process_send-IsSending given s.active s.send_queue (pop on_send s.discard_queue) s.written
        v.order (length-pop s.discard_queue v.one)

  -- The connection after send_data of `given`, in between which writes have ended, in any way.
  pub data Reaches : List Memory → Sender → Type 0 where
    started : Reaches [] fresh
    sent :
        {given : List Memory} {s : Sender}
        → (packet : Memory) → Reaches given s
        → Reaches (given ++ packet ∷ []) (send_data on_send packet s)
    wrote :
        {given : List Memory} {s : Sender}
        → (e : Ending) → 0 < length s.discard_queue
        → Reaches given s
        → Reaches given (on_written on_send e s)

  -- Whatever is sent and however the writes end, what has been written and what waits are together what was given
  -- to send_data, in its order and once each; one packet at most is being written, and while the
  -- connection is active a packet waits only for one that is, if OnSend refuses nothing and one thread
  -- runs at a time.
  pub Reaches-IsSending : (given : List Memory) (s : Sender) → Reaches given s → IsSending given s
  unfolding fresh
  Reaches-IsSending _ _ started = record { order = refl; one = omega arith; busy = λ h e. refl }
  Reaches-IsSending _ _ (sent {given} {s} packet r) =
      send_data-IsSending given s packet (Reaches-IsSending given s r)
  Reaches-IsSending _ _ (wrote {given} {s} e h r) =
      on_written-IsSending given s e (Reaches-IsSending given s r)

  -- `n` writes that end well, or as many as are begun.
  abbrev pub drained : ℕ → Sender → Sender
  drained zero s = s
  drained (suc n) s =
      let later = drained n (on_written on_send ok s) in
      if is_empty s.discard_queue then s else later

  done :
      (given : List Memory) (s : Sender)
      → IsSending given s
      → s.send_queue ≡ []
      → s.written ≡ map wire_of given
  done given s v e =
      sym (append-nil s.written)
      ∙ ap (λ (q : List Memory). s.written ++ map wire_of q) (sym e)
      ∙ v.order

  written-drained :
      (n : ℕ) (given : List Memory) (q d : List Memory) (w : List (List ℕ))
      → let s : Sender = record { active = true; send_queue = q; discard_queue = d; written = w } in
        IsSending given s → length q + length d ≤ n → (drained n s).written ≡ map wire_of given
  unfolding on_written ended pop process_send process_locked send_front is_empty
  written-drained zero given [] d w v h = done given _ v refl
  written-drained zero given (p ∷ q) d w v h = absurd (omega arith)
  written-drained (suc n) given q [] w v h = done given _ v (v.busy refl refl)
  written-drained (suc n) given q (m ∷ m' ∷ d) w v h = absurd (omega (arith, v.one))
  written-drained (suc n) given [] (m ∷ []) w v h =
      written-drained n given [] [] w
        (record { order = v.order; one = omega arith; busy = λ a e. refl }) (omega arith)
  written-drained (suc n) given (p ∷ q) (m ∷ []) w v h = rw (agrees p) (
      written-drained n given q ((on_send p).1 ∷ []) (w ++ wire_of p ∷ [])
        (record {
          order = append_assoc w (wire_of p ∷ []) (map wire_of q) ∙ v.order;
          one = omega arith;
          busy = λ a e. absurd (ground arith);
        })
        (omega arith))

  -- Every packet that was given to send_data is written in the end: while the connection is active, as many writes
  -- that end well as there are packets that wait or are being written are enough, if OnSend refuses nothing and one
  -- thread runs at a time.
  pub drained-Reaches :
      (n : ℕ) (given : List Memory) (s : Sender)
      → Reaches given s
      → s.active ≡ true
      → length s.send_queue + length s.discard_queue ≤ n
      → (drained n s).written ≡ map wire_of given
  drained-Reaches n given s r a h =
      subst
        (λ (b : Bool).
          b ≡ true
          → IsSending given (record s { active = b })
          → (drained n (record s { active = b })).written ≡ map wire_of given)
        (sym a) (λ e v. written-drained n given s.send_queue s.discard_queue s.written v h) a
        (Reaches-IsSending given s r)
