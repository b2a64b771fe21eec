-- ===== src/Socket/SendQueue.antt =====
-- The sending half of a connection: send_data and ProcessSend of CNetwork_Asio (src/core/src/cnetwork_asio.cpp).
-- async_write is what `written` collects: the bytes it was given, in the order in which it was called. It
-- completes later, by a step of its own. OnSend is an argument, which may change the packet.
-- ProcessSend looks at discard_queue_ before it takes the lock of send_queue_, so the two halves of it
-- are two functions.
pub mod Order
pub mod Race
use os_irose_new.Common.{ℕ, Bool, true, false, List, [], ◌∷◌, ◌++◌, if◌then◌else◌}
use os_irose_new.Common.Memory.{Memory, load16}
use os_irose_new.Packet.Bytes.{load_bytes}

pub record Sender : Type 0 where
  pub active : Bool
  pub send_queue : List Memory
  pub discard_queue : List Memory
  pub written : List (List ℕ)

-- How async_write ends: `reset` is connection_reset or network_reset, `other` any other error.
pub data Ending : Type 0 where
  ok reset other : Ending

unfoldable pub is_empty {ℓ} : {A : Type ℓ} → List A → Bool
is_empty [] = true
is_empty (x ∷ xs) = false

-- A connection that init made active.
unfoldable pub fresh : Sender
fresh = record { active = true; send_queue = []; discard_queue = []; written = [] }

module _ (on_send : Memory → Bool × Memory) where
  -- The first packet of a queue that is not empty: OnSend, and async_write if it agrees.
  unfoldable pub send_front : Sender → List Memory → Sender
  send_front s [] = s
  send_front s (packet ∷ queue) =
      let size = load16 packet 0 in
      let (agrees, sent) = on_send packet in
      record s {
        send_queue = queue;
        discard_queue = s.discard_queue ++ sent ∷ [];
        written = if agrees then s.written ++ load_bytes sent 0 size ∷ [] else s.written;
      }

  -- The half of ProcessSend under the lock, with the discard_empty that was seen before it.
  unfoldable pub process_locked : Bool → Sender → Sender
  process_locked discard_empty s = if discard_empty then send_front s s.send_queue else s

  unfoldable pub process_send : Sender → Sender
  process_send s = if s.active then process_locked (is_empty s.discard_queue) s else s

  unfoldable pub send_data : Memory → Sender → Sender
  send_data packet s = process_send (record s { send_queue = s.send_queue ++ packet ∷ [] })

  unfoldable pub pop : List Memory → List Memory
  pop [] = []
  pop (packet ∷ queue) = queue

  -- What the completion handler does before it calls ProcessSend again.
  unfoldable pub ended : Ending → Sender → Sender
  ended ok s = s
  ended reset s = record s { active = false }
  ended other s = s

  unfoldable pub on_written : Ending → Sender → Sender
  on_written e s =
      let s' = ended e s in process_send (record s' { discard_queue = pop s'.discard_queue })
