-- ===== src/Server/Peers.antt =====
-- The list of a CRoseServer's clients, or of the servers connected to it (src/rosecommon/src/croseserver.cpp):
-- OnAccepted, and a round of the thread that removes those that are gone.
use os_irose_new.Common.{
  ℕ, suc, ◌+◌, ◌-◌, ◌*◌, ◌<◌, ◌≡◌, refl, Bool, true, false, not, ◌&&◌, List, [], ◌∷◌, ◌++◌, ltb,
  if◌then◌else◌, length, length-append, arith,
}

-- The socket of a peer: its id, is_active and get_update_time, in milliseconds.
pub record Peer : Type 0 where
  pub id : ℕ
  pub active : Bool
  pub update_time : ℕ

-- remove_if
unfoldable pub remove_inactive : List Peer → List Peer
remove_inactive [] = []
remove_inactive (p ∷ peers) =
    let rest = remove_inactive peers in if p.active then p ∷ rest else rest

-- More than two minutes without a sign.
abbrev pub is_stale : ℕ → Peer → Bool
is_stale now p = ltb (1000 * 60 * 2) (now - p.update_time)

unfoldable pub shut_down_stale : ℕ → List Peer → List Peer
shut_down_stale now [] = []
shut_down_stale now (p ∷ peers) =
    (if is_stale now p then record p { active = false } else p) ∷ shut_down_stale now peers

-- A round of the loop.
unfoldable pub process_round : ℕ → List Peer → List Peer
process_round now peers = shut_down_stale now (remove_inactive peers)

-- OnAccepted, as far as no subclass replaces it: the new peer gets the number of the others as its id, and is put
-- in front. `time` is the update time that its socket has.
unfoldable pub on_accepted : ℕ → List Peer → List Peer
on_accepted time peers = record { id = length peers; active = true; update_time = time } ∷ peers

-- Those that are active and not stale at `now`, in their order.
abbrev pub alive : ℕ → List Peer → List Peer
alive now [] = []
alive now (p ∷ peers) =
    let rest = alive now peers in if p.active && not (is_stale now p) then p ∷ rest else rest

-- None of the peers is inactive or stale.
abbrev pub AreAlive : ℕ → List Peer → Type 0
AreAlive now [] = Unit
AreAlive now (p ∷ peers) = (p.active ≡ true) × (is_stale now p ≡ false) × AreAlive now peers

process_round-AreAlive :
    (now : ℕ) (peers : List Peer) → AreAlive now peers → process_round now peers ≡ peers
unfolding process_round remove_inactive shut_down_stale
process_round-AreAlive now [] a = refl
process_round-AreAlive now (p ∷ peers) a = ground (arith, a, process_round-AreAlive now peers a.2)

process_round_removes :
    (now : ℕ) (gone : Peer) (front back : List Peer)
    → gone.active ≡ false
    → AreAlive now front
    → AreAlive now back
    → process_round now (front ++ gone ∷ back) ≡ front ++ back
unfolding process_round remove_inactive shut_down_stale
process_round_removes now gone [] back off f b = rw off (process_round-AreAlive now back b)
process_round_removes now gone (p ∷ front) back off f b =
    ground (arith, f, process_round_removes now gone front back off f.2 b)

-- A peer is accepted, one of the others leaves, a round removes it, and another is accepted: the two that were
-- accepted have the same id, if none is stale in that round.
pub on_accepted-same_id :
    (time later now : ℕ) (gone : Peer) (front back : List Peer)
    → gone.active ≡ false
    → now < time + 1000 * 60 * 2
    → AreAlive now front
    → AreAlive now back
    → let id = suc (length (front ++ back)) in
      on_accepted later (process_round now (on_accepted time (front ++ gone ∷ back)))
      ≡ record { id = id; active = true; update_time = later }
        ∷ record { id = id; active = true; update_time = time }
        ∷ (front ++ back)
unfolding on_accepted
on_accepted-same_id time later now gone front back off fresh f b =
    let first : Peer = record {
      id = length (front ++ gone ∷ back);
      active = true;
      update_time = time;
    } in
    rw (process_round_removes now gone (first ∷ front) back off (refl, ground (arith, fresh), f) b)
      (rw same refl)
  where
    same : length (front ++ gone ∷ back) ≡ suc (length (front ++ back))
    same = omega (arith, length-append front (gone ∷ back), length-append front back)
