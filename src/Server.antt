-- ===== src/Server.antt =====
-- CRoseServer::SendPacket (src/rosecommon/src/croseserver.cpp): one packet object for several clients. The list of
-- clients is locked throughout. What isOnMap and is_nearby answer is kept with each client.
pub mod Peers
use os_irose_new.Common.{
  ℕ, suc, ◌≡◌, refl, sym, ap, ◌∙◌, Bool, true, false, List, [], ◌∷◌, ◌==◌, if◌then◌else◌,
  Bool-cases, inl, inr,
}
use os_irose_new.Common.Memory.{Memory}
use os_irose_new.Packet.{CRosePacket, Field, get_packed}
use os_irose_new.Packet.Resend.{packed_nth}

-- eSendType. `other` is a value that the switch does not name.
pub data SendType : Type 0 where
  everyone everyone_but_me everyone_but_me_on_map nearby nearby_but_me other : SendType

-- A client of client_list_: its address, and the answers of isOnMap for its entity and of is_nearby.
pub record Client : Type 0 where
  pub address : ℕ
  pub is_on_map : Bool
  pub is_nearby : Bool

-- client.get() != sender
abbrev is_other : ℕ → Client → Bool
is_other sender c = if c.address == sender then false else true

-- The conditions of the loops.
unfoldable pub is_addressed : SendType → ℕ → Client → Bool
is_addressed everyone sender c = true
is_addressed everyone_but_me sender c = is_other sender c
is_addressed everyone_but_me_on_map sender c = if is_other sender c then c.is_on_map else false
is_addressed nearby sender c = if c.is_on_map then c.is_nearby else false
is_addressed nearby_but_me sender c =
    if c.is_on_map then (if is_other sender c then c.is_nearby else false) else false
is_addressed other sender c = false

-- The loops: every client that is addressed, with the copy that getPacked makes for it of the packet, whose
-- pack writes `fs`.
unfoldable pub send_loop :
    (Client → Bool) → List Field → CRosePacket → List Client → List (ℕ × Memory)
send_loop addressed fs p [] = []
send_loop addressed fs p (c ∷ cs) =
    let sent = get_packed fs p in
    let later = send_loop addressed fs (if addressed c then sent.0 else p) cs in
    if addressed c then (c.address, sent.1) ∷ later else later

unfoldable pub send_packet :
    ℕ → SendType → List Field → CRosePacket → List Client → List (ℕ × Memory)
send_packet sender type fs p cs = send_loop (is_addressed type sender) fs p cs

abbrev pub filter : (Client → Bool) → List Client → List Client
filter test [] = []
filter test (c ∷ cs) = if test c then c ∷ filter test cs else filter test cs

-- The clients with what the function gives for their number, from `n` on.
abbrev pub numbered : (ℕ → Memory) → ℕ → List Client → List (ℕ × Memory)
numbered copy n [] = []
numbered copy n (c ∷ cs) = (c.address, copy n) ∷ numbered copy (suc n) cs

numbered-suc :
    (fs : List Field) (p : CRosePacket) (n : ℕ) (cs : List Client)
    → numbered (λ k. packed_nth fs k p) (suc n) cs
      ≡ numbered (λ k. packed_nth fs k (get_packed fs p).0) n cs
unfolding packed_nth
numbered-suc fs p n [] = refl
numbered-suc fs p n (c ∷ cs) =
    ap (λ (rest : List (ℕ × Memory)). (c.address, packed_nth fs n (get_packed fs p).0) ∷ rest)
      (numbered-suc fs p (suc n) cs)

send_loop_lem :
    (test : Client → Bool) (fs : List Field) (p : CRosePacket) (cs : List Client)
    → send_loop test fs p cs ≡ numbered (λ k. packed_nth fs k p) 0 (filter test cs)
unfolding send_loop packed_nth
send_loop_lem test fs p [] = refl
send_loop_lem test fs p (c ∷ cs) = elim (Bool-cases (test c)) [
  | inl t ↦ rw t (
      ap (λ (rest : List (ℕ × Memory)). (c.address, (get_packed fs p).1) ∷ rest)
        (send_loop_lem test fs (get_packed fs p).0 cs ∙ sym (numbered-suc fs p 0 (filter test cs))))
  | inr f ↦ rw f (send_loop_lem test fs p cs)
]

-- SendPacket sends to the clients that are addressed, in the order of the list and once each, and the
-- client after `n` others gets the copy that the call of getPacked after `n` others makes.
pub send_packet_lem :
    (sender : ℕ) (type : SendType) (fs : List Field) (p : CRosePacket) (cs : List Client)
    → send_packet sender type fs p cs
      ≡ numbered (λ k. packed_nth fs k p) 0 (filter (is_addressed type sender) cs)
unfolding send_packet
send_packet_lem sender type fs p cs = send_loop_lem (is_addressed type sender) fs p cs
