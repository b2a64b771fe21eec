-- ===== src/Messages/Entities/Members.antt =====
-- The list of a party's members as a packet.
use os_irose_new.Common.{
  ℕ, ◌+◌, ◌*◌, ◌≡◌, refl, Bool, true, false, List, [], ◌∷◌, none, some, length, if◌then◌else◌, ltb,
  arith,
}
use os_irose_new.Messages.Entities.{
  Entity, SrvPartyMember, pack_member, pack_members, pack_leaving, pack_srv_party_member,
}

length-pack_members : (es : List Entity) → length (pack_members es) ≡ 10 * length es
unfolding pack_members pack_member
length-pack_members [] = omega arith
length-pack_members (e ∷ es) = omega (arith, length-pack_members es)

length_in :
    (rules : ℕ) (b : Bool) (es : List Entity)
    → (elim (pack_srv_party_member (record { rules = rules; is_delete = b; list = es })) [
      | none ↦ 0
      | some fs ↦ length fs
    ])
      ≡ (if b then (if ltb 1 (length es) then 4 else 0) else 2 + 10 * length es)
unfolding pack_srv_party_member pack_leaving
length_in rules true [] = refl
length_in rules true (e ∷ []) = refl
length_in rules true (e ∷ leader ∷ es) = ground (arith)
length_in rules false es = omega (arith, length-pack_members es)

-- The packet with a new member has two fields and ten for each entity of the list. The packet that somebody leaves
-- has four, and packing reads past the end of the list unless it holds the leader besides the one who leaves.
pub pack_srv_party_member-length :
    (r : SrvPartyMember)
    → (elim (pack_srv_party_member r) [ none ↦ 0 | some fs ↦ length fs ])
      ≡ (if r.is_delete then (if ltb 1 (length r.list) then 4 else 0) else 2 + 10 * length r.list)
pack_srv_party_member-length r = length_in r.rules r.is_delete r.list
