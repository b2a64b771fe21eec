-- ===== src/Messages/Entities.antt =====
-- The replies that read the components of an entity: SrvPartyMember, SrvMobChar, SrvNpcChar and SrvDropItem
-- (src/rosecommon/src/packets). The components are those of src/rosecommon/include/components, with the members
-- that these packets send; floats are their bit patterns, signed numbers their 32-bit ones.
pub mod Members
use os_irose_new.Common.{
  ℕ, ◌%◌, ◌^◌, Bool, List, [], ◌∷◌, ◌++◌, Option, none, some, length, if◌then◌else◌,
}
use os_irose_new.Packet.{Field, num8, num16, num32, text}
use os_irose_new.Map.Inventory.{Item}
use os_irose_new.Map.Items.{get_header, get_data}

pub record BasicInfo : Type 0 where
  pub name : List ℕ
  pub level : ℕ
  pub xp : ℕ
  pub id : ℕ
  pub tag : ℕ
  pub team_id : ℕ
  pub target_id : ℕ
  pub command : ℕ
  pub owner_id : ℕ

pub record Position : Type 0 where
  pub x : ℕ
  pub y : ℕ
  pub z : ℕ
  pub map_id : ℕ
  pub spawn : ℕ
  pub angle : ℕ

pub record Destination : Type 0 where
  pub x : ℕ
  pub y : ℕ

pub record AdvancedInfo : Type 0 where
  pub hp : ℕ
  pub mp : ℕ
  pub move_mode : ℕ
  pub run_speed : ℕ
  pub atk_speed : ℕ
  pub weight_rate : ℕ

-- What is read of CharacterInfo, Stats and Npc.
pub record Info : Type 0 where
  pub status_flag : ℕ
  pub stamina : ℕ
  pub max_hp : ℕ
  pub con : ℕ
  pub npc_id : ℕ
  pub quest_id : ℕ

-- An entity that has the components that are read of it; `destination` may be missing.
pub record Entity : Type 0 where
  pub basic : BasicInfo
  pub position : Position
  pub destination : Option Destination
  pub advanced : AdvancedInfo
  pub info : Info

pub record SrvPartyMember : Type 0 where
  pub rules : ℕ
  pub is_delete : Bool
  pub list : List Entity

-- One member in the list of members.
unfoldable pub pack_member : Entity → List Field
pack_member e =
    num32 e.basic.tag
    ∷ num16 e.basic.id
    ∷ num32 e.info.max_hp
    ∷ num32 e.advanced.hp
    ∷ num32 e.info.status_flag
    ∷ num16 e.info.con
    ∷ num16 0
    ∷ num16 0
    ∷ num16 e.info.stamina
    ∷ text e.basic.name
    ∷ []

unfoldable pub pack_members : List Entity → List Field
pack_members [] = []
pack_members (e ∷ es) = pack_member e ++ pack_members es

-- list_[0] and list_[1]: `none` is an element that is not there.
unfoldable pub pack_leaving : List Entity → Option (List Field)
pack_leaving [] = none
pack_leaving (e ∷ []) = none
pack_leaving (e ∷ leader ∷ es) = some (num8 255 ∷ num32 e.basic.tag ∷ num32 leader.basic.tag ∷ [])

unfoldable pub pack_srv_party_member : SrvPartyMember → Option (List Field)
unfolding pack_members pack_leaving
pack_srv_party_member r =
    let whole : List Field = num8 r.rules ∷ num8 (length r.list % 2 ^ 8) ∷ pack_members r.list in
    let leaving : Option (List Field) = elim (pack_leaving r.list) [
      | none ↦ none
      | some fs ↦ some (num8 r.rules ∷ fs)
    ] in
    if r.is_delete then leaving else some whole

unfoldable pub pack_srv_mob_char : Entity → List Field
pack_srv_mob_char e =
    let dest_x : ℕ = elim e.destination [ none ↦ e.position.x | some d ↦ d.x ] in
    let dest_y : ℕ = elim e.destination [ none ↦ e.position.y | some d ↦ d.y ] in
    num16 e.basic.id
    ∷ num32 e.position.x
    ∷ num32 e.position.y
    ∷ num32 dest_x
    ∷ num32 dest_y
    ∷ num16 e.basic.command
    ∷ num16 e.basic.target_id
    ∷ num8 e.advanced.move_mode
    ∷ num32 e.advanced.hp
    ∷ num32 e.basic.team_id
    ∷ num32 e.info.status_flag
    ∷ num16 e.info.npc_id
    ∷ num16 e.info.quest_id
    ∷ []

unfoldable pub pack_srv_npc_char : Entity → List Field
unfolding pack_srv_mob_char
pack_srv_npc_char e = pack_srv_mob_char e ++ num32 e.position.angle ∷ num16 0 ∷ []

unfoldable pub pack_srv_drop_item : {Script : Type 0} → Item Script → Entity → List Field
unfolding get_header get_data
pack_srv_drop_item item e =
    num32 e.position.x
    ∷ num32 e.position.y
    ∷ num16 (get_header item)
    ∷ num32 (get_data item)
    ∷ num16 e.basic.id
    ∷ num16 e.basic.owner_id
    ∷ num16 5
    ∷ []
