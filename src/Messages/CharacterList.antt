-- ===== src/Messages/CharacterList.antt =====
-- SrvCharacterListReply (src/rosecommon/include/packets/srv_characterlistreply.h,
-- src/rosecommon/src/packets/srv_characterlistreply.cpp): the characters of a user, with what they wear.
use os_irose_new.Common.{
  ℕ, zero, suc, ◌+◌, ◌*◌, ◌%◌, ◌^◌, List, [], ◌∷◌, ◌++◌, ◌==◌, ltb, ◌&&◌, if◌then◌else◌,
}
use os_irose_new.Packet.{Field, num8, num16, num32, text}

-- The bit-fields of 10, 9, 1 and 4 bits. `rest` are the eight bits of `data` that no constructor sets.
pub record EquipItem : Type 0 where
  pub id : ℕ
  pub gem_op : ℕ
  pub socket : ℕ
  pub grade : ℕ
  pub rest : ℕ

unfoldable pub item_data : EquipItem → ℕ
item_data i =
    i.id % 2 ^ 10
    + 2 ^ 10 * (i.gem_op % 2 ^ 9)
    + 2 ^ 19 * (i.socket % 2)
    + 2 ^ 20 * (i.grade % 2 ^ 4)
    + 2 ^ 24 * (i.rest % 2 ^ 8)

pub record CharInfo : Type 0 where
  pub name : List ℕ
  pub race : ℕ
  pub level : ℕ
  pub job : ℕ
  pub remain_sec_until_delete : ℕ
  pub platinum : ℕ
  pub face : ℕ
  pub hair : ℕ
  pub items : ℕ → EquipItem

pub record SrvCharacterListReply : Type 0 where
  pub character_count : ℕ
  pub character_list : List CharInfo

unfoldable pub empty_list : SrvCharacterListReply
empty_list = record { character_count = 0; character_list = [] }

-- addCharacter, where `rest` are the bits that the default equip_item does not set.
unfoldable pub add_character :
    (name : List ℕ) (race level job face hair delete_time : ℕ)
    → ℕ
    → SrvCharacterListReply
    → SrvCharacterListReply
add_character name race level job face hair delete_time rest r =
    let character : CharInfo = record {
      name = name;
      race = race;
      level = level;
      job = job;
      remain_sec_until_delete = delete_time;
      platinum = 0;
      face = face;
      hair = hair;
      items = λ i. record { id = 0; gem_op = 0; socket = 0; grade = 0; rest = rest };
    } in
    record {
      character_count = (r.character_count + 1) % 256;
      character_list = r.character_list ++ character ∷ [];
    }

abbrev pub max_equipped_items : ℕ
max_equipped_items = 8

-- getPosition: the slots of Inventory, and the positions that the list has for them.
unfoldable pub get_position : ℕ → ℕ
get_position slot =
    if slot == 1
    then 4
    else (if slot == 2
        then 0
        else (if slot == 3
            then 1
            else (if slot == 4
                then 5
                else (if slot == 5
                    then 2
                    else (if slot == 6
                        then 3
                        else (if slot == 7 then 6 else (if slot == 8 then 7 else 6)))))))

unfoldable pub at_index : ℕ → (CharInfo → CharInfo) → List CharInfo → List CharInfo
at_index n f [] = []
at_index zero f (c ∷ cs) = f c ∷ cs
at_index (suc n) f (c ∷ cs) = c ∷ at_index n f cs

-- addEquipItem, whose gem, socket and grade are 0 in every call.
unfoldable pub add_equip_item : ℕ → ℕ → ℕ → SrvCharacterListReply → SrvCharacterListReply
add_equip_item char_id slot item_id r =
    let put : CharInfo → CharInfo = λ (c : CharInfo). record c {
      items = λ i.
          if i == slot
          then record (c.items i) { id = item_id % 2 ^ 10; gem_op = 0; socket = 0; grade = 0 }
          else c.items i;
    } in
    if ltb char_id r.character_count && ltb slot max_equipped_items
    then record r { character_list = at_index char_id put r.character_list }
    else r

unfoldable pub pack_character : CharInfo → List Field
pack_character c =
    text c.name
    ∷ num8 c.race
    ∷ num16 c.level
    ∷ num16 c.job
    ∷ num32 c.remain_sec_until_delete
    ∷ num8 c.platinum
    ∷ num32 c.face
    ∷ num32 c.hair
    ∷ num32 (item_data (c.items 0))
    ∷ num32 (item_data (c.items 1))
    ∷ num32 (item_data (c.items 2))
    ∷ num32 (item_data (c.items 3))
    ∷ num32 (item_data (c.items 4))
    ∷ num32 (item_data (c.items 5))
    ∷ num32 (item_data (c.items 6))
    ∷ num32 (item_data (c.items 7))
    ∷ []

unfoldable pub pack_characters : List CharInfo → List Field
unfolding pack_character
pack_characters [] = []
pack_characters (c ∷ cs) = pack_character c ++ pack_characters cs

unfoldable pub pack_srv_character_list_reply : SrvCharacterListReply → List Field
unfolding pack_characters
pack_srv_character_list_reply r = num8 r.character_count ∷ pack_characters r.character_list
