-- ===== src/Tests/World.antt =====
-- The results about the servers, each applied at a concrete input. A script is a number here.
use os_irose_new.Common.{
  ℕ, ◌+◌, ◌≡◌, refl, arith, List, [], ◌∷◌, none, some, true, false, if◌then◌else◌, ◌==◌,
}
use os_irose_new.Map.Ids.{
  acquire, release, start, IsUnique, Reaches-IsUnique, get_free_id, release_id,
}
use os_irose_new.Map.Party.{
  PartyBase, party_of, add_member, remove_member, is_member, led_by, first_of,
}
use os_irose_new.Map.Party.Members.{IsParty, founded, added, removed, Reaches-IsParty}
use os_irose_new.Packet.{CRosePacket, Field, num16, text, make_packet}
use os_irose_new.Messages.Account.{CliJoinServerReq}
use os_irose_new.Escape.{escape_data, replace_all}
use os_irose_new.Login.Database.{select}
use os_irose_new.Map.Client.{
  Account, Sql, default, EntitySystem, MapClient, World, Env, on_disconnected, join_of, send_start,
  join_entity, join_rows, join_server_reply,
}
use os_irose_new.Map.Client.Leaving.{on_disconnected-stays_online}
use os_irose_new.Server.Peers.{Peer}
use os_irose_new.Server.{Client}
use os_irose_new.Map.Inventory.{
  Item, set_item, equip_item, empty_item, put, swap_items, process_drop, process_equip, max_items,
  sent_swap,
}
use os_irose_new.Map.Inventory.Totals.{total, on_ground, total-process_equip, total-process_drop}

-- Two identifiers are taken, and the first is given back.
abbrev emplace : ℕ → List ℕ → List ℕ
emplace i ids = i ∷ ids

Reaches-IsUnique_example : IsUnique (1 ∷ []) (record { free_ids = 0 ∷ []; max_id = 2 })
unfolding get_free_id release_id
Reaches-IsUnique_example =
    Reaches-IsUnique emplace (λ i j ids. refl) (1 ∷ []) (record { free_ids = 0 ∷ []; max_id = 2 })
      (release 0 (acquire (acquire start (omega arith)) (omega arith)) (omega arith))

abbrev potions : Item ℕ
potions = record (empty_item 0) { id = 5; count = 8; lua = 3 }

-- Eight potions in slot 14, and nothing else.
abbrev bag : ℕ → Item ℕ
bag j = if j == 14 then potions else empty_item 0

-- The same potions everywhere.
abbrev full_bag : ℕ → Item ℕ
full_bag j = potions

total-process_drop_example :
    let dropped = process_drop 0 bag 14 3 in
    total (λ (item : Item ℕ). item.count) dropped.0 max_items
      + on_ground (λ item. item.count) dropped.1
    ≡ total (λ (item : Item ℕ). item.count) bag max_items
total-process_drop_example = total-process_drop 0 bag 14 3

abbrev worn : ℕ → Item ℕ
worn = put (put bag 7 (bag 14)) 14 (bag 7)

total-process_equip_example :
    total (λ (item : Item ℕ). item.id) worn max_items
    ≡ total (λ (item : Item ℕ). item.id) bag max_items
unfolding process_equip swap_items sent_swap empty_item
total-process_equip_example =
    total-process_equip (λ (item : Item ℕ). item.id) (λ item. true) (λ item. true) bag worn 7 14
      (equip_item 7 ∷ set_item (7 ∷ 14 ∷ []) ∷ []) refl

-- A party of 4 and 9, whose leader 4 then leaves.
abbrev pair : PartyBase
pair = record (party_of 4) { members = 4 ∷ 9 ∷ [] }

abbrev alone : PartyBase
alone = record (party_of 4) { members = 9 ∷ []; leader = 9 }

Reaches-IsParty_example : IsParty alone
unfolding party_of add_member remove_member is_member led_by first_of
Reaches-IsParty_example =
    Reaches-IsParty (λ e. true) alone
      (removed {p = pair} 4 true (added {p = party_of 4} 9 (founded 4)) refl)

-- Three clients near each other; the second sends.
abbrev at_home : ℕ → Client
at_home address = record { address = address; is_on_map = true; is_nearby = true }

abbrev clients : List Client
clients = at_home 11 ∷ at_home 22 ∷ at_home 33 ∷ []

abbrev chat : List Field
chat = num16 5 ∷ text (104 ∷ 105 ∷ []) ∷ []

abbrev chat_packet : CRosePacket
chat_packet = make_packet (λ j. 0) 0x783 0

-- Of three peers, the oldest is silent and the youngest has left.
abbrev peer : ℕ → ℕ → Peer
peer i time = record { id = i; active = true; update_time = time }

abbrev left_peer : Peer
left_peer = record { id = 2; active = false; update_time = 200000 }

-- Entities are their characters' ids, and nothing else is kept of them.
abbrev no_systems : EntitySystem ℕ ℕ
no_systems = record {
  load_character = λ charid platinium w. (some charid, w);
  destroy = λ e save w. w;
  dispatch = λ e r w. (true, w);
  basic_id = λ e. e;
  assign_socket = λ e w. w;
}

abbrev world_sql : Sql
world_sql = record { sha2 = λ password salt. password; same = λ s t. true }

abbrev world_env : Env
world_env = record {
  now = 0;
  tick = 0;
  ip = [];
  client_port = 0;
  unset = record { year = 0; month = 0; day = 0; hour = 0; min = 0 };
  fails_join = false;
  fails_world = false;
}

abbrev visitor : MapClient ℕ
visitor = record {
  id = 1;
  login_state = default;
  session_id = 0;
  userid = 0;
  charid = 0;
  entity = none;
  sent = [];
}

abbrev world : World ℕ
world = record {
  accounts = record { id = 7; password = []; salt = []; platinium = false; online = true } ∷ [];
  sessions =
      record { id = 3; userid = 7; charid = 31; worldip = none; worldport = 0; time = 0 } ∷ [];
  updated = 0;
  entities = 0;
}

abbrev join_req : CliJoinServerReq
join_req = record { session_id = 3; password = [] }

abbrev joined_world : MapClient ℕ × World ℕ
joined_world = join_server_reply no_systems world_sql world_env join_req visitor world

on_disconnected-stays_online_example :
    select
      (λ (a : Account). a.id == 7)
      (on_disconnected no_systems world_sql world_env joined_world.0 joined_world.1).1.accounts
    ≡ select (λ (a : Account). a.id == 7) world.accounts
unfolding join_server_reply join_rows join_entity join_of send_start escape_data replace_all
on_disconnected-stays_online_example =
    on_disconnected-stays_online no_systems world_sql world_env join_req visitor world 7
      (omega arith)
