-- ===== src/Login/Isc.antt =====
-- CLoginISC (src/login/src/cloginisc.cpp): what the login server keeps of a char server, and of the channels
-- that map servers register through it.
use os_irose_new.Common.{ℕ, ◌%◌, ◌^◌, ◌+◌, Bool, List, [], ◌∷◌, ◌==◌, if◌then◌else◌}
use os_irose_new.Messages.Isc.{IscServerRegister, IscShutdown}

-- tChannelInfo; its Port and IPAddress are never set.
pub record Channel : Type 0 where
  pub channel_name : List ℕ
  pub channel_id : ℕ
  pub min_right : ℕ

-- `id`, `type_`, `address` and `port` are the socket's.
pub record LoginIsc : Type 0 where
  pub id : ℕ
  pub type_ : ℕ
  pub address : List ℕ
  pub port : ℕ
  pub name : List ℕ
  pub server_name : List ℕ
  pub channel_count : ℕ
  pub min_right : ℕ
  pub test_server : Bool
  pub channel_list : List Channel

-- Isc::ServerType
abbrev pub char_type : ℕ
char_type = 1

abbrev pub map_master_type : ℕ
map_master_type = 3

unfoldable pub server_register : IscServerRegister → LoginIsc → LoginIsc
server_register p s =
    let channel : Channel = record {
      channel_name = p.name;
      channel_id = p.id % 2 ^ 16;
      min_right = p.right;
    } in
    let char_server : LoginIsc = record s {
      server_name = p.name;
      address = p.addr;
      port = p.port % 2 ^ 16;
      min_right = p.right;
      type_ = p.server_type;
    } in
    let map_server : LoginIsc = record s {
      channel_list = channel ∷ s.channel_list;
      channel_count = (s.channel_count + 1) % 2 ^ 32;
    } in
    let s' =
      if p.server_type == char_type
      then char_server
      else (if p.server_type == map_master_type then map_server else s) in
    record s' { name = s'.server_name }

-- channel_list_.remove_if
unfoldable pub remove_channel : ℕ → List Channel → List Channel
remove_channel id [] = []
remove_channel id (c ∷ channels) =
    let rest = remove_channel id channels in if c.channel_id == id then rest else c ∷ rest

unfoldable pub server_shutdown : IscShutdown → LoginIsc → LoginIsc
unfolding remove_channel
server_shutdown p s = record s { channel_list = remove_channel p.id s.channel_list }
