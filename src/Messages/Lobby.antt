-- ===== src/Messages/Lobby.antt =====
-- The replies of the login server that hold lists: SrvLoginReply and SrvChannelListReply
-- (src/rosecommon/src/packets/srv_loginreply.cpp, srv_channellistreply.cpp).
use os_irose_new.Common.{ℕ, ◌%◌, Bool, List, [], ◌∷◌, ◌++◌, length, if◌then◌else◌}
use os_irose_new.Packet.{Field, num8, num16, num32, text}

pub record ServerInfo : Type 0 where
  pub name : List ℕ
  pub id : ℕ
  pub test : Bool

pub record SrvLoginReply : Type 0 where
  pub result : ℕ
  pub right : ℕ
  pub type_ : ℕ
  pub servers : List ServerInfo

-- SrvLoginReply::addServer
unfoldable pub add_server : List ℕ → ℕ → Bool → SrvLoginReply → SrvLoginReply
add_server name id test r = record r {
  servers = r.servers ++ record { name = name; id = id; test = test } ∷ [];
}

unfoldable pub pack_servers : List ServerInfo → List Field
pack_servers [] = []
pack_servers (server ∷ servers) =
    num8 (if server.test then 64 else 32)
    ∷ text server.name
    ∷ num32 server.id
    ∷ pack_servers servers

unfoldable pub pack_srv_login_reply : SrvLoginReply → List Field
unfolding pack_servers
pack_srv_login_reply r = num8 r.result ∷ num16 r.right ∷ num16 r.type_ ∷ pack_servers r.servers

pub record ChannelInfo : Type 0 where
  pub name : List ℕ
  pub id : ℕ
  pub low_age : ℕ
  pub high_age : ℕ
  pub capacity : ℕ

pub record SrvChannelListReply : Type 0 where
  pub id : ℕ
  pub channels : List ChannelInfo

-- SrvChannelListReply::addChannel, whose ages are 0 unless they are given.
unfoldable pub add_channel : List ℕ → ℕ → ℕ → SrvChannelListReply → SrvChannelListReply
add_channel name id capacity r =
    let channel : ChannelInfo = record {
      name = name;
      id = id;
      low_age = 0;
      high_age = 0;
      capacity = capacity;
    } in
    record r { channels = r.channels ++ channel ∷ [] }

unfoldable pub pack_channels : List ChannelInfo → List Field
pack_channels [] = []
pack_channels (c ∷ channels) =
    num8 c.id
    ∷ num8 c.low_age
    ∷ num8 c.high_age
    ∷ num16 c.capacity
    ∷ text c.name
    ∷ pack_channels channels

unfoldable pub pack_srv_channel_list_reply : SrvChannelListReply → List Field
unfolding pack_channels
pack_srv_channel_list_reply r =
    num32 r.id ∷ num8 (length r.channels % 256) ∷ pack_channels r.channels
