-- ===== src/Tests/Isc.antt =====
-- The results about the numbers of packets and the connections between servers, each applied at a concrete input.
use os_irose_new.Common.{◌≡◌, refl, [], ◌∷◌, some, true, arith}
use os_irose_new.Packet.Types.{pakcs_party_req}
use os_irose_new.Packet.Types.Numbers.{is_from_client, code-is_from_client}
use os_irose_new.Messages.Isc.{IscServerRegister}
use os_irose_new.Isc.{Conn, Config, send, change, send_first, server_type_code}
use os_irose_new.Isc.Char.{CharIscServer, on_accepted, on_connected, handle_packet, server_register}
use os_irose_new.Isc.Char.Link.{Reaches, start, accepts, receives}
use os_irose_new.Isc.Char.Told.{told, Reaches-told}

abbrev map_server : IscServerRegister
map_server = record {
  server_type = 3;
  name = 109 ∷ [];
  addr = 49 ∷ [];
  port = 29200;
  right = 1;
  id = 0;
}

abbrev config : Config
config = record { name = 99 ∷ []; ip = 50 ∷ []; client_port = 29100; access_level = 1 }

-- The connection to the login server, before it is connected.
abbrev to_login : Conn
to_login = record {
  id = 0;
  type_ = 0;
  address = 51 ∷ [];
  port = 29110;
  active = true;
  update_time = 0;
  sent = [];
}

abbrev alone : CharIscServer
alone = record { server_count = 0; isc_list = on_connected config to_login ∷ [] }

abbrev first_map : Conn
first_map = record to_login { address = 49 ∷ []; port = 29200; type_ = 3; update_time = 10 }

-- One map server has registered, and a second has been accepted.
abbrev one_more : CharIscServer
one_more = on_accepted 20 (53 ∷ []) 5 (record {
  server_count = 1;
  isc_list = first_map ∷ send (told map_server to_login) (on_connected config to_login) ∷ [];
})

abbrev second : Conn
second = record to_login { id = 1; address = 53 ∷ []; port = 5; update_time = 20 }

one_more-Reaches : Reaches config to_login one_more
unfolding on_accepted on_connected handle_packet server_register change send_first server_type_code
one_more-Reaches =
    accepts 20 (53 ∷ []) 5 _ (
      receives 7 0 0x303 map_server true _ _ (accepts 10 (52 ∷ []) 4 alone start) (omega arith)
        refl)

Reaches-told_example :
    handle_packet 7 0 0x303 map_server one_more
    ≡ some (
      true,
      record one_more {
        isc_list =
            record second { address = 49 ∷ []; port = 29200; type_ = 3 }
            ∷ first_map
            ∷ send
                (told map_server second)
                (send (told map_server to_login) (on_connected config to_login))
            ∷ [];
      },
    )
unfolding on_accepted on_connected
Reaches-told_example =
    Reaches-told config to_login one_more [] (first_map ∷ []) second
      (send (told map_server to_login) (on_connected config to_login)) 7 map_server refl
      one_more-Reaches refl tt (refl, tt) refl

code-is_from_client_example : pakcs_party_req ≡ pakcs_party_req
unfolding is_from_client
code-is_from_client_example = code-is_from_client pakcs_party_req pakcs_party_req refl refl refl
