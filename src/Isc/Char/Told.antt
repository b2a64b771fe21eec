-- ===== src/Isc/Char/Told.antt =====
-- A map server that registers, when every other connection that was accepted has registered.
use os_irose_new.Common.{
  ℕ, ◌%◌, ◌^◌, ◌≡◌, refl, ap, sym, ◌∙◌, Bool, true, false, ◌&&◌, List, [], ◌∷◌, ◌++◌, some,
  get_elem?, length, arith,
}
use os_irose_new.Messages.Isc.{IscServerRegister}
use os_irose_new.Isc.{
  Conn, IscSent, isc_server_register, login, server_type_code, Config, send, has_type, change,
  send_first,
}
use os_irose_new.Isc.Char.{
  CharIscServer, registered, passed_on, pass_on, server_register, handle_packet,
}
use os_irose_new.Isc.Char.Link.{linked, linked-append, linked-behind, Reaches, Reaches-linked}

-- Every connection is a map server's that has registered.
abbrev pub AreMaps : List Conn → Type 0
AreMaps [] = Unit {0}
AreMaps (c ∷ conns) = (c.type_ ≡ 3) × AreMaps conns

change-at :
    (f : Conn → Conn) (before : List Conn) (c : Conn) (rest : List Conn)
    → change (length before) f (before ++ c ∷ rest) ≡ before ++ f c ∷ rest
unfolding change
change-at f [] c rest = refl
change-at f (b ∷ before) c rest = ap (λ (cs : List Conn). b ∷ cs) (change-at f before c rest)

get_elem?-at :
    (before : List Conn) (c : Conn) (rest : List Conn)
    → get_elem? (before ++ c ∷ rest) (length before) ≡ some c
get_elem?-at [] c rest = refl
get_elem?-at (b ∷ before) c rest = get_elem?-at before c rest

send_first-AreMaps :
    (packet : IscSent) (maps rest : List Conn)
    → AreMaps maps
    → send_first login packet (maps ++ rest)
      ≡ ((send_first login packet rest).0, maps ++ (send_first login packet rest).1)
unfolding send_first server_type_code
send_first-AreMaps packet [] rest h = refl
send_first-AreMaps packet (c ∷ maps) rest h =
    let later = send_first-AreMaps packet maps rest h.1 in
    let other : has_type login c ≡ false = ground (arith, h.0) in rw other (rw later refl)

-- What the login server is sent of a map server.
abbrev pub told : IscServerRegister → Conn → IscSent
told p c = isc_server_register (record {
  server_type = 3;
  name = p.name;
  addr = p.addr;
  port = p.port % 2 ^ 16;
  right = p.right;
  id = c.id;
})

send_first-told :
    (packet : IscSent) (before after : List Conn) (c last : Conn)
    → AreMaps before
    → AreMaps after
    → c.type_ ≡ 3
    → last.type_ ≡ 0
    → send_first login packet (before ++ c ∷ (after ++ last ∷ []))
      ≡ (true, before ++ c ∷ (after ++ send packet last ∷ []))
unfolding send_first server_type_code
send_first-told packet before after c last maps maps' other is_login =
    let found : has_type login last ≡ true = ground (arith, is_login) in
    let passed : has_type login c ≡ false = ground (arith, other) in
    let here : send_first login packet (last ∷ []) ≡ (true, send packet last ∷ []) =
      rw found refl in
    let later : send_first login packet (after ++ last ∷ [])
        ≡ (true, after ++ send packet last ∷ []) =
      send_first-AreMaps packet after (last ∷ []) maps'
      ∙ ap (λ (r : Bool × List Conn). (r.0, after ++ r.1)) here in
    let from : send_first login packet (c ∷ (after ++ last ∷ []))
        ≡ (true, c ∷ (after ++ send packet last ∷ [])) =
      rw passed (rw later refl) in
    send_first-AreMaps packet before (c ∷ (after ++ last ∷ [])) maps
    ∙ ap (λ (r : Bool × List Conn). (r.0, before ++ r.1)) from

abbrev served : ℕ → List Conn → CharIscServer
served n conns = record { server_count = n; isc_list = conns }

server_register-told :
    (type i n : ℕ) (p : IscServerRegister) (conns : List Conn) (c : Conn)
    → p.server_type ≡ 3
    → get_elem? (change i (registered p) conns) i ≡ some c
    → server_register type i p (record { server_count = n; isc_list = conns })
      ≡ some (
          pass_on
            (passed_on type p c)
            (record { server_count = n; isc_list = change i (registered p) conns }))
unfolding server_register server_type_code
server_register-told type i n p conns c is_map found = ground (arith, is_map, found)

passed_on-told :
    (type : ℕ) (p : IscServerRegister) (c : Conn)
    → p.server_type ≡ 3
    → isc_server_register (passed_on type p (registered p c)) ≡ told p c
unfolding server_type_code
passed_on-told type p c is_map = rw is_map refl

handle_packet-told :
    (before after : List Conn) (c last : Conn) (type n : ℕ) (p : IscServerRegister)
    → AreMaps before
    → AreMaps after
    → p.server_type ≡ 3
    → last.type_ ≡ 0
    → handle_packet type
        (length before)
        0x303
        p
        (record { server_count = n; isc_list = before ++ c ∷ (after ++ last ∷ []) })
      ≡ some (
        true,
        record {
          server_count = n;
          isc_list = before ++ registered p c ∷ (after ++ send (told p c) last ∷ []);
        },
      )
unfolding handle_packet server_type_code
handle_packet-told before after c last type n p maps maps' is_map is_login =
    let rest : List Conn = after ++ last ∷ [] in
    let changed : change (length before) (registered p) (before ++ c ∷ rest)
        ≡ before ++ registered p c ∷ rest =
      change-at (registered p) before c rest in
    let found : get_elem? (change (length before) (registered p) (before ++ c ∷ rest))
          (length before)
        ≡ some (registered p c) =
      ap (λ (conns : List Conn). get_elem? conns (length before)) changed
      ∙ get_elem?-at before (registered p c) rest in
    server_register-told type (length before) n p (before ++ c ∷ rest) (registered p c) is_map found
    ∙ ap
        (λ (conns : List Conn). some (
          pass_on (passed_on type p (registered p c))
            (record { server_count = n; isc_list = conns })))
        changed
    ∙ ap (λ (r : Bool × List Conn). some (r.0, served n r.1))
        (ap (λ (packet : IscSent). send_first login packet (before ++ registered p c ∷ rest))
            (passed_on-told type p c is_map)
          ∙ send_first-told (told p c) before after (registered p c) last maps maps' refl is_login)

-- In every state that the runs reach, where an accepted connection registers as a map server and every other
-- accepted connection is a map server's that has registered: HandlePacket answers true, the connection gets the
-- type, the address and the port, and the login server is sent the name, the address, the port, the right and the
-- number of the connection; no other connection changes.
pub Reaches-told :
    (config : Config) (link : Conn) (s : CharIscServer) (before after : List Conn) (c last : Conn)
    (type : ℕ) (p : IscServerRegister)
    → link.active ≡ true
    → Reaches config link s
    → s.isc_list ≡ before ++ c ∷ (after ++ last ∷ [])
    → AreMaps before
    → AreMaps after
    → p.server_type ≡ 3
    → handle_packet type (length before) 0x303 p s
      ≡ some (
        true,
        record s {
          isc_list =
              before
              ++ record c { address = p.addr; port = p.port % 2 ^ 16; type_ = 3 }
                ∷ (after ++ send (told p c) last ∷ []);
        },
      )
unfolding handle_packet server_type_code
Reaches-told config link s before after c last type p v r e maps maps' is_map =
    let ends : has_type login last && last.active ≡ true =
      sym (linked-append (c ∷ after) last)
      ∙ sym (linked-behind before (c ∷ (after ++ last ∷ [])) refl)
      ∙ ap linked (sym e)
      ∙ Reaches-linked config link s v r in
    let is_login : last.type_ ≡ 0 = ground (arith, ends) in
    ap
      (λ (conns : List Conn).
        handle_packet type (length before) 0x303 p (record s { isc_list = conns }))
      e
    ∙ handle_packet-told before after c last type s.server_count p maps maps' is_map is_login
