-- ===== src/Isc/Char/Link.antt =====
-- What the login server comes to know of the map servers. src/char/src/main.cpp puts the connection to the login
-- server into the list of CCharServer::GetISCList, which is the list of the ISC server for both of the servers, before
-- anything is accepted; CCharServer::OnAccepted puts each accepted connection in front.
use os_irose_new.Common.{
  ℕ, zero, suc, ◌%◌, ◌^◌, ◌≡◌, ◌<◌, refl, ap, sym, ◌∙◌, Bool, true, false, ◌&&◌, List, [], ◌∷◌,
  ◌++◌, some, get_elem?, ◌==◌, if◌then◌else◌, length, arith,
}
use os_irose_new.Common.{Option-cases, Bool-cases, inl, inr}
use os_irose_new.Login.Database.{select}
use os_irose_new.Messages.Isc.{IscServerRegister}
use os_irose_new.Isc.{
  Conn, IscSent, isc_server_register, isc_shutdown, ServerType, login, server_type_code, Config,
  has_type, ping, change, send_first, send_all,
}
use os_irose_new.Isc.Char.{
  CharIscServer, on_accepted, registered, passed_on, pass_on, server_register, handle_packet,
  on_connected, on_shutdown,
}

abbrev pub is_empty : List Conn → Bool
is_empty [] = true
is_empty (c ∷ conns) = false

-- The last connection is the one to the login server, and is active.
unfoldable pub linked : List Conn → Bool
linked [] = false
linked (c ∷ conns) =
    let later = linked conns in if is_empty conns then has_type login c && c.active else later

-- active_ = false of the connection at a place, where shutdown closes it.
abbrev pub close : Conn → Conn
close c = record c { active = false }

abbrev pub after_shutdown : ℕ → Bool × CharIscServer → CharIscServer
after_shutdown i (ok, s) = if ok then record s { isc_list = change i close s.isc_list } else s

-- The runs of the ISC server while the connection to the login server holds: connections are accepted, the accepted
-- ones, which stand before the last, receive packets of any type and are shut down, those that are not active are
-- dropped, and the connection to the login server pings or is connected again.
pub data Reaches (config : Config) (link : Conn) : CharIscServer → Type 0 where
  start :
      Reaches config link (record { server_count = 0; isc_list = on_connected config link ∷ [] })
  accepts :
      (now : ℕ) (address : List ℕ) (port : ℕ) (s : CharIscServer)
      → Reaches config link s
      → Reaches config link (on_accepted now address port s)
  receives :
      (type i packet_type : ℕ) (p : IscServerRegister) (b : Bool) (s s' : CharIscServer)
      → Reaches config link s
      → suc i < length s.isc_list
      → handle_packet type i packet_type p s ≡ some (b, s')
      → Reaches config link s'
  shuts_down :
      (reconnects : Bool) (i : ℕ) (s : CharIscServer) (r : Bool × CharIscServer)
      → Reaches config link s
      → suc i < length s.isc_list
      → on_shutdown reconnects i s ≡ some r
      → Reaches config link (after_shutdown i r)
  drops :
      (s : CharIscServer)
      → Reaches config link s
      → Reaches config link (record s { isc_list = select (λ (c : Conn). c.active) s.isc_list })
  pings :
      (now : ℕ) (conns : List Conn) (c : Conn) (s : CharIscServer)
      → Reaches config link s
      → s.isc_list ≡ conns ++ c ∷ []
      → Reaches config link (record s { isc_list = conns ++ (ping login now c).1 ∷ [] })
  links_again :
      (conns : List Conn) (c : Conn) (s : CharIscServer)
      → Reaches config link s
      → s.isc_list ≡ conns ++ c ∷ []
      → Reaches config link (record s { isc_list = conns ++ on_connected config c ∷ [] })

pub linked-append :
    (conns : List Conn) (c : Conn) → linked (conns ++ c ∷ []) ≡ has_type login c && c.active
unfolding linked
linked-append [] c = refl
linked-append (d ∷ []) c = refl
linked-append (d ∷ e ∷ conns) c = linked-append (e ∷ conns) c

pub linked-behind : (xs ys : List Conn) → is_empty ys ≡ false → linked (xs ++ ys) ≡ linked ys
unfolding linked
linked-behind [] ys h = refl
linked-behind (d ∷ []) ys h = rw h refl
linked-behind (d ∷ e ∷ xs) ys h = linked-behind (e ∷ xs) ys h

linked-send_first :
    (t : ServerType) (packet : IscSent) (conns : List Conn)
    → (linked (send_first t packet conns).1 ≡ linked conns)
      × (is_empty (send_first t packet conns).1 ≡ is_empty conns)
unfolding linked send_first
linked-send_first t packet [] = (refl, refl)
linked-send_first t packet (c ∷ conns) =
    let (later, empty) = linked-send_first t packet conns in
    elim (Bool-cases (has_type t c)) [
      | inl e ↦ rw e (refl, refl)
      | inr e ↦ rw e (rw (later, empty) (refl, refl))
    ]

linked-send_all :
    (t : ServerType) (packet : IscSent) (conns : List Conn)
    → (linked (send_all t packet conns) ≡ linked conns)
      × (is_empty (send_all t packet conns) ≡ is_empty conns)
unfolding linked send_all
linked-send_all t packet [] = (refl, refl)
linked-send_all t packet (c ∷ conns) =
    let (later, empty) = linked-send_all t packet conns in
    elim (Bool-cases (has_type t c)) [
      | inl e ↦ rw e (rw (later, empty) (refl, refl))
      | inr e ↦ rw e (rw (later, empty) (refl, refl))
    ]

length-send_all :
    (t : ServerType) (packet : IscSent) (conns : List Conn)
    → length (send_all t packet conns) ≡ length conns
unfolding send_all
length-send_all t packet [] = refl
length-send_all t packet (c ∷ conns) = ground (arith, length-send_all t packet conns)

linked-change :
    (i : ℕ) (f : Conn → Conn) (conns : List Conn)
    → suc i < length conns
    → linked (change i f conns) ≡ linked conns
unfolding linked change
linked-change i f [] h = absurd (omega arith)
linked-change i f (c ∷ []) h = absurd (omega arith)
linked-change zero f (c ∷ d ∷ conns) h = refl
linked-change (suc zero) f (c ∷ d ∷ conns) h = linked-change zero f (d ∷ conns) (omega (arith, h))
linked-change (suc (suc i)) f (c ∷ d ∷ conns) h =
    linked-change (suc i) f (d ∷ conns) (omega (arith, h))

linked-select :
    (conns : List Conn)
    → linked conns ≡ true
    → (linked (select (λ (c : Conn). c.active) conns) ≡ true)
      × (is_empty (select (λ (c : Conn). c.active) conns) ≡ false)
unfolding linked select
linked-select [] h = absurd (ground (arith, h))
linked-select (c ∷ []) h = ground (arith, h)
linked-select (c ∷ d ∷ conns) h =
    let (later, some_left) = linked-select (d ∷ conns) h in
    elim (Bool-cases c.active) [
      | inl e ↦ rw e (rw some_left (later, refl))
      | inr e ↦ rw e (later, some_left)
    ]

linked-cons : (c : Conn) (conns : List Conn) → linked conns ≡ true → linked (c ∷ conns) ≡ true
unfolding linked
linked-cons c [] h = absurd (ground (arith, h))
linked-cons c (d ∷ conns) h = h

linked-pass_on :
    (packet : IscServerRegister) (s : CharIscServer)
    → linked (pass_on packet s).1.isc_list ≡ linked s.isc_list
linked-pass_on packet s = (linked-send_first login (isc_server_register packet) s.isc_list).0

linked-server_register :
    (type i : ℕ) (p : IscServerRegister) (s : CharIscServer) (r : Bool × CharIscServer)
    → suc i < length s.isc_list
    → server_register type i p s ≡ some r
    → linked r.1.isc_list ≡ linked s.isc_list
unfolding server_register server_type_code
linked-server_register type i p s r h e =
    let s' : CharIscServer =
      if p.server_type == 2
      then s
      else if p.server_type == 3
      then record s { isc_list = change i (registered p) s.isc_list }
      else s in
    let same : linked s'.isc_list ≡ linked s.isc_list =
      ground (arith, linked-change i (registered p) s.isc_list h) in
    elim (Option-cases (get_elem? s'.isc_list i)) [
      | inl missing ↦ absurd (ground (arith, missing, e))
      | inr (c, found) ↦
          let given : some (pass_on (passed_on type p c) s') ≡ some r =
            rw (server_register, found) at e in
          ground (arith, given, linked-pass_on (passed_on type p c) s', same)
    ]

linked-handle_packet :
    (type i packet_type : ℕ) (p : IscServerRegister) (s : CharIscServer) (r : Bool × CharIscServer)
    → suc i < length s.isc_list
    → handle_packet type i packet_type p s ≡ some r
    → linked r.1.isc_list ≡ linked s.isc_list
unfolding handle_packet
linked-handle_packet type i packet_type p s r h e = elim (Bool-cases (packet_type == 0x303)) [
  | inl e' ↦ linked-server_register type i p s r h (ground (arith, e', e))
  | inr e' ↦ ground (arith, e', e)
]

linked-on_shutdown :
    (reconnects : Bool) (i : ℕ) (s : CharIscServer) (r : Bool × CharIscServer)
    → suc i < length s.isc_list
    → on_shutdown reconnects i s ≡ some r
    → (linked r.1.isc_list ≡ linked s.isc_list) × (length r.1.isc_list ≡ length s.isc_list)
unfolding on_shutdown
linked-on_shutdown reconnects i s r h e = elim (Option-cases (get_elem? s.isc_list i)) [
  | inl missing ↦ absurd (ground (arith, missing, e))
  | inr (c, found) ↦
      let packet : IscSent = isc_shutdown (record { server_type = c.type_ % 2 ^ 8; id = c.id }) in
      let told = (linked-send_all login packet s.isc_list).0 in
      let same = length-send_all login packet s.isc_list in ground (arith, found, told, same, e)
]

linked-after_shutdown :
    (i : ℕ) (r : Bool × CharIscServer)
    → suc i < length r.1.isc_list
    → linked (after_shutdown i r).isc_list ≡ linked r.1.isc_list
linked-after_shutdown i (true, s) h = linked-change i close s.isc_list h
linked-after_shutdown i (false, s) h = refl

linked-ping :
    (now : ℕ) (c : Conn)
    → has_type login (ping login now c).1 && (ping login now c).1.active
      ≡ has_type login c && c.active
unfolding ping
linked-ping now c = ground arith

linked-on_connected :
    (config : Config) (c : Conn)
    → has_type login (on_connected config c) && (on_connected config c).active ≡ c.active
unfolding on_connected server_type_code
linked-on_connected config c = refl

pub Reaches-linked :
    (config : Config) (link : Conn) (s : CharIscServer)
    → link.active ≡ true
    → Reaches config link s
    → linked s.isc_list ≡ true
unfolding linked on_accepted
Reaches-linked config link s v start = linked-on_connected config link ∙ v
Reaches-linked config link s v (accepts now address port t r) =
    linked-cons
      (record {
        id = t.server_count;
        type_ = 0;
        address = address;
        port = port;
        active = true;
        update_time = now;
        sent = [];
      })
      t.isc_list (Reaches-linked config link t v r)
Reaches-linked config link s v (receives type i packet_type p b t t' r h e) =
    linked-handle_packet type i packet_type p t (b, t') h e ∙ Reaches-linked config link t v r
Reaches-linked config link s v (shuts_down reconnects i t r reached h e) =
    let (same, long) = linked-on_shutdown reconnects i t r h e in
    linked-after_shutdown i r (omega (arith, h, long))
    ∙ same
    ∙ Reaches-linked config link t v reached
Reaches-linked config link s v (drops t r) =
    (linked-select t.isc_list (Reaches-linked config link t v r)).0
Reaches-linked config link s v (pings now conns c t r e) =
    linked-append conns (ping login now c).1
    ∙ linked-ping now c
    ∙ sym (linked-append conns c)
    ∙ ap linked (sym e)
    ∙ Reaches-linked config link t v r
Reaches-linked config link s v (links_again conns c t r e) =
    let before : has_type login c && c.active ≡ true =
      sym (linked-append conns c) ∙ ap linked (sym e) ∙ Reaches-linked config link t v r in
    linked-append conns (on_connected config c)
    ∙ linked-on_connected config c
    ∙ ground (arith, before)
