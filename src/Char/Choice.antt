-- ===== src/Char/Choice.antt =====
-- Which character a player gets who has seen the list, and when none is there to get.
use os_irose_new.Common.{
  ℕ, zero, suc, ◌%◌, ◌^◌, ◌<◌, ◌≡◌, refl, sym, subst, ap, true, false, List, [], ◌∷◌, none, some,
  ◌==◌, ◌&&◌, ◌++◌, ◌+◌, ◌∙◌, map, Bool-cases, inl, inr, length, get_elem?, arith,
}
use os_irose_new.Messages.Char.{CliSelectCharReq}
use mathlib.Core.List.{append-nil, append_assoc}
use os_irose_new.Messages.Reply.{srv_switch_server}
use os_irose_new.Login.Database.{select, update}
use os_irose_new.Login.Client.{logged_in, transfering}
use os_irose_new.Char.Tables.{Session, Character, CharDb, Procedures, update_session_with_character}
use os_irose_new.Char.Client.{
  CharClient, Sent, reply, Server, Env, ids_of, characters_of, send_char_list_reply,
}
use os_irose_new.Char.Select.{switch_servers, switch_to, select_real_id, send_char_select_reply}

-- The packet that sends a player to a map of a server.
abbrev pub switch_packet : ℕ → ℕ → Server → Sent
switch_packet session_id map_id s = reply (
    srv_switch_server (record {
      port = (s.port + map_id % 2 ^ 16) % 2 ^ 16;
      session_id = session_id;
      session_seed = 0;
      ip = s.address;
    }))

switch_servers_sent :
    (map_id : ℕ) (list : List Server) (c : CharClient)
    → switch_servers (map_id % 2 ^ 16) list c ≡ record c {
      sent =
          c.sent
          ++ map
              (switch_packet c.session_id map_id)
              (select (λ (s : Server). (s.type_ == 3) && (s.id == c.channel_id)) list);
    }
unfolding switch_servers select
switch_servers_sent map_id [] c =
    ap (λ (xs : List Sent). record c { sent = xs }) (sym (append-nil c.sent))
switch_servers_sent map_id (s ∷ list) c =
    elim (Bool-cases ((s.type_ == 3) && (s.id == c.channel_id))) [
      | inl e ↦ rw e (
          switch_servers_sent map_id list
            (record c { sent = c.sent ++ switch_packet c.session_id map_id s ∷ [] })
          ∙ ap (λ (xs : List Sent). record c { sent = xs })
              (append_assoc c.sent (switch_packet c.session_id map_id s ∷ []) (
                map (switch_packet c.session_id map_id)
                  (select (λ (s : Server). (s.type_ == 3) && (s.id == c.channel_id)) list))))
      | inr e ↦ rw e (switch_servers_sent map_id list c)
    ]

module _ (procedures : Procedures) (env : Env) where
  get_elem?-ids_of :
      (rows : List Character) (n : ℕ) (row : Character)
      → get_elem? rows n ≡ some row
      → (get_elem? (ids_of procedures env rows) n ≡ some row.id)
        × (n < length (ids_of procedures env rows))
  unfolding ids_of
  get_elem?-ids_of [] n row e = absurd (ground arith)
  get_elem?-ids_of (r ∷ rows) zero row e = (ground (arith, e), omega arith)
  get_elem?-ids_of (r ∷ rows) (suc n) row e =
      ((get_elem?-ids_of rows n row e).0, omega (arith, (get_elem?-ids_of rows n row e).1))

  get_elem?-past :
      (rows : List Character)
      → (get_elem? (ids_of procedures env rows) (length rows) ≡ none)
        × (length (ids_of procedures env rows) ≡ length rows)
  unfolding ids_of
  get_elem?-past [] = (refl, refl)
  get_elem?-past (row ∷ rows) = ((get_elem?-past rows).0, ap suc (get_elem?-past rows).1)

  -- What the list leaves a logged-in player with.
  abbrev listed : CharClient → CharDb → List Sent → CharClient
  listed c db sent = record c {
    login_state = logged_in;
    character_real_id = ids_of procedures env (characters_of procedures env c.user_id db);
    sent = sent;
  }

  send_char_list_reply-listed :
      (c c' : CharClient) (db : CharDb)
      → c.login_state ≡ logged_in
      → send_char_list_reply procedures env c db ≡ some c'
      → c' ≡ listed c db c'.sent
  unfolding send_char_list_reply
  send_char_list_reply-listed c c' db s e = ground (arith, s, e)

  send_char_select_reply-listed_sent :
      (p : CliSelectCharReq) (c : CharClient) (db : CharDb) (sent : List Sent) (row : Character)
      → get_elem? (characters_of procedures env c.user_id db) p.char_id ≡ some row
      → select (λ (r : Character). r.id == row.id) db.characters ≡ row ∷ []
      → env.fails_other ≡ false
      → send_char_select_reply procedures env p (listed c db sent) db
        ≡ some (
          true,
          switch_servers
              (row.map_id % 2 ^ 16)
              env.isc_list
              (record (listed c db sent) { login_state = transfering }),
          update_session_with_character c.session_id row.id db,
        )
  unfolding send_char_select_reply select_real_id switch_to update_session_with_character
  send_char_select_reply-listed_sent p c db sent row at one ok =
      let (same, within) =
        get_elem?-ids_of (characters_of procedures env c.user_id db) p.char_id row at in
      rw same (rw one (rw ok (ground (arith, within))))

  send_char_select_reply_past :
      (p : CliSelectCharReq) (c : CharClient) (db : CharDb) (sent : List Sent)
      → p.char_id ≡ length (characters_of procedures env c.user_id db)
      → send_char_select_reply procedures env p (listed c db sent) db ≡ none
  unfolding send_char_select_reply select_real_id
  send_char_select_reply_past p c db sent n =
      let (past, long) = get_elem?-past (characters_of procedures env c.user_id db) in
      rw n (rw past (ground (arith, long)))

  -- A player who has been sent the list of the characters, and then selects the one at a position in it, is in transfer
  -- and the session gets the character. What is sent, behind what was before, is one packet for each map server that
  -- has the player's channel, in the order of the servers: with its address, its port plus the map of the character,
  -- and the player's session. The database fails nothing, and the character's id is unique there.
  pub send_char_select_reply-listed :
      (p : CliSelectCharReq) (c c' : CharClient) (db : CharDb) (row : Character)
      → c.login_state ≡ logged_in
      → send_char_list_reply procedures env c db ≡ some c'
      → get_elem? (characters_of procedures env c.user_id db) p.char_id ≡ some row
      → select (λ (r : Character). r.id == row.id) db.characters ≡ row ∷ []
      → env.fails_other ≡ false
      → send_char_select_reply procedures env p c' db
        ≡ some (
          true,
          record c' {
            login_state = transfering;
            sent =
                c'.sent
                ++ map (switch_packet c.session_id row.map_id) (
                    select (λ (s : Server). (s.type_ == 3) && (s.id == c.channel_id)) env.isc_list);
          },
          record db {
            sessions =
                update
                  (λ (s : Session). s.id == c.session_id)
                  (λ (s : Session). record s { charid = row.id })
                  db.sessions;
          },
        )
  unfolding update_session_with_character
  send_char_select_reply-listed p c c' db row s e at one ok =
      subst
        (λ (q : CharClient).
          send_char_select_reply procedures env p q db
          ≡ some (
            true,
            record q {
              login_state = transfering;
              sent =
                  q.sent
                  ++ map (switch_packet c.session_id row.map_id) (
                      select (λ (s : Server). (s.type_ == 3) && (s.id == c.channel_id))
                        env.isc_list);
            },
            update_session_with_character c.session_id row.id db,
          ))
        (sym (send_char_list_reply-listed c c' db s e))
        (send_char_select_reply-listed_sent p c db c'.sent row at one ok
          ∙ ap
              (λ (q : CharClient).
                some (true, q, update_session_with_character c.session_id row.id db))
              (switch_servers_sent row.map_id env.isc_list
                (record (listed c db c'.sent) { login_state = transfering })))

  -- A player who has been sent the list of the characters, and then selects the position behind the last, makes the
  -- server read past the end of it.
  pub send_char_select_reply-overrun :
      (p : CliSelectCharReq) (c c' : CharClient) (db : CharDb)
      → c.login_state ≡ logged_in
      → send_char_list_reply procedures env c db ≡ some c'
      → p.char_id ≡ length (characters_of procedures env c.user_id db)
      → send_char_select_reply procedures env p c' db ≡ none
  send_char_select_reply-overrun p c c' db s e n =
      subst (λ (q : CharClient). send_char_select_reply procedures env p q db ≡ none)
        (sym (send_char_list_reply-listed c c' db s e))
        (send_char_select_reply_past p c db c'.sent n)
