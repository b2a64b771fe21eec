-- ===== src/Packet/Types/Numbers.antt =====
-- Which enumerators share a number.
use os_irose_new.Common.{
  ℕ, ◌≡◌, ◌↔◌, refl, ap, sym, ◌∙◌, Bool, true, false, List, [], ◌∷◌, Option, none, some, ◌==◌,
  if◌then◌else◌,
}
use os_irose_new.Packet.Types.{
  EPacketType, code, iscstart, isc_alive, isc_server_auth, isc_server_register, isc_transfer,
  isc_shutdown, iscend, pakstart, pakcs_alive, pakss_error, pakss_announce_text,
  paksw_announce_chat, pakcs_accept_req, pakcs_channel_list_req, paklc_channel_list_reply,
  pakcs_logout_req, pakwc_logout_reply, pakcs_login_req, paklc_login_reply, pakgc_login_reply,
  pakcs_srv_select_req, paklc_srv_select_reply, pakcs_join_server_req, paksc_join_server_reply,
  pakwc_gm_command, pakwc_global_vars, pakwc_global_flags, pakcc_switch_server, pakcs_char_list_req,
  pakcc_char_list_reply, pakcs_create_char_req, pakcc_create_char_reply, pakcs_delete_char_req,
  pakcc_delete_char_reply, pakcs_select_char_req, pakwc_select_char_reply, pakwc_inventory_data,
  pakwc_setmoney, pakwc_set_item, pakwc_server_data, pakwc_quest_data, pakcs_change_char_req,
  pakcc_chan_char_reply, pakwc_set_money, pakwc_quest_reward_money, pakwc_quest_reward_item,
  pakwc_quest_reward_add_stat, pakwc_quest_reward_set_stat, pakcs_cancel_logout, pakwc_quest_update,
  pakwc_wish_list, pakcs_quest_data_req, pakwc_quest_data_reply, pakwc_npc_event,
  pakwc_gm_command_code, pakcs_change_map_req, pakwc_change_map_reply, pakwc_init_data,
  pakcs_revive_req, pakwc_revive_reply, pakwc_set_revive_pos_reply, pakcs_set_server_var_req,
  pakwc_set_server_var_reply, pakcs_char_info_req, pakwc_char_info_reply, pakcs_set_weight_req,
  pakwc_set_weight_reply, pakwc_adjust_position, pakcs_stop_moving, pakwc_stop_moving,
  pakcs_update_npc, pakcs_summon_cmd, pakwc_summon_cmd, pakcs_set_animation, pacwc_set_animation,
  pakcs_toggle, pakwc_toggle, pakcs_normal_chat, pakwc_normal_chat, pakcs_whisper_chat,
  pakwc_whisper_chat, pakcs_shout_chat, pakwc_shout_chat, pakcs_party_chat, pakwc_party_chat,
  pakcs_clan_chat, pakwc_clan_chat, pakcs_allied_chat, pakwc_allied_chat, pakcs_allied_shout_chat,
  pakwc_allied_shout_chat, pakwc_event_status, pakwc_npc_char, pakwc_mob_char, pakwc_player_char,
  pakwc_remove_object, pakcs_set_position, pakcs_stop, pakwc_stop, pakwc_move, pakcs_mouse_cmd,
  pakwc_mouse_cmd, pakcs_use_item, pakwc_use_item_reply, pakcs_drop_item, pakcs_equip_item,
  pakwc_equip_item, pakwc_drop_item, pakcs_fielditem_req, pakwc_fielditem_reply, pakcs_teleport_req,
  pakwc_teleport_reply, pakcs_set_hotbar_icon_req, pakwc_set_hotbar_icon_reply,
  pakcs_storage_list_req, pakwc_storage_list_reply, pakcs_move_item_req, pakwc_move_item_reply,
  pakwc_learn_skill, pakcs_level_skill_req, pakwc_level_skill_reply, pakcs_party_req,
  pakwc_party_req, pakcs_party_reply, pakwc_party_reply, pakwc_party_member, pakwc_party_item,
  pakwc_party_lvlxp, pakcs_party_rule, pakwc_party_rule, pakwc_billing_message,
  pakcs_screen_shot_time_req, paksc_screen_shot_time_reply, pakss_accept_reply, epacketmax, stress,
}

-- The first enumerator with the number.
abbrev pub named_first : EPacketType → EPacketType
named_first pakcs_alive = pakstart
named_first pakss_error = pakstart
named_first paklc_channel_list_reply = pakcs_channel_list_req
named_first pakwc_logout_reply = pakcs_logout_req
named_first paklc_login_reply = pakcs_login_req
named_first paklc_srv_select_reply = pakcs_srv_select_req
named_first pakcc_char_list_reply = pakcs_char_list_req
named_first pakcc_create_char_reply = pakcs_create_char_req
named_first pakcc_delete_char_reply = pakcs_delete_char_req
named_first pakwc_select_char_reply = pakcs_select_char_req
named_first pakcc_chan_char_reply = pakcs_change_char_req
named_first pakwc_quest_data_reply = pakcs_quest_data_req
named_first pakwc_change_map_reply = pakcs_change_map_req
named_first pakwc_revive_reply = pakcs_revive_req
named_first pakwc_set_server_var_reply = pakcs_set_server_var_req
named_first pakwc_char_info_reply = pakcs_char_info_req
named_first pakwc_set_weight_reply = pakcs_set_weight_req
named_first pakwc_stop_moving = pakcs_stop_moving
named_first pakwc_summon_cmd = pakcs_summon_cmd
named_first pacwc_set_animation = pakcs_set_animation
named_first pakwc_toggle = pakcs_toggle
named_first pakwc_normal_chat = pakcs_normal_chat
named_first pakwc_whisper_chat = pakcs_whisper_chat
named_first pakwc_shout_chat = pakcs_shout_chat
named_first pakwc_party_chat = pakcs_party_chat
named_first pakwc_clan_chat = pakcs_clan_chat
named_first pakwc_allied_chat = pakcs_allied_chat
named_first pakwc_allied_shout_chat = pakcs_allied_shout_chat
named_first pakwc_stop = pakcs_stop
named_first pakwc_mouse_cmd = pakcs_mouse_cmd
named_first pakwc_use_item_reply = pakcs_use_item
named_first pakwc_equip_item = pakcs_equip_item
named_first pakwc_fielditem_reply = pakcs_fielditem_req
named_first pakwc_teleport_reply = pakcs_teleport_req
named_first pakwc_set_hotbar_icon_reply = pakcs_set_hotbar_icon_req
named_first pakwc_storage_list_reply = pakcs_storage_list_req
named_first pakwc_move_item_reply = pakcs_move_item_req
named_first pakwc_level_skill_reply = pakcs_level_skill_req
named_first pakwc_party_req = pakcs_party_req
named_first pakwc_party_reply = pakcs_party_reply
named_first pakwc_party_rule = pakcs_party_rule
named_first paksc_screen_shot_time_reply = pakcs_screen_shot_time_req
named_first t = t

-- The enumerators of packets that a client sends: their names begin with PAKCS.
unfoldable pub is_from_client : EPacketType → Bool
is_from_client pakcs_alive = true
is_from_client pakcs_accept_req = true
is_from_client pakcs_channel_list_req = true
is_from_client pakcs_logout_req = true
is_from_client pakcs_login_req = true
is_from_client pakcs_srv_select_req = true
is_from_client pakcs_join_server_req = true
is_from_client pakcs_char_list_req = true
is_from_client pakcs_create_char_req = true
is_from_client pakcs_delete_char_req = true
is_from_client pakcs_select_char_req = true
is_from_client pakcs_change_char_req = true
is_from_client pakcs_cancel_logout = true
is_from_client pakcs_quest_data_req = true
is_from_client pakcs_change_map_req = true
is_from_client pakcs_revive_req = true
is_from_client pakcs_set_server_var_req = true
is_from_client pakcs_char_info_req = true
is_from_client pakcs_set_weight_req = true
is_from_client pakcs_stop_moving = true
is_from_client pakcs_update_npc = true
is_from_client pakcs_summon_cmd = true
is_from_client pakcs_set_animation = true
is_from_client pakcs_toggle = true
is_from_client pakcs_normal_chat = true
is_from_client pakcs_whisper_chat = true
is_from_client pakcs_shout_chat = true
is_from_client pakcs_party_chat = true
is_from_client pakcs_clan_chat = true
is_from_client pakcs_allied_chat = true
is_from_client pakcs_allied_shout_chat = true
is_from_client pakcs_set_position = true
is_from_client pakcs_stop = true
is_from_client pakcs_mouse_cmd = true
is_from_client pakcs_use_item = true
is_from_client pakcs_drop_item = true
is_from_client pakcs_equip_item = true
is_from_client pakcs_fielditem_req = true
is_from_client pakcs_teleport_req = true
is_from_client pakcs_set_hotbar_icon_req = true
is_from_client pakcs_storage_list_req = true
is_from_client pakcs_move_item_req = true
is_from_client pakcs_level_skill_req = true
is_from_client pakcs_party_req = true
is_from_client pakcs_party_reply = true
is_from_client pakcs_party_rule = true
is_from_client pakcs_screen_shot_time_req = true
is_from_client t = false

-- Those that are the first with their number.
abbrev all : List EPacketType
all =
    iscstart ∷ isc_alive ∷ isc_server_auth ∷ isc_server_register ∷ isc_transfer ∷ isc_shutdown
    ∷ iscend ∷ pakstart ∷ pakss_announce_text ∷ paksw_announce_chat ∷ pakcs_accept_req
    ∷ pakcs_channel_list_req ∷ pakcs_logout_req ∷ pakcs_login_req ∷ pakgc_login_reply
    ∷ pakcs_srv_select_req ∷ pakcs_join_server_req ∷ paksc_join_server_reply ∷ pakwc_gm_command
    ∷ pakwc_global_vars ∷ pakwc_global_flags ∷ pakcc_switch_server ∷ pakcs_char_list_req
    ∷ pakcs_create_char_req ∷ pakcs_delete_char_req ∷ pakcs_select_char_req ∷ pakwc_inventory_data
    ∷ pakwc_setmoney ∷ pakwc_set_item ∷ pakwc_server_data ∷ pakwc_quest_data ∷ pakcs_change_char_req
    ∷ pakwc_set_money ∷ pakwc_quest_reward_money ∷ pakwc_quest_reward_item
    ∷ pakwc_quest_reward_add_stat ∷ pakwc_quest_reward_set_stat ∷ pakcs_cancel_logout
    ∷ pakwc_quest_update ∷ pakwc_wish_list ∷ pakcs_quest_data_req ∷ pakwc_npc_event
    ∷ pakwc_gm_command_code ∷ pakcs_change_map_req ∷ pakwc_init_data ∷ pakcs_revive_req
    ∷ pakwc_set_revive_pos_reply ∷ pakcs_set_server_var_req ∷ pakcs_char_info_req
    ∷ pakcs_set_weight_req ∷ pakwc_adjust_position ∷ pakcs_stop_moving ∷ pakcs_update_npc
    ∷ pakcs_summon_cmd ∷ pakcs_set_animation ∷ pakcs_toggle ∷ pakcs_normal_chat ∷ pakcs_whisper_chat
    ∷ pakcs_shout_chat ∷ pakcs_party_chat ∷ pakcs_clan_chat ∷ pakcs_allied_chat
    ∷ pakcs_allied_shout_chat ∷ pakwc_event_status ∷ pakwc_npc_char ∷ pakwc_mob_char
    ∷ pakwc_player_char ∷ pakwc_remove_object ∷ pakcs_set_position ∷ pakcs_stop ∷ pakwc_move
    ∷ pakcs_mouse_cmd ∷ pakcs_use_item ∷ pakcs_drop_item ∷ pakcs_equip_item ∷ pakwc_drop_item
    ∷ pakcs_fielditem_req ∷ pakcs_teleport_req ∷ pakcs_set_hotbar_icon_req ∷ pakcs_storage_list_req
    ∷ pakcs_move_item_req ∷ pakwc_learn_skill ∷ pakcs_level_skill_req ∷ pakcs_party_req
    ∷ pakcs_party_reply ∷ pakwc_party_member ∷ pakwc_party_item ∷ pakwc_party_lvlxp
    ∷ pakcs_party_rule ∷ pakwc_billing_message ∷ pakcs_screen_shot_time_req ∷ pakss_accept_reply
    ∷ epacketmax ∷ stress ∷ []

abbrev find : List EPacketType → ℕ → Option EPacketType
find [] n = none
find (t ∷ ts) n = let later = find ts n in if code t == n then some t else later

find-code : (t : EPacketType) → find all (code t) ≡ some (named_first t)
unfolding code
find-code iscstart = refl
find-code isc_alive = refl
find-code isc_server_auth = refl
find-code isc_server_register = refl
find-code isc_transfer = refl
find-code isc_shutdown = refl
find-code iscend = refl
find-code pakstart = refl
find-code pakcs_alive = refl
find-code pakss_error = refl
find-code pakss_announce_text = refl
find-code paksw_announce_chat = refl
find-code pakcs_accept_req = refl
find-code pakcs_channel_list_req = refl
find-code paklc_channel_list_reply = refl
find-code pakcs_logout_req = refl
find-code pakwc_logout_reply = refl
find-code pakcs_login_req = refl
find-code paklc_login_reply = refl
find-code pakgc_login_reply = refl
find-code pakcs_srv_select_req = refl
find-code paklc_srv_select_reply = refl
find-code pakcs_join_server_req = refl
find-code paksc_join_server_reply = refl
find-code pakwc_gm_command = refl
find-code pakwc_global_vars = refl
find-code pakwc_global_flags = refl
find-code pakcc_switch_server = refl
find-code pakcs_char_list_req = refl
find-code pakcc_char_list_reply = refl
find-code pakcs_create_char_req = refl
find-code pakcc_create_char_reply = refl
find-code pakcs_delete_char_req = refl
find-code pakcc_delete_char_reply = refl
find-code pakcs_select_char_req = refl
find-code pakwc_select_char_reply = refl
find-code pakwc_inventory_data = refl
find-code pakwc_setmoney = refl
find-code pakwc_set_item = refl
find-code pakwc_server_data = refl
find-code pakwc_quest_data = refl
find-code pakcs_change_char_req = refl
find-code pakcc_chan_char_reply = refl
find-code pakwc_set_money = refl
find-code pakwc_quest_reward_money = refl
find-code pakwc_quest_reward_item = refl
find-code pakwc_quest_reward_add_stat = refl
find-code pakwc_quest_reward_set_stat = refl
find-code pakcs_cancel_logout = refl
find-code pakwc_quest_update = refl
find-code pakwc_wish_list = refl
find-code pakcs_quest_data_req = refl
find-code pakwc_quest_data_reply = refl
find-code pakwc_npc_event = refl
find-code pakwc_gm_command_code = refl
find-code pakcs_change_map_req = refl
find-code pakwc_change_map_reply = refl
find-code pakwc_init_data = refl
find-code pakcs_revive_req = refl
find-code pakwc_revive_reply = refl
find-code pakwc_set_revive_pos_reply = refl
find-code pakcs_set_server_var_req = refl
find-code pakwc_set_server_var_reply = refl
find-code pakcs_char_info_req = refl
find-code pakwc_char_info_reply = refl
find-code pakcs_set_weight_req = refl
find-code pakwc_set_weight_reply = refl
find-code pakwc_adjust_position = refl
find-code pakcs_stop_moving = refl
find-code pakwc_stop_moving = refl
find-code pakcs_update_npc = refl
find-code pakcs_summon_cmd = refl
find-code pakwc_summon_cmd = refl
find-code pakcs_set_animation = refl
find-code pacwc_set_animation = refl
find-code pakcs_toggle = refl
find-code pakwc_toggle = refl
find-code pakcs_normal_chat = refl
find-code pakwc_normal_chat = refl
find-code pakcs_whisper_chat = refl
find-code pakwc_whisper_chat = refl
find-code pakcs_shout_chat = refl
find-code pakwc_shout_chat = refl
find-code pakcs_party_chat = refl
find-code pakwc_party_chat = refl
find-code pakcs_clan_chat = refl
find-code pakwc_clan_chat = refl
find-code pakcs_allied_chat = refl
find-code pakwc_allied_chat = refl
find-code pakcs_allied_shout_chat = refl
find-code pakwc_allied_shout_chat = refl
find-code pakwc_event_status = refl
find-code pakwc_npc_char = refl
find-code pakwc_mob_char = refl
find-code pakwc_player_char = refl
find-code pakwc_remove_object = refl
find-code pakcs_set_position = refl
find-code pakcs_stop = refl
find-code pakwc_stop = refl
find-code pakwc_move = refl
find-code pakcs_mouse_cmd = refl
find-code pakwc_mouse_cmd = refl
find-code pakcs_use_item = refl
find-code pakwc_use_item_reply = refl
find-code pakcs_drop_item = refl
find-code pakcs_equip_item = refl
find-code pakwc_equip_item = refl
find-code pakwc_drop_item = refl
find-code pakcs_fielditem_req = refl
find-code pakwc_fielditem_reply = refl
find-code pakcs_teleport_req = refl
find-code pakwc_teleport_reply = refl
find-code pakcs_set_hotbar_icon_req = refl
find-code pakwc_set_hotbar_icon_reply = refl
find-code pakcs_storage_list_req = refl
find-code pakwc_storage_list_reply = refl
find-code pakcs_move_item_req = refl
find-code pakwc_move_item_reply = refl
find-code pakwc_learn_skill = refl
find-code pakcs_level_skill_req = refl
find-code pakwc_level_skill_reply = refl
find-code pakcs_party_req = refl
find-code pakwc_party_req = refl
find-code pakcs_party_reply = refl
find-code pakwc_party_reply = refl
find-code pakwc_party_member = refl
find-code pakwc_party_item = refl
find-code pakwc_party_lvlxp = refl
find-code pakcs_party_rule = refl
find-code pakwc_party_rule = refl
find-code pakwc_billing_message = refl
find-code pakcs_screen_shot_time_req = refl
find-code paksc_screen_shot_time_reply = refl
find-code pakss_accept_reply = refl
find-code epacketmax = refl
find-code stress = refl

code-named_first : (t : EPacketType) → code (named_first t) ≡ code t
unfolding code
code-named_first iscstart = refl
code-named_first isc_alive = refl
code-named_first isc_server_auth = refl
code-named_first isc_server_register = refl
code-named_first isc_transfer = refl
code-named_first isc_shutdown = refl
code-named_first iscend = refl
code-named_first pakstart = refl
code-named_first pakcs_alive = refl
code-named_first pakss_error = refl
code-named_first pakss_announce_text = refl
code-named_first paksw_announce_chat = refl
code-named_first pakcs_accept_req = refl
code-named_first pakcs_channel_list_req = refl
code-named_first paklc_channel_list_reply = refl
code-named_first pakcs_logout_req = refl
code-named_first pakwc_logout_reply = refl
code-named_first pakcs_login_req = refl
code-named_first paklc_login_reply = refl
code-named_first pakgc_login_reply = refl
code-named_first pakcs_srv_select_req = refl
code-named_first paklc_srv_select_reply = refl
code-named_first pakcs_join_server_req = refl
code-named_first paksc_join_server_reply = refl
code-named_first pakwc_gm_command = refl
code-named_first pakwc_global_vars = refl
code-named_first pakwc_global_flags = refl
code-named_first pakcc_switch_server = refl
code-named_first pakcs_char_list_req = refl
code-named_first pakcc_char_list_reply = refl
code-named_first pakcs_create_char_req = refl
code-named_first pakcc_create_char_reply = refl
code-named_first pakcs_delete_char_req = refl
code-named_first pakcc_delete_char_reply = refl
code-named_first pakcs_select_char_req = refl
code-named_first pakwc_select_char_reply = refl
code-named_first pakwc_inventory_data = refl
code-named_first pakwc_setmoney = refl
code-named_first pakwc_set_item = refl
code-named_first pakwc_server_data = refl
code-named_first pakwc_quest_data = refl
code-named_first pakcs_change_char_req = refl
code-named_first pakcc_chan_char_reply = refl
code-named_first pakwc_set_money = refl
code-named_first pakwc_quest_reward_money = refl
code-named_first pakwc_quest_reward_item = refl
code-named_first pakwc_quest_reward_add_stat = refl
code-named_first pakwc_quest_reward_set_stat = refl
code-named_first pakcs_cancel_logout = refl
code-named_first pakwc_quest_update = refl
code-named_first pakwc_wish_list = refl
code-named_first pakcs_quest_data_req = refl
code-named_first pakwc_quest_data_reply = refl
code-named_first pakwc_npc_event = refl
code-named_first pakwc_gm_command_code = refl
code-named_first pakcs_change_map_req = refl
code-named_first pakwc_change_map_reply = refl
code-named_first pakwc_init_data = refl
code-named_first pakcs_revive_req = refl
code-named_first pakwc_revive_reply = refl
code-named_first pakwc_set_revive_pos_reply = refl
code-named_first pakcs_set_server_var_req = refl
code-named_first pakwc_set_server_var_reply = refl
code-named_first pakcs_char_info_req = refl
code-named_first pakwc_char_info_reply = refl
code-named_first pakcs_set_weight_req = refl
code-named_first pakwc_set_weight_reply = refl
code-named_first pakwc_adjust_position = refl
code-named_first pakcs_stop_moving = refl
code-named_first pakwc_stop_moving = refl
code-named_first pakcs_update_npc = refl
code-named_first pakcs_summon_cmd = refl
code-named_first pakwc_summon_cmd = refl
code-named_first pakcs_set_animation = refl
code-named_first pacwc_set_animation = refl
code-named_first pakcs_toggle = refl
code-named_first pakwc_toggle = refl
code-named_first pakcs_normal_chat = refl
code-named_first pakwc_normal_chat = refl
code-named_first pakcs_whisper_chat = refl
code-named_first pakwc_whisper_chat = refl
code-named_first pakcs_shout_chat = refl
code-named_first pakwc_shout_chat = refl
code-named_first pakcs_party_chat = refl
code-named_first pakwc_party_chat = refl
code-named_first pakcs_clan_chat = refl
code-named_first pakwc_clan_chat = refl
code-named_first pakcs_allied_chat = refl
code-named_first pakwc_allied_chat = refl
code-named_first pakcs_allied_shout_chat = refl
code-named_first pakwc_allied_shout_chat = refl
code-named_first pakwc_event_status = refl
code-named_first pakwc_npc_char = refl
code-named_first pakwc_mob_char = refl
code-named_first pakwc_player_char = refl
code-named_first pakwc_remove_object = refl
code-named_first pakcs_set_position = refl
code-named_first pakcs_stop = refl
code-named_first pakwc_stop = refl
code-named_first pakwc_move = refl
code-named_first pakcs_mouse_cmd = refl
code-named_first pakwc_mouse_cmd = refl
code-named_first pakcs_use_item = refl
code-named_first pakwc_use_item_reply = refl
code-named_first pakcs_drop_item = refl
code-named_first pakcs_equip_item = refl
code-named_first pakwc_equip_item = refl
code-named_first pakwc_drop_item = refl
code-named_first pakcs_fielditem_req = refl
code-named_first pakwc_fielditem_reply = refl
code-named_first pakcs_teleport_req = refl
code-named_first pakwc_teleport_reply = refl
code-named_first pakcs_set_hotbar_icon_req = refl
code-named_first pakwc_set_hotbar_icon_reply = refl
code-named_first pakcs_storage_list_req = refl
code-named_first pakwc_storage_list_reply = refl
code-named_first pakcs_move_item_req = refl
code-named_first pakwc_move_item_reply = refl
code-named_first pakwc_learn_skill = refl
code-named_first pakcs_level_skill_req = refl
code-named_first pakwc_level_skill_reply = refl
code-named_first pakcs_party_req = refl
code-named_first pakwc_party_req = refl
code-named_first pakcs_party_reply = refl
code-named_first pakwc_party_reply = refl
code-named_first pakwc_party_member = refl
code-named_first pakwc_party_item = refl
code-named_first pakwc_party_lvlxp = refl
code-named_first pakcs_party_rule = refl
code-named_first pakwc_party_rule = refl
code-named_first pakwc_billing_message = refl
code-named_first pakcs_screen_shot_time_req = refl
code-named_first paksc_screen_shot_time_reply = refl
code-named_first pakss_accept_reply = refl
code-named_first epacketmax = refl
code-named_first stress = refl

-- The enumerator of a client's packet with the number.
abbrev sent_as : EPacketType → EPacketType
sent_as pakstart = pakcs_alive
sent_as t = t

sent_as-named_first :
    (t : EPacketType) → (if is_from_client t then sent_as (named_first t) else t) ≡ t
unfolding is_from_client
sent_as-named_first iscstart = refl
sent_as-named_first isc_alive = refl
sent_as-named_first isc_server_auth = refl
sent_as-named_first isc_server_register = refl
sent_as-named_first isc_transfer = refl
sent_as-named_first isc_shutdown = refl
sent_as-named_first iscend = refl
sent_as-named_first pakstart = refl
sent_as-named_first pakcs_alive = refl
sent_as-named_first pakss_error = refl
sent_as-named_first pakss_announce_text = refl
sent_as-named_first paksw_announce_chat = refl
sent_as-named_first pakcs_accept_req = refl
sent_as-named_first pakcs_channel_list_req = refl
sent_as-named_first paklc_channel_list_reply = refl
sent_as-named_first pakcs_logout_req = refl
sent_as-named_first pakwc_logout_reply = refl
sent_as-named_first pakcs_login_req = refl
sent_as-named_first paklc_login_reply = refl
sent_as-named_first pakgc_login_reply = refl
sent_as-named_first pakcs_srv_select_req = refl
sent_as-named_first paklc_srv_select_reply = refl
sent_as-named_first pakcs_join_server_req = refl
sent_as-named_first paksc_join_server_reply = refl
sent_as-named_first pakwc_gm_command = refl
sent_as-named_first pakwc_global_vars = refl
sent_as-named_first pakwc_global_flags = refl
sent_as-named_first pakcc_switch_server = refl
sent_as-named_first pakcs_char_list_req = refl
sent_as-named_first pakcc_char_list_reply = refl
sent_as-named_first pakcs_create_char_req = refl
sent_as-named_first pakcc_create_char_reply = refl
sent_as-named_first pakcs_delete_char_req = refl
sent_as-named_first pakcc_delete_char_reply = refl
sent_as-named_first pakcs_select_char_req = refl
sent_as-named_first pakwc_select_char_reply = refl
sent_as-named_first pakwc_inventory_data = refl
sent_as-named_first pakwc_setmoney = refl
sent_as-named_first pakwc_set_item = refl
sent_as-named_first pakwc_server_data = refl
sent_as-named_first pakwc_quest_data = refl
sent_as-named_first pakcs_change_char_req = refl
sent_as-named_first pakcc_chan_char_reply = refl
sent_as-named_first pakwc_set_money = refl
sent_as-named_first pakwc_quest_reward_money = refl
sent_as-named_first pakwc_quest_reward_item = refl
sent_as-named_first pakwc_quest_reward_add_stat = refl
sent_as-named_first pakwc_quest_reward_set_stat = refl
sent_as-named_first pakcs_cancel_logout = refl
sent_as-named_first pakwc_quest_update = refl
sent_as-named_first pakwc_wish_list = refl
sent_as-named_first pakcs_quest_data_req = refl
sent_as-named_first pakwc_quest_data_reply = refl
sent_as-named_first pakwc_npc_event = refl
sent_as-named_first pakwc_gm_command_code = refl
sent_as-named_first pakcs_change_map_req = refl
sent_as-named_first pakwc_change_map_reply = refl
sent_as-named_first pakwc_init_data = refl
sent_as-named_first pakcs_revive_req = refl
sent_as-named_first pakwc_revive_reply = refl
sent_as-named_first pakwc_set_revive_pos_reply = refl
sent_as-named_first pakcs_set_server_var_req = refl
sent_as-named_first pakwc_set_server_var_reply = refl
sent_as-named_first pakcs_char_info_req = refl
sent_as-named_first pakwc_char_info_reply = refl
sent_as-named_first pakcs_set_weight_req = refl
sent_as-named_first pakwc_set_weight_reply = refl
sent_as-named_first pakwc_adjust_position = refl
sent_as-named_first pakcs_stop_moving = refl
sent_as-named_first pakwc_stop_moving = refl
sent_as-named_first pakcs_update_npc = refl
sent_as-named_first pakcs_summon_cmd = refl
sent_as-named_first pakwc_summon_cmd = refl
sent_as-named_first pakcs_set_animation = refl
sent_as-named_first pacwc_set_animation = refl
sent_as-named_first pakcs_toggle = refl
sent_as-named_first pakwc_toggle = refl
sent_as-named_first pakcs_normal_chat = refl
sent_as-named_first pakwc_normal_chat = refl
sent_as-named_first pakcs_whisper_chat = refl
sent_as-named_first pakwc_whisper_chat = refl
sent_as-named_first pakcs_shout_chat = refl
sent_as-named_first pakwc_shout_chat = refl
sent_as-named_first pakcs_party_chat = refl
sent_as-named_first pakwc_party_chat = refl
sent_as-named_first pakcs_clan_chat = refl
sent_as-named_first pakwc_clan_chat = refl
sent_as-named_first pakcs_allied_chat = refl
sent_as-named_first pakwc_allied_chat = refl
sent_as-named_first pakcs_allied_shout_chat = refl
sent_as-named_first pakwc_allied_shout_chat = refl
sent_as-named_first pakwc_event_status = refl
sent_as-named_first pakwc_npc_char = refl
sent_as-named_first pakwc_mob_char = refl
sent_as-named_first pakwc_player_char = refl
sent_as-named_first pakwc_remove_object = refl
sent_as-named_first pakcs_set_position = refl
sent_as-named_first pakcs_stop = refl
sent_as-named_first pakwc_stop = refl
sent_as-named_first pakwc_move = refl
sent_as-named_first pakcs_mouse_cmd = refl
sent_as-named_first pakwc_mouse_cmd = refl
sent_as-named_first pakcs_use_item = refl
sent_as-named_first pakwc_use_item_reply = refl
sent_as-named_first pakcs_drop_item = refl
sent_as-named_first pakcs_equip_item = refl
sent_as-named_first pakwc_equip_item = refl
sent_as-named_first pakwc_drop_item = refl
sent_as-named_first pakcs_fielditem_req = refl
sent_as-named_first pakwc_fielditem_reply = refl
sent_as-named_first pakcs_teleport_req = refl
sent_as-named_first pakwc_teleport_reply = refl
sent_as-named_first pakcs_set_hotbar_icon_req = refl
sent_as-named_first pakwc_set_hotbar_icon_reply = refl
sent_as-named_first pakcs_storage_list_req = refl
sent_as-named_first pakwc_storage_list_reply = refl
sent_as-named_first pakcs_move_item_req = refl
sent_as-named_first pakwc_move_item_reply = refl
sent_as-named_first pakwc_learn_skill = refl
sent_as-named_first pakcs_level_skill_req = refl
sent_as-named_first pakwc_level_skill_reply = refl
sent_as-named_first pakcs_party_req = refl
sent_as-named_first pakwc_party_req = refl
sent_as-named_first pakcs_party_reply = refl
sent_as-named_first pakwc_party_reply = refl
sent_as-named_first pakwc_party_member = refl
sent_as-named_first pakwc_party_item = refl
sent_as-named_first pakwc_party_lvlxp = refl
sent_as-named_first pakcs_party_rule = refl
sent_as-named_first pakwc_party_rule = refl
sent_as-named_first pakwc_billing_message = refl
sent_as-named_first pakcs_screen_shot_time_req = refl
sent_as-named_first paksc_screen_shot_time_reply = refl
sent_as-named_first pakss_accept_reply = refl
sent_as-named_first epacketmax = refl
sent_as-named_first stress = refl

-- The numbers of two enumerators are equal just when the header sets them to one enumerator.
pub code-eq : (a b : EPacketType) → (code a ≡ code b) ↔ (named_first a ≡ named_first b)
code-eq a b = (
  λ (e : code a ≡ code b).
      ap (λ (o : Option EPacketType). elim o [ none ↦ named_first a | some t ↦ t ])
        (sym (find-code a) ∙ ap (find all) e ∙ find-code b),
  λ (e : named_first a ≡ named_first b). sym (code-named_first a) ∙ ap code e ∙ code-named_first b,
)

sent : (t : EPacketType) → is_from_client t ≡ true → sent_as (named_first t) ≡ t
sent t e = rw e at (sent_as-named_first t)

-- The enumerators of packets from a client have numbers of their own: no two of them share one, so the number that
-- arrives tells the server which packet it is.
pub code-is_from_client :
    (a b : EPacketType)
    → is_from_client a ≡ true
    → is_from_client b ≡ true
    → code a ≡ code b
    → a ≡ b
code-is_from_client a b f g e = sym (sent a f) ∙ ap sent_as ((code-eq a b).0 e) ∙ sent b g
