-- ===== src/Packet/Types.antt =====
-- The numbers of the packet types (src/rosecommon/include/epackettype.h).
pub mod Numbers
use os_irose_new.Common.{ℕ}

pub data EPacketType : Type 0 where
  iscstart : EPacketType
  isc_alive : EPacketType
  isc_server_auth : EPacketType
  isc_server_register : EPacketType
  isc_transfer : EPacketType
  isc_shutdown : EPacketType
  iscend : EPacketType
  pakstart : EPacketType
  pakcs_alive : EPacketType
  pakss_error : EPacketType
  pakss_announce_text : EPacketType
  paksw_announce_chat : EPacketType
  pakcs_accept_req : EPacketType
  pakcs_channel_list_req : EPacketType
  paklc_channel_list_reply : EPacketType
  pakcs_logout_req : EPacketType
  pakwc_logout_reply : EPacketType
  pakcs_login_req : EPacketType
  paklc_login_reply : EPacketType
  pakgc_login_reply : EPacketType
  pakcs_srv_select_req : EPacketType
  paklc_srv_select_reply : EPacketType
  pakcs_join_server_req : EPacketType
  paksc_join_server_reply : EPacketType
  pakwc_gm_command : EPacketType
  pakwc_global_vars : EPacketType
  pakwc_global_flags : EPacketType
  pakcc_switch_server : EPacketType
  pakcs_char_list_req : EPacketType
  pakcc_char_list_reply : EPacketType
  pakcs_create_char_req : EPacketType
  pakcc_create_char_reply : EPacketType
  pakcs_delete_char_req : EPacketType
  pakcc_delete_char_reply : EPacketType
  pakcs_select_char_req : EPacketType
  pakwc_select_char_reply : EPacketType
  pakwc_inventory_data : EPacketType
  pakwc_setmoney : EPacketType
  pakwc_set_item : EPacketType
  pakwc_server_data : EPacketType
  pakwc_quest_data : EPacketType
  pakcs_change_char_req : EPacketType
  pakcc_chan_char_reply : EPacketType
  pakwc_set_money : EPacketType
  pakwc_quest_reward_money : EPacketType
  pakwc_quest_reward_item : EPacketType
  pakwc_quest_reward_add_stat : EPacketType
  pakwc_quest_reward_set_stat : EPacketType
  pakcs_cancel_logout : EPacketType
  pakwc_quest_update : EPacketType
  pakwc_wish_list : EPacketType
  pakcs_quest_data_req : EPacketType
  pakwc_quest_data_reply : EPacketType
  pakwc_npc_event : EPacketType
  pakwc_gm_command_code : EPacketType
  pakcs_change_map_req : EPacketType
  pakwc_change_map_reply : EPacketType
  pakwc_init_data : EPacketType
  pakcs_revive_req : EPacketType
  pakwc_revive_reply : EPacketType
  pakwc_set_revive_pos_reply : EPacketType
  pakcs_set_server_var_req : EPacketType
  pakwc_set_server_var_reply : EPacketType
  pakcs_char_info_req : EPacketType
  pakwc_char_info_reply : EPacketType
  pakcs_set_weight_req : EPacketType
  pakwc_set_weight_reply : EPacketType
  pakwc_adjust_position : EPacketType
  pakcs_stop_moving : EPacketType
  pakwc_stop_moving : EPacketType
  pakcs_update_npc : EPacketType
  pakcs_summon_cmd : EPacketType
  pakwc_summon_cmd : EPacketType
  pakcs_set_animation : EPacketType
  pacwc_set_animation : EPacketType
  pakcs_toggle : EPacketType
  pakwc_toggle : EPacketType
  pakcs_normal_chat : EPacketType
  pakwc_normal_chat : EPacketType
  pakcs_whisper_chat : EPacketType
  pakwc_whisper_chat : EPacketType
  pakcs_shout_chat : EPacketType
  pakwc_shout_chat : EPacketType
  pakcs_party_chat : EPacketType
  pakwc_party_chat : EPacketType
  pakcs_clan_chat : EPacketType
  pakwc_clan_chat : EPacketType
  pakcs_allied_chat : EPacketType
  pakwc_allied_chat : EPacketType
  pakcs_allied_shout_chat : EPacketType
  pakwc_allied_shout_chat : EPacketType
  pakwc_event_status : EPacketType
  pakwc_npc_char : EPacketType
  pakwc_mob_char : EPacketType
  pakwc_player_char : EPacketType
  pakwc_remove_object : EPacketType
  pakcs_set_position : EPacketType
  pakcs_stop : EPacketType
  pakwc_stop : EPacketType
  pakwc_move : EPacketType
  pakcs_mouse_cmd : EPacketType
  pakwc_mouse_cmd : EPacketType
  pakcs_use_item : EPacketType
  pakwc_use_item_reply : EPacketType
  pakcs_drop_item : EPacketType
  pakcs_equip_item : EPacketType
  pakwc_equip_item : EPacketType
  pakwc_drop_item : EPacketType
  pakcs_fielditem_req : EPacketType
  pakwc_fielditem_reply : EPacketType
  pakcs_teleport_req : EPacketType
  pakwc_teleport_reply : EPacketType
  pakcs_set_hotbar_icon_req : EPacketType
  pakwc_set_hotbar_icon_reply : EPacketType
  pakcs_storage_list_req : EPacketType
  pakwc_storage_list_reply : EPacketType
  pakcs_move_item_req : EPacketType
  pakwc_move_item_reply : EPacketType
  pakwc_learn_skill : EPacketType
  pakcs_level_skill_req : EPacketType
  pakwc_level_skill_reply : EPacketType
  pakcs_party_req : EPacketType
  pakwc_party_req : EPacketType
  pakcs_party_reply : EPacketType
  pakwc_party_reply : EPacketType
  pakwc_party_member : EPacketType
  pakwc_party_item : EPacketType
  pakwc_party_lvlxp : EPacketType
  pakcs_party_rule : EPacketType
  pakwc_party_rule : EPacketType
  pakwc_billing_message : EPacketType
  pakcs_screen_shot_time_req : EPacketType
  paksc_screen_shot_time_reply : EPacketType
  pakss_accept_reply : EPacketType
  epacketmax : EPacketType
  stress : EPacketType

-- The number of an enumerator: the one written, that of the one it is set to, or one more than the one before.
unfoldable pub code : EPacketType → ℕ
code iscstart = 0x300
code isc_alive = 0x301
code isc_server_auth = 0x302
code isc_server_register = 0x303
code isc_transfer = 0x304
code isc_shutdown = 0x305
code iscend = 0x306
code pakstart = 0x700
code pakcs_alive = 0x700
code pakss_error = 0x700
code pakss_announce_text = 0x701
code paksw_announce_chat = 0x702
code pakcs_accept_req = 0x703
code pakcs_channel_list_req = 0x704
code paklc_channel_list_reply = 0x704
code pakcs_logout_req = 0x707
code pakwc_logout_reply = 0x707
code pakcs_login_req = 0x708
code paklc_login_reply = 0x708
code pakgc_login_reply = 0x709
code pakcs_srv_select_req = 0x70a
code paklc_srv_select_reply = 0x70a
code pakcs_join_server_req = 0x70b
code paksc_join_server_reply = 0x70c
code pakwc_gm_command = 0x70d
code pakwc_global_vars = 0x70e
code pakwc_global_flags = 0x70f
code pakcc_switch_server = 0x711
code pakcs_char_list_req = 0x712
code pakcc_char_list_reply = 0x712
code pakcs_create_char_req = 0x713
code pakcc_create_char_reply = 0x713
code pakcs_delete_char_req = 0x714
code pakcc_delete_char_reply = 0x714
code pakcs_select_char_req = 0x715
code pakwc_select_char_reply = 0x715
code pakwc_inventory_data = 0x716
code pakwc_setmoney = 0x717
code pakwc_set_item = 0x718
code pakwc_server_data = 0x719
code pakwc_quest_data = 0x71b
code pakcs_change_char_req = 0x71c
code pakcc_chan_char_reply = 0x71c
code pakwc_set_money = 0x71d
code pakwc_quest_reward_money = 0x71e
code pakwc_quest_reward_item = 0x71f
code pakwc_quest_reward_add_stat = 0x720
code pakwc_quest_reward_set_stat = 0x721
code pakcs_cancel_logout = 0x722
code pakwc_quest_update = 0x723
code pakwc_wish_list = 0x724
code pakcs_quest_data_req = 0x730
code pakwc_quest_data_reply = 0x730
code pakwc_npc_event = 0x731
code pakwc_gm_command_code = 0x751
code pakcs_change_map_req = 0x753
code pakwc_change_map_reply = 0x753
code pakwc_init_data = 0x754
code pakcs_revive_req = 0x755
code pakwc_revive_reply = 0x755
code pakwc_set_revive_pos_reply = 0x756
code pakcs_set_server_var_req = 0x757
code pakwc_set_server_var_reply = 0x757
code pakcs_char_info_req = 0x758
code pakwc_char_info_reply = 0x758
code pakcs_set_weight_req = 0x759
code pakwc_set_weight_reply = 0x759
code pakwc_adjust_position = 0x770
code pakcs_stop_moving = 0x771
code pakwc_stop_moving = 0x771
code pakcs_update_npc = 0x774
code pakcs_summon_cmd = 0x775
code pakwc_summon_cmd = 0x775
code pakcs_set_animation = 0x781
code pacwc_set_animation = 0x781
code pakcs_toggle = 0x782
code pakwc_toggle = 0x782
code pakcs_normal_chat = 0x783
code pakwc_normal_chat = 0x783
code pakcs_whisper_chat = 0x784
code pakwc_whisper_chat = 0x784
code pakcs_shout_chat = 0x785
code pakwc_shout_chat = 0x785
code pakcs_party_chat = 0x786
code pakwc_party_chat = 0x786
code pakcs_clan_chat = 0x787
code pakwc_clan_chat = 0x787
code pakcs_allied_chat = 0x788
code pakwc_allied_chat = 0x788
code pakcs_allied_shout_chat = 0x789
code pakwc_allied_shout_chat = 0x789
code pakwc_event_status = 0x790
code pakwc_npc_char = 0x791
code pakwc_mob_char = 0x792
code pakwc_player_char = 0x793
code pakwc_remove_object = 0x794
code pakcs_set_position = 0x795
code pakcs_stop = 0x796
code pakwc_stop = 0x796
code pakwc_move = 0x797
code pakcs_mouse_cmd = 0x79a
code pakwc_mouse_cmd = 0x79a
code pakcs_use_item = 0x7a3
code pakwc_use_item_reply = 0x7a3
code pakcs_drop_item = 0x7a4
code pakcs_equip_item = 0x7a5
code pakwc_equip_item = 0x7a5
code pakwc_drop_item = 0x7a6
code pakcs_fielditem_req = 0x7a7
code pakwc_fielditem_reply = 0x7a7
code pakcs_teleport_req = 0x7a8
code pakwc_teleport_reply = 0x7a8
code pakcs_set_hotbar_icon_req = 0x7aa
code pakwc_set_hotbar_icon_reply = 0x7aa
code pakcs_storage_list_req = 0x7ad
code pakwc_storage_list_reply = 0x7ad
code pakcs_move_item_req = 0x7ae
code pakwc_move_item_reply = 0x7ae
code pakwc_learn_skill = 0x7b0
code pakcs_level_skill_req = 0x7b1
code pakwc_level_skill_reply = 0x7b1
code pakcs_party_req = 0x7d0
code pakwc_party_req = 0x7d0
code pakcs_party_reply = 0x7d1
code pakwc_party_reply = 0x7d1
code pakwc_party_member = 0x7d2
code pakwc_party_item = 0x7d3
code pakwc_party_lvlxp = 0x7d4
code pakcs_party_rule = 0x7d7
code pakwc_party_rule = 0x7d7
code pakwc_billing_message = 0x7de
code pakcs_screen_shot_time_req = 0x7eb
code paksc_screen_shot_time_reply = 0x7eb
code pakss_accept_reply = 0x7ff
code epacketmax = 0x800
code stress = 0x6f6d
