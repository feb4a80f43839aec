-- ===== src/Client/Talk.antt =====
-- The dialogues of a user who is logged in: muti_send, view_user, mannage_friend, mannage_group,
-- check_message, change_info and user_offline of function.c.
pub mod Offline
use model_lib.Base.{
  ℕ, zero, suc, Bool, true, false, Option, none, some, List, [], ◌∷◌, if◌then◌else◌, ℤ, pos, int_eq,
}
use model_lib.CString.{Buf, Text, copy_str, max_size}
use model_lib.Packet.{SendPack, zero_pack, CurrentData, success, fail}
use model_lib.Packet.Cmd
use model_lib.Client.{Env, Client, C, pure, ◌>>=◌, ◌>>◌, gets, modify, or_fault, repeat}
use model_lib.Client.Console.{getchar, scanf_word, scanf_int, memcpy_string, send_pk, press_anykey}
use model_lib.Client.Password.{ask_password}

module _ (e : Env) where
  abbrev show_pack : ℤ → SendPack
  show_pack kind = record zero_pack { send_cmd = Cmd.show; result = kind }

  -- `user_offline`: the id and the name of the user are sent.
  unfoldable pub user_offline : C (Unit {0})
  user_offline = do
    me ← gets λ s. s.temp_data0
    name ← memcpy_string [] me.current_name
    send_pk e
        (record zero_pack { send_cmd = Cmd.offline; sourse_name = name; send_id1 = me.current_id1 })

  -- The list that is asked for; other choices ask for nothing.
  unfoldable pub view_request : ℤ → SendPack → C (Unit {0})
  view_request cmd sdpk =
      if int_eq cmd (pos 1)
      then send_pk e (record sdpk { result = pos 2 })
      else if int_eq cmd (pos 2)
      then send_pk e (record sdpk { result = pos 3 })
      else pure tt

  unfoldable pub view_user : C (Unit {0})
  unfolding view_request
  view_user = do
    cmd ← scanf_int (pos 0)
    me ← gets λ s. s.temp_data0
    name ← memcpy_string [] me.current_name
    view_request cmd
        (record zero_pack { send_cmd = Cmd.show; sourse_name = name; send_id1 = me.current_id1 })
    _ ← press_anykey e
    pure tt

  -- The message to one user: the list, and then the id.
  unfoldable pub to_single : SendPack → C (Unit {0})
  unfolding view_user
  to_single sdpk = do
    view_user
    id ← scanf_int sdpk.send_id2
    send_pk e (record sdpk { send_id2 = id })

  -- The message to a group, whose name overwrites the sender's.
  unfoldable pub to_group : SendPack → C (Unit {0})
  to_group sdpk = do
    send_pk e (record zero_pack { send_cmd = Cmd.group })
    send_pk e (record zero_pack { send_cmd = pos 2 })
    name ← scanf_word sdpk.sourse_name
    send_pk e (record sdpk { sourse_name = name })

  -- Any other range sends the packet as well.
  unfoldable pub muti_send : C (Unit {0})
  unfolding to_single to_group
  muti_send = do
    me ← gets λ s. s.temp_data0
    name ← memcpy_string [] me.current_name
    msg ← scanf_word []
    range ← scanf_int (pos 0)
    let sdpk = record zero_pack {
      send_cmd = Cmd.muti_send;
      result = range;
      sourse_name = name;
      send_msg0 = msg;
      send_id1 = me.current_id1;
    }
    if int_eq range (pos 1)
        then to_single sdpk
        else if int_eq range (pos 2)
        then to_group sdpk
        else send_pk e sdpk

  unfoldable pub send_friend_req : C (Unit {0})
  send_friend_req = do
    id ← scanf_int (pos 0)
    send_pk e (record zero_pack { send_cmd = Cmd.friend_req; send_id1 = id })

  unfoldable pub accept_friend : C (Unit {0})
  accept_friend = do
    send_pk e (show_pack (pos 4))
    temp_id ← scanf_int (pos 0)
    send_pk e (record zero_pack { send_cmd = Cmd.friend_acc; send_id1 = temp_id })

  -- A round of the loops that 2 ends.
  abbrev pub until_two : C (Unit {0}) → C Bool
  until_two body = do body; buf ← press_anykey e; pure (int_eq buf (pos 2))

  -- `DELETE` of a friend.
  unfoldable pub delete_friend : C (Unit {0})
  delete_friend = do
    send_pk e (show_pack (pos 1))
    id ← scanf_int (pos 0)
    send_pk e (record zero_pack { send_cmd = Cmd.delete; send_id1 = id })
    _ ← press_anykey e
    pure tt

  unfoldable pub show_list : ℤ → C (Unit {0})
  show_list kind = do send_pk e (show_pack kind); _ ← press_anykey e; pure tt

  -- The choice of the second entry, which offers the online friends, asks for list 5.
  unfoldable pub mannage_friend : C (Unit {0})
  unfolding show_list send_friend_req accept_friend delete_friend repeat view_user
  mannage_friend = do
    cmd ← scanf_int (pos 0)
    if int_eq cmd (pos 1)
        then show_list (pos 1)
        else if int_eq cmd (pos 2)
        then show_list (pos 5)
        else if int_eq cmd (pos 3)
        then repeat e.rounds (until_two (view_user >> send_friend_req))
        else if int_eq cmd (pos 4)
        then repeat e.rounds (until_two accept_friend)
        else if int_eq cmd (pos 5)
        then delete_friend
        else pure tt

  -- A packet with the name of a group.
  unfoldable pub group_named : SendPack → C (Unit {0})
  group_named sdpk = do name ← scanf_word []; send_pk e (record sdpk { sourse_name = name })

  unfoldable pub group_invite : SendPack → C (Unit {0})
  unfolding group_named
  group_invite sdpk = do id ← scanf_int (pos 0); group_named (record sdpk { send_id1 = id })

  -- The second packet's command is the number of the menu.
  unfoldable pub mannage_group : C (Unit {0})
  unfolding group_named group_invite
  mannage_group = do
    send_pk e (record zero_pack { send_cmd = Cmd.group })
    cmd ← scanf_int (pos 0)
    let sdpk = record zero_pack { send_cmd = cmd }
    if int_eq cmd (pos 1)
        then group_named sdpk
        else if int_eq cmd (pos 2)
        then send_pk e sdpk
        else if int_eq cmd (pos 3)
        then group_named sdpk
        else if int_eq cmd (pos 4)
        then group_invite sdpk
        else if int_eq cmd (pos 8)
        then send_pk e sdpk
        else if int_eq cmd (pos 9)
        then group_named sdpk
        else pure tt

  unfoldable pub check_message : C (Unit {0})
  check_message = do
    kind ← scanf_int (pos 0)
    send_pk e (record zero_pack { send_cmd = Cmd.check; send_id1 = kind })

  -- The new value; a password is asked for like at the sign-up.
  unfoldable pub new_value : ℤ → C Buf
  new_value choice =
      if int_eq choice (pos 2)
      then (do _ ← getchar; pw ← ask_password; or_fault (copy_str max_size [] pw))
      else scanf_word []

  unfoldable pub change_info : C (Unit {0})
  unfolding new_value
  change_info = do
    choice ← scanf_int (pos 0)
    value ← new_value choice
    send_pk e (record zero_pack { send_cmd = Cmd.change; send_id1 = choice; send_msg0 = value })
