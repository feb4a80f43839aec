-- ===== src/Client/Menu.antt =====
-- The menu of a user who is logged in, chat_ui of function.c, and the program around it, main of
-- client.c.
use model_lib.Base.{Bool, true, false, if◌then◌else◌, ℤ, pos, int_eq}
use model_lib.Packet.{success, fail}
use model_lib.Client.{Env, C, pure, ◌>>=◌, ◌>>◌, gets, modify, repeat}
use model_lib.Client.Console.{scanf_int, press_anykey, string_of, show_text}
use model_lib.Client.Account.{user_ui}
use model_lib.Client.Talk.{
  user_offline, view_user, muti_send, mannage_friend, mannage_group, check_message, change_info,
  until_two,
}
use model_lib.Client.Files.{sendfile, recvfile}

module _ (e : Env) where
  unfoldable pub mannage_message : C (Unit {0})
  mannage_message = do
    cmd ← scanf_int (pos 0)
    (if int_eq cmd (pos 1)
        then muti_send e
        else if int_eq cmd (pos 2)
        then check_message e
        else pure tt)
    _ ← press_anykey e
    pure tt

  unfoldable pub mannage_file : C (Unit {0})
  mannage_file = do
    cmd ← scanf_int (pos 0)
    if int_eq cmd (pos 1)
        then repeat e.rounds (until_two e (sendfile e))
        else if int_eq cmd (pos 2)
        then repeat e.rounds (until_two e (recvfile e))
        else pure tt

  -- A dialogue, and a key. The function ends without a value then.
  abbrev and_key : C (Unit {0}) → C ℤ
  and_key body = do body; _ ← press_anykey e; pure e.stack_int

  abbrev no_value : C (Unit {0}) → C ℤ
  no_value body = do body; pure e.stack_int

  -- The second number of the first entry is read into the same variable.
  unfoldable pub leave : C ℤ
  leave = do sure ← scanf_int (pos 1); pure (if int_eq sure (pos 1) then success else fail)

  unfoldable pub chat_choice : ℤ → C ℤ
  unfolding leave mannage_message mannage_file
  chat_choice ui_cmd =
      if int_eq ui_cmd (pos 1)
      then leave
      else if int_eq ui_cmd (pos 5)
      then no_value mannage_message
      else if int_eq ui_cmd (pos 2)
      then and_key (change_info e)
      else if int_eq ui_cmd (pos 4)
      then and_key (mannage_friend e)
      else if int_eq ui_cmd (pos 6)
      then and_key (mannage_group e)
      else if int_eq ui_cmd (pos 7)
      then no_value mannage_file
      else if int_eq ui_cmd (pos 3)
      then no_value (repeat e.rounds (until_two e (view_user e)))
      else pure e.stack_int

  -- The thread that receives is let loose before the number is read.
  unfoldable pub chat_ui : C ℤ
  unfolding chat_choice string_of show_text
  chat_ui = do
    me ← gets λ s. s.temp_data0
    name ← string_of me.current_name
    show_text name
    modify λ s. record s { flag = pos 1 }
    ui_cmd ← scanf_int (pos 0)
    chat_choice ui_cmd

  -- A round of the inner loop, left when the user goes offline.
  unfoldable pub chat_round : C Bool
  unfolding chat_ui
  chat_round = do
    ret1 ← chat_ui
    if int_eq ret1 success then (user_offline e >>= λ _. pure true) else pure false

  -- A round of the outer loop, which nothing leaves.
  unfoldable pub main_round : C Bool
  unfolding chat_round
  main_round = do
    ret0 ← user_ui e
    if int_eq ret0 success then (repeat e.rounds chat_round >>= λ _. pure false) else pure false

  unfoldable pub main : C (Unit {0})
  unfolding main_round
  main = repeat e.rounds main_round
