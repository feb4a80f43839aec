-- ===== src/Client/Account.antt =====
-- The dialogues before the chat: signup, login, client_off and refind of function.c.
pub mod Login
use model_lib.Base.{
  ℕ, zero, suc, Bool, true, false, Option, none, some, List, [], ◌∷◌, if◌then◌else◌, ℤ, pos, int_eq,
}
use model_lib.CString.{Buf, Text, copy_str, max_size}
use model_lib.Packet.{SendPack, zero_pack, CurrentData, success, fail}
use model_lib.Packet.Cmd
use model_lib.Client.{Env, Client, C, crash, exited, repeat, pure, ◌>>=◌, ◌>>◌, modify, or_fault}
use model_lib.Client.Console.{
  getchar, scanf_word, scanf_int, string_of, memcpy_string, show_text, recv_pk, send_pk,
  press_anykey,
}
use model_lib.Client.Password.{ask_password}

-- `temp_data0` after `memset`.
abbrev pub zero_data : CurrentData
zero_data = record {
  current_name = [];
  current_pswd = [];
  current_ques = [];
  current_answ = [];
  current_id1 = pos 0;
  current_id2 = pos 0;
  fd = pos 0;
}

module _ (e : Env) where
  -- The answer to a sign-up. Without a known result the function returns no value.
  unfoldable pub signup_answer : SendPack → C ℤ
  unfolding string_of show_text
  signup_answer pk =
      if int_eq pk.result success
      then (do name ← string_of pk.sourse_name; show_text name; _ ← press_anykey e; pure success)
      else if int_eq pk.result fail
      then (do _ ← press_anykey e; pure fail)
      else pure e.stack_int

  unfoldable pub signup : C ℤ
  unfolding signup_answer
  signup = do
    name ← scanf_word []
    _ ← getchar
    pw ← ask_password
    pw' ← or_fault (copy_str max_size [] pw)
    ques ← scanf_word []
    answ ← scanf_word []
    send_pk e (record zero_pack {
      send_cmd = Cmd.signup;
      sourse_name = name;
      send_msg0 = pw';
      send_msg1 = ques;
      send_msg2 = answ;
    })
    pk ← recv_pk zero_pack
    signup_answer pk

  -- The answer to a login.
  unfoldable pub login_answer : SendPack → C ℤ
  unfolding memcpy_string
  login_answer pk =
      if int_eq pk.result success
      then (do
        modify λ s. record s { temp_data0 = record s.temp_data0 { current_id1 = pk.send_id1 } }
        name ← memcpy_string [] pk.sourse_name
        modify λ s. record s { temp_data0 = record s.temp_data0 { current_name = name } }
        pure success)
      else if int_eq pk.result fail
      then (do _ ← press_anykey e; pure fail)
      else pure e.stack_int

  -- `temp_data0` was cleared before, so that the name is copied over zeros.
  unfoldable pub login : C ℤ
  unfolding login_answer
  login = do
    modify λ s. record s { temp_data0 = zero_data }
    name ← scanf_word []
    _ ← getchar
    pw ← ask_password
    pw' ← or_fault (copy_str max_size [] pw)
    send_pk e (record zero_pack { send_cmd = Cmd.login; sourse_name = name; send_msg0 = pw' })
    pk ← recv_pk zero_pack
    login_answer pk

  -- The packet is not cleared before its command is set.
  unfoldable pub client_off : C (Unit {0})
  client_off = send_pk e (record e.stack_pack { send_cmd = Cmd.client_exit })

  -- The answer to the answer.
  unfoldable pub refind_result : SendPack → C (Unit {0})
  refind_result pk =
      if int_eq pk.result success
      then (do pswd ← string_of pk.send_msg0; show_text pswd; _ ← press_anykey e; pure tt)
      else if int_eq pk.result fail
      then (do _ ← press_anykey e; pure tt)
      else pure tt

  -- The user is asked the question that came.
  unfoldable pub refind_answer : Buf → SendPack → C (Unit {0})
  unfolding refind_result
  refind_answer buf pk = do
    ques ← string_of pk.send_msg0
    show_text ques
    answ ← scanf_word []
    name ← memcpy_string [] buf
    send_pk e (record zero_pack { send_cmd = Cmd.refind_b; sourse_name = name; send_msg0 = answ })
    pk' ← recv_pk zero_pack
    refind_result pk'

  unfoldable pub refind : C (Unit {0})
  unfolding refind_answer
  refind = do
    name ← scanf_word []
    buf ← memcpy_string [] name
    send_pk e (record zero_pack { send_cmd = Cmd.refind_a; sourse_name = name })
    pk ← recv_pk zero_pack
    if int_eq pk.result success
        then refind_answer buf pk
        else if int_eq pk.result fail
        then (press_anykey e >>= λ _. pure tt)
        else pure tt

  -- A login that is tried until it succeeds.
  unfoldable pub login_round : C Bool
  unfolding login
  login_round = do ret ← login; pure (int_eq ret success)

  unfoldable pub signup_round : C Bool
  unfolding signup
  signup_round = do ret ← signup; pure (int_eq ret success)

  -- The socket is closed and the process ends once 2 was typed.
  unfoldable pub quit_round : C Bool
  unfolding client_off
  quit_round = do
    ret ← press_anykey e
    if int_eq ret (pos 2) then (client_off >> exited) else pure false

  -- The menu before the chat. Any other number ends the function without a value.
  unfoldable pub user_ui : C ℤ
  unfolding login_round signup_round quit_round refind repeat
  user_ui = do
    ui_cmd ← scanf_int e.stack_int
    if int_eq ui_cmd (pos 4)
        then (do repeat e.rounds quit_round; pure e.stack_int)
        else if int_eq ui_cmd (pos 1)
        then (do repeat e.rounds login_round; pure success)
        else if int_eq ui_cmd (pos 2)
        then (do repeat e.rounds signup_round; pure fail)
        else if int_eq ui_cmd (pos 3)
        then (do refind; pure fail)
        else pure e.stack_int
