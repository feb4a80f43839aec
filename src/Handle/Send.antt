-- ===== src/Handle/Send.antt =====
-- `handle_send` of handle.c: messages to one user, to a group, to all online, to all users.
pub mod Single
pub mod Everyone
pub mod Rows
pub mod Group
use model_lib.Base.{Option, none, some, List, [], ◌∷◌, ◌++◌, if◌then◌else◌, ℤ, pos, int_eq}
use model_lib.CString.{Text, text}
use model_lib.Packet.{SendPack, zero_pack, Node, count, inport, exchange}
use model_lib.Packet.Cmd
use model_lib.Server.{Env, M, pure, crash, ◌>>=◌, ◌>>◌, gets, for_each, send_pk}
use model_lib.Sqlite.{search_data, search_by_id}
use model_lib.Sqlite.Write.{c_string, insert_data}
use model_lib.Handle.Common.{memcpy_str, strcpy, fold_each}

-- The row stored for a message: its kind, its sender and its text.
unfoldable pub message_row : Text → ℤ → Text → M SendPack
message_row kind sender message = do
  msg0 ← strcpy [] kind
  msg1 ← memcpy_str [] message
  pure (record zero_pack { send_msg0 = msg0; send_msg1 = msg1; send_id1 = sender })

-- The walk for the first online user with the id.
unfoldable pub find_online : ℤ → List Node → Option Node
find_online id [] = none
find_online id (p ∷ ps) = if int_eq p.id1 id then some p else find_online id ps

-- The packet that an online user gets, written over `recv`.
unfoldable pub forward : SendPack → Text → Text → M SendPack
forward recv sourse message = do
  name ← memcpy_str recv.sourse_name sourse
  msg ← strcpy recv.send_msg0 message
  pure (record recv { send_cmd = Cmd.muti_send; sourse_name = name; send_msg0 = msg })

-- The text of a group message.
unfoldable pub group_text : Text → Text → Text
group_text message group = message ++ (text " (from group " ++ (group ++ text ")"))

-- The row for a group message: both texts are written with their NUL.
unfoldable pub group_row : Text → ℤ → Text → M SendPack
group_row kind sender message = do
  msg0 ← strcpy [] kind
  msg1 ← strcpy [] message
  pure (record zero_pack { send_msg0 = msg0; send_msg1 = msg1; send_id1 = sender })

-- The packet under `INFO`, its text printed over `recv`.
unfoldable pub inform : SendPack → Text → M SendPack
inform recv message = do
  msg ← strcpy recv.send_msg0 message
  pure (record recv { send_cmd = Cmd.info; send_msg0 = msg })

module _ (e : Env) where
  unfoldable pub deliver_one : SendPack → Option Node → M (Unit {0})
  deliver_one recv_pack none = pure tt
  deliver_one recv_pack (some p) = do
    message ← c_string recv_pack.send_msg0
    msg ← memcpy_str [] message
    sourse ← c_string recv_pack.sourse_name
    name ← memcpy_str [] sourse
    send_pk e (record zero_pack { send_cmd = Cmd.muti_send; send_msg0 = msg; sourse_name = name })
        p.fd

  -- The receiver's table is whatever name `temp_name` holds after the search.
  unfoldable pub send_single : SendPack → M (Unit {0})
  send_single recv_pack = do
    _ ← search_by_id e (text "userdata") (text "id1") recv_pack.send_id2 exchange
    message ← c_string recv_pack.send_msg0
    row ← message_row (text "unchecked") recv_pack.send_id1 message
    table ← c_string (← gets λ s. s.temp_name)
    _ ← insert_data e table row 6
    online ← gets λ s. s.online_user
    deliver_one recv_pack (find_online recv_pack.send_id2 online)

  unfoldable pub reach_member : SendPack → SendPack → Node → M SendPack
  reach_member recv_pack recv q = do
    group ← c_string recv_pack.sourse_name
    message ← c_string recv_pack.send_msg0
    recv' ← forward recv group (group_text message group)
    send_pk e recv' q.fd
    pure recv'

  -- The inner loop: every online user with the member's id gets the message.
  unfoldable pub deliver_member : SendPack → ℤ → SendPack → Node → M SendPack
  deliver_member recv_pack id recv q =
      if int_eq q.id1 id then reach_member recv_pack recv q else pure recv

  -- The round of the outer loop: the row goes to the table named by the member's `name`.
  unfoldable pub send_member : SendPack → SendPack → Node → M SendPack
  send_member recv_pack recv p = do
    message ← c_string recv_pack.send_msg0
    group ← c_string recv_pack.sourse_name
    row ← group_row (text "gunchecked") recv_pack.send_id1 (group_text message group)
    table ← c_string p.name
    _ ← insert_data e table row 6
    fold_each (← gets λ s. s.online_user) recv (deliver_member recv_pack p.id1)

  unfoldable pub send_group_members : ℤ → SendPack → M (Unit {0})
  send_group_members cfd recv_pack = do
    group ← c_string recv_pack.sourse_name
    message ← c_string recv_pack.send_msg0
    row ← group_row (text "message") recv_pack.send_id1 message
    _ ← insert_data e group row 6
    _ ← search_data e group (some (text "dec")) (some (text "member")) inport
    recv ← fold_each (← gets λ s. s.cb_list) zero_pack (send_member recv_pack)
    recv' ← inform recv (
        text "# Message " ++ (message ++ (text " has been sent to group " ++ (group ++ text " !"))))
    send_pk e recv' cfd

  unfoldable pub send_group : ℤ → SendPack → M (Unit {0})
  send_group cfd recv_pack = do
    group ← c_string recv_pack.sourse_name
    members ← search_data e (text "grouplist") (some (text "name")) (some group) count
    if int_eq members (pos 0)
        then (do
          recv ← inform zero_pack (text "# Group " ++ (group ++ text " does not exist !"))
          send_pk e recv cfd)
        else send_group_members cfd recv_pack

  -- The insert of the first round reads `q->name`, and `q` has no value yet.
  unfoldable pub send_online : List Node → M (Unit {0})
  send_online [] = pure tt
  send_online (p ∷ ps) = crash

  unfoldable pub deliver_all : SendPack → SendPack → Node → M SendPack
  deliver_all recv_pack recv p = do
    sourse ← c_string recv_pack.sourse_name
    message ← c_string recv_pack.send_msg0
    recv' ← forward recv sourse message
    send_pk e recv' p.fd
    pure recv'

  unfoldable pub store_message : SendPack → Node → M (Unit {0})
  store_message recv_pack q = do
    message ← c_string recv_pack.send_msg0
    row ← message_row (text "unchecked") recv_pack.send_id1 message
    table ← c_string q.name
    _ ← insert_data e table row 6
    pure tt

  unfoldable pub send_all : SendPack → M (Unit {0})
  send_all recv_pack = do
    _ ← fold_each (← gets λ s. s.online_user) zero_pack (deliver_all recv_pack)
    _ ← search_data e (text "userdata") none none inport
    for_each (← gets λ s. s.cb_list) (store_message recv_pack)

  unfoldable pub handle_send : ℤ → SendPack → M (Unit {0})
  handle_send cfd recv_pack =
      if int_eq recv_pack.result (pos 1)
      then send_single recv_pack
      else if int_eq recv_pack.result (pos 2)
      then send_group cfd recv_pack
      else if int_eq recv_pack.result (pos 3)
      then (do send_online (← gets λ s. s.online_user))
      else if int_eq recv_pack.result (pos 4)
      then send_all recv_pack
      else pure tt
