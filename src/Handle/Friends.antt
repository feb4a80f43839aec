-- ===== src/Handle/Friends.antt =====
-- Friend requests, stored messages and changes of one's own data, in
-- epoll+tpool/server/handle.c: handle_accept_friend, handle_add_friend, handle_message and
-- handle_change.
pub mod Requests
pub mod Accept
pub mod Marks
pub mod Stored
use model_lib.Base.{
  ℕ, Bool, true, false, ◌||◌, Option, none, some, List, [], ◌∷◌, ◌++◌, if◌then◌else◌, ℤ, pos,
  int_eq,
}
use model_lib.CString.{Text, Buf, text, str_eq, max_size}
use model_lib.CString.Decimal.{show_int}
use model_lib.Packet.{SendPack, zero_pack, CurrentData, Node, inport, count, exchange}
use model_lib.Packet.Cmd
use model_lib.Server.{Env, M, pure, ◌>>=◌, ◌>>◌, gets, first_node, sprintf, send_pk}
use model_lib.Sqlite.{search_data, search_by_id}
use model_lib.Sqlite.Write.{c_string, insert_data, update_data}
use model_lib.Handle.Common.{memcpy_str, strcpy, fold_each}
use model_lib.Handle.Send.{find_online, group_row, inform}

-- The row of `friendreq`.
unfoldable pub request_row : (from to : ℤ) → M SendPack
request_row from to = do
  msg0 ← strcpy [] (text "unchecked")
  pure (record zero_pack { send_msg0 = msg0; send_id1 = from; send_id2 = to })

-- The loop that looks for the friend among the rows.
unfoldable pub is_friend : ℤ → List Node → Bool
is_friend id [] = false
is_friend id (q ∷ qs) = int_eq q.id1 id || is_friend id qs

module _ (e : Env) where
  -- Both users get a row with the other's id and name. The names are what `temp_name` holds after
  -- the two searches.
  unfoldable pub befriend : ℤ → CurrentData → M (Unit {0})
  befriend other temp = do
    _ ← search_by_id e (text "userdata") (text "id1") other exchange
    name ← c_string (← gets λ s. s.temp_name)
    row ← group_row (text "friend") other name
    own ← c_string temp.current_name
    _ ← insert_data e own row 6
    buf ← strcpy [] name
    _ ← search_by_id e (text "userdata") (text "id1") temp.current_id1 exchange
    name' ← c_string (← gets λ s. s.temp_name)
    row' ← group_row (text "friend") temp.current_id1 name'
    table ← c_string buf
    _ ← insert_data e table row' 6
    pure tt

  -- Only the first row that the search found is compared.
  unfoldable pub handle_accept_friend : SendPack → ℤ → CurrentData → M (Unit {0})
  handle_accept_friend recv_pk cfd temp = do
    _ ← search_by_id e (text "friendreq") (text "id2") temp.current_id1 inport
    first ← first_node (← gets λ s. s.cb_list)
    if int_eq first.id1 recv_pk.send_id1 then befriend recv_pk.send_id1 temp else pure tt

  unfoldable pub notify : CurrentData → Option Node → M (Unit {0})
  notify temp none = pure tt
  notify temp (some p) = do
    name ← c_string temp.current_name
    sdpk ← inform zero_pack (name ++ text " wants to be your friend !")
    send_pk e sdpk p.fd

  unfoldable pub ask_friend : SendPack → CurrentData → M (Unit {0})
  ask_friend recv_pk temp = do
    row ← request_row temp.current_id1 recv_pk.send_id1
    _ ← insert_data e (text "friendreq") row 5
    online ← gets λ s. s.online_user
    notify temp (find_online recv_pk.send_id1 online)

  unfoldable pub already_friend : ℤ → M (Unit {0})
  already_friend cfd = do
    name ← c_string (← gets λ s. s.temp_name)
    sdpk ← inform zero_pack (text "# " ++ (name ++ text " has been your friend !"))
    send_pk e sdpk cfd

  -- The friends are searched with COUNT, and the loop then walks `cb_head`'s list.
  unfoldable pub handle_add_friend : SendPack → ℤ → CurrentData → M (Unit {0})
  handle_add_friend recv_pk cfd temp = do
    _ ← search_by_id e (text "userdata") (text "id1") recv_pk.send_id1 exchange
    own ← c_string temp.current_name
    _ ← search_data e own (some (text "dec")) (some (text "friend")) count
    friends ← gets λ s. s.cb_list
    if is_friend recv_pk.send_id1 friends then already_friend cfd else ask_friend recv_pk temp

  unfoldable pub mark_stored : CurrentData → (mark : Option Text) → Text → M (Unit {0})
  mark_stored temp none message = pure tt
  mark_stored temp (some mark) message = do
    own ← c_string temp.current_name
    _ ← update_data e own (text "dec") mark (text "message") message 1
    pure tt

  -- A stored message, sent with its sender's name over the packet of the message before it, and
  -- marked if there is a mark.
  unfoldable pub deliver_stored :
      ℤ → CurrentData → (mark : Option Text) → SendPack → Node → M SendPack
  deliver_stored cfd temp mark sdpk p = do
    _ ← search_by_id e (text "userdata") (text "id1") p.id1 exchange
    name ← c_string (← gets λ s. s.temp_name)
    sourse ← memcpy_str sdpk.sourse_name name
    message ← c_string p.message
    msg ← memcpy_str sdpk.send_msg0 message
    let sdpk' = record sdpk { send_cmd = Cmd.muti_send; sourse_name = sourse; send_msg0 = msg }
    send_pk e sdpk' cfd
    mark_stored temp mark message
    pure sdpk'

  unfoldable pub deliver_kind :
      ℤ → CurrentData → (kind : Text) → (mark : Option Text) → M (Unit {0})
  deliver_kind cfd temp kind mark = do
    own ← c_string temp.current_name
    _ ← search_data e own (some (text "dec")) (some kind) inport
    _ ← fold_each (← gets λ s. s.cb_list) zero_pack (deliver_stored cfd temp mark)
    pure tt

  -- New group messages, new messages, old group messages, old messages.
  unfoldable pub handle_message : ℤ → SendPack → CurrentData → M (Unit {0})
  handle_message cfd recv temp =
      if int_eq recv.send_id1 (pos 1)
      then deliver_kind cfd temp (text "gunchecked") (some (text "gchecked"))
      else if int_eq recv.send_id1 (pos 2)
      then deliver_kind cfd temp (text "unchecked") (some (text "checked"))
      else if int_eq recv.send_id1 (pos 3)
      then deliver_kind cfd temp (text "gchecked") none
      else if int_eq recv.send_id1 (pos 4)
      then deliver_kind cfd temp (text "checked") none
      else pure tt
