-- ===== src/Handle/Change.antt =====
-- A user's change of name, password, question or answer: handle_change in
-- epoll+tpool/server/handle.c.
pub mod Refuse
pub mod Rename
use model_lib.Base.{ℕ, Bool, Option, none, some, List, [], ◌∷◌, ◌++◌, if◌then◌else◌, ℤ, pos, int_eq}
use model_lib.CString.{Text, Buf, text, str_eq, max_size}
use model_lib.CString.Decimal.{show_int}
use model_lib.Packet.{SendPack, zero_pack, CurrentData, Node, inport, count}
use model_lib.Server.{Env, M, pure, ◌>>=◌, ◌>>◌, gets, first_node, sprintf, send_pk}
use model_lib.Sqlite.{search_data}
use model_lib.Sqlite.Write.{c_string, update_data}
use model_lib.Handle.Common.{memcpy_str}
use model_lib.Handle.Send.{inform}

-- `buf`, `buf1` and `count` behind the `switch`.
pub record Choice : Type 0 where
  pub column : Text
  pub old_value : Buf
  pub others : ℤ

-- `strcpy(buf, column)`, and the old value copied into `buf1`. `count` keeps its first value, 1.
unfoldable pub choose : (column : Text) → (Node → Buf) → M Choice
choose column field = do
  first ← first_node (← gets λ s. s.cb_list)
  old ← c_string (field first)
  buf1 ← memcpy_str [] old
  pure (record { column = column; old_value = buf1; others = pos 1 })

module _ (e : Env) where
  -- Only the change of the name counts the users of the new one.
  unfoldable pub choose_column : SendPack → M Choice
  choose_column recv =
      if int_eq recv.send_id1 (pos 1)
      then (do
        choice ← choose (text "name") (λ n. n.name)
        new ← c_string recv.send_msg0
        others ← search_data e (text "userdata") (some (text "name")) (some new) count
        pure (record choice { others = others }))
      else if int_eq recv.send_id1 (pos 2)
      then choose (text "pswd") (λ n. n.pswd)
      else if int_eq recv.send_id1 (pos 3)
      then choose (text "ques") (λ n. n.ques)
      else if int_eq recv.send_id1 (pos 4)
      then choose (text "answ") (λ n. n.answ)
      else pure (record { column = []; old_value = []; others = pos 1 })

  unfoldable pub set_name : SendPack → CurrentData → M CurrentData
  set_name recv temp = do
    new ← c_string recv.send_msg0
    name ← memcpy_str [] new
    pure (record temp { current_name = name })

  unfoldable pub change_column : SendPack → ℤ → CurrentData → Choice → M CurrentData
  change_column recv cfd temp choice = do
    buf2 ← sprintf max_size (show_int temp.current_id1)
    new ← c_string recv.send_msg0
    _ ← update_data e (text "userdata") choice.column new (text "id1") buf2 3
    old ← c_string choice.old_value
    sdpk ← inform zero_pack (
        text "Your "
        ++ (choice.column
            ++ (text " has been updated from " ++ (old ++ (text " to " ++ (new ++ text " !"))))))
    send_pk e sdpk cfd
    if str_eq choice.column (text "name") then set_name recv temp else pure temp

  unfoldable pub refuse_change : SendPack → ℤ → CurrentData → M CurrentData
  refuse_change recv cfd temp = do
    new ← c_string recv.send_msg0
    sdpk ← inform zero_pack (text "Your new name " ++ (new ++ text " has already been used !"))
    send_pk e sdpk cfd
    pure temp

  -- `*temp` is the result.
  unfoldable pub handle_change : SendPack → ℤ → CurrentData → M CurrentData
  handle_change recv cfd temp = do
    own ← c_string temp.current_name
    _ ← search_data e (text "userdata") (some (text "name")) (some own) inport
    choice ← choose_column recv
    if int_eq choice.others (pos 0)
        then change_column recv cfd temp choice
        else refuse_change recv cfd temp
