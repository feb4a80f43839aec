-- ===== src/Handle/Account.antt =====
-- Signing up, logging in and recovering a password: handle.c.
pub mod ByName
pub mod Signup
pub mod Login
pub mod Refind
pub mod Race
use model_lib.Base.{
  ℕ, zero, suc, Bool, true, false, ◌&&◌, Option, none, some, [], ◌∷◌, ◌==◌, if◌then◌else◌, ℤ, pos,
  int_eq, int_inc,
}
use model_lib.CString.{Buf, text, mem_eq, max_size}
use model_lib.Packet.{SendPack, zero_pack, Node, success, fail, count, inport}
use model_lib.Server.{Env, M, pure, ◌>>=◌, ◌>>◌, gets, modify, or_fault, first_node, send_pk}
use model_lib.Sqlite.{search_data}
use model_lib.Sqlite.Write.{c_string, create_table, insert_data}
use model_lib.Handle.Common.{memcpy_str}

-- `strcmp(a, b) == 0` on two arrays of `cap` bytes; `none` if it would run past the end.
unfoldable pub strcmp_eq : (cap : ℕ) → Buf → Buf → Option Bool
strcmp_eq zero a b = none
strcmp_eq (suc cap) [] [] = some true
strcmp_eq (suc cap) [] (y ∷ b) = some (y == 0)
strcmp_eq (suc cap) (x ∷ a) [] = some (x == 0)
strcmp_eq (suc cap) (x ∷ a) (y ∷ b) =
    let rest = strcmp_eq cap a b in
    if x == y then (if x == 0 then some true else rest) else some false

module _ (e : Env) where
  -- The name is free: the new user's id is the number of users plus one.
  unfoldable pub signup_new : ℤ → SendPack → M (Unit {0})
  signup_new cfd recv_pack = do
    flag ← search_data e (text "userdata") none none count
    let pack = record recv_pack { send_id1 = int_inc flag }
    _ ← insert_data e (text "userdata") pack 3
    send_pk e (record pack { result = success }) cfd

  unfoldable pub handle_signup : ℤ → SendPack → M (Unit {0})
  unfolding signup_new
  handle_signup cfd recv_pack = do
    name ← c_string recv_pack.sourse_name
    ret ← search_data e (text "userdata") (some (text "name")) (some name) count
    if int_eq ret (pos 0)
        then signup_new cfd recv_pack
        else send_pk e (record recv_pack { result = fail }) cfd

  -- The password fits. `init_node` leaves the node's memory as `malloc` returned it.
  unfoldable pub login_accept : ℤ → Buf → SendPack → Node → M (Unit {0})
  unfolding memcpy_str
  login_accept cfd buf recv_pack found = do
    name ← c_string recv_pack.sourse_name
    name' ← memcpy_str [] name
    let new = record e.heap_node { fd = cfd; name = name'; id1 = found.id1 }
    modify λ s. record s { online_user = new ∷ s.online_user }
    create_table e name 6
    first ← first_node (← gets λ s. s.cb_list)
    back ← c_string buf
    back' ← memcpy_str [] back
    send_pk e (record zero_pack { result = success; sourse_name = back'; send_id1 = first.id1 }) cfd
    create_table e back 6

  -- `(cb_head->next)->pswd` is read before `ret` is tested.
  unfoldable pub handle_login : ℤ → SendPack → M (Unit {0})
  unfolding login_accept
  handle_login cfd recv_pack = do
    name ← c_string recv_pack.sourse_name
    buf ← memcpy_str [] name
    ret ← search_data e (text "userdata") (some (text "name")) (some name) inport
    found ← first_node (← gets λ s. s.cb_list)
    if mem_eq recv_pack.send_msg0 found.pswd && int_eq ret (pos 1)
        then login_accept cfd buf recv_pack found
        else send_pk e (record e.stack_pack { result = fail }) cfd

  -- The question of the first row found.
  unfoldable pub refind_question : ℤ → M (Unit {0})
  refind_question cfd = do
    found ← first_node (← gets λ s. s.cb_list)
    ques ← c_string found.ques
    msg ← memcpy_str [] ques
    send_pk e (record zero_pack { send_msg0 = msg; result = success }) cfd

  unfoldable pub handle_refind_a : ℤ → SendPack → M (Unit {0})
  unfolding refind_question
  handle_refind_a cfd recv_pack = do
    name ← c_string recv_pack.sourse_name
    ret ← search_data e (text "userdata") (some (text "name")) (some name) inport
    if int_eq ret (pos 0)
        then send_pk e (record zero_pack { result = fail }) cfd
        else if int_eq ret (pos 1)
        then refind_question cfd
        else pure tt

  -- The whole array of the password is copied.
  unfoldable pub handle_refind_b : ℤ → SendPack → M (Unit {0})
  unfolding strcmp_eq
  handle_refind_b cfd recv_pack = do
    name ← c_string recv_pack.sourse_name
    _ ← search_data e (text "userdata") (some (text "name")) (some name) inport
    found ← first_node (← gets λ s. s.cb_list)
    same ← or_fault (strcmp_eq max_size found.answ recv_pack.send_msg0)
    if same
        then send_pk e (record zero_pack { result = success; send_msg0 = found.pswd }) cfd
        else send_pk e (record zero_pack { result = fail }) cfd
