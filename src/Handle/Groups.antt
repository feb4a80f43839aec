-- ===== src/Handle/Groups.antt =====
-- `handle_group` of handle.c: creating, listing and joining groups, and their members. `recv` is
-- the packet that it reads from the connection.
pub mod Join
use model_lib.Base.{◌&&◌, none, some, [], ◌∷◌, ◌++◌, if◌then◌else◌, ℤ, pos, int_eq, int_inc}
use model_lib.CString.{Text, text, pad_right, max_size}
use model_lib.CString.Decimal.{show_int}
use model_lib.Packet.{SendPack, zero_pack, CurrentData, inport, count}
use model_lib.Server.{
  Env, M, pure, crash, ◌>>=◌, ◌>>◌, gets, for_each, first_node, sprintf, send_pk,
}
use model_lib.Sqlite.{search_data, search_by_id}
use model_lib.Sqlite.Write.{c_string, create_table, insert_data}
use model_lib.Handle.Send.{message_row, group_row, inform}
use model_lib.Handle.Show.{table_header, send_node}

unfoldable pub created : Text → ℤ → Text
created name id =
    text "# Group " ++ (name ++ (text " has successfully created ! ,id is " ++ show_int id))

-- `\n|%-10s|%-10s|\n`
unfoldable pub group_header : Text
group_header =
    10
    ∷ (text "|"
        ++ (pad_right 10 (text "groupid")
            ++ (text "|" ++ (pad_right 10 (text "groupname") ++ (text "|" ++ 10 ∷ [])))))

-- `\n|%-10s|\n`
unfoldable pub member_header : Text
member_header = 10 ∷ (text "|" ++ (pad_right 10 (text "memberid") ++ (text "|" ++ 10 ∷ [])))

-- `|%-10d|`
unfoldable pub member_line : ℤ → Text
member_line id = text "|" ++ (pad_right 10 (show_int id) ++ text "|")

unfoldable pub joined : Text → Text → Text
joined user group =
    text "# User " ++ (user ++ (text " has join into group " ++ (group ++ text " !")))

unfoldable pub invited : ℤ → Text → Text
invited id group = text "User " ++ (show_int id ++ (text " has join group " ++ group))

module _ (e : Env) where
  -- A text to the client, on a packet.
  unfoldable pub answer : ℤ → SendPack → Text → M (Unit {0})
  answer cfd pack message = do recv ← inform pack message; send_pk e recv cfd

  -- The name of the group is read from `recv`, whose message is overwritten before the table is
  -- created; a refused table ends the process.
  unfoldable pub create_group : ℤ → SendPack → CurrentData → M (Unit {0})
  create_group cfd recv temp = do
    groups ← search_data e (text "grouplist") none none count
    let id = int_inc groups
    let recv' = record recv { send_id1 = id }
    _ ← insert_data e (text "grouplist") recv' 2
    buf ← c_string recv.sourse_name
    answer cfd recv' (created buf id)
    create_table e buf 6
    user ← c_string temp.current_name
    member ← group_row (text "member") temp.current_id1 user
    _ ← insert_data e buf member 6
    group ← message_row (text "group") id buf
    _ ← insert_data e user group 6
    pure tt

  unfoldable pub list_groups : ℤ → M (Unit {0})
  list_groups cfd = do
    _ ← search_data e (text "grouplist") none none inport
    groups ← gets λ s. s.cb_list
    answer cfd zero_pack group_header
    for_each groups (send_node e (λ p. p.name) cfd)

  -- The group's id is that of the first row that the second search brings.
  unfoldable pub enter_group : ℤ → Text → CurrentData → M (Unit {0})
  enter_group cfd name temp = do
    user ← c_string temp.current_name
    member ← message_row (text "member") temp.current_id1 user
    _ ← insert_data e name member 6
    _ ← search_data e (text "grouplist") (some (text "name")) (some name) inport
    p ← first_node (← gets λ s. s.cb_list)
    group ← message_row (text "group") p.id1 name
    _ ← insert_data e user group 6
    buf ← sprintf max_size (joined user name)
    answer cfd zero_pack buf

  unfoldable pub join_group : ℤ → SendPack → CurrentData → M (Unit {0})
  join_group cfd recv temp = do
    name ← c_string recv.sourse_name
    groups ← search_data e (text "grouplist") (some (text "name")) (some name) count
    if int_eq groups (pos 1)
        then enter_group cfd name temp
        else answer cfd zero_pack (text "# Invaild group name !")

  -- The member's row holds the text `null` for the name.
  unfoldable pub add_member : ℤ → SendPack → Text → M (Unit {0})
  add_member cfd recv name = do
    member ← group_row (text "member") recv.send_id1 (text "null")
    _ ← insert_data e name member 6
    answer cfd zero_pack (invited recv.send_id1 name)

  -- The id is passed as the pointer to the text to search for: 0 is NULL, with which search_data
  -- finds all users, and any other id points to nothing.
  unfoldable pub search_pointer : ℤ → M ℤ
  search_pointer id =
      if int_eq id (pos 0)
      then search_data e (text "userdata") (some (text "id1")) none count
      else crash

  unfoldable pub invite_member : ℤ → SendPack → M (Unit {0})
  unfolding search_pointer
  invite_member cfd recv = do
    users ← search_pointer recv.send_id1
    name ← c_string recv.sourse_name
    groups ← search_data e (text "grouplist") (some (text "name")) (some name) count
    if int_eq users (pos 1) && int_eq groups (pos 1)
        then add_member cfd recv name
        else answer cfd zero_pack (text "# Invaild group name or user id !")

  unfoldable pub own_groups : ℤ → SendPack → CurrentData → M (Unit {0})
  own_groups cfd recv temp = do
    user ← c_string temp.current_name
    _ ← search_data e user (some (text "dec")) (some (text "group")) inport
    groups ← gets λ s. s.cb_list
    answer cfd recv table_header
    for_each groups (send_node e (λ p. p.message) cfd)

  unfoldable pub list_members : ℤ → SendPack → M (Unit {0})
  list_members cfd recv = do
    name ← c_string recv.sourse_name
    _ ← search_data e name (some (text "dec")) (some (text "member")) inport
    members ← gets λ s. s.cb_list
    answer cfd recv member_header
    for_each members (λ p. answer cfd zero_pack (member_line p.id1))

  -- Commands 5, 6 and 7 have empty branches.
  unfoldable pub handle_group : ℤ → SendPack → CurrentData → M (Unit {0})
  handle_group cfd recv temp =
      if int_eq recv.send_cmd (pos 1)
      then create_group cfd recv temp
      else if int_eq recv.send_cmd (pos 2)
      then list_groups cfd
      else if int_eq recv.send_cmd (pos 3)
      then join_group cfd recv temp
      else if int_eq recv.send_cmd (pos 4)
      then invite_member cfd recv
      else if int_eq recv.send_cmd (pos 8)
      then own_groups cfd recv temp
      else if int_eq recv.send_cmd (pos 9)
      then list_members cfd recv
      else pure tt
