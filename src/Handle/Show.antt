-- ===== src/Handle/Show.antt =====
-- `handle_show` of handle.c: the listings.
pub mod Listing
use model_lib.Base.{◌≡◌, refl, none, some, ◌∷◌, ◌++◌, if◌then◌else◌, ℤ, pos, int_eq}
use model_lib.CString.{Text, Buf, text, pad_right}
use model_lib.CString.Decimal.{show_int, show_nat}
use model_lib.Packet.{SendPack, zero_pack, Node, inport, exchange}
use model_lib.Packet.Cmd
use model_lib.Server.{Env, M, pure, ◌>>=◌, ◌>>◌, gets, for_each, send_pk}
use model_lib.Sqlite.{search_data, search_by_id}
use model_lib.Sqlite.Write.{c_string}
use model_lib.Handle.Common.{strcpy, fold_each}

-- `|%-10d|%-10s|`
unfoldable pub table_line : ℤ → Text → Text
table_line id name =
    text "|" ++ (pad_right 10 (show_int id) ++ (text "|" ++ (pad_right 10 name ++ text "|")))

-- `\n|%-10s|%-10s|`
unfoldable pub table_header : Text
table_header =
    10
    ∷ (text "|"
        ++ (pad_right 10 (text "id") ++ (text "|" ++ (pad_right 10 (text "name") ++ text "|"))))

-- `\n|%-10s|%-20s|%-10s|` and its lines
unfoldable pub file_line : Text → Text → Text → Text
file_line id name sourse =
    text "|"
    ++ (pad_right 10 id
        ++ (text "|" ++ (pad_right 20 name ++ (text "|" ++ (pad_right 10 sourse ++ text "|")))))

module _ (e : Env) where
  -- A message line over a packet.
  unfoldable pub send_line : SendPack → Text → ℤ → M SendPack
  send_line pack line cfd = do
    msg ← strcpy pack.send_msg0 line
    let pack' = record pack { send_msg0 = msg; send_cmd = Cmd.info }
    send_pk e pack' cfd
    pure pack'

  -- A line for one node, on a cleared packet; the column differs between the listings.
  unfoldable pub send_node : (Node → Buf) → ℤ → Node → M (Unit {0})
  send_node column cfd p = do
    name ← c_string (column p)
    _ ← send_line zero_pack (table_line p.id1 name) cfd
    pure tt

  unfoldable pub send_file : ℤ → Node → M (Unit {0})
  send_file cfd p = do
    name ← c_string p.name
    sourse ← c_string p.name1
    _ ← send_line zero_pack (file_line (show_int p.id1) name sourse) cfd
    pure tt

  -- A friend request, under the name that `search_by_id` leaves in `temp_name`; the packet is not
  -- cleared between the rounds.
  unfoldable pub send_request : ℤ → SendPack → Node → M SendPack
  send_request cfd pack p = do
    _ ← search_by_id e (text "userdata") (text "id1") p.id1 exchange
    name ← c_string (← gets λ s. s.temp_name)
    send_line pack (table_line p.id1 name) cfd

  unfoldable pub show_friends : ℤ → SendPack → M (Unit {0})
  show_friends cfd recv = do
    _ ← send_line zero_pack table_header cfd
    name ← c_string recv.sourse_name
    _ ← search_data e name (some (text "dec")) (some (text "friend")) inport
    for_each (← gets λ s. s.cb_list) (send_node (λ p. p.message) cfd)

  unfoldable pub show_online : ℤ → M (Unit {0})
  show_online cfd = do
    _ ← send_line zero_pack table_header cfd
    for_each (← gets λ s. s.online_user) (send_node (λ p. p.name) cfd)

  unfoldable pub show_users : ℤ → M (Unit {0})
  show_users cfd = do
    _ ← search_data e (text "userdata") none none inport
    users ← gets λ s. s.cb_list
    _ ← send_line zero_pack table_header cfd
    for_each users (send_node (λ p. p.name) cfd)

  -- The id that is searched for is the array `sourse_name`, converted to an `int`.
  unfoldable pub show_requests : ℤ → M (Unit {0})
  show_requests cfd = do
    _ ← search_by_id e (text "friendreq") (text "id2") e.name_address inport
    pack ← send_line zero_pack table_header cfd
    _ ← fold_each (← gets λ s. s.cb_list) pack (send_request cfd)
    pure tt

  unfoldable pub show_files : ℤ → SendPack → M (Unit {0})
  show_files cfd recv = do
    _ ← send_line zero_pack (10 ∷ file_line (text "fileid") (text "filename") (text "sourse")) cfd
    name ← c_string recv.sourse_name
    _ ← search_data e (text "filelist") (some (text "name2")) (some name) inport
    for_each (← gets λ s. s.cb_list) (send_file cfd)

  unfoldable pub handle_show : ℤ → SendPack → M (Unit {0})
  handle_show cfd recv =
      if int_eq recv.result (pos 1)
      then show_friends cfd recv
      else if int_eq recv.result (pos 2)
      then show_online cfd
      else if int_eq recv.result (pos 3)
      then show_users cfd
      else if int_eq recv.result (pos 4)
      then show_requests cfd
      else if int_eq recv.result (pos 5)
      then show_files cfd recv
      else pure tt

header_line : table_header ≡ 10 ∷ text "|id        |name      |"
unfolding table_header text pad_right
header_line = refl

user_line : table_line (pos 12) (text "bob") ≡ text "|12        |bob       |"
unfolding table_line text pad_right show_int show_nat
user_line = refl
