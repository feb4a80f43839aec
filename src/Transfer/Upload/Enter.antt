-- ===== src/Transfer/Upload/Enter.antt =====
-- What recv_fileinfo (epoll+tpool/server/work.c) does with a file for one user.
use model_lib.Base.{ℕ, [], ◌∷◌, ◌++◌, ℤ, pos}
use model_lib.CString.{Text, text}
use model_lib.CString.Decimal.{show_int}
use model_lib.Packet.{SendPack, zero_pack}
use model_lib.Server.{Server}
use model_lib.Sqlite.Sql.{quote, insert_stmt, select_all}
use model_lib.Sqlite.Write.{◌<+>◌}

abbrev pub files_query : Text
files_query = select_all (text "filelist")

-- The row of a file for one user.
abbrev pub file_stmt : (name sender user : Text) → ℤ → Text
file_stmt name sender user id =
    insert_stmt (text "filelist") (text "name,name1,name2,name3,id1")
      (quote name <+> quote sender <+> quote user <+> quote (text "null") <+> show_int id)

-- The packet from which the row is made.
abbrev file_pack : (name sender user : Text) → ℤ → SendPack
file_pack name sender user id = record zero_pack {
  sourse_name = name;
  send_msg0 = sender;
  send_msg1 = user;
  send_msg2 = text "null" ++ 0 ∷ [];
  send_id1 = id;
}

-- The path of the new file.
abbrev pub file_path : ℕ → (fname : Text) → Text
file_path n fname = show_int (pos n) ++ (text "_" ++ fname)
