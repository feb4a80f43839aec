-- ===== src/Sqlite/Write.antt =====
-- The functions of sqlite.c that change the database.
use model_lib.Base.{ℕ, ◌||◌, [], ◌++◌, ◌==◌, if◌then◌else◌, ℤ}
use model_lib.CString.{Text, Buf, text, c_str, str_eq, max_size}
use model_lib.CString.Decimal.{show_int, atoi}
use model_lib.Packet.{SendPack, success, fail}
use model_lib.Server.{Env, M, pure, exit, ◌>>=◌, ◌>>◌, or_fault, sprintf, sqlite3_exec}
use model_lib.Sqlite.Sql.{quote, insert_stmt, create_stmt, update_stmt, delete_stmt}

-- A `char` array read as a string.
unfoldable pub c_string : Buf → M Text
c_string b = or_fault (c_str max_size b)

-- `%s,%s` with the comma in between.
infixr 60 ◌<+>◌
abbrev pub ◌<+>◌ : Text → Text → Text
a <+> b = a ++ (text "," ++ b)

unfoldable pub create_sql : ℕ → Text → Text
create_sql cmd table =
    if cmd == 1
    then create_stmt table (text "message text,id1 integer")
    else if cmd == 2
    then create_stmt table (text "name text,id1 integer")
    else if cmd == 3
    then create_stmt table (text "name text,pswd text,ques text,answ text,id1 integer")
    else if cmd == 4
    then create_stmt table (text "message text,id1 integer,id2 integer")
    else if cmd == 5
    then create_stmt table (text "dec text,id1 integer,id2 integer")
    else if cmd == 6
    then create_stmt table (text "dec text,id1 integer,message text")
    else if cmd == 7
    then create_stmt table (text "name text,name1 text,name2 text,name3 text,id1 integer")
    else []

-- What `insert_data` prints for its `cmd`: nothing for another one, and the empty statement runs.
unfoldable pub insert_sql : ℕ → Text → SendPack → M Text
insert_sql cmd table recv =
    if cmd == 1
    then (do
      m ← c_string recv.send_msg0
      pure (insert_stmt table (text "message,id1") (quote m <+> show_int recv.send_id1)))
    else if cmd == 2
    then (do
      n ← c_string recv.sourse_name
      pure (insert_stmt table (text "name,id1") (quote n <+> show_int recv.send_id1)))
    else if cmd == 3
    then (do
      n ← c_string recv.sourse_name
      p ← c_string recv.send_msg0
      q ← c_string recv.send_msg1
      a ← c_string recv.send_msg2
      pure (
          insert_stmt table (text "name,pswd,ques,answ,id1")
            (quote n <+> quote p <+> quote q <+> quote a <+> show_int recv.send_id1)))
    else if cmd == 4
    then (do
      m ← c_string recv.send_msg0
      pure (
          insert_stmt table (text "message,id1,id2")
            (quote m <+> show_int recv.send_id1 <+> show_int recv.send_id2)))
    else if cmd == 5
    then (do
      m ← c_string recv.send_msg0
      pure (
          insert_stmt table (text "dec,id1,id2")
            (quote m <+> show_int recv.send_id1 <+> show_int recv.send_id2)))
    else if cmd == 6
    then (do
      d ← c_string recv.send_msg0
      m ← c_string recv.send_msg1
      pure (
          insert_stmt table (text "dec,id1,message")
            (quote d <+> show_int recv.send_id1 <+> quote m)))
    else if cmd == 7
    then (do
      n ← c_string recv.sourse_name
      n1 ← c_string recv.send_msg0
      n2 ← c_string recv.send_msg1
      n3 ← c_string recv.send_msg2
      pure (
          insert_stmt table (text "name,name1,name2,name3,id1")
            (quote n <+> quote n1 <+> quote n2 <+> quote n3 <+> show_int recv.send_id1)))
    else pure []

unfoldable pub update_sql : ℕ → (table column content select_column select_content : Text) → Text
update_sql cmd table column content select_column select_content =
    if cmd == 1
    then update_stmt table column (quote content) select_column (quote select_content)
    else if cmd == 2
    then update_stmt table column (show_int (atoi content)) select_column (quote select_content)
    else if cmd == 3
    then update_stmt table column (quote content) select_column (show_int (atoi select_content))
    else if cmd == 4
    then update_stmt table column (show_int (atoi content)) select_column
        (show_int (atoi select_content))
    else []

unfoldable pub delete_sql : (table column value : Text) → Text
delete_sql table column value =
    if str_eq column (text "id1") || str_eq column (text "id2")
    then delete_stmt table column (show_int (atoi value))
    else delete_stmt table column (quote value)

module _ (e : Env) where
  -- A refused statement ends the process.
  unfoldable pub create_table : Text → ℕ → M (Unit {0})
  unfolding create_sql sqlite3_exec sprintf
  create_table table cmd = do
    sql ← sprintf 256 (create_sql cmd table)
    a ← sqlite3_exec e sql
    if a.rc_ok then pure tt else exit

  unfoldable pub insert_data : Text → SendPack → ℕ → M ℤ
  unfolding insert_sql sqlite3_exec sprintf
  insert_data table recv cmd = do
    printed ← insert_sql cmd table recv
    sql ← sprintf 640 printed
    a ← sqlite3_exec e sql
    pure (if a.rc_ok then success else fail)

  unfoldable pub update_data : (table column content select_column select_content : Text) → ℕ → M ℤ
  unfolding update_sql sqlite3_exec sprintf
  update_data table column content select_column select_content cmd = do
    sql ← sprintf 640 (update_sql cmd table column content select_column select_content)
    a ← sqlite3_exec e sql
    pure (if a.rc_ok then success else fail)

  unfoldable pub delete_data : (table column value : Text) → M ℤ
  unfolding delete_sql sqlite3_exec sprintf
  delete_data table column value = do
    sql ← sprintf 640 (delete_sql table column value)
    a ← sqlite3_exec e sql
    pure (if a.rc_ok then success else fail)

  unfoldable pub delete_by_id : (table column : Text) → ℤ → M ℤ
  delete_by_id table column id = delete_data table column (show_int id)

  -- The tables that the server starts with, once `sqlite3_open` has succeeded.
  unfoldable pub sqlite3_init : M (Unit {0})
  sqlite3_init = do
    if e.open_ok then pure tt else exit
    create_table (text "userdata") 3
    create_table (text "grouplist") 2
    create_table (text "filelist") 7
    create_table (text "message") 4
    create_table (text "friendreq") 5
    create_table (text "groupinvite") 4
