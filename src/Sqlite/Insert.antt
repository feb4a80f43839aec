-- ===== src/Sqlite/Insert.antt =====
-- What `insert_data` of sqlite.c adds to the history for a user and for a message.
use model_lib.Base.{
  some, ◌+◌, ◌<◌, ◌≡◌, [], ◌∷◌, ◌++◌, arith, length, length-append, lt→ltb, if◌then◌else◌, ℤ,
}
use model_lib.CString.{Text, text, c_str, c_str-clean, max_size}
use model_lib.CString.Decimal.{show_int, IsInt, length-show_int-le}
use model_lib.Packet.{SendPack, success, fail}
use model_lib.Server.{Env, Server, ok}
use model_lib.Work.Copy.{IsString}
use model_lib.Sqlite.Sql.{quote, insert_stmt}
use model_lib.Sqlite.Write.{◌<+>◌, c_string, insert_data}

pub c_string-ok : (b : Text) (s : Server) → IsString b → c_string b s ≡ ok b s
unfolding c_string
c_string-ok b s str = rw (c_str-clean max_size b str.clean str.fits)

-- The row of a new user.
abbrev pub user_stmt : (name pswd ques answ : Text) → ℤ → Text
user_stmt name pswd ques answ id =
    insert_stmt (text "userdata") (text "name,pswd,ques,answ,id1")
      (quote name <+> quote pswd <+> quote ques <+> quote answ <+> show_int id)

-- The row of a message, a member or a friend.
abbrev pub entry_stmt : (table dec : Text) → ℤ → (message : Text) → Text
entry_stmt table dec id message =
    insert_stmt table (text "dec,id1,message") (quote dec <+> show_int id <+> quote message)

length-user_stmt :
    (name pswd ques answ : Text) (id : ℤ)
    → length (user_stmt name pswd ques answ id)
      ≡ 67 + length name + length pswd + length ques + length answ + length (show_int id)
unfolding insert_stmt quote
length-user_stmt name pswd ques answ id = simp length-append (omega arith)

length-entry_stmt :
    (table dec message : Text) (id : ℤ)
    → length (entry_stmt table dec id message)
      ≡ 45 + length table + length dec + length message + length (show_int id)
unfolding insert_stmt quote
length-entry_stmt table dec message id = simp length-append (omega arith)

-- The state after a statement that only adds to the history.
abbrev pub executed : Server → Text → Server
executed s sql = record s { db = s.db ++ sql ∷ [] }

module _ (e : Env) (pk : SendPack) (s : Server) where
  -- For a packet whose texts are strings, insert_data on userdata executes the one statement with
  -- the packet's name, password, question, answer and id, and returns SUCCESS if the database
  -- accepts it and FAIL if not.
  pub insert_data-user :
      IsString pk.sourse_name
      → IsString pk.send_msg0
      → IsString pk.send_msg1
      → IsString pk.send_msg2
      → IsInt pk.send_id1
      → let sql = user_stmt pk.sourse_name pk.send_msg0 pk.send_msg1 pk.send_msg2 pk.send_id1 in
        insert_data e (text "userdata") pk 3 s
        ≡ ok (if (e.exec s.db sql).rc_ok then success else fail) (executed s sql)
  unfolding insert_data
  insert_data-user n p q a i = rw (
    c_string-ok pk.sourse_name s n,
    c_string-ok pk.send_msg0 s p,
    c_string-ok pk.send_msg1 s q,
    c_string-ok pk.send_msg2 s a,
    lt→ltb _ _ short,
  )
    where
      short :
          length (user_stmt pk.sourse_name pk.send_msg0 pk.send_msg1 pk.send_msg2 pk.send_id1) < 640
      short = omega (
        arith,
        length-user_stmt pk.sourse_name pk.send_msg0 pk.send_msg1 pk.send_msg2 pk.send_id1,
        length-show_int-le pk.send_id1 i,
      )

  -- The two strings may have bytes behind their NUL.
  pub insert_data-entry :
      (table dec message : Text)
      → length table < max_size
      → c_str max_size pk.send_msg0 ≡ some dec
      → length dec < max_size
      → c_str max_size pk.send_msg1 ≡ some message
      → length message < max_size
      → IsInt pk.send_id1
      → let sql = entry_stmt table dec pk.send_id1 message in
        insert_data e table pk 6 s
        ≡ ok (if (e.exec s.db sql).rc_ok then success else fail) (executed s sql)
  unfolding insert_data c_string
  insert_data-entry table dec message t d d_fits m m_fits i = rw (d, m, lt→ltb _ _ short)
    where
      short : length (entry_stmt table dec pk.send_id1 message) < 640
      short =
          omega (
            arith,
            length-entry_stmt table dec message pk.send_id1,
            length-show_int-le pk.send_id1 i,
          )
