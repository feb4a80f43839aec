-- ===== src/Handle/Change/Rename.antt =====
-- What handle_change (epoll+tpool/server/handle.c) does with a new name that nobody has.
use model_lib.Base.{
  ◌+◌, ◌≤◌, ◌<◌, ◌≡◌, refl, ap, true, [], ◌∷◌, ◌++◌, arith, length, length-append, lt→ltb, ℤ, pos,
  int_eq, if◌then◌else◌,
}
use model_lib.CString.{Text, text, str_eq, max_size}
use model_lib.CString.Decimal.{show_int, atoi-show_int, IsInt, length-show_int-le}
use model_lib.Packet.{SendPack, CurrentData, Node, success, fail}
use model_lib.Server.{Answer, Env, Server, ok, sprintf}
use model_lib.Work.Copy.{IsString}
use model_lib.Sqlite.Sql.{quote, update_stmt}
use model_lib.Sqlite.Write.{update_data}
use model_lib.Sqlite.Insert.{c_string-ok, executed}
use model_lib.Sqlite.Search.{searched, Imports}
use model_lib.Handle.Account.ByName.{name_bound, name_query, count_name, inport_name}
use model_lib.Handle.Account.Signup.{send_pk-ok}
use model_lib.Handle.Account.Login.{memcpy_str-nil}
use model_lib.Handle.Show.Listing.{line_pack}
use model_lib.Handle.Friends.Requests.{inform-line}
use model_lib.Handle.Change.{Choice, choose_column, set_name, change_column, handle_change}
use model_lib.Handle.Change.Refuse.{chosen, choose-ok}

-- The new name is written into the row of the user's id.
abbrev pub rename_stmt : ℤ → Text → Text
rename_stmt id new =
    update_stmt (text "userdata") (text "name") (quote new) (text "id1") (show_int id)

length-rename_stmt :
    (id : ℤ) (new : Text) → length (rename_stmt id new) ≡ 39 + length new + length (show_int id)
unfolding update_stmt quote
length-rename_stmt id new = simp length-append (omega arith)

update_data-rename :
    (e : Env) (id : ℤ) (new : Text) (s : Server)
    → IsInt id
    → length new < max_size
    → update_data e (text "userdata") (text "name") new (text "id1") (show_int id) 3 s
      ≡ ok
          (if (e.exec s.db (rename_stmt id new)).rc_ok then success else fail)
          (executed s (rename_stmt id new))
unfolding update_data
update_data-rename e id new s int fits =
    let short : length (rename_stmt id new) < 640 =
      omega (arith, length-rename_stmt id new, length-show_int-le id int) in
    rw (atoi-show_int id, lt→ltb _ _ short) refl

sprintf-id :
    (id : ℤ) (s : Server) → IsInt id → sprintf max_size (show_int id) s ≡ ok (show_int id) s
unfolding sprintf
sprintf-id id s int =
    let short : length (show_int id) < max_size = omega (arith, length-show_int-le id int) in
    rw (lt→ltb _ _ short) refl

-- The answer's text.
abbrev pub renamed_line : (old new : Text) → Text
renamed_line old new =
    text "Your "
    ++ (text "name"
        ++ (text " has been updated from " ++ (old ++ (text " to " ++ (new ++ text " !")))))

length-renamed_line :
    (old new : Text) → length (renamed_line old new) ≡ 38 + length old + length new
unfolding text
length-renamed_line old new = simp length-append (omega arith)

is_name : str_eq (text "name") (text "name") ≡ true
unfolding str_eq text
is_name = refl

set_name-ok :
    (e : Env) (recv : SendPack) (temp : CurrentData) (s : Server)
    → IsString recv.send_msg0
    → set_name e recv temp s ≡ ok (record temp { current_name = recv.send_msg0 }) s
unfolding set_name
set_name-ok e recv temp s str =
    rw (c_string-ok recv.send_msg0 s str, memcpy_str-nil recv.send_msg0 s str)

change_column-name :
    (e : Env) (recv : SendPack) (cfd : ℤ) (temp : CurrentData) (choice : Choice) (s : Server)
    → choice.column ≡ text "name"
    → IsInt temp.current_id1
    → IsString recv.send_msg0
    → IsString choice.old_value
    → length choice.old_value + length recv.send_msg0 < 90
    → e.send_ok cfd ≡ true
    → change_column e recv cfd temp choice s
      ≡ ok
          (record temp { current_name = recv.send_msg0 })
          (record s {
            db = s.db ++ rename_stmt temp.current_id1 recv.send_msg0 ∷ [];
            sent = s.sent ++ (cfd, line_pack (renamed_line choice.old_value recv.send_msg0)) ∷ [];
          })
unfolding change_column
change_column-name e recv cfd temp choice s name int new old short up =
    let line = renamed_line choice.old_value recv.send_msg0 in
    let s1 = executed s (rename_stmt temp.current_id1 recv.send_msg0) in
    let s2 = record s1 { sent = s.sent ++ (cfd, line_pack line) ∷ [] } in
    rw (
      sprintf-id temp.current_id1 s int,
      c_string-ok recv.send_msg0 s new,
      name,
      update_data-rename e temp.current_id1 recv.send_msg0 s int new.fits,
      c_string-ok choice.old_value s1 old,
      inform-line line s1
          (omega (arith, length-renamed_line choice.old_value recv.send_msg0, short)),
      send_pk-ok e (line_pack line) cfd s1 up,
      is_name,
      set_name-ok e recv temp s2 new,
    )

-- With send_id1 1, for a user whose name is a string of at most 90 characters and has one row, a
-- new name that nobody has, the old and the new one strings of fewer than 90 bytes together, on a
-- connection that is up, handle_change searches both names, writes the new one into the row with
-- the user's id, tells the user both names, and keeps the new one as the current name. It executes
-- no other statement: the user's own table of friends and messages keeps the old name.
pub handle_change-rename :
    (e : Env) (recv : SendPack) (cfd : ℤ) (temp : CurrentData) (s : Server) (found used : Answer)
    (user : Node)
    → recv.send_id1 ≡ pos 1
    → IsString temp.current_name
    → length temp.current_name ≤ name_bound
    → IsInt temp.current_id1
    → e.exec s.db (name_query temp.current_name) ≡ found
    → Imports found.rows (user ∷ [])
    → length found.rows ≡ 1
    → IsString user.name
    → IsString recv.send_msg0
    → length user.name + length recv.send_msg0 < 90
    → e.exec (s.db ++ name_query temp.current_name ∷ []) (name_query recv.send_msg0) ≡ used
    → used.rows ≡ []
    → e.send_ok cfd ≡ true
    → handle_change e recv cfd temp s
      ≡ ok
          (record temp { current_name = recv.send_msg0 })
          (record s {
            flag = pos 0;
            cb_list = [];
            db =
                s.db
                ++ name_query temp.current_name ∷ []
                ++ name_query recv.send_msg0 ∷ []
                ++ rename_stmt temp.current_id1 recv.send_msg0 ∷ [];
            sent = s.sent ++ (cfd, line_pack (renamed_line user.name recv.send_msg0)) ∷ [];
          })
unfolding handle_change choose_column
handle_change-rename e recv cfd temp s found used user one own bounded int run im single old new
      short run' free up =
    let name = temp.current_name in
    let s1 = searched s (name_query name) 1 (user ∷ []) in
    let s2 = searched s1 (name_query recv.send_msg0) 0 [] in
    let asked : int_eq recv.send_id1 (pos 1) ≡ true = rw one refl in
    let none_used : length used.rows ≡ 0 = ap length free in
    let choice = record (chosen (text "name") user.name) { others = pos 0 } in
    rw (
      c_string-ok name s own,
      inport_name e name s found (user ∷ []) run im bounded (omega (arith, single)),
      single,
      asked,
      choose-ok (text "name") (λ n. n.name) user s1 old,
      c_string-ok recv.send_msg0 s1 new,
      count_name e recv.send_msg0 s1 used run' (omega (arith, short)) (omega (arith, none_used)),
      none_used,
      change_column-name e recv cfd temp choice s2 refl int new old short up,
    )
