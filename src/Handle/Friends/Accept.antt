-- ===== src/Handle/Friends/Accept.antt =====
-- What handle_accept_friend (epoll+tpool/server/handle.c) does with the request that it finds first.
use mathlib.Core.Path.{subst}
use mathlib.Core.List.{reverse_aux}
use model_lib.Base.{
  ◌+◌, ◌<◌, ◌≡◌, refl, ap, inl, inr, true, some, List, [], ◌∷◌, ◌++◌, arith, if◌then◌else◌, length,
  Bool-cases, ℤ, pos, int_eq,
}
use model_lib.CString.{Text, str_eq, text, max_size}
use model_lib.CString.Decimal.{show_int, atoi-show_int, IsInt, length-show_int-le}
use model_lib.Packet.{SendPack, CurrentData, Node, inport, exchange}
use model_lib.Server.{Row, Answer, Env, Server, ok}
use model_lib.Work.Copy.{IsString}
use model_lib.Sqlite.{search_sql, search_by_id}
use model_lib.Sqlite.Sql.{select_int}
use model_lib.Sqlite.Insert.{c_string-ok, entry_stmt, executed}
use model_lib.Sqlite.Search.{int_bound, Imports, searched, search_data-inport, length-select_int}
use model_lib.Handle.Show.Listing.{strcpy-nil}
use model_lib.Handle.Send.Rows.{group_row-ok, insert_text, c_string-put}
use model_lib.Handle.Send.Single.{id_query, search_name_by_id}
use model_lib.Handle.Friends.{befriend, handle_accept_friend}

-- The search of the requests to a user.
abbrev pub requests_query : ℤ → Text
requests_query id = select_int (text "friendreq") (text "id2") id

requests_sql :
    (id : ℤ)
    → search_sql (text "friendreq") (some (text "id2")) (some (show_int id)) ≡ requests_query id
unfolding search_sql text str_eq
requests_sql id = ap (select_int (text "friendreq") (text "id2")) (atoi-show_int id)

length-requests_query : (id : ℤ) → length (requests_query id) ≡ 35 + length (show_int id)
unfolding text
length-requests_query id = omega (arith, length-select_int (text "friendreq") (text "id2") id)

search_requests :
    (e : Env) (id : ℤ) (s : Server) (a : Answer) (ns : List Node)
    → IsInt id
    → e.exec s.db (requests_query id) ≡ a
    → Imports a.rows ns
    → length a.rows < int_bound
    → search_by_id e (text "friendreq") (text "id2") id inport s
      ≡ ok
          (pos (length a.rows))
          (searched s (requests_query id) (length a.rows) (reverse_aux ns []))
unfolding search_by_id
search_requests e id s a ns int run im few =
    subst
      (λ q.
        e.exec s.db q ≡ a
        → length q < max_size
        → search_by_id e (text "friendreq") (text "id2") id inport s
          ≡ ok (pos (length a.rows)) (searched s q (length a.rows) (reverse_aux ns [])))
      (requests_sql id)
      (λ r f.
        search_data-inport e (text "friendreq") (some (text "id2")) (some (show_int id)) s a ns r im
          f few)
      run (omega (arith, length-requests_query id, length-show_int-le id int))

abbrev pub friend_stmt : (table : Text) → ℤ → (name : Text) → Text
friend_stmt table id name = entry_stmt table (text "friend") id name

-- The kind of the rows.
friend-IsString : IsString (text "friend")
unfolding text
friend-IsString = omega arith

-- After the statements executed so far, the database has one row for the id, which begins with the
-- name.
pub record HasName (e : Env) (history : List Text) (id : ℤ) (name : Text) : Type 0 where
  pub int : IsInt id
  pub string : IsString name
  pub column : Text
  pub others : Row
  pub run :
      e.exec history (id_query id)
      ≡ record { rc_ok = true; rows = ((column, some name) ∷ others) ∷ [] }

search_name :
    (e : Env) (id : ℤ) (name : Text) (s : Server)
    → HasName e s.db id name
    → search_by_id e (text "userdata") (text "id1") id exchange s
      ≡ ok (pos 1) (record (searched s (id_query id) 1 []) { temp_name = name })
search_name e id name s has =
    search_name_by_id e id s
      (record { rc_ok = true; rows = ((has.column, some name) ∷ has.others) ∷ [] }) has.int has.run
      (omega (arith, has.string.fits), tt) (omega arith)

module _ (temp : CurrentData) (other : ℤ) (own_name other_name : Text) (s : Server) where
  -- The statements up to the user's own row.
  abbrev pub half : List Text
  half = s.db ++ id_query other ∷ [] ++ friend_stmt temp.current_name other other_name ∷ []

  -- A row for each of the two, with the other's id and name.
  abbrev pub friends : Server
  friends = record s {
    flag = pos 1;
    cb_list = [];
    temp_name = own_name;
    db =
        half
        ++ id_query temp.current_id1 ∷ []
        ++ friend_stmt other_name temp.current_id1 own_name ∷ [];
  }

  befriend-ok :
      (e : Env)
      → IsString temp.current_name
      → HasName e s.db other other_name
      → HasName e half temp.current_id1 own_name
      → befriend e other temp s ≡ ok tt friends
  unfolding befriend
  befriend-ok e own has has' =
      let s1 = record (searched s (id_query other) 1 []) { temp_name = other_name } in
      let s2 = executed s1 (friend_stmt temp.current_name other other_name) in
      let s3 = record (searched s2 (id_query temp.current_id1) 1 []) { temp_name = own_name } in
      rw (
        search_name e other other_name s has,
        c_string-ok other_name s1 has.string,
        group_row-ok (text "friend") other other_name friend-IsString has.string s1,
        c_string-ok temp.current_name s1 own,
        insert_text (text "friend") other other_name friend-IsString has.string e temp.current_name
            s1 own has.int,
        strcpy-nil other_name s2 has.string.fits,
        search_name e temp.current_id1 own_name s2 has',
        c_string-ok own_name s3 has'.string,
        group_row-ok (text "friend") temp.current_id1 own_name friend-IsString has'.string s3,
        c_string-put other_name s3 has.string,
        insert_text (text "friend") temp.current_id1 own_name friend-IsString has'.string e
            other_name s3 has.string has'.int,
      )

-- For a user with a request in friendreq, the rows being fewer than an int can count,
-- handle_accept_friend compares the id asked for with that of the first node in cb_head's list, the
-- last row found. If they agree, and the database has for both ids a row that begins with a name, a
-- string, both users become friends of each other: the table named by the user's current name gets
-- a row with the other's id and name, and the table named by the other's name one with the user's
-- id and name. If they differ, nothing is entered, whatever other requests there are and whatever
-- names the database has. The user's current name is a string, and the current id an int.
pub handle_accept_friend-first :
    (e : Env) (recv_pk : SendPack) (cfd : ℤ) (temp : CurrentData) (own_name other_name : Text)
    (s : Server) (a : Answer) (ns : List Node) (first : Node) (rest : List Node)
    → e.exec s.db (requests_query temp.current_id1) ≡ a
    → Imports a.rows ns
    → length a.rows < int_bound
    → reverse_aux ns [] ≡ first ∷ rest
    → IsString temp.current_name
    → IsInt temp.current_id1
    → (int_eq first.id1 recv_pk.send_id1 ≡ true
        → HasName e (s.db ++ requests_query temp.current_id1 ∷ []) recv_pk.send_id1 other_name)
    → (int_eq first.id1 recv_pk.send_id1 ≡ true
        → HasName e
            (half temp recv_pk.send_id1 own_name other_name
              (executed s (requests_query temp.current_id1)))
            temp.current_id1
            own_name)
    → let found = searched s (requests_query temp.current_id1) (length a.rows) (first ∷ rest) in
      handle_accept_friend e recv_pk cfd temp s
      ≡ ok tt (
          if int_eq first.id1 recv_pk.send_id1
          then friends temp recv_pk.send_id1 own_name other_name found
          else found)
unfolding handle_accept_friend
handle_accept_friend-first e recv_pk cfd temp own_name other_name s a ns first rest run im few order
      own int has has' =
    let found = searched s (requests_query temp.current_id1) (length a.rows) (first ∷ rest) in
    let search = search_requests e temp.current_id1 s a ns int run im few in
    elim (Bool-cases (int_eq first.id1 recv_pk.send_id1)) [
      | inl same ↦ rw (
        search,
        order,
        same,
        befriend-ok temp recv_pk.send_id1 own_name other_name found e own (has same) (has' same),
      )
      | inr other ↦ rw (search, order, other) refl
    ]
