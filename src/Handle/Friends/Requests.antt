-- ===== src/Handle/Friends/Requests.antt =====
-- What handle_add_friend (epoll+tpool/server/handle.c) does: a request, whoever is asked.
use mathlib.Core.Path.{subst}
use model_lib.Base.{
  ◌+◌, ◌≤◌, ◌<◌, ◌≡◌, refl, true, Option, none, some, List, [], ◌∷◌, ◌++◌, append-nil, arith,
  if◌then◌else◌, length, length-append, lt→ltb, ℤ, pos,
}
use model_lib.CString.{Text, str_eq, text, max_size, c_str-put}
use model_lib.CString.Decimal.{show_int, IsInt, length-show_int-le}
use model_lib.Packet.{SendPack, zero_pack, CurrentData, Node, count, success, fail}
use model_lib.Server.{Answer, Env, Server, ok}
use model_lib.Work.Copy.{IsString}
use model_lib.Sqlite.{search_sql, search_data}
use model_lib.Sqlite.Sql.{quote, insert_stmt, select_text}
use model_lib.Sqlite.Write.{◌<+>◌, c_string, insert_data}
use model_lib.Sqlite.Insert.{c_string-ok, executed}
use model_lib.Sqlite.Search.{
  int_bound, Named, kept_name, searched, search_data-count, length-select_text,
}
use model_lib.Handle.Account.ByName.{name_bound}
use model_lib.Handle.Account.Signup.{send_pk-ok}
use model_lib.Handle.Show.Listing.{line_pack, strcpy-nil}
use model_lib.Handle.Send.{find_online, inform}
use model_lib.Handle.Send.Single.{id_query, search_name_by_id, unchecked-IsString}
use model_lib.Handle.Friends.{request_row, is_friend, notify, ask_friend, handle_add_friend}

-- The search of a user's friends.
abbrev pub friends_query : Text → Text
friends_query own = select_text own (text "dec") (text "friend")

friends_sql :
    (own : Text) → search_sql own (some (text "dec")) (some (text "friend")) ≡ friends_query own
unfolding search_sql text str_eq
friends_sql own = refl

length-friends_query : (own : Text) → length (friends_query own) ≡ 34 + length own
unfolding text
length-friends_query own = omega (arith, length-select_text own (text "dec") (text "friend"))

count_friends :
    (e : Env) (own : Text) (s : Server) (a : Answer)
    → e.exec s.db (friends_query own) ≡ a
    → length own ≤ name_bound
    → length a.rows < int_bound
    → search_data e own (some (text "dec")) (some (text "friend")) count s
      ≡ ok (pos (length a.rows)) (searched s (friends_query own) (length a.rows) [])
count_friends e own s a run short few =
    subst
      (λ q.
        e.exec s.db q ≡ a
        → length q < max_size
        → search_data e own (some (text "dec")) (some (text "friend")) count s
          ≡ ok (pos (length a.rows)) (searched s q (length a.rows) []))
      (friends_sql own)
      (λ r f. search_data-count e own (some (text "dec")) (some (text "friend")) s a r f few) run
      (omega (arith, length-friends_query own))

-- The request's row.
abbrev pub request_stmt : (from to : ℤ) → Text
request_stmt from to =
    insert_stmt (text "friendreq") (text "dec,id1,id2")
      (quote (text "unchecked") <+> show_int from <+> show_int to)

length-request_stmt :
    (from to : ℤ)
    → length (request_stmt from to) ≡ 57 + length (show_int from) + length (show_int to)
unfolding insert_stmt quote text
length-request_stmt from to = simp length-append (omega arith)

-- The request as a packet, its kind with its NUL.
abbrev request_pack : (from to : ℤ) → SendPack
request_pack from to = record zero_pack {
  send_msg0 = text "unchecked" ++ 0 ∷ [];
  send_id1 = from;
  send_id2 = to;
}

request_row-ok : (from to : ℤ) (s : Server) → request_row from to s ≡ ok (request_pack from to) s
unfolding request_row
request_row-ok from to s = rw (strcpy-nil (text "unchecked") s unchecked-IsString.fits)

insert_data-request :
    (e : Env) (from to : ℤ) (s : Server)
    → IsInt from
    → IsInt to
    → insert_data e (text "friendreq") (request_pack from to) 5 s
      ≡ ok
          (if (e.exec s.db (request_stmt from to)).rc_ok then success else fail)
          (executed s (request_stmt from to))
unfolding insert_data c_string
insert_data-request e from to s i j =
    let kind = unchecked-IsString in
    let short : length (request_stmt from to) < 640 =
      omega
        (arith, length-request_stmt from to, length-show_int-le from i, length-show_int-le to j) in
    rw (c_str-put max_size (text "unchecked") [] kind.clean kind.fits, lt→ltb _ _ short)

-- What the user who is asked is told, if online.
abbrev pub notices : (own : Text) → Option Node → List (ℤ × SendPack)
notices own none = []
notices own (some p) = (p.fd, line_pack (own ++ text " wants to be your friend !")) ∷ []

notice-lt :
    (own : Text)
    → length own ≤ name_bound
    → length (own ++ text " wants to be your friend !") < max_size
unfolding text
notice-lt own h = omega (arith, length-append own (text " wants to be your friend !"))

pub inform-line :
    (line : Text) (s : Server)
    → length line < max_size
    → inform zero_pack line s ≡ ok (line_pack line) s
unfolding inform
inform-line line s h = rw (strcpy-nil line s h)

notify-ok :
    (e : Env) (temp : CurrentData) (p : Option Node) (s : Server)
    → IsString temp.current_name
    → length temp.current_name ≤ name_bound
    → ((fd : ℤ) → e.send_ok fd ≡ true)
    → notify e temp p s ≡ ok tt (record s { sent = s.sent ++ notices temp.current_name p })
unfolding notify
notify-ok e temp none s str short up = rw append-nil
notify-ok e temp (some p) s str short up =
    let own = temp.current_name in
    rw (
      c_string-ok own s str,
      inform-line (own ++ text " wants to be your friend !") s (notice-lt own short),
      send_pk-ok e (line_pack (own ++ text " wants to be your friend !")) p.fd s (up p.fd),
    )

-- For a name of at most 90 characters and connections that are up, handle_add_friend enters a
-- friend request and tells the one asked if online, whatever rows the search for existing friends
-- finds: two users who are friends already are not told so.
pub handle_add_friend-requests :
    (e : Env) (recv_pk : SendPack) (cfd : ℤ) (temp : CurrentData) (s : Server)
    (user friends : Answer)
    → IsInt recv_pk.send_id1
    → IsInt temp.current_id1
    → IsString temp.current_name
    → length temp.current_name ≤ name_bound
    → e.exec s.db (id_query recv_pk.send_id1) ≡ user
    → Named user.rows
    → length user.rows < int_bound
    → e.exec (s.db ++ id_query recv_pk.send_id1 ∷ []) (friends_query temp.current_name) ≡ friends
    → length friends.rows < int_bound
    → ((fd : ℤ) → e.send_ok fd ≡ true)
    → handle_add_friend e recv_pk cfd temp s
      ≡ ok tt (record s {
        flag = pos (length friends.rows);
        cb_list = [];
        temp_name = kept_name user.rows s.temp_name;
        db =
            s.db
            ++ id_query recv_pk.send_id1 ∷ []
            ++ friends_query temp.current_name ∷ []
            ++ request_stmt temp.current_id1 recv_pk.send_id1 ∷ [];
        sent = s.sent ++ notices temp.current_name (find_online recv_pk.send_id1 s.online_user);
      })
unfolding handle_add_friend is_friend ask_friend
handle_add_friend-requests e recv_pk cfd temp s user friends i j str short run named few run' few'
      up =
    let own = temp.current_name in
    let id = recv_pk.send_id1 in
    let s1 = record (searched s (id_query id) (length user.rows) []) {
      temp_name = kept_name user.rows s.temp_name;
    } in
    let s2 = searched s1 (friends_query own) (length friends.rows) [] in
    rw (
      search_name_by_id e id s user i run named few,
      c_string-ok own s1 str,
      count_friends e own s1 friends run' short few',
      request_row-ok temp.current_id1 id s2,
      insert_data-request e temp.current_id1 id s2 j i,
      notify-ok e temp (find_online id s.online_user)
          (executed s2 (request_stmt temp.current_id1 id)) str short up,
    )
