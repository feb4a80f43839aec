-- ===== src/Handle/Account/Signup.antt =====
-- `handle_signup` of handle.c on each branch.
use model_lib.Base.{
  ℕ, suc, ◌+◌, ◌≤◌, ◌<◌, ◌≡◌, true, false, [], ◌∷◌, ◌++◌, ◌==◌, arith, length, ℤ, pos, int_inc-pos,
  ap,
}
use model_lib.CString.{Text}
use model_lib.Packet.{SendPack, success, fail, count}
use model_lib.Server.{Env, Answer, Server, ok, fault, send_pk}
use model_lib.Work.Copy.{IsString, HasStrings}
use model_lib.Sqlite.Search.{int_bound, searched}
use model_lib.Sqlite.Insert.{c_string-ok, user_stmt, executed, insert_data-user}
use model_lib.Handle.Account.{signup_new, handle_signup}
use model_lib.Handle.Account.ByName.{
  name_bound, name_query, all_query, count_name, long_name, count_all,
}

pub send_pk-ok :
    (e : Env) (pk : SendPack) (fd : ℤ) (s : Server)
    → e.send_ok fd ≡ true
    → send_pk e pk fd s ≡ ok tt (record s { sent = s.sent ++ (fd, pk) ∷ [] })
unfolding send_pk
send_pk-ok e pk fd s h = rw h

module _ (e : Env) (cfd : ℤ) (pk : SendPack) where
  -- The packet that goes back, with the new user's id.
  abbrev pub registered : ℕ → SendPack
  registered users = record pk { result = success; send_id1 = pos (users + 1) }

  abbrev new_user : ℕ → Text
  new_user users = user_stmt pk.sourse_name pk.send_msg0 pk.send_msg1 pk.send_msg2 (pos (users + 1))

  signup_new-ok :
      (s : Server) (a : Answer)
      → HasStrings pk
      → e.send_ok cfd ≡ true
      → e.exec s.db all_query ≡ a
      → length a.rows + 1 < int_bound
      → signup_new e cfd pk s
        ≡ ok tt (record s {
          flag = pos (length a.rows);
          cb_list = [];
          db = s.db ++ all_query ∷ [] ++ new_user (length a.rows) ∷ [];
          sent = s.sent ++ (cfd, registered (length a.rows)) ∷ [];
        })
  unfolding signup_new
  signup_new-ok s a str up run few =
      let users = length a.rows in
      let pk' = record pk { send_id1 = pos (users + 1) } in
      let s' = searched s all_query users [] in
      rw (
        count_all e s a run (omega arith),
        int_inc-pos users few,
        insert_data-user e pk' s' str.sourse_name str.send_msg0 str.send_msg1 str.send_msg2
            (omega arith),
        send_pk-ok e (registered users) cfd (executed s' (new_user users)) up,
      )

  -- For a packet of strings with a free name of at most 90 characters, on a connection that is up,
  -- handle_signup searches the name and then all users, inserts a row whose id is their number plus
  -- one, and answers SUCCESS with that id, whatever the database says to the insert; the online
  -- list stays as it is.
  pub handle_signup_free :
      (s : Server) (free all : Answer)
      → HasStrings pk
      → length pk.sourse_name ≤ name_bound
      → e.exec s.db (name_query pk.sourse_name) ≡ free
      → free.rows ≡ []
      → e.exec (s.db ++ name_query pk.sourse_name ∷ []) all_query ≡ all
      → length all.rows + 1 < int_bound
      → e.send_ok cfd ≡ true
      → handle_signup e cfd pk s
        ≡ ok tt (record s {
          flag = pos (length all.rows);
          cb_list = [];
          db =
              s.db
              ++ name_query pk.sourse_name ∷ []
              ++ all_query ∷ []
              ++ new_user (length all.rows) ∷ [];
          sent = s.sent ++ (cfd, registered (length all.rows)) ∷ [];
        })
  unfolding handle_signup
  handle_signup_free s free all str short run_free none_found run_all few up =
      let none : length free.rows ≡ 0 = ap length none_found in
      rw
        (
          c_string-ok pk.sourse_name s str.sourse_name,
          count_name e pk.sourse_name s free run_free short (omega arith),
          none,
        )
        (signup_new-ok (searched s (name_query pk.sourse_name) 0 []) all str up run_all few)

  -- For a name of at most 90 characters that some user has, on a connection that is up,
  -- handle_signup answers FAIL with the packet it got and executes nothing but the search.
  pub handle_signup_taken :
      (s : Server) (found : Answer) {k : ℕ}
      → IsString pk.sourse_name
      → length pk.sourse_name ≤ name_bound
      → e.exec s.db (name_query pk.sourse_name) ≡ found
      → length found.rows ≡ suc k
      → suc k < int_bound
      → e.send_ok cfd ≡ true
      → handle_signup e cfd pk s
        ≡ ok tt (record s {
          flag = pos (suc k);
          cb_list = [];
          db = s.db ++ name_query pk.sourse_name ∷ [];
          sent = s.sent ++ (cfd, record pk { result = fail }) ∷ [];
        })
  unfolding handle_signup
  handle_signup_taken s found {k} str short run some_found few up =
      let other : (suc k == 0) ≡ false = ground arith in
      rw (
        c_string-ok pk.sourse_name s str,
        count_name e pk.sourse_name s found run short (omega arith),
        some_found,
        other,
        send_pk-ok e (record pk { result = fail }) cfd
            (searched s (name_query pk.sourse_name) (suc k) []) up,
      )

  -- A name of 91 bytes or more, although its array holds it, runs over the server's stack.
  pub handle_signup_long :
      (s : Server)
      → IsString pk.sourse_name
      → name_bound < length pk.sourse_name
      → handle_signup e cfd pk s ≡ fault
  unfolding handle_signup
  handle_signup_long s str long =
      rw (c_string-ok pk.sourse_name s str, long_name e pk.sourse_name s count long)
