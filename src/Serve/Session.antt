-- ===== src/Serve/Session.antt =====
-- A session across both programs: the packets that the client's login and user_offline send, through
-- the server, and its answer back.
use model_lib.Base.{ℕ, ◌≤◌, ◌≡◌, refl, true, some, List, [], ◌∷◌, ◌++◌, length, arith, ℤ}
use mathlib.Core.Path.{subst}
use mathlib.Core.List.{append-nil}
use model_lib.CString.{Text, IsClean, c_str-put, copy_str-nil, max_size, mem_eq_refl}
use model_lib.Packet.{SendPack, zero_pack, success}
use model_lib.Packet.Cmd
use model_lib.Server.{Env, Answer, Server, M, ok}
use model_lib.Work.{Handler, select_handler, init_args}
use model_lib.Work.Copy.{
  IsString, HasStrings, copy_field, copy_field-nil, copy_sendpack, copy_sendpack-zero_pack,
}
use model_lib.Sqlite.Search.{searched}
use model_lib.Sqlite.Import.{user_row, user_node, Fits}
use model_lib.CString.Decimal.{IsInt}
use model_lib.Handle.Account.ByName.{name_bound, name_query}
use model_lib.Handle.Account.Login.{own_table, logged_in, welcome, handle_login_accepts}
use model_lib.Handle.Offline.Effect.{offline-login}
use model_lib.Handle
use model_lib.Serve.{worker, handle_packet}
use model_lib.Client
use model_lib.Client.{Arrival, message, packet}
use model_lib.Client.Account.{zero_data, login}
use model_lib.Client.Talk.{user_offline}
use model_lib.Client.Talk.Offline.{offline_packet, user_offline-sends}
use model_lib.Client.Scan.{skip_spaces}
use model_lib.Client.Password.Typed.{plain-IsClean}
use model_lib.Client.Account.Login.{keys_of, login_packet, Credentials, login-accepted}

-- A string that ends at its NUL is copied without it.
copy_field-word : (t : Text) → IsString t → copy_field [] (t ++ 0 ∷ []) ≡ some t
unfolding copy_field
copy_field-word t str =
    rw (
      c_str-put max_size t [] str.clean str.fits,
      copy_str-nil max_size t (omega (arith, str.fits)),
    )

-- What the handler gets of the client's packet.
abbrev pub login_request : Text → Text → SendPack
login_request name pw = record zero_pack {
  send_cmd = Cmd.login;
  sourse_name = name;
  send_msg0 = pw;
}

empty-IsString : IsString []
empty-IsString = omega arith

copy_sendpack-login :
    (name pw : Text)
    → IsString name
    → IsString pw
    → copy_sendpack zero_pack (login_packet name pw) ≡ some (login_request name pw)
unfolding copy_sendpack
copy_sendpack-login name pw n p =
    rw (copy_field-word name n, copy_field-nil pw p, copy_field-nil [] empty-IsString)

plain-IsString : (name pw : Text) → Credentials name pw → IsString pw
plain-IsString name pw cred = record {
  clean = subst IsClean (append-nil pw) (plain-IsClean pw [] cred.pw-IsPlain tt);
  fits = omega (arith, cred.pw_short);
}

module _ (e : Env) (transfer : Handler → ℤ → SendPack → M (Unit {0})) (fd : ℤ) where
  pub handle_packet-login :
      (name pw : Text) (s s' : Server)
      → IsString name
      → IsString pw
      → Handle.Account.handle_login e fd (login_request name pw) s ≡ ok tt s'
      → handle_packet e transfer fd (login_packet name pw) s ≡ ok tt s'
  unfolding handle_packet worker select_handler init_args
  handle_packet-login name pw s s' n p goes = rw (copy_sendpack-login name pw n p) goes

  pub handle_packet-offline :
      (name : Text) (id : ℤ) (s s' : Server)
      → IsString name
      → Handle.Offline.handle_offline fd (offline_packet name id) s ≡ ok tt s'
      → handle_packet e transfer fd (offline_packet name id) s ≡ ok tt s'
  unfolding handle_packet worker select_handler init_args
  handle_packet-offline name id s s' n goes =
      let strings : HasStrings (offline_packet name id) = record {
        sourse_name = n;
        send_msg0 = empty-IsString;
        send_msg1 = empty-IsString;
        send_msg2 = empty-IsString;
        send_msg3 = empty-IsString;
        send_msg4 = empty-IsString;
      } in
      rw (copy_sendpack-zero_pack (offline_packet name id) strings) goes

-- A client that is logged in.
abbrev pub known : Client.Client → Text → ℤ → Client.Client
known c name id = record c {
  temp_data0 = record zero_data { current_name = name; current_id1 = id };
}

-- The client after its packet and the answer.
abbrev pub replied : Client.Client → List ℕ → List Arrival → Text → Text → Client.Client
replied c keys more name pw = record c {
  typed = keys;
  arrived = more;
  sent = c.sent ++ packet (login_packet name pw) ∷ [];
}

-- The server after the login of a user with the name, the password and the id.
abbrev pub served : Env → ℤ → Text → Text → Text → Text → ℤ → Server → Server
served e fd name pw ques answ id s =
    logged_in e fd (login_request name pw)
      (searched s (name_query name) 1 (user_node name pw ques answ id ∷ [])) id

-- A session across both programs. A user types a name of at most 90 characters, without spaces or
-- NUL, and the password of 6 to 15 plain characters that the database has for exactly this name,
-- the fields fit, both statements that create the user's table succeed, and both connections are
-- up. Then the server, given the packet that login sends, puts the user online and answers SUCCESS;
-- login, given that answer, returns SUCCESS and keeps the name and the id; user_offline sends a
-- packet with both; and the server, given that one, has the online list of before the login again.
pub session :
    (e : Env) (transfer : Handler → ℤ → SendPack → M (Unit {0})) (fd : ℤ) (s : Server)
    (ce : Client.Env) (c : Client.Client) (keys : List ℕ) (more : List Arrival)
    (name pw ques answ : Text) (id : ℤ) (found : Answer)
    → Credentials name pw
    → length name ≤ name_bound
    → IsInt id
    → skip_spaces c.typed ≡ keys_of name pw keys
    → IsClean keys
    → c.arrived ≡ message (packet (welcome e fd (login_request name pw) id)) ∷ more
    → ce.send_ok ≡ true
    → e.send_ok fd ≡ true
    → e.exec s.db (name_query name) ≡ found
    → found.rows ≡ user_row name pw ques answ id ∷ []
    → Fits name pw ques answ
    → (e.exec (s.db ++ name_query name ∷ []) (own_table name)).rc_ok ≡ true
    → (e.exec (s.db ++ name_query name ∷ [] ++ own_table name ∷ []) (own_table name)).rc_ok ≡ true
    → let after = served e fd name pw ques answ id s in
      let me = known (replied c keys more name pw) name id in
      (handle_packet e transfer fd (login_packet name pw) s ≡ ok tt after)
      × (after.sent ≡ s.sent ++ (fd, welcome e fd (login_request name pw) id) ∷ [])
      × (login ce c ≡ Client.ok success me)
      × (user_offline ce me
          ≡ Client.ok tt (record me { sent = me.sent ++ packet (offline_packet name id) ∷ [] }))
      × (handle_packet e transfer fd (offline_packet name id) after
          ≡ ok tt (record after { online_user = s.online_user }))
session e transfer fd s ce c keys more name pw ques answ id found cred short int typed clean first
      cup up run one fits made again =
    let str = cred.name-IsString in
    let req = login_request name pw in
    let after = served e fd name pw ques answ id s in
    let data_ok =
      handle_login_accepts e fd req s found ques answ pw id str short run one fits (mem_eq_refl pw)
        made again up in
    (
      handle_packet-login e transfer fd name pw s after str (plain-IsString name pw cred) data_ok,
      refl,
      login-accepted ce c name pw keys more (welcome e fd req id) typed cred clean first cup refl
          str,
      user_offline-sends ce (known (replied c keys more name pw) name id) str cup,
      handle_packet-offline e transfer fd name id after
          (record after { online_user = s.online_user }) str
          (offline-login fd (offline_packet name id) e fd req
            (searched s (name_query name) 1 (user_node name pw ques answ id ∷ [])) id int refl),
    )
