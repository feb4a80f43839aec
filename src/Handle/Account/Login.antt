-- ===== src/Handle/Account/Login.antt =====
-- `handle_login` of handle.c on each branch.
use model_lib.Base.{
  ◌+◌, ◌≤◌, ◌<◌, ◌≡◌, ◌⊎◌, ◌==◌, true, false, ◌&&◌, List, [], ◌∷◌, ◌++◌, arith, length, lt→ltb, ℤ,
  pos, ap, sym, length-append,
}
use mathlib.Core.Path.{subst}
use mathlib.Core.List.{reverse_aux}
use model_lib.CString.{Text, text, mem_eq, copy_str-nil, max_size}
use model_lib.Packet.{SendPack, zero_pack, Node, success, fail, inport}
use model_lib.Server.{Env, Answer, Server, ok, fault}
use model_lib.Work.Copy.{IsString}
use model_lib.Sqlite.Search.{int_bound, Imports, searched}
use model_lib.Sqlite.Sql.{create_stmt}
use model_lib.Sqlite.Write.{create_table}
use model_lib.Sqlite.Import.{user_row, user_node, Fits, inport_row-user_row}
use model_lib.Sqlite.Insert.{c_string-ok, executed}
use model_lib.Handle.Common.{memcpy_str}
use model_lib.Handle.Account.{login_accept, handle_login}
use model_lib.Handle.Account.ByName.{name_bound, name_query, inport_name, long_name}
use model_lib.Handle.Account.Signup.{send_pk-ok}

-- The statement that makes a user's own table.
abbrev pub own_table : Text → Text
own_table name = create_stmt name (text "dec text,id1 integer,message text")

length-own_table : (name : Text) → length (own_table name) ≡ 63 + length name
unfolding create_stmt text
length-own_table name = simp length-append (omega arith)

create_table-own :
    (e : Env) (name : Text) (s : Server)
    → length name ≤ name_bound
    → (e.exec s.db (own_table name)).rc_ok ≡ true
    → create_table e name 6 s ≡ ok tt (executed s (own_table name))
unfolding create_table
create_table-own e name s short done =
    let fits : length (own_table name) < 256 = omega (arith, length-own_table name) in
    rw (lt→ltb _ _ fits, done)

pub memcpy_str-nil : (name : Text) (s : Server) → IsString name → memcpy_str [] name s ≡ ok name s
unfolding memcpy_str
memcpy_str-nil name s str = rw (copy_str-nil max_size name (omega (arith, str.fits)))

module _ (e : Env) (cfd : ℤ) (pk : SendPack) where
  -- What the list of online users gets in front.
  abbrev pub online_node : ℤ → Node
  online_node id = record e.heap_node { fd = cfd; name = pk.sourse_name; id1 = id }

  abbrev pub welcome : ℤ → SendPack
  welcome id = record zero_pack { result = success; sourse_name = pk.sourse_name; send_id1 = id }

  -- The state after a login: both `create table` statements, the new online user, the answer.
  abbrev pub logged_in : Server → ℤ → Server
  logged_in s id = record s {
    online_user = online_node id ∷ s.online_user;
    db = s.db ++ own_table pk.sourse_name ∷ [] ++ own_table pk.sourse_name ∷ [];
    sent = s.sent ++ (cfd, welcome id) ∷ [];
  }

  pub login_accept-ok :
      (s0 : Server) (found : Node) (rest : List Node)
      → let s = record s0 { cb_list = found ∷ rest } in
        IsString pk.sourse_name
        → length pk.sourse_name ≤ name_bound
        → (e.exec s.db (own_table pk.sourse_name)).rc_ok ≡ true
        → (e.exec (s.db ++ own_table pk.sourse_name ∷ []) (own_table pk.sourse_name)).rc_ok ≡ true
        → e.send_ok cfd ≡ true
        → login_accept e cfd pk.sourse_name pk found s ≡ ok tt (logged_in s found.id1)
  unfolding login_accept
  login_accept-ok s0 found rest str short made made_again up =
      let name = pk.sourse_name in
      let s = record s0 { cb_list = found ∷ rest } in
      let s1 = record s { online_user = online_node found.id1 ∷ s.online_user } in
      let s2 = executed s1 (own_table name) in
      let s3 = record s2 { sent = s.sent ++ (cfd, welcome found.id1) ∷ [] } in
      rw (
        c_string-ok name s str,
        memcpy_str-nil name s str,
        create_table-own e name s1 short made,
        c_string-ok name s2 str,
        memcpy_str-nil name s2 str,
        send_pk-ok e (welcome found.id1) cfd s2 up,
        create_table-own e name s3 short made_again,
      )

  -- When a name of at most 90 characters belongs to one user, whose fields fit their arrays, the
  -- packet carries that user's password, both statements that create the user's table succeed and
  -- the connection is up, handle_login puts the user at the front of the online list under the
  -- connection's descriptor and the stored id, answers SUCCESS with name and id, and executes only
  -- the search and the two statements.
  pub handle_login_accepts :
      (s : Server) (found : Answer) (ques answ pswd : Text) (id : ℤ)
      → IsString pk.sourse_name
      → length pk.sourse_name ≤ name_bound
      → e.exec s.db (name_query pk.sourse_name) ≡ found
      → found.rows ≡ user_row pk.sourse_name pswd ques answ id ∷ []
      → Fits pk.sourse_name pswd ques answ
      → mem_eq pk.send_msg0 pswd ≡ true
      → (e.exec (s.db ++ name_query pk.sourse_name ∷ []) (own_table pk.sourse_name)).rc_ok ≡ true
      → (e.exec
          (s.db ++ name_query pk.sourse_name ∷ [] ++ own_table pk.sourse_name ∷ [])
          (own_table pk.sourse_name)).rc_ok
        ≡ true
      → e.send_ok cfd ≡ true
      → handle_login e cfd pk s
        ≡ ok tt (
            logged_in
              (searched s
                (name_query pk.sourse_name)
                1
                (user_node pk.sourse_name pswd ques answ id ∷ []))
              id)
  unfolding handle_login
  handle_login_accepts s found ques answ pswd id str short run one fits same made made_again up =
      let name = pk.sourse_name in
      let user = user_node name pswd ques answ id in
      let im : Imports found.rows (user ∷ []) =
        subst (λ r. Imports r (user ∷ [])) (sym one)
          (inport_row-user_row name pswd ques answ id fits, tt) in
      let len : length found.rows ≡ 1 = ap length one in
      rw
        (
          c_string-ok name s str,
          memcpy_str-nil name s str,
          inport_name e name s found (user ∷ []) run im short (omega arith),
          len,
          same,
        )
        (login_accept-ok (searched s (name_query name) 1 []) user [] str short made made_again up)

  -- When a name of at most 90 characters has at least one user, and the packet carries another
  -- password than the newest of them or there are several, handle_login on a connection that is up
  -- answers FAIL, on a packet with whatever the stack held; nobody joins the online list, and
  -- nothing but the search is executed.
  pub handle_login_refuses :
      (s : Server) (found : Answer) (ns : List Node) (first : Node) (rest : List Node)
      → IsString pk.sourse_name
      → length pk.sourse_name ≤ name_bound
      → e.exec s.db (name_query pk.sourse_name) ≡ found
      → Imports found.rows ns
      → reverse_aux ns [] ≡ first ∷ rest
      → length found.rows < int_bound
      → (mem_eq pk.send_msg0 first.pswd ≡ false) ⊎ (1 < length found.rows)
      → e.send_ok cfd ≡ true
      → handle_login e cfd pk s
        ≡ ok tt (record s {
          flag = pos (length found.rows);
          cb_list = first ∷ rest;
          db = s.db ++ name_query pk.sourse_name ∷ [];
          sent = s.sent ++ (cfd, record e.stack_pack { result = fail }) ∷ [];
        })
  unfolding handle_login
  handle_login_refuses s found ns first rest str short run im last few reason up =
      let name = pk.sourse_name in
      let no : (mem_eq pk.send_msg0 first.pswd && (length found.rows == 1)) ≡ false =
        ground arith in
      rw (
        c_string-ok name s str,
        memcpy_str-nil name s str,
        inport_name e name s found ns run im short few,
        last,
        no,
        send_pk-ok e (record e.stack_pack { result = fail }) cfd
            (searched s (name_query name) (length found.rows) (first ∷ rest)) up,
      )

  -- A name of at most 90 characters that nobody has makes handle_login read the password through an
  -- empty list, a NULL pointer.
  handle_login_unknown :
      (s : Server) (found : Answer)
      → IsString pk.sourse_name
      → length pk.sourse_name ≤ name_bound
      → e.exec s.db (name_query pk.sourse_name) ≡ found
      → found.rows ≡ []
      → handle_login e cfd pk s ≡ fault
  unfolding handle_login
  handle_login_unknown s found str short run none =
      let name = pk.sourse_name in
      let im : Imports found.rows [] = subst (λ r. Imports r []) (sym none) tt in
      rw (
        c_string-ok name s str,
        memcpy_str-nil name s str,
        inport_name e name s found [] run im short (omega (arith, ap length none)),
      )

  -- A name of 91 characters or more, although its array holds it, makes handle_login run over the
  -- array of the search's statement.
  pub handle_login_long :
      (s : Server)
      → IsString pk.sourse_name
      → name_bound < length pk.sourse_name
      → handle_login e cfd pk s ≡ fault
  unfolding handle_login
  handle_login_long s str long = rw (
    c_string-ok pk.sourse_name s str,
    memcpy_str-nil pk.sourse_name s str,
    long_name e pk.sourse_name s inport long,
  )
