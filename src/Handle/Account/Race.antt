-- ===== src/Handle/Account/Race.antt =====
-- Two logins at once. handle_login of epoll+tpool/server/handle.c reads the result of its search
-- through the global cb_head, which no lock protects; two threads of the pool may be in it together.
use mathlib.Core.List.{reverse_aux}
use model_lib.Base.{
  ◌≤◌, ◌<◌, ◌≡◌, refl, inl, Bool, true, false, ◌&&◌, some, List, [], ◌∷◌, ◌++◌, arith,
  if◌then◌else◌, length, ◌∙◌, ℤ, pos, int_eq,
}
use model_lib.CString.{Buf, text, mem_eq}
use model_lib.Packet.{SendPack, Node, fail, inport}
use model_lib.Server.{
  Env, Answer, Server, Run, M, ok, fault, exited, pure, and_then, ◌>>=◌, ◌>>◌, gets, first_node,
  send_pk,
}
use model_lib.Work.Copy.{IsString}
use model_lib.Sqlite.{search_data}
use model_lib.Sqlite.Write.{c_string}
use model_lib.Sqlite.Search.{int_bound, Imports, searched}
use model_lib.Sqlite.Insert.{c_string-ok}
use model_lib.Handle.Common.{memcpy_str}
use model_lib.Handle.Account.{login_accept, handle_login}
use model_lib.Handle.Account.ByName.{name_bound, name_query, inport_name}
use model_lib.Handle.Account.Login.{
  own_table, logged_in, memcpy_str-nil, login_accept-ok, handle_login_refuses,
}

-- What a thread holds between the search and the test of the password.
pub record Local : Type 0 where
  pub buf : Buf
  pub ret : ℤ

-- Where a thread stands in handle_login.
pub data Phase : Type 0 where
  before : Phase
  deciding : Local → Phase
  after : Phase

module _ (e : Env) where
  -- handle_login up to the return of search_data.
  unfoldable pub login_search : SendPack → M Local
  login_search recv_pack = do
    name ← c_string recv_pack.sourse_name
    buf ← memcpy_str [] name
    ret ← search_data e (text "userdata") (some (text "name")) (some name) inport
    pure (record { buf = buf; ret = ret })

  -- The rest, from the read of `(cb_head->next)->pswd` on.
  unfoldable pub login_decide : ℤ → SendPack → Local → M (Unit {0})
  login_decide cfd recv_pack l = do
    found ← first_node (← gets λ s. s.cb_list)
    if mem_eq recv_pack.send_msg0 found.pswd && int_eq l.ret (pos 1)
        then login_accept e cfd l.buf recv_pack found
        else send_pk e (record e.stack_pack { result = fail }) cfd

  unfoldable pub advance : ℤ → SendPack → Phase → M Phase
  unfolding login_search login_decide
  advance cfd recv_pack before = do l ← login_search recv_pack; pure (deciding l)
  advance cfd recv_pack (deciding l) = do login_decide cfd recv_pack l; pure after
  advance cfd recv_pack after = pure after

  -- Two threads, each with its connection and packet; the schedule says whose part comes next, the
  -- first thread's with `true`.
  module _ (c1 c2 : ℤ) (pk1 pk2 : SendPack) where
    unfoldable pub interleave : List Bool → Phase → Phase → M (Phase × Phase)
    interleave [] p q = pure (p, q)
    interleave (true ∷ schedule) p q = do p' ← advance c1 pk1 p; interleave schedule p' q
    interleave (false ∷ schedule) p q = do q' ← advance c2 pk2 q; interleave schedule p q'

and_then_assoc :
    {A B C : Type 0} (r : Run A) (f : A → M B) (g : B → M C)
    → and_then (and_then r f) g ≡ and_then r (λ a s. and_then (f a s) g)
and_then_assoc (ok a s) f g = refl
and_then_assoc fault f g = refl
and_then_assoc exited f g = refl

-- One after the other, the two parts are the handler.
login_parts :
    (e : Env) (cfd : ℤ) (pk : SendPack) (s : Server)
    → handle_login e cfd pk s ≡ (login_search e pk >>= login_decide e cfd pk) s
unfolding handle_login login_search login_decide
login_parts e cfd pk s = simp and_then_assoc

module _ (e : Env) (cfd : ℤ) (pk : SendPack) where
  login_search-ok :
      (s : Server) (found : Answer) (ns : List Node)
      → IsString pk.sourse_name
      → length pk.sourse_name ≤ name_bound
      → e.exec s.db (name_query pk.sourse_name) ≡ found
      → Imports found.rows ns
      → length found.rows < int_bound
      → login_search e pk s
        ≡ ok
            (record { buf = pk.sourse_name; ret = pos (length found.rows) })
            (searched s (name_query pk.sourse_name) (length found.rows) (reverse_aux ns []))
  unfolding login_search
  login_search-ok s found ns str short run im few = rw (
    c_string-ok pk.sourse_name s str,
    memcpy_str-nil pk.sourse_name s str,
    inport_name e pk.sourse_name s found ns run im short few,
  )

  -- The decision on the row that is in cb_head's list now, whoever searched for it.
  login_decide-accepts :
      (s0 : Server) (found : Node)
      → let s = record s0 { cb_list = found ∷ [] } in
        IsString pk.sourse_name
        → length pk.sourse_name ≤ name_bound
        → mem_eq pk.send_msg0 found.pswd ≡ true
        → (e.exec s.db (own_table pk.sourse_name)).rc_ok ≡ true
        → (e.exec (s.db ++ own_table pk.sourse_name ∷ []) (own_table pk.sourse_name)).rc_ok ≡ true
        → e.send_ok cfd ≡ true
        → login_decide e cfd pk (record { buf = pk.sourse_name; ret = pos 1 }) s
          ≡ ok tt (logged_in e cfd pk s found.id1)
  unfolding login_decide
  login_decide-accepts s0 found str short same made again up =
      rw same (login_accept-ok e cfd pk s0 found [] str short made again up)

-- What a thread holds whose search for the name found one row.
abbrev pub found_one : Buf → Local
found_one name = record { buf = name; ret = pos 1 }

-- The server after both searches, which found one row each.
abbrev pub both_searched : Server → SendPack → SendPack → Node → Server
both_searched s pk1 pk2 n2 = record (searched s (name_query pk1.sourse_name) 1 []) {
  cb_list = n2 ∷ [];
  db = s.db ++ name_query pk1.sourse_name ∷ [] ++ name_query pk2.sourse_name ∷ [];
}

-- Two logins at once, on two threads. Let both names be strings of at most 90 characters, let the
-- search for each find one row, and let the first packet's password differ from that of its own row
-- and be that of the second user's row. If the second search runs between the first thread's search
-- and its test of the password, and the two create statements and the connection work, then the
-- first client is let in: it is put online under its own name with the second user's id, and is
-- answered with SUCCESS. Alone, the same packet in the same state is answered with FAIL.
pub crossed_logins :
    (e : Env) (c1 c2 : ℤ) (pk1 pk2 : SendPack) (s : Server) (a1 a2 : Answer) (n1 n2 : Node)
    → IsString pk1.sourse_name
    → length pk1.sourse_name ≤ name_bound
    → IsString pk2.sourse_name
    → length pk2.sourse_name ≤ name_bound
    → e.exec s.db (name_query pk1.sourse_name) ≡ a1
    → Imports a1.rows (n1 ∷ [])
    → length a1.rows ≡ 1
    → e.exec (s.db ++ name_query pk1.sourse_name ∷ []) (name_query pk2.sourse_name) ≡ a2
    → Imports a2.rows (n2 ∷ [])
    → length a2.rows ≡ 1
    → mem_eq pk1.send_msg0 n1.pswd ≡ false
    → mem_eq pk1.send_msg0 n2.pswd ≡ true
    → (e.exec (both_searched s pk1 pk2 n2).db (own_table pk1.sourse_name)).rc_ok ≡ true
    → (e.exec
        ((both_searched s pk1 pk2 n2).db ++ own_table pk1.sourse_name ∷ [])
        (own_table pk1.sourse_name)).rc_ok
      ≡ true
    → e.send_ok c1 ≡ true
    → (interleave e c1 c2 pk1 pk2 (true ∷ false ∷ true ∷ []) before before s
        ≡ ok
            (after, deciding (found_one pk2.sourse_name))
            (logged_in e c1 pk1 (both_searched s pk1 pk2 n2) n2.id1))
      × (handle_login e c1 pk1 s
          ≡ ok tt (record s {
            flag = pos 1;
            cb_list = n1 ∷ [];
            db = s.db ++ name_query pk1.sourse_name ∷ [];
            sent = s.sent ++ (c1, record e.stack_pack { result = fail }) ∷ [];
          }))
unfolding interleave advance
crossed_logins e c1 c2 pk1 pk2 s a1 a2 n1 n2 str1 short1 str2 short2 run1 im1 one1 run2 im2 one2
      other same made again up =
    let s1 = searched s (name_query pk1.sourse_name) 1 (n1 ∷ []) in
    let first =
      login_search-ok e c1 pk1 s a1 (n1 ∷ []) str1 short1 run1 im1 (omega (arith, one1)) in
    let second =
      login_search-ok e c2 pk2 s1 a2 (n2 ∷ []) str2 short2 run2 im2 (omega (arith, one2)) in
    let last =
      login_decide-accepts e c1 pk1 (both_searched s pk1 pk2 n2) n2 str1 short1 same made again
        up in
    let refused =
      handle_login_refuses e c1 pk1 s a1 (n1 ∷ []) n1 [] str1 short1 run1 im1 refl
        (omega (arith, one1)) (inl other) up in
    ((rw (first, one1, second, one2, last) refl), (refused ∙ rw one1 refl))
