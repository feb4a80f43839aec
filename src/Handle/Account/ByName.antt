-- ===== src/Handle/Account/ByName.antt =====
-- The search for a user's name with which every handler of an account begins.
use model_lib.Base.{ℕ, ◌+◌, ◌≤◌, ◌<◌, ◌≡◌, some, none, List, [], arith, length, ap, pos}
use mathlib.Core.List.{reverse_aux}
use mathlib.Core.Path.{subst}
use model_lib.CString.{Text, text, max_size}
use model_lib.Packet.{Node, count, inport}
use model_lib.Server.{Env, Answer, Server, ok, fault}
use model_lib.Sqlite.{search_sql, search_data}
use model_lib.Sqlite.Sql.{select_text, select_all}
use model_lib.Sqlite.Search.{
  int_bound, Imports, searched, search_data-count, search_data-inport, search_data-overflow,
  search_sql-name, length-select_text, length-userdata, length-name,
}

-- The longest name whose search fits into the 128 bytes of `sql`.
abbrev pub name_bound : ℕ
name_bound = 90

abbrev pub name_query : Text → Text
name_query name = select_text (text "userdata") (text "name") name

abbrev pub all_query : Text
all_query = select_all (text "userdata")

length-name_query : (name : Text) → length (name_query name) ≡ 37 + length name
length-name_query name =
    omega
      (arith, length-select_text (text "userdata") (text "name") name, length-userdata, length-name)

module _ (e : Env) (name : Text) (s : Server) where
  name_sql : search_sql (text "userdata") (some (text "name")) (some name) ≡ name_query name
  name_sql = search_sql-name (text "userdata") name

  pub count_name :
      (a : Answer)
      → e.exec s.db (name_query name) ≡ a
      → length name ≤ name_bound
      → length a.rows < int_bound
      → search_data e (text "userdata") (some (text "name")) (some name) count s
        ≡ ok (pos (length a.rows)) (searched s (name_query name) (length a.rows) [])
  count_name a run short few =
      subst
        (λ q.
          e.exec s.db q ≡ a
          → length q < max_size
          → search_data e (text "userdata") (some (text "name")) (some name) count s
            ≡ ok (pos (length a.rows)) (searched s q (length a.rows) []))
        name_sql
        (λ r f. search_data-count e (text "userdata") (some (text "name")) (some name) s a r f few)
        run (omega (arith, length-name_query name))

  pub inport_name :
      (a : Answer) (ns : List Node)
      → e.exec s.db (name_query name) ≡ a
      → Imports a.rows ns
      → length name ≤ name_bound
      → length a.rows < int_bound
      → search_data e (text "userdata") (some (text "name")) (some name) inport s
        ≡ ok
            (pos (length a.rows))
            (searched s (name_query name) (length a.rows) (reverse_aux ns []))
  inport_name a ns run im short few =
      subst
        (λ q.
          e.exec s.db q ≡ a
          → length q < max_size
          → search_data e (text "userdata") (some (text "name")) (some name) inport s
            ≡ ok (pos (length a.rows)) (searched s q (length a.rows) (reverse_aux ns [])))
        name_sql
        (λ r f.
          search_data-inport e (text "userdata") (some (text "name")) (some name) s a ns r im f few)
        run (omega (arith, length-name_query name))

  pub long_name :
      (cmd : ℕ)
      → name_bound < length name
      → search_data e (text "userdata") (some (text "name")) (some name) cmd s ≡ fault
  long_name cmd long =
      search_data-overflow e (text "userdata") (some (text "name")) (some name) cmd s
        (omega (arith, ap length name_sql, length-name_query name))

pub count_all :
    (e : Env) (s : Server) (a : Answer)
    → e.exec s.db all_query ≡ a
    → length a.rows < int_bound
    → search_data e (text "userdata") none none count s
      ≡ ok (pos (length a.rows)) (searched s all_query (length a.rows) [])
unfolding search_sql select_all text
count_all e s a run few = search_data-count e (text "userdata") none none s a run (omega arith) few
