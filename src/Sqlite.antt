-- ===== src/Sqlite.antt =====
-- epoll+tpool/server/sqlite.c: the statements, the row callbacks and the searches.
pub mod Sql
pub mod Rows
pub mod Write
pub mod Import
pub mod Search
pub mod Insert
use model_lib.Base.{
  ℕ, Bool, true, false, ◌||◌, Option, none, some, List, [], ◌∷◌, ◌++◌, ◌==◌, if◌then◌else◌, length,
  ℤ, pos, int_inc,
}
use model_lib.CString.{Text, Buf, text, c_str, copy_str, str_eq, max_size}
use model_lib.CString.Decimal.{show_int, atoi}
use model_lib.Packet.{Node, zero_node, count, inport, exchange}
use model_lib.Server.{
  Row, Answer, Env, Server, M, pure, crash, ◌>>=◌, ◌>>◌, gets, modify, or_fault, sprintf, for_each,
  sqlite3_exec,
}
use Sql.{select_all, select_int, select_text}
use Rows.{inport_data, count_data, exchange_data}

-- The statement of a search: all rows where the column or the content is NULL, a test of a number
-- for the columns `id1` and `id2`, and a test of a text for any other.
unfoldable pub search_sql : Text → Option Text → Option Text → Text
search_sql table none content = select_all table
search_sql table (some column) none = select_all table
search_sql table (some column) (some content) =
    if str_eq column (text "id1") || str_eq column (text "id2")
    then select_int table column (atoi content)
    else select_text table column content

-- The `switch` on `cmd`: which callback the rows go to.
unfoldable pub row_callback : ℕ → Option (Row → M (Unit {0}))
row_callback cmd =
    if cmd == count
    then some count_data
    else if cmd == inport
    then some inport_data
    else if cmd == exchange
    then some exchange_data
    else none

abbrev pub reset : Server → Server
reset s = record s { flag = pos 0; cb_list = [] }

module _ (e : Env) where
  -- The result of a `cmd` that is none of the three is not defined.
  unfoldable pub search_data : Text → Option Text → Option Text → ℕ → M ℤ
  unfolding row_callback sqlite3_exec sprintf
  search_data table column content cmd = do
    modify reset
    sql ← sprintf max_size (search_sql table column content)
    callback ← or_fault (row_callback cmd)
    a ← sqlite3_exec e sql
    for_each a.rows callback
    gets λ s. s.flag

  unfoldable pub search_by_id : (table column : Text) → ℤ → ℕ → M ℤ
  search_by_id table column id cmd = search_data table (some column) (some (show_int id)) cmd
