-- ===== src/Sqlite/Search.antt =====
-- What `search_data` of sqlite.c returns and leaves in the globals, from the rows it is given.
use mathlib.Core.List.{reverse_aux}
use model_lib.Base.{
  none, ℕ, ◌+◌, ◌^◌, ◌≤◌, ◌<◌, ◌≡◌, refl, false, some, Option, List, [], ◌∷◌, ◌++◌, arith, ap,
  length, ltb, lt→ltb, length-append, ℤ, pos, int_inc, int_inc-pos, ◌∙◌,
}
use model_lib.Sqlite.Import.{copy_value-nil}
use model_lib.CString.{Buf, Text, text, str_eq, max_size}
use model_lib.CString.Decimal.{show_int, atoi-show_int}
use model_lib.Packet.{Node, zero_node, count, inport, exchange}
use model_lib.Server.{Row, Answer, Env, Server, ok, fault, for_each}
use model_lib.Sqlite.Sql.{select_int, select_text}
use model_lib.Sqlite.Rows.{inport_row, inport_data, count_data, exchange_data}
use model_lib.Sqlite.{search_sql, search_data}

-- An `int` counts up to this.
abbrev pub int_bound : ℕ
int_bound = 2 ^ 31

-- `rows` are imported as the nodes `ns`, row by row.
abbrev pub Imports : List Row → List Node → Type 0
Imports [] [] = Unit
Imports [] (n ∷ ns) = ⊥
Imports (r ∷ rs) [] = ⊥
Imports (r ∷ rs) (n ∷ ns) = (inport_row r zero_node ≡ some n) × Imports rs ns

for_each-count_data :
    (rows : List Row) (k m : ℕ) (s : Server)
    → s.flag ≡ pos k
    → k + length rows ≡ m
    → m < int_bound
    → for_each rows count_data s ≡ ok tt (record s { flag = pos m })
unfolding for_each count_data
for_each-count_data [] k m s at len h =
    ap (λ f. ok tt (record s { flag = f })) (at ∙ ap pos (omega arith))
for_each-count_data (r ∷ rows) k m s at len h =
    for_each-count_data rows (k + 1) m (record s { flag = int_inc s.flag })
      (ap int_inc at ∙ int_inc-pos k (omega arith)) (omega arith) h

inport_data-ok :
    (r : Row) (n : Node) (s : Server)
    → inport_row r zero_node ≡ some n
    → inport_data r s ≡ ok tt (record s { cb_list = n ∷ s.cb_list; flag = int_inc s.flag })
unfolding inport_data
inport_data-ok r n s e = rw e

for_each-inport_data :
    (rows : List Row) (ns : List Node) (k m : ℕ) (s : Server)
    → Imports rows ns
    → s.flag ≡ pos k
    → k + length rows ≡ m
    → m < int_bound
    → for_each rows inport_data s
      ≡ ok tt (record s { cb_list = reverse_aux ns s.cb_list; flag = pos m })
unfolding for_each
for_each-inport_data [] [] k m s im at len h =
    ap (λ f. ok tt (record s { flag = f })) (at ∙ ap pos (omega arith))
for_each-inport_data [] (n ∷ ns) k m s im at len h = absurd im
for_each-inport_data (r ∷ rows) [] k m s im at len h = absurd im
for_each-inport_data (r ∷ rows) (n ∷ ns) k m s im at len h = rw (inport_data-ok r n s im.0) (
    for_each-inport_data rows ns (k + 1) m
      (record s { cb_list = n ∷ s.cb_list; flag = int_inc s.flag }) im.1
      (ap int_inc at ∙ int_inc-pos k (omega arith)) (omega arith) h)

-- The state after a search that was given `n` rows: the counter, the nodes in `cb_head`'s list, and
-- the statement in the history.
abbrev pub searched : Server → Text → ℕ → List Node → Server
searched s sql n ns = record s { flag = pos n; cb_list = ns; db = s.db ++ sql ∷ [] }

-- The state in which the rows of a search arrive.
abbrev arriving : Server → Text → Server
arriving s sql = record s { flag = pos 0; cb_list = []; db = s.db ++ sql ∷ [] }

module _ (e : Env) (table : Text) (column content : Option Text) (s : Server) (a : Answer) where
  -- With COUNT, a statement that fits into sql, and fewer rows than an int can count, search_data
  -- returns the number of rows; it leaves cb_head's list empty, adds its statement to the history
  -- and changes nothing else.
  pub search_data-count :
      e.exec s.db (search_sql table column content) ≡ a
      → length (search_sql table column content) < max_size
      → length a.rows < int_bound
      → search_data e table column content count s
        ≡ ok (pos (length a.rows)) (searched s (search_sql table column content) (length a.rows) [])
  unfolding search_data
  search_data-count run fits few = rw (
    lt→ltb _ _ fits,
    run,
    for_each-count_data a.rows 0 (length a.rows) (arriving s (search_sql table column content)) refl
        (omega arith) few,
  )

  -- With INPORT, a statement that fits into sql, and rows that fit into a node and are fewer than
  -- an int can count, search_data returns the number of rows and leaves one node for each in
  -- cb_head's list, the last row first, in place of what an earlier search left there.
  pub search_data-inport :
      (ns : List Node)
      → e.exec s.db (search_sql table column content) ≡ a
      → Imports a.rows ns
      → length (search_sql table column content) < max_size
      → length a.rows < int_bound
      → search_data e table column content inport s
        ≡ ok
            (pos (length a.rows))
            (searched s (search_sql table column content) (length a.rows) (reverse_aux ns []))
  unfolding search_data
  search_data-inport ns run im fits few = rw (
    lt→ltb _ _ fits,
    run,
    for_each-inport_data a.rows ns 0 (length a.rows) (arriving s (search_sql table column content))
        im refl (omega arith) few,
  )

-- The name that EXCHANGE leaves in `temp_name`: the first column of the last row, or what stood
-- there before if there is no row.
abbrev pub kept_name : List Row → Buf → Buf
kept_name [] old = old
kept_name ([] ∷ rows) old = kept_name rows old
kept_name (((c, none) ∷ row) ∷ rows) old = kept_name rows old
kept_name (((c, some v) ∷ row) ∷ rows) old = kept_name rows v

-- Every row has a first column, with a text that fits into `temp_name`.
abbrev pub Named : List Row → Type 0
Named [] = Unit
Named ([] ∷ rows) = ⊥
Named (((c, none) ∷ row) ∷ rows) = ⊥
Named (((c, some v) ∷ row) ∷ rows) = (length v ≤ max_size) × Named rows

for_each-exchange_data :
    (rows : List Row) (k m : ℕ) (s : Server)
    → Named rows
    → s.flag ≡ pos k
    → k + length rows ≡ m
    → m < int_bound
    → for_each rows exchange_data s
      ≡ ok tt (record s { temp_name = kept_name rows s.temp_name; flag = pos m })
unfolding for_each exchange_data
for_each-exchange_data [] k m s named at len h =
    ap (λ f. ok tt (record s { flag = f })) (at ∙ ap pos (omega arith))
for_each-exchange_data ([] ∷ rows) k m s named at len h = absurd named
for_each-exchange_data (((c, none) ∷ row) ∷ rows) k m s named at len h = absurd named
for_each-exchange_data (((c, some v) ∷ row) ∷ rows) k m s named at len h =
    rw (copy_value-nil v named.0) (
      for_each-exchange_data rows (k + 1) m (record s { temp_name = v; flag = int_inc s.flag })
        named.1 (ap int_inc at ∙ int_inc-pos k (omega arith)) (omega arith) h)

-- With EXCHANGE, a statement that fits into sql, and rows whose first column fits into temp_name,
-- search_data returns the number of rows and leaves the last one's first column in temp_name; with
-- no row temp_name keeps the name of an earlier search.
pub search_data-exchange :
    (e : Env) (table : Text) (column content : Option Text) (s : Server) (a : Answer)
    → e.exec s.db (search_sql table column content) ≡ a
    → Named a.rows
    → length (search_sql table column content) < max_size
    → length a.rows < int_bound
    → search_data e table column content exchange s
      ≡ ok
          (pos (length a.rows))
          (record (searched s (search_sql table column content) (length a.rows) []) {
            temp_name = kept_name a.rows s.temp_name;
          })
unfolding search_data
search_data-exchange e table column content s a run named fits few = rw (
  lt→ltb _ _ fits,
  run,
  for_each-exchange_data a.rows 0 (length a.rows) (arriving s (search_sql table column content))
      named refl (omega arith) few,
)

-- A statement of 128 bytes or more makes search_data write past the end of sql, whatever the
-- command.
pub search_data-overflow :
    (e : Env) (table : Text) (column content : Option Text) (cmd : ℕ) (s : Server)
    → max_size ≤ length (search_sql table column content)
    → search_data e table column content cmd s ≡ fault
unfolding search_data
search_data-overflow e table column content cmd s long =
    let full : ltb (length (search_sql table column content)) max_size ≡ false = ground arith in
    rw full

-- The statement of a search for an id in the column id1 tests the number that was given: the way
-- through its digits and atoi loses nothing, negative numbers included.
pub search_sql-id :
    (table : Text) (id : ℤ)
    → search_sql table (some (text "id1")) (some (show_int id)) ≡ select_int table (text "id1") id
unfolding search_sql text str_eq
search_sql-id table id = ap (select_int table (text "id1")) (atoi-show_int id)

-- A search by name tests the text.
pub search_sql-name :
    (table name : Text)
    → search_sql table (some (text "name")) (some name) ≡ select_text table (text "name") name
unfolding search_sql text str_eq
search_sql-name table name = refl

pub length-select_text :
    (table column content : Text)
    → length (select_text table column content) ≡ 25 + length table + length column + length content
unfolding select_text text
length-select_text table column content = omega (arith, length-append {0})

pub length-userdata : length (text "userdata") ≡ 8
unfolding text
length-userdata = refl

pub length-name : length (text "name") ≡ 4
unfolding text
length-name = refl

pub length-select_int :
    (table column : Text) (id : ℤ)
    → length (select_int table column id) ≡ 23 + length table + length column + length (show_int id)
unfolding select_int text
length-select_int table column id = omega (arith, length-append {0})

pub length-id1 : length (text "id1") ≡ 3
unfolding text
length-id1 = refl
