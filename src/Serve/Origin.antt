-- ===== src/Serve/Origin.antt =====
-- Which connections the server's handlers write to, and whose users are online: the rules for the
-- actions of sqlite.c, and the handlers of accounts.
pub mod Accounts
pub mod Listings
pub mod Messages
pub mod Events
use model_lib.Base.{
  ℕ, ◌≡◌, refl, ◌==◌, Bool, true, false, ◌&&◌, Option, none, some, List, [], ◌∷◌, ◌++◌,
  if◌then◌else◌, ℤ, pos, int_eq, int_inc, Bool-cases, inl, inr,
}
use mathlib.Core.Path.{subst}
use model_lib.CString.{Text, Buf, text, mem_eq, max_size}
use model_lib.CString.Decimal.{show_int}
use model_lib.Packet.{SendPack, zero_pack, Node, success, fail, count, inport, exchange}
use model_lib.Server.{
  Row, Answer, Env, Server, M, ok, pure, crash, exit, ◌>>=◌, ◌>>◌, gets, modify, or_fault,
  first_node, sprintf, for_each, send_pk, sqlite3_exec,
}
use model_lib.Server.Keeps.{
  All, Ends, Keeps, OfOption, Ends-bind, Ends-known, Ends-for_each, Ends-fold_each, Ends-first_node,
  Ends-or_fault, Ends-if, Ends-sprintf, ends_rules,
}
use model_lib.Sqlite.{reset, row_callback, search_sql, search_data, search_by_id}
use model_lib.Sqlite.Rows.{inport_data, count_data, exchange_data}
use model_lib.Sqlite.Write.{c_string, create_table, insert_sql, insert_data}
use model_lib.Handle.Common.{memcpy_str, strcpy}

pub All-append :
    {A : Type 0} (P : A → Type 0) (xs ys : List A) → All P xs → All P ys → All P (xs ++ ys)
All-append P [] ys h k = k
All-append P (x ∷ xs) ys h k = (h.0, All-append P xs ys h.1 k)

-- Packets go to the connections of `D` only, and users are online on those of `L` only.
abbrev pub Origin : (D L : ℤ → Type 0) → Server → Type 0
Origin D L s = All (λ (m : ℤ × SendPack). D m.0) s.sent × All (λ (n : Node). L n.fd) s.online_user

module _ (D L : ℤ → Type 0) where
  pub c_string-Origin : (b : Buf) → Keeps (Origin D L) (c_string b)
  unfolding c_string
  c_string-Origin b = Ends-or_fault (Origin D L) _

  pub memcpy_str-Origin : (b : Buf) (t : Text) → Keeps (Origin D L) (memcpy_str b t)
  unfolding memcpy_str
  memcpy_str-Origin b t = Ends-or_fault (Origin D L) _

  pub strcpy-Origin : (b : Buf) (t : Text) → Keeps (Origin D L) (strcpy b t)
  unfolding strcpy
  strcpy-Origin b t = Ends-or_fault (Origin D L) _

  module _ (e : Env) where
    pub send_pk-Origin : (pk : SendPack) (fd : ℤ) → D fd → Keeps (Origin D L) (send_pk e pk fd)
    unfolding send_pk
    send_pk-Origin pk fd d s h = elim (Bool-cases (e.send_ok fd)) [
      | inl up ↦ rw up (All-append (λ m. D m.0) s.sent ((fd, pk) ∷ []) h.0 (d, tt), h.1)
      | inr down ↦ rw down tt
    ]

    sqlite3_exec-Origin : (sql : Text) → Keeps (Origin D L) (sqlite3_exec e sql)
    unfolding sqlite3_exec
    sqlite3_exec-Origin sql s h = h

    inport_data-Origin : (r : Row) → Keeps (Origin D L) (inport_data r)
    unfolding inport_data
    inport_data-Origin r s h = search ends_rules depth 12

    count_data-Origin : (r : Row) → Keeps (Origin D L) (count_data r)
    unfolding count_data
    count_data-Origin r s h = h

    exchange_data-Origin : (r : Row) → Keeps (Origin D L) (exchange_data r)
    unfolding exchange_data
    exchange_data-Origin [] s h = tt
    exchange_data-Origin ((column, value) ∷ row) s h = search ends_rules depth 12

    row_callback-Origin :
        (cmd : ℕ) → OfOption (λ c. (r : Row) → Keeps (Origin D L) (c r)) (row_callback cmd)
    unfolding row_callback
    row_callback-Origin cmd = elim (Bool-cases (cmd == count)) [
      | inl a ↦ rw a count_data-Origin
      | inr a ↦ elim (Bool-cases (cmd == inport)) [
        | inl b ↦ rw (a, b) inport_data-Origin
        | inr b ↦ elim (Bool-cases (cmd == exchange)) [
          | inl c ↦ rw (a, b, c) exchange_data-Origin
          | inr c ↦ rw (a, b, c) tt
        ]
      ]
    ]

    abbrev run_rows : Text → (Row → M (Unit {0})) → M ℤ
    run_rows sql callback = do a ← sqlite3_exec e sql; for_each a.rows callback; gets λ s. s.flag

    run_rows-Origin :
        (sql : Text) (callback : Row → M (Unit {0}))
        → ((r : Row) → Keeps (Origin D L) (callback r))
        → Keeps (Origin D L) (run_rows sql callback)
    run_rows-Origin sql callback kept s h =
        search (ends_rules, sqlite3_exec-Origin, Ends-for_each, kept) depth 12

    callback-Origin :
        (sql : Text) (cmd : ℕ) → Keeps (Origin D L) (or_fault (row_callback cmd) >>= run_rows sql)
    callback-Origin sql cmd s h =
        Ends-known (Origin D L) (λ c. (r : Row) → Keeps (Origin D L) (c r)) (row_callback cmd)
          (run_rows sql) s (row_callback-Origin cmd)
          λ callback kept. run_rows-Origin sql callback kept s h

    pub search_data-Origin :
        (table : Text) (column content : Option Text) (cmd : ℕ)
        → Keeps (Origin D L) (search_data e table column content cmd)
    unfolding search_data
    search_data-Origin table column content cmd s h = search (ends_rules, callback-Origin) depth 12

    pub create_table-Origin :
        (table : Text) (cmd : ℕ) → Keeps (Origin D L) (create_table e table cmd)
    unfolding create_table
    create_table-Origin table cmd s h = search ends_rules

    insert_sql-Origin :
        (cmd : ℕ) (table : Text) (pk : SendPack) → Keeps (Origin D L) (insert_sql cmd table pk)
    unfolding insert_sql
    insert_sql-Origin cmd table pk s h = search (ends_rules, c_string-Origin) depth 40

    pub insert_data-Origin :
        (table : Text) (pk : SendPack) (cmd : ℕ) → Keeps (Origin D L) (insert_data e table pk cmd)
    unfolding insert_data
    insert_data-Origin table pk cmd s h =
        search (ends_rules, insert_sql-Origin, sqlite3_exec-Origin) depth 12

pub ruleset actions = (
  ends_rules, c_string-Origin, memcpy_str-Origin, strcpy-Origin, send_pk-Origin, search_data-Origin,
  create_table-Origin, insert_data-Origin,
)
