-- ===== src/Handle/Friends/Marks.antt =====
-- The statements of handle_message in epoll+tpool/server/handle.c for the messages not yet read, and
-- its copies into a packet that is used again.
use mathlib.Core.Path.{subst}
use mathlib.Core.List.{reverse_aux}
use model_lib.Base.{
  ◌+◌, ◌≤◌, ◌<◌, ◌≡◌, refl, some, List, [], ◌++◌, arith, length, length-append, drop, le→leb,
  lt→ltb, pos,
}
use model_lib.CString.{Text, Buf, copy_str, str_eq, text, max_size}
use model_lib.Packet.{CurrentData, Node, inport}
use model_lib.Server.{Answer, Env, Server, ok}
use model_lib.Work.Copy.{IsString}
use model_lib.Sqlite.{search_sql, search_data}
use model_lib.Sqlite.Sql.{quote, update_stmt, select_text}
use model_lib.Sqlite.Write.{update_data}
use model_lib.Sqlite.Insert.{c_string-ok, executed}
use model_lib.Sqlite.Search.{int_bound, Imports, searched, search_data-inport, length-select_text}
use model_lib.Handle.Common.{memcpy_str}
use model_lib.Handle.Account.ByName.{name_bound}
use model_lib.Handle.Friends.{mark_stored}

-- The search of a user's new messages.
abbrev pub unchecked_query : Text → Text
unchecked_query own = select_text own (text "dec") (text "unchecked")

-- The statement that marks a message as read, by its text.
abbrev pub checked_stmt : (own message : Text) → Text
checked_stmt own message =
    update_stmt own (text "dec") (quote (text "checked")) (text "message") (quote message)

length-checked_stmt :
    (own message : Text) → length (checked_stmt own message) ≡ 43 + length own + length message
unfolding update_stmt quote
length-checked_stmt own message = simp length-append (omega arith)

unchecked_sql :
    (own : Text)
    → search_sql own (some (text "dec")) (some (text "unchecked")) ≡ unchecked_query own
unfolding search_sql text str_eq
unchecked_sql own = refl

length-unchecked_query : (own : Text) → length (unchecked_query own) ≡ 37 + length own
unfolding text
length-unchecked_query own = omega (arith, length-select_text own (text "dec") (text "unchecked"))

pub search_unchecked :
    (e : Env) (own : Text) (s : Server) (a : Answer) (ns : List Node)
    → e.exec s.db (unchecked_query own) ≡ a
    → Imports a.rows ns
    → length own ≤ name_bound
    → length a.rows < int_bound
    → search_data e own (some (text "dec")) (some (text "unchecked")) inport s
      ≡ ok
          (pos (length a.rows))
          (searched s (unchecked_query own) (length a.rows) (reverse_aux ns []))
search_unchecked e own s a ns run im short few =
    subst
      (λ q.
        e.exec s.db q ≡ a
        → length q < max_size
        → search_data e own (some (text "dec")) (some (text "unchecked")) inport s
          ≡ ok (pos (length a.rows)) (searched s q (length a.rows) (reverse_aux ns [])))
      (unchecked_sql own)
      (λ r f.
        search_data-inport e own (some (text "dec")) (some (text "unchecked")) s a ns r im f few)
      run (omega (arith, length-unchecked_query own))

pub mark_stored-checked :
    (e : Env) (temp : CurrentData) (message : Text) (s : Server)
    → IsString temp.current_name
    → length temp.current_name ≤ name_bound
    → length message < max_size
    → mark_stored e temp (some (text "checked")) message s
      ≡ ok tt (executed s (checked_stmt temp.current_name message))
unfolding mark_stored update_data
mark_stored-checked e temp message s own short m =
    let fits : length (checked_stmt temp.current_name message) < 640 =
      omega (arith, length-checked_stmt temp.current_name message) in
    rw (c_string-ok temp.current_name s own, lt→ltb _ _ fits)

-- A text copied over an array without its NUL: what stood behind it stays.
abbrev pub over : Buf → Text → Buf
over old t = t ++ drop (length t) old

pub memcpy_str-over :
    (old : Buf) (t : Text) (s : Server)
    → length t < max_size
    → memcpy_str old t s ≡ ok (over old t) s
unfolding memcpy_str copy_str
memcpy_str-over old t s h = let le : length t ≤ max_size = omega arith in rw (le→leb _ _ le) refl
