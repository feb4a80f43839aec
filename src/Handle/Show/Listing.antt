-- ===== src/Handle/Show/Listing.antt =====
-- The listing of the online users: `handle_show` of handle.c with `result` 2.
use model_lib.Base.{
  ◌≤◌, ◌<◌, ◌≡◌, refl, true, List, [], ◌∷◌, ◌++◌, append-nil, append_assoc, arith, length,
  length-append, ℤ, pos, ◌∙◌, ap,
}
use model_lib.CString.{Text, text, max_size, put_str-nil, pad_right, length-pad_right-le}
use model_lib.CString.Decimal.{show_int, IsInt, length-show_int-le}
use model_lib.Packet.{SendPack, zero_pack, Node}
use model_lib.Packet.Cmd
use model_lib.Server.{Env, Server, ok, for_each}
use model_lib.Work.Copy.{IsString}
use model_lib.Sqlite.Insert.{c_string-ok}
use model_lib.Handle.Common.{strcpy}
use model_lib.Handle.Account.ByName.{name_bound}
use model_lib.Handle.Account.Signup.{send_pk-ok}
use model_lib.Handle.Show.{table_line, table_header, send_line, send_node, show_online, handle_show}

-- The packet of one line.
abbrev pub line_pack : Text → SendPack
line_pack line = record zero_pack { send_cmd = Cmd.info; send_msg0 = line ++ 0 ∷ [] }

pub strcpy-nil : (t : Text) (s : Server) → length t < max_size → strcpy [] t s ≡ ok (t ++ 0 ∷ []) s
unfolding strcpy
strcpy-nil t s h = rw (put_str-nil max_size t h)

send_line-ok :
    (e : Env) (line : Text) (cfd : ℤ) (s : Server)
    → length line < max_size
    → e.send_ok cfd ≡ true
    → send_line e zero_pack line cfd s
      ≡ ok (line_pack line) (record s { sent = s.sent ++ (cfd, line_pack line) ∷ [] })
unfolding send_line
send_line-ok e line cfd s short up =
    rw (strcpy-nil line s short, send_pk-ok e (line_pack line) cfd s up)

length-table_line-lt :
    (id : ℤ) (name : Text)
    → IsInt id
    → length name ≤ name_bound
    → length (table_line id name) < max_size
unfolding table_line text
length-table_line-lt id name i short = simp length-append (
    omega (
      arith,
      length-pad_right-le 10 (show_int id),
      length-pad_right-le 10 name,
      length-show_int-le id i,
    ))

length-table_header : length table_header ≡ 24
unfolding table_header text pad_right
length-table_header = refl

-- The users in a listing have names that the lines have room for.
abbrev pub Listed : List Node → Type 0
Listed [] = Unit
Listed (n ∷ ns) = IsString n.name × (length n.name ≤ name_bound) × IsInt n.id1 × Listed ns

abbrev pub lines : ℤ → List Node → List (ℤ × SendPack)
lines cfd [] = []
lines cfd (n ∷ ns) = (cfd, line_pack (table_line n.id1 n.name)) ∷ lines cfd ns

send_node-ok :
    (e : Env) (cfd : ℤ) (n : Node) (s : Server)
    → IsString n.name
    → length n.name ≤ name_bound
    → IsInt n.id1
    → e.send_ok cfd ≡ true
    → send_node e (λ p. p.name) cfd n s
      ≡ ok tt (record s { sent = s.sent ++ (cfd, line_pack (table_line n.id1 n.name)) ∷ [] })
unfolding send_node
send_node-ok e cfd n s str short i up = rw (
  c_string-ok n.name s str,
  send_line-ok e (table_line n.id1 n.name) cfd s (length-table_line-lt n.id1 n.name i short) up,
)

for_each-send_node :
    (e : Env) (cfd : ℤ) (ns : List Node) (s : Server)
    → Listed ns
    → e.send_ok cfd ≡ true
    → for_each ns (send_node e (λ p. p.name) cfd) s
      ≡ ok tt (record s { sent = s.sent ++ lines cfd ns })
unfolding for_each
for_each-send_node e cfd [] s l up = rw append-nil
for_each-send_node e cfd (n ∷ ns) s (str, short, i, rest) up =
    let s' = record s { sent = s.sent ++ (cfd, line_pack (table_line n.id1 n.name)) ∷ [] } in
    rw (send_node-ok e cfd n s str short i up) (
      for_each-send_node e cfd ns s' rest up
      ∙ ap (λ l. ok tt (record s { sent = l })) (simp append_assoc))

handle_show_online :
    (e : Env) (cfd : ℤ) (pk : SendPack) (s : Server)
    → pk.result ≡ pos 2
    → handle_show e cfd pk s ≡ show_online e cfd s
unfolding handle_show
handle_show_online e cfd pk s two = simp two

-- With result 2, online users whose names are at most 90 characters, and a connection that is up,
-- handle_show sends the client a header and then one line for each online user, in the order of the
-- list, each with the user's id and name; it asks the database nothing.
pub handle_show-lines :
    (e : Env) (cfd : ℤ) (pk : SendPack) (s : Server)
    → pk.result ≡ pos 2
    → Listed s.online_user
    → e.send_ok cfd ≡ true
    → handle_show e cfd pk s
      ≡ ok tt
          (record s { sent = s.sent ++ (cfd, line_pack table_header) ∷ lines cfd s.online_user })
unfolding show_online
handle_show-lines e cfd pk s two l up =
    let s' = record s { sent = s.sent ++ (cfd, line_pack table_header) ∷ [] } in
    handle_show_online e cfd pk s two
    ∙ rw (send_line-ok e table_header cfd s (omega (arith, length-table_header)) up) (
        for_each-send_node e cfd s.online_user s' l up
        ∙ ap (λ l. ok tt (record s { sent = l })) (simp append_assoc))
