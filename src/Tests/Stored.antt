-- ===== src/Tests/Stored.antt =====
-- Two messages that wait for a user, the second one shorter.
use model_lib.Base.{◌≡◌, refl, List, [], ◌∷◌, ◌++◌, some, arith, pos, ℤ, if◌then◌else◌}
use model_lib.CString.{Text, text, str_eq, copy_str}
use model_lib.CString.Decimal.{show_int, show_nat, atoi}
use model_lib.Packet.{SendPack, zero_pack, Node, zero_node}
use model_lib.Packet.Cmd
use model_lib.Server.{Row, Answer, Env, Server, ok}
use model_lib.Server.Keeps.{All}
use model_lib.Sqlite.Sql.{select_text, select_int}
use model_lib.Sqlite.Rows.{inport_row, inport_column, copy_value}
use model_lib.Sqlite.Search.{Imports}
use model_lib.Handle.Send.Single.{id_query}
use model_lib.Handle.Friends.{handle_message}
use model_lib.Handle.Friends.Marks.{unchecked_query}
use model_lib.Handle.Friends.Stored.{Known, arrivals, readings, handle_message-unchecked}
use model_lib.Tests.{
  alice, secret, question, reply, alice-IsString, secret-IsString, reply-IsString, alice_row, found,
  answering, idle, connection,
}
use model_lib.Tests.Requests.{current}

abbrev stored_row : Text → Row
stored_row message =
    (text "dec", some (text "unchecked"))
    ∷ (text "id1", some (show_int (pos 2)))
    ∷ (text "message", some message)
    ∷ []

abbrev stored_node : Text → Node
stored_node message = record zero_node { dec = text "unchecked"; id1 = pos 2; message = message }

abbrev rows : List Row
rows = stored_row reply ∷ stored_row secret ∷ []

abbrev waiting : List Node
waiting = stored_node reply ∷ stored_node secret ∷ []

-- The sender is called like Alice.
abbrev answers : Text → Answer
answers sql = if str_eq sql (unchecked_query alice) then found rows else found (alice_row ∷ [])

abbrev mailbox : Env
mailbox = record (answering []) { exec = λ history sql. answers sql }

asked : answers (unchecked_query alice) ≡ found rows
unfolding str_eq select_text text
asked = refl

named : answers (id_query (pos 2)) ≡ found (alice_row ∷ [])
unfolding str_eq select_int select_text text show_int show_nat
named = refl

rows-Imports : Imports rows waiting
unfolding inport_row inport_column copy_value copy_str show_int show_nat atoi text str_eq
rows-Imports = (refl, (refl, tt))

abbrev sender : ℤ → Text
sender id = alice

abbrev read_new : SendPack
read_new = record zero_pack { send_id1 = pos 2 }

-- The columns behind the name.
abbrev behind_name : Row
behind_name =
    (text "pswd", some secret)
    ∷ (text "ques", some question)
    ∷ (text "answ", some reply)
    ∷ (text "id1", some (show_int (pos 1)))
    ∷ []

waiting-Known : All (Known mailbox sender) waiting
waiting-Known = (
  record {
    id = omega arith;
    message = reply-IsString;
    name = alice-IsString;
    column = text "name";
    others = behind_name;
    known = λ history. named;
  },
  (
    record {
      id = omega arith;
      message = secret-IsString;
      name = alice-IsString;
      column = text "name";
      others = behind_name;
      known = λ history. named;
    },
    tt,
  ),
)

handle_message-unchecked_example :
    (t : Server) × (handle_message mailbox connection read_new current idle ≡ ok tt t)
    × (t.sent
        ≡ arrivals mailbox sender connection zero_pack
            (stored_node secret ∷ stored_node reply ∷ []))
    × (t.db
        ≡ unchecked_query alice
          ∷ readings mailbox sender alice (stored_node secret ∷ stored_node reply ∷ []))
    × (t.online_user ≡ [])
handle_message-unchecked_example =
    handle_message-unchecked mailbox sender connection read_new current idle (found rows) waiting
      refl alice-IsString (omega arith) asked rows-Imports (omega arith) waiting-Known refl

-- The second packet's text ends with the rest of the first one's.
arrivals_texts :
    arrivals mailbox sender connection zero_pack (stored_node secret ∷ stored_node reply ∷ [])
    ≡ (
      connection,
      record zero_pack { send_cmd = Cmd.muti_send; sourse_name = alice; send_msg0 = secret },
    )
      ∷ (
        connection,
        record zero_pack {
          send_cmd = Cmd.muti_send;
          sourse_name = alice;
          send_msg0 = reply ++ 119 ∷ [];
        },
      )
      ∷ []
arrivals_texts = refl
