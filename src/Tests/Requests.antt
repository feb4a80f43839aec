-- ===== src/Tests/Requests.antt =====
-- A friend request, and changes of one's password and name.
use model_lib.Base.{◌≡◌, refl, [], ◌∷◌, arith, pos, if◌then◌else◌}
use model_lib.Packet.{SendPack, zero_pack, CurrentData, zero_node}
use model_lib.Server.{Answer, Env, Server, ok}
use model_lib.Handle.Send.{find_online}
use model_lib.Handle.Send.Single.{id_query}
use model_lib.Handle.Friends.{handle_add_friend}
use model_lib.Handle.Friends.Requests.{
  friends_query, request_stmt, notices, handle_add_friend-requests,
}
use model_lib.Handle.Change.{handle_change}
use model_lib.Handle.Change.Rename.{rename_stmt, renamed_line, handle_change-rename}
use model_lib.Handle.Account.ByName.{name_query}
use model_lib.Sqlite.Sql.{select_text}
use model_lib.Sqlite.Import.{inport_row-user_row}
use model_lib.CString.{Text, text, str_eq}
use model_lib.Handle.Change.Refuse.{used_line, handle_change-used_line}
use model_lib.Handle.Account.Refind.{answered}
use model_lib.Handle.Show.Listing.{line_pack}
use model_lib.Tests.{
  alice, secret, question, reply, alice-IsString, secret-IsString, question-IsString,
  reply-IsString, alice_row, alice_node, alice-Fits, found, answering, idle, connection,
}

-- Alice, on her connection.
abbrev pub current : CurrentData
current = record {
  current_name = alice;
  current_pswd = secret;
  current_ques = question;
  current_answ = reply;
  current_id1 = pos 1;
  current_id2 = pos 0;
  fd = connection;
}

abbrev ask_two : SendPack
ask_two = record zero_pack { send_id1 = pos 2 }

abbrev bob_there : Server
bob_there = record idle {
  online_user = record zero_node { fd = pos 8; name = secret; id1 = pos 2 } ∷ [];
}

handle_add_friend-requests_example :
    handle_add_friend (answering (alice_row ∷ [])) ask_two connection current bob_there
    ≡ ok tt (record bob_there {
      flag = pos 1;
      temp_name = alice;
      db = id_query (pos 2) ∷ friends_query alice ∷ request_stmt (pos 1) (pos 2) ∷ [];
      sent = notices alice (find_online (pos 2) bob_there.online_user);
    })
handle_add_friend-requests_example =
    handle_add_friend-requests (answering (alice_row ∷ [])) ask_two connection current bob_there
      (found (alice_row ∷ [])) (found (alice_row ∷ [])) (omega arith) (omega arith) alice-IsString
      (omega arith) refl (omega arith) (omega arith) refl (omega arith) (λ fd. refl)

abbrev new_password : SendPack
new_password = record zero_pack { send_id1 = pos 2; send_msg0 = reply }

handle_change-used_line_example :
    handle_change (answering (alice_row ∷ [])) new_password connection current idle
    ≡ ok current (answered idle alice alice_node connection (line_pack (used_line reply)))
handle_change-used_line_example =
    handle_change-used_line (answering (alice_row ∷ [])) new_password connection current idle
      (found (alice_row ∷ [])) secret question reply (pos 1) (ground arith) alice-IsString
      (omega arith) refl refl secret-IsString question-IsString reply-IsString reply-IsString
      (omega arith) refl

-- A name that nobody has, for Alice.
abbrev new_name : SendPack
new_name = record zero_pack { send_id1 = pos 1; send_msg0 = reply }

abbrev by_name : Text → Answer
by_name sql = if str_eq sql (name_query alice) then found (alice_row ∷ []) else found []

abbrev name_free : Env
name_free = record (answering []) { exec = λ history sql. by_name sql }

alice_listed : by_name (name_query alice) ≡ found (alice_row ∷ [])
unfolding str_eq select_text text
alice_listed = refl

reply_free : by_name (name_query reply) ≡ found []
unfolding str_eq select_text text
reply_free = refl

handle_change-rename_example :
    handle_change name_free new_name connection current idle
    ≡ ok
        (record current { current_name = reply })
        (record idle {
          db = name_query alice ∷ name_query reply ∷ rename_stmt (pos 1) reply ∷ [];
          sent = (connection, line_pack (renamed_line alice reply)) ∷ [];
        })
handle_change-rename_example =
    handle_change-rename name_free new_name connection current idle (found (alice_row ∷ []))
      (found []) alice_node refl alice-IsString (omega arith) (omega arith) alice_listed
      (inport_row-user_row alice secret question reply (pos 1) alice-Fits, tt) refl alice-IsString
      reply-IsString (omega arith) reply_free refl refl
