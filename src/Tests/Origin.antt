-- ===== src/Tests/Origin.antt =====
-- The server is started, and Alice logs in.
use model_lib.Base.{◌≡◌, refl, List, [], ◌∷◌, arith, pos, ℤ}
use model_lib.CString.{text}
use model_lib.Packet.{SendPack, Node}
use model_lib.Server.{Env, Server, ok, for_each}
use model_lib.Server.Keeps.{All}
use model_lib.Sqlite.Sql.{create_stmt}
use model_lib.Sqlite.Write.{create_sql, create_table, sqlite3_init}
use model_lib.Handle.Account.Login.{handle_login_accepts}
use model_lib.CString.{mem_eq_refl}
use model_lib.Packet.Cmd
use model_lib.Client.Account.Login.{login_packet}
use model_lib.Serve.{serve, run, globals}
use model_lib.Serve.Session.{login_request, served, handle_packet-login}
use model_lib.Serve.Origin.Events.{NoTransfer, Came, AskedLogin, run-Origin}
use model_lib.Tests.{alice, question, reply, alice-IsString, found, answering, connection}
use model_lib.Tests.Client.{no_files, her_row, her_row-Fits, long_secret}

abbrev db : Env
db = answering (her_row ∷ [])

-- After sqlite3_init.
abbrev begun : Server
begun = record globals {
  db =
      create_sql 3 (text "userdata")
      ∷ create_sql 2 (text "grouplist")
      ∷ create_sql 7 (text "filelist")
      ∷ create_sql 4 (text "message")
      ∷ create_sql 5 (text "friendreq")
      ∷ create_sql 4 (text "groupinvite")
      ∷ [];
}

sqlite3_init-begun : sqlite3_init db globals ≡ ok tt begun
unfolding sqlite3_init create_table create_sql create_stmt text
sqlite3_init-begun = refl

abbrev events : List (ℤ × SendPack)
events = (connection, login_packet alice long_secret) ∷ []

abbrev after : Server
after = served db connection alice long_secret question reply (pos 1) begun

login_served : serve db no_files events begun ≡ ok tt after
unfolding serve for_each
login_served =
    rw
      (handle_packet-login db no_files connection alice long_secret begun after alice-IsString
        (omega arith)
        (handle_login_accepts db connection (login_request alice long_secret) begun
          (found (her_row ∷ [])) question reply long_secret (pos 1) alice-IsString (omega arith)
          refl refl her_row-Fits (mem_eq_refl long_secret) refl refl refl))
      refl

run_served : run db no_files events globals ≡ ok tt after
unfolding run
run_served = rw (sqlite3_init-begun, login_served) refl

login_chats : NoTransfer Cmd.login
login_chats = record { not_info = refl; not_data = refl; not_recv = refl }

run-Origin_example :
    All (λ (m : ℤ × SendPack). Came events m.0) after.sent
    × All (λ (n : Node). AskedLogin events n.fd) after.online_user
run-Origin_example = run-Origin db no_files events after (login_chats, tt) run_served
