-- ===== src/Tests/Client.antt =====
-- The client's dialogues, alone and against the server.
use model_lib.Base.{ℕ, ◌≡◌, refl, true, none, some, List, [], ◌∷◌, ◌++◌, arith, length, ℤ, pos}
use model_lib.CString.{Text}
use model_lib.Packet.{SendPack, zero_pack, zero_node, success}
use model_lib.Server.{Row, M, ok}
use model_lib.Work.{Handler}
use model_lib.Sqlite.Import.{user_row, Fits}
use model_lib.Transfer.Receive.{zero_conn}
use model_lib.Handle.Account.Login.{welcome}
use model_lib.Client
use model_lib.Client.{message, packet, file_info, slot, waiting, ◌>>=◌, ◌>>◌, pure}
use model_lib.Client.Scan.{skip_spaces}
use model_lib.Client.Console.{reading}
use model_lib.Client.Password.{passwd_input, ask_password}
use model_lib.Client.Password.Editor.{edit, password_of, passwd_input-edit}
use model_lib.Client.Password.Bounds.{Suitable, ask_password-Suitable}
use model_lib.Client.Account.{zero_data, login}
use model_lib.Client.Account.Login.{keys_of, login_packet, Credentials}
use model_lib.Client.Talk.{user_offline}
use model_lib.Client.Talk.Offline.{offline_packet}
use model_lib.Serve.{handle_packet}
use model_lib.Serve.Session.{login_request, known, replied, served, session}
use model_lib.Tests.{alice, question, reply, alice-IsString, found, answering, idle, connection}

abbrev pub host : Client.Env
host = record {
  send_ok = true;
  stack_pack = zero_pack;
  stack_int = pos 0;
  heap_node = zero_node;
  file = λ name. none;
  sockfd = pos 3;
  opens = λ name. true;
  rounds = 5;
}

abbrev pub quiet : Client.Client
quiet = record {
  flag = pos 0;
  temp_data0 = zero_data;
  friend_req = [];
  typed = [];
  arrived = [];
  sent = [];
  gconn = zero_conn ∷ [];
  freeid = 0;
  saved = [];
  shown = [];
}

abbrev typing : List ℕ → Client.Client
typing keys = record quiet { typed = keys }

-- One character, erased, and another one.
passwd_input-edit_example :
    (passwd_input [] >>= λ r. pure (password_of r)) (typing (97 ∷ 19 ∷ 98 ∷ 10 ∷ []))
    ≡ (reading (λ keys. edit keys (some [])) >>= λ t. pure (t, length t))
        (typing (97 ∷ 19 ∷ 98 ∷ 10 ∷ []))
passwd_input-edit_example = passwd_input-edit [] (typing (97 ∷ 19 ∷ 98 ∷ 10 ∷ [])) (ground arith)

-- A password that is too short, and one that is not.
abbrev two_tries : Client.Client
two_tries = typing (98 ∷ 10 ∷ 98 ∷ 98 ∷ 98 ∷ 98 ∷ 98 ∷ 98 ∷ 10 ∷ [])

ask_password-Suitable_example : Suitable (ask_password two_tries)
ask_password-Suitable_example = ask_password-Suitable two_tries

abbrev pub long_secret : Text
long_secret = 115 ∷ 101 ∷ 99 ∷ 114 ∷ 101 ∷ 116 ∷ []

alice-Credentials : Credentials alice long_secret
alice-Credentials = record {
  name-IsWord = (refl, (refl, tt));
  name-IsString = alice-IsString;
  pw-IsPlain = ground arith;
  pw_long = omega arith;
  pw_short = omega arith;
}

abbrev pub her_row : Row
her_row = user_row alice long_secret question reply (pos 1)

pub her_row-Fits : Fits alice long_secret question reply
her_row-Fits = omega arith

abbrev pub no_files : Handler → ℤ → SendPack → M (Unit {0})
no_files h fd pk = λ s. ok tt s

abbrev her_answer : SendPack
her_answer = welcome (answering (her_row ∷ [])) connection (login_request alice long_secret) (pos 1)

abbrev at_login : Client.Client
at_login = record quiet {
  typed = 10 ∷ keys_of alice long_secret [];
  arrived = message (packet her_answer) ∷ [];
}

at_login-keys : skip_spaces at_login.typed ≡ keys_of alice long_secret []
unfolding skip_spaces
at_login-keys = refl

session_example :
    let e = answering (her_row ∷ []) in
    let after = served e connection alice long_secret question reply (pos 1) idle in
    let me = known (replied at_login [] [] alice long_secret) alice (pos 1) in
    (handle_packet e no_files connection (login_packet alice long_secret) idle ≡ ok tt after)
    × (after.sent ≡ [] ++ (connection, her_answer) ∷ [])
    × (login host at_login ≡ Client.ok success me)
    × (user_offline host me
        ≡ Client.ok tt (record me { sent = me.sent ++ packet (offline_packet alice (pos 1)) ∷ [] }))
    × (handle_packet e no_files connection (offline_packet alice (pos 1)) after
        ≡ ok tt (record after { online_user = [] }))
session_example =
    session (answering (her_row ∷ [])) no_files connection idle host at_login [] [] alice
      long_secret question reply (pos 1) (found (her_row ∷ [])) alice-Credentials (omega arith)
      (omega arith) at_login-keys tt refl refl refl refl refl her_row-Fits refl refl
