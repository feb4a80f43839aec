-- ===== src/Tests/Race.antt =====
-- Bob's password lets a client in under Alice's name, while Bob logs in too.
use model_lib.Base.{◌≡◌, refl, true, false, List, [], ◌∷◌, arith, pos}
use model_lib.CString.{Text, mem_eq}
use model_lib.Packet.{SendPack, Node, fail}
use model_lib.Server.{Row, Answer, Env, ok}
use model_lib.Sqlite.Import.{user_row, user_node, inport_row-user_row}
use model_lib.Handle.Account.{handle_login}
use model_lib.Handle.Account.ByName.{name_query}
use model_lib.Handle.Account.Login.{logged_in}
use model_lib.Handle.Account.Race.{
  before, deciding, after, interleave, found_one, both_searched, crossed_logins,
}
use model_lib.Tests.{
  alice, secret, question, reply, alice-IsString, secret-IsString, alice_row, alice_node, found,
  answering, idle, from_alice, connection,
}

-- Bob's name is `pw` and his password `b`.
abbrev bob_row : Row
bob_row = user_row secret reply question reply (pos 2)

abbrev bob_node : Node
bob_node = user_node secret reply question reply (pos 2)

abbrev from_bob : SendPack
from_bob = record (from_alice reply) { sourse_name = secret }

-- The first search finds Alice, the second one Bob.
abbrev in_turn : List Text → Text → Answer
in_turn [] sql = found (alice_row ∷ [])
in_turn (q ∷ history) sql = found (bob_row ∷ [])

abbrev two_users : Env
two_users = record (answering []) { exec = in_turn }

wrong_password : mem_eq reply secret ≡ false
unfolding mem_eq
wrong_password = refl

bobs_password : mem_eq reply reply ≡ true
unfolding mem_eq
bobs_password = refl

crossed_logins_example :
    (interleave two_users connection
        (pos 6)
        (from_alice reply)
        from_bob
        (true ∷ false ∷ true ∷ [])
        before
        before
        idle
      ≡ ok
          (after, deciding (found_one secret))
          (logged_in two_users connection
            (from_alice reply)
            (both_searched idle (from_alice reply) from_bob bob_node)
            (pos 2)))
    × (handle_login two_users connection (from_alice reply) idle
        ≡ ok tt (record idle {
          flag = pos 1;
          cb_list = alice_node ∷ [];
          db = name_query alice ∷ [];
          sent = (connection, record two_users.stack_pack { result = fail }) ∷ [];
        }))
crossed_logins_example =
    crossed_logins two_users connection (pos 6) (from_alice reply) from_bob idle
      (found (alice_row ∷ [])) (found (bob_row ∷ [])) alice_node bob_node alice-IsString
      (omega arith) secret-IsString (omega arith) refl
      (inport_row-user_row alice secret question reply (pos 1) (omega arith), tt) refl refl
      (inport_row-user_row secret reply question reply (pos 2) (omega arith), tt) refl
      wrong_password bobs_password refl refl refl
