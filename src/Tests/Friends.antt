-- ===== src/Tests/Friends.antt =====
-- A friend request that is accepted.
use model_lib.Base.{◌≡◌, refl, [], ◌∷◌, some, arith, pos, if◌then◌else◌}
use model_lib.CString.{Text, text, str_eq}
use model_lib.CString.Decimal.{show_int, show_nat}
use model_lib.Packet.{SendPack, zero_pack, CurrentData}
use model_lib.Server.{Row, Answer, Env, ok}
use model_lib.Sqlite.Sql.{select_int}
use model_lib.Sqlite.Import.{inport_row-user_row}
use model_lib.Sqlite.Search.{searched}
use model_lib.Handle.Send.Single.{id_query}
use model_lib.Handle.Friends.{handle_accept_friend}
use model_lib.Handle.Friends.Accept.{requests_query, friends, handle_accept_friend-first}
use model_lib.Tests.{
  alice, secret, question, reply, alice-IsString, secret-IsString, alice_row, alice_node,
  alice-Fits, found, answering, idle, connection,
}
use model_lib.Tests.Requests.{current}

-- User 2.
abbrev bob : CurrentData
bob = record current { current_name = secret; current_id1 = pos 2 }

-- The columns behind the name.
abbrev behind_name : Text → Row
behind_name id = (text "pswd", some secret) ∷ (text "id1", some id) ∷ []

-- The name of user 2 for his id, and Alice's row for every other search, as if the request in front
-- were hers.
abbrev answers : Text → Answer
answers sql =
    if str_eq sql (id_query (pos 2))
    then found (((text "name", some secret) ∷ behind_name (show_int (pos 2))) ∷ [])
    else found (alice_row ∷ [])

abbrev two_names : Env
two_names = record (answering []) { exec = λ history sql. answers sql }

requested : answers (requests_query (pos 2)) ≡ found (alice_row ∷ [])
unfolding str_eq select_int text show_int show_nat
requested = refl

alice_named : answers (id_query (pos 1)) ≡ found (alice_row ∷ [])
unfolding str_eq select_int text show_int show_nat
alice_named = refl

bob_named :
    answers (id_query (pos 2))
    ≡ found (((text "name", some secret) ∷ behind_name (show_int (pos 2))) ∷ [])
unfolding str_eq select_int text show_int show_nat
bob_named = refl

abbrev accept_alice : SendPack
accept_alice = record zero_pack { send_id1 = pos 1 }

handle_accept_friend-first_example :
    handle_accept_friend two_names accept_alice connection bob idle
    ≡ ok tt (
        friends bob
          (pos 1)
          secret
          alice
          (searched idle (requests_query (pos 2)) 1 (alice_node ∷ [])))
handle_accept_friend-first_example =
    handle_accept_friend-first two_names accept_alice connection bob secret alice idle
      (found (alice_row ∷ [])) (alice_node ∷ []) alice_node [] requested
      (inport_row-user_row alice secret question reply (pos 1) alice-Fits, tt) (omega arith) refl
      secret-IsString (omega arith)
      (λ same. record {
        int = omega arith;
        string = alice-IsString;
        column = text "name";
        others =
            (text "pswd", some secret)
            ∷ (text "ques", some question)
            ∷ (text "answ", some reply)
            ∷ (text "id1", some (show_int (pos 1)))
            ∷ [];
        run = alice_named;
      })
      (λ same. record {
        int = omega arith;
        string = secret-IsString;
        column = text "name";
        others = behind_name (show_int (pos 2));
        run = bob_named;
      })
