-- ===== src/Tests/Account.antt =====
-- Signing up, logging in and asking for a forgotten password.
use model_lib.Base.{◌≡◌, refl, [], ◌∷◌, arith, if◌then◌else◌, pos, inl, true, false}
use model_lib.CString.{str_eq, mem_eq, mem_eq_refl}
use model_lib.Packet.{zero_pack, success, fail}
use model_lib.Server.{ok}
use model_lib.Sqlite.Search.{searched}
use model_lib.Sqlite.Insert.{user_stmt}
use model_lib.Handle.Account.{handle_signup, handle_login, handle_refind_a, handle_refind_b}
use model_lib.Handle.Account.ByName.{name_query, all_query}
use model_lib.Handle.Account.Login.{logged_in, handle_login_accepts, handle_login_refuses}
use model_lib.Handle.Account.Signup.{handle_signup_free, handle_signup_taken}
use model_lib.Handle.Account.Refind.{answered, handle_refind_a-asked, handle_refind_b-answ}
use model_lib.Sqlite.Import.{inport_row-user_row}
use model_lib.Tests.{
  alice, secret, question, reply, alice-IsString, reply-IsString, question-IsString, alice_row,
  alice_node, alice-Fits, found, answering, growing, idle, from_alice, from_alice-HasStrings,
  connection,
}

other_password : mem_eq reply secret ≡ false
unfolding mem_eq
other_password = refl

handle_login_accepts_example :
    handle_login (answering (alice_row ∷ [])) connection (from_alice secret) idle
    ≡ ok tt (
        logged_in
          (answering (alice_row ∷ []))
          connection
          (from_alice secret)
          (searched idle (name_query alice) 1 (alice_node ∷ []))
          (pos 1))
handle_login_accepts_example =
    handle_login_accepts (answering (alice_row ∷ [])) connection (from_alice secret) idle
      (found (alice_row ∷ [])) question reply secret (pos 1) alice-IsString (omega arith) refl refl
      alice-Fits (mem_eq_refl secret) refl refl refl

handle_login_refuses_example :
    handle_login (answering (alice_row ∷ [])) connection (from_alice reply) idle
    ≡ ok tt (record idle {
      flag = pos 1;
      cb_list = alice_node ∷ [];
      db = name_query alice ∷ [];
      sent = (connection, record zero_pack { result = fail }) ∷ [];
    })
handle_login_refuses_example =
    handle_login_refuses (answering (alice_row ∷ [])) connection (from_alice reply) idle
      (found (alice_row ∷ [])) (alice_node ∷ []) alice_node [] alice-IsString (omega arith) refl
      (inport_row-user_row alice secret question reply (pos 1) alice-Fits, tt) refl (omega arith)
      (inl other_password) refl

handle_signup_free_example :
    handle_signup (growing (alice_row ∷ [])) connection (from_alice secret) idle
    ≡ ok tt (record idle {
      flag = pos 1;
      db = name_query alice ∷ all_query ∷ user_stmt alice secret [] [] (pos 2) ∷ [];
      sent = (connection, record (from_alice secret) { result = success; send_id1 = pos 2 }) ∷ [];
    })
handle_signup_free_example =
    handle_signup_free (growing (alice_row ∷ [])) connection (from_alice secret) idle (found [])
      (found (alice_row ∷ [])) from_alice-HasStrings (omega arith) refl refl refl (omega arith) refl

handle_signup_taken_example :
    handle_signup (answering (alice_row ∷ [])) connection (from_alice secret) idle
    ≡ ok tt (record idle {
      flag = pos 1;
      db = name_query alice ∷ [];
      sent = (connection, record (from_alice secret) { result = fail }) ∷ [];
    })
handle_signup_taken_example =
    handle_signup_taken (answering (alice_row ∷ [])) connection (from_alice secret) idle
      (found (alice_row ∷ [])) alice-IsString (omega arith) refl refl (omega arith) refl

handle_refind_a-asked_example :
    handle_refind_a (answering (alice_row ∷ [])) connection (from_alice []) idle
    ≡ ok tt (record idle {
      flag = pos 1;
      cb_list = alice_node ∷ [];
      db = name_query alice ∷ [];
      sent = (connection, record zero_pack { result = success; send_msg0 = question }) ∷ [];
    })
handle_refind_a-asked_example =
    handle_refind_a-asked (answering (alice_row ∷ [])) connection (from_alice []) idle true
      (alice_row ∷ []) (alice_node ∷ []) alice-IsString (omega arith) refl
      (inport_row-user_row alice secret question reply (pos 1) alice-Fits, tt)
      (question-IsString, tt) (omega arith) refl

handle_refind_b-answ_example :
    handle_refind_b (answering (alice_row ∷ [])) connection (from_alice reply) idle
    ≡ ok tt (
        answered idle alice alice_node connection (
          if str_eq reply reply
          then record zero_pack { result = success; send_msg0 = secret }
          else record zero_pack { result = fail }))
handle_refind_b-answ_example =
    handle_refind_b-answ (answering (alice_row ∷ [])) connection (from_alice reply) idle
      (found (alice_row ∷ [])) secret question reply (pos 1) alice-IsString reply-IsString
      reply-IsString (omega arith) refl refl alice-Fits refl
