-- ===== src/Tests/Messages.antt =====
-- A message, a listing, and going offline.
use model_lib.Base.{◌≡◌, refl, [], ◌∷◌, ◌++◌, arith, pos, ℤ}
use model_lib.CString.{text}
use model_lib.Packet.{SendPack, zero_pack, Node, zero_node}
use model_lib.Server.{Server, ok}
use model_lib.Sqlite.Import.{inport_row-user_row}
use model_lib.Sqlite.Insert.{entry_stmt}
use model_lib.Handle.Send.{handle_send, find_online}
use model_lib.Handle.Send.Single.{id_query, delivered, handle_send_single}
use model_lib.Handle.Account.ByName.{all_query}
use model_lib.Handle.Send.Everyone.{entries, copies, handle_send-everyone}
use model_lib.Handle.Send.Group.{reached, member_entries, Ready, closing}
use model_lib.Handle.Send.Group.Sent.{members_query, group_entered, handle_send-group}
use model_lib.Handle.Show.{handle_show, table_header}
use model_lib.Handle.Show.Listing.{line_pack, lines, handle_show-lines}
use model_lib.Handle.Offline.{handle_offline}
use model_lib.Handle.Offline.Effect.{handle_offline_removes}
use model_lib.Tests.{
  alice, secret, question, reply, alice-IsString, secret-IsString, alice_row, alice_node,
  alice-Fits, found, answering, idle, connection,
}

abbrev alice_online : Node
alice_online = record zero_node { fd = pos 7; name = alice; id1 = pos 1 }

abbrev bob_online : Node
bob_online = record zero_node { fd = pos 8; name = secret; id1 = pos 2 }

abbrev two_online : Server
two_online = record idle { online_user = bob_online ∷ alice_online ∷ [] }

-- A message from user 2 to user 1.
abbrev to_alice : SendPack
to_alice = record zero_pack {
  result = pos 1;
  sourse_name = secret;
  send_msg0 = secret;
  send_id1 = pos 2;
  send_id2 = pos 1;
}

handle_send_single_example :
    handle_send (answering (alice_row ∷ [])) connection to_alice two_online
    ≡ ok tt (record two_online {
      flag = pos 1;
      temp_name = alice;
      db = id_query (pos 1) ∷ entry_stmt alice (text "unchecked") (pos 2) secret ∷ [];
      sent = delivered to_alice (find_online (pos 1) two_online.online_user);
    })
handle_send_single_example =
    handle_send_single (answering (alice_row ∷ [])) connection to_alice two_online
      (found (alice_row ∷ [])) refl secret-IsString secret-IsString (omega arith) (omega arith) refl
      (omega arith) (omega arith) alice-IsString (λ fd. refl)

abbrev list_online : SendPack
list_online = record zero_pack { result = pos 2 }

handle_show-lines_example :
    handle_show (answering []) connection list_online two_online
    ≡ ok tt (record two_online {
      sent = (connection, line_pack table_header) ∷ lines connection two_online.online_user;
    })
handle_show-lines_example =
    handle_show-lines (answering []) connection list_online two_online refl
      (secret-IsString, omega arith, omega arith, (alice-IsString, omega arith, omega arith, tt))
      refl

abbrev goodbye : ℤ → SendPack
goodbye id = record zero_pack { send_id1 = id }

handle_offline_removes_example :
    handle_offline connection (goodbye (pos 1)) two_online
    ≡ ok tt (record two_online { online_user = bob_online ∷ [] })
handle_offline_removes_example =
    handle_offline_removes connection (goodbye (pos 1)) two_online (bob_online ∷ []) alice_online []
      (omega arith) refl ((ground arith), tt) refl

-- A message from user 2 to everyone.
abbrev to_everyone : SendPack
to_everyone = record to_alice { result = pos 4 }

handle_send-everyone_example :
    handle_send (answering (alice_row ∷ [])) connection to_everyone two_online
    ≡ ok tt (record two_online {
      flag = pos 1;
      cb_list = alice_node ∷ [];
      db = all_query ∷ entries to_everyone (alice_node ∷ []);
      sent = copies to_everyone two_online.online_user;
    })
handle_send-everyone_example =
    handle_send-everyone (answering (alice_row ∷ [])) connection to_everyone two_online
      (found (alice_row ∷ [])) (alice_node ∷ []) refl secret-IsString secret-IsString (omega arith)
      refl (inport_row-user_row alice secret question reply (pos 1) alice-Fits, tt) (omega arith)
      (alice-IsString, tt) (λ fd. refl)

-- A message from user 2 to a group of which Alice is the only member.
abbrev to_group : SendPack
to_group = record to_alice { result = pos 2; send_msg0 = alice }

handle_send-group_example :
    (last : SendPack) × Ready to_group last
    × (handle_send (answering (alice_row ∷ [])) connection to_group two_online
        ≡ ok tt (record two_online {
          flag = pos 1;
          cb_list = alice_node ∷ [];
          db =
              (group_entered two_online to_group).db
              ++ members_query secret ∷ []
              ++ member_entries to_group (alice_node ∷ []);
          sent =
              reached to_group two_online.online_user (alice_node ∷ [])
              ++ (connection, closing to_group last) ∷ [];
        }))
handle_send-group_example =
    handle_send-group (answering (alice_row ∷ [])) connection to_group two_online
      (found (alice_row ∷ [])) (found (alice_row ∷ [])) 0 (alice_node ∷ []) refl
      (record { name_str = secret-IsString; text_str = alice-IsString; both = omega arith })
      (omega arith) (omega arith) refl refl (omega arith) refl
      (inport_row-user_row alice secret question reply (pos 1) alice-Fits, tt) (omega arith)
      (alice-IsString, tt) (λ fd. refl)
