-- ===== src/Tests/Groups.antt =====
-- Alice joins a group.
use model_lib.Base.{◌≡◌, refl, some, [], ◌∷◌, arith, pos}
use model_lib.CString.{text}
use model_lib.Packet.{SendPack, zero_pack, Node, zero_node}
use model_lib.Server.{Row, ok}
use model_lib.Handle.Groups.{joined, handle_group}
use model_lib.Handle.Groups.Join.{join_stmts, handle_group-join}
use model_lib.Handle.Show.Listing.{line_pack}
use model_lib.Tests.{
  alice, secret, alice-IsString, secret-IsString, found, answering, idle, connection,
}
use model_lib.Tests.Requests.{current}
use model_lib.Sqlite.Rows.{inport_row}
use model_lib.Sqlite.Import.{inport_row-group}
use model_lib.CString.Decimal.{show_int}

-- The group `secret`, with the id 5.
abbrev group_entry : Row
group_entry = (text "name", some secret) ∷ (text "id1", some (show_int (pos 5))) ∷ []

abbrev group_node : Node
group_node = record zero_node { name = secret; id1 = pos 5 }

abbrev ask_join : SendPack
ask_join = record zero_pack { send_cmd = pos 3; sourse_name = secret }

group_entry_node : inport_row group_entry zero_node ≡ some group_node
group_entry_node = inport_row-group secret (pos 5) (omega arith)

handle_group-join_example :
    handle_group (answering (group_entry ∷ [])) connection ask_join current idle
    ≡ ok tt (record idle {
      flag = pos 1;
      cb_list = group_node ∷ [];
      db = join_stmts current secret (pos 5);
      sent = (connection, line_pack (joined alice secret)) ∷ [];
    })
handle_group-join_example =
    handle_group-join (answering (group_entry ∷ [])) connection ask_join current idle
      (found (group_entry ∷ [])) (found (group_entry ∷ [])) (group_node ∷ []) [] group_node refl
      secret-IsString alice-IsString (omega arith) (omega arith) (omega arith) (omega arith) refl
      refl refl (group_entry_node, tt) (omega arith) refl refl
