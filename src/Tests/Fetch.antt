-- ===== src/Tests/Fetch.antt =====
-- A file of three bytes, fetched by the client from the server.
use model_lib.Base.{◌≡◌, refl, some, List, [], ◌∷◌, ◌++◌, ℕ, Option, arith, pos, length, ap, sym}
use mathlib.Core.Path.{subst}
use model_lib.CString.{Text, IsClean, text}
use model_lib.CString.Decimal.{show_int, show_nat, signed_value, digits_value}
use model_lib.Packet.{Node, zero_node}
use model_lib.Server
use model_lib.Server.{Row}
use model_lib.Sqlite.Import.{filelist_row, inport_row-filelist_row}
use model_lib.Sqlite.Search.{searched}
use model_lib.Transfer.Receive.{
  zero_conn, conn_max, get_conn, set_conn, found_at, find_slot, undisturbed,
}
use model_lib.Transfer.Sender.{handle_recv}
use model_lib.Transfer.Sender.Fetch.{file_query, disk_name, file_messages, fetch}
use model_lib.Client
use model_lib.Client.{slot}
use model_lib.Client.Scan.{got, skip_spaces, until_other, scan_int}
use model_lib.Client.Files.{recvfile}
use model_lib.Client.Files.Incoming.{arriving}
use model_lib.Client.Files.Download.{file_packet, requested}
use model_lib.Tests.{alice, secret, question, reply, reply-IsString, found, answering, idle}
use model_lib.Tests.Client.{host, quiet}

abbrev three : List ℕ
three = 1 ∷ 2 ∷ 3 ∷ []

abbrev disk : Text → Option (List ℕ)
disk name = some three

abbrev listed : Row
listed = filelist_row reply alice secret question (pos 7)

abbrev listed_node : Node
listed_node = record zero_node {
  name = reply;
  name1 = alice;
  name2 = secret;
  name3 = question;
  id1 = pos 7;
}

abbrev fetching : Client.Client
fetching = record quiet { typed = 55 ∷ 10 ∷ [] }

seven_typed : scan_int fetching.typed ≡ got (some (pos 7)) (10 ∷ [])
unfolding scan_int skip_spaces until_other signed_value digits_value
seven_typed = refl

free_slot : find_slot (undisturbed conn_max fetching.gconn) fetching.freeid ≡ found_at 0
unfolding find_slot get_conn undisturbed
free_slot = refl

disk_name_seven : disk_name listed_node ≡ 55 ∷ 95 ∷ 98 ∷ []
unfolding show_int show_nat text
disk_name_seven = refl

disk_name-IsClean : IsClean (disk_name listed_node)
disk_name-IsClean = subst IsClean (sym disk_name_seven) (ground arith)

abbrev on_its_way : List Client.Message
on_its_way = file_messages host (disk_name listed_node) three 0

abbrev client_there : Client.Client
client_there = record fetching { arrived = arriving on_its_way [] }

abbrev asked : Client.Client
asked = requested host (disk_name listed_node) three 0 client_there (pos 7) (10 ∷ [])

fetch_example :
    (handle_recv
        (answering (listed ∷ []))
        disk
        (λ finfo. 0)
        (file_packet fetching.temp_data0.current_name fetching.temp_data0.current_id1 (pos 7))
        idle
      ≡ Server.ok on_its_way (searched idle (file_query (pos 7)) 1 (listed_node ∷ [])))
    × (recvfile host client_there
        ≡ Client.ok tt (record asked {
          flag = pos 1;
          arrived = [];
          gconn = set_conn fetching.gconn 0 zero_conn;
          freeid = 0;
          shown = disk_name listed_node ∷ [];
          saved = three ∷ [];
          sent = asked.sent ++ slot 0 ∷ [];
        }))
fetch_example =
    fetch (answering (listed ∷ [])) disk three 0 host idle (found (listed ∷ [])) (listed_node ∷ [])
      [] listed_node (inport_row-filelist_row reply alice secret question (pos 7) (omega arith), tt)
      (omega arith) refl reply-IsString (omega (arith, ap length disk_name_seven)) refl
      (omega arith) client_there (pos 7) (10 ∷ []) [] (omega arith) refl disk_name-IsClean
      (ground arith) (omega arith) seven_typed free_slot (omega arith) refl refl refl
