-- ===== src/Transfer/Sender.antt =====
-- handle_recv in epoll+tpool/server/handle.c: a file of the list, sent to a client.
pub mod Fetch
use model_lib.Base.{Option, none, some, List, [], ◌∷◌, ◌++◌, map, ℕ, length}
use model_lib.CString.{Text, text, max_size}
use model_lib.CString.Decimal.{show_int}
use model_lib.Packet.{SendPack, inport}
use model_lib.Server.{Env, M, pure, exit, ◌>>=◌, gets, or_fault, first_node, sprintf}
use model_lib.Sqlite.{search_by_id}
use model_lib.Sqlite.Write.{c_string}
use model_lib.Transfer.{FileInfo, Head, send_fileinfo, file_heads, send_filedata}
use model_lib.Client.{Message, file_info, block, bytes}

abbrev followed : Head × List (List ℕ) → Option (List Message) → Option (List Message)
followed r none = none
followed r (some ms) = some (block r.0 ∷ map bytes r.1 ++ ms)

-- The loops over the blocks: what they put on the socket.
unfoldable pub send_blocks : List ℕ → List Head → Option (List Message)
send_blocks file [] = some []
send_blocks file (h ∷ hs) =
    let rest = send_blocks file hs in
    elim (send_filedata file h) [ none ↦ none | some r ↦ followed r rest ]

-- `open`: a file that is not there ends the process.
abbrev pub opened : Option (List ℕ) → M (List ℕ)
opened none = exit
opened (some file) = pure file

-- `disk` holds the server's files. `freeid` is the number of the client's slot, which the client
-- sends back for the sizes. The result is what goes out on the socket.
unfoldable pub handle_recv :
    Env → (disk : Text → Option (List ℕ)) → (freeid : FileInfo → ℕ) → SendPack → M (List Message)
handle_recv e disk freeid recv = do
  _ ← search_by_id e (text "filelist") (text "id1") recv.send_id2 inport
  p ← first_node (← gets λ s. s.cb_list)
  name ← c_string p.name
  filename ← sprintf max_size (show_int p.id1 ++ (text "_" ++ name))
  file ← opened (disk filename)
  r ← or_fault (send_fileinfo filename (length file))
  blocks ← or_fault (send_blocks file (file_heads r.0 r.1 filename (freeid r.0)))
  pure (file_info r.0 ∷ blocks)
