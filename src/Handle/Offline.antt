-- ===== src/Handle/Offline.antt =====
-- `handle_offline` of handle.c.
pub mod Effect
use model_lib.Base.{ℕ, ℤ}
use model_lib.CString.{Buf, max_size}
use model_lib.CString.Decimal.{show_int}
use model_lib.Packet.{SendPack}
use model_lib.Server.{M, ◌>>=◌, gets, modify, or_fault, sprintf}
use model_lib.Link.{matches}
use model_lib.Link.Refine.{take_out}

-- `remove_node(online_user, content, range)`, on the list's nodes.
unfoldable pub remove_online : Buf → ℕ → M (Unit {0})
remove_online content range = do
  rest ← or_fault (take_out (matches content range) (← gets λ s. s.online_user))
  modify λ s. record s { online_user = rest }

unfoldable pub handle_offline : ℤ → SendPack → M (Unit {0})
unfolding remove_online
handle_offline cfd recv = do buf ← sprintf max_size (show_int recv.send_id1); remove_online buf 1
