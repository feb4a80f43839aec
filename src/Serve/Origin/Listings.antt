-- ===== src/Serve/Origin/Listings.antt =====
-- handle_show of epoll+tpool/server/handle.c writes to the connection that it answers.
use model_lib.Base.{ℤ}
use model_lib.CString.{Text, Buf}
use model_lib.Packet.{SendPack, Node}
use model_lib.Server.{Env}
use model_lib.Server.Keeps.{Keeps, Ends-for_each, Ends-fold_each, ends_rules}
use model_lib.Sqlite.{search_by_id}
use model_lib.Handle.Show.{
  send_line, send_node, send_file, send_request, show_friends, show_online, show_users,
  show_requests, show_files, handle_show,
}
use model_lib.Serve.Origin.{actions, Origin}

module _ (D L : ℤ → Type 0) (e : Env) where
  send_line-Origin :
      (pk : SendPack) (line : Text) (cfd : ℤ) → D cfd → Keeps (Origin D L) (send_line e pk line cfd)
  unfolding send_line
  send_line-Origin pk line cfd d s h = search actions depth 12

  send_node-Origin :
      (column : Node → Buf) (cfd : ℤ) (p : Node)
      → D cfd
      → Keeps (Origin D L) (send_node e column cfd p)
  unfolding send_node
  send_node-Origin column cfd p d s h = search (actions, send_line-Origin) depth 12

  send_file-Origin : (cfd : ℤ) (p : Node) → D cfd → Keeps (Origin D L) (send_file e cfd p)
  unfolding send_file
  send_file-Origin cfd p d s h = search (actions, send_line-Origin) depth 12

  send_request-Origin :
      (cfd : ℤ) (pk : SendPack) (p : Node) → D cfd → Keeps (Origin D L) (send_request e cfd pk p)
  unfolding send_request search_by_id
  send_request-Origin cfd pk p d s h = search (actions, send_line-Origin) depth 12

ruleset listings = (
  actions, send_line-Origin, send_node-Origin, send_file-Origin, send_request-Origin, Ends-for_each,
  Ends-fold_each,
)

module _ (D L : ℤ → Type 0) (e : Env) (cfd : ℤ) (pk : SendPack) (d : D cfd) where
  show_friends-Origin : Keeps (Origin D L) (show_friends e cfd pk)
  unfolding show_friends
  show_friends-Origin s h = search listings depth 20

  show_online-Origin : Keeps (Origin D L) (show_online e cfd)
  unfolding show_online
  show_online-Origin s h = search listings depth 20

  show_users-Origin : Keeps (Origin D L) (show_users e cfd)
  unfolding show_users
  show_users-Origin s h = search listings depth 20

  show_requests-Origin : Keeps (Origin D L) (show_requests e cfd)
  unfolding show_requests search_by_id
  show_requests-Origin s h = search listings depth 20

  show_files-Origin : Keeps (Origin D L) (show_files e cfd pk)
  unfolding show_files
  show_files-Origin s h = search listings depth 20

  pub handle_show-Origin : Keeps (Origin D L) (handle_show e cfd pk)
  unfolding handle_show
  handle_show-Origin s h =
      search
        (
          ends_rules, show_friends-Origin, show_online-Origin, show_users-Origin,
          show_requests-Origin, show_files-Origin,
        )
        depth 20
