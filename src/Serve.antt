-- ===== src/Serve.antt =====
-- A packet on its way through the server: the main loop's branch for a readable connection in
-- epoll+tpool/server/server.c, and the function worker of work.c that a thread of the pool runs.
pub mod Session
pub mod Origin
use model_lib.Base.{Option, none, some, true, false, if◌then◌else◌, List, [], ℤ, pos, int_eq}
use model_lib.Packet.{SendPack, zero_pack}
use model_lib.Packet.Cmd
use model_lib.Server.{Env, Server, M, pure, ◌>>=◌, ◌>>◌, modify, or_fault, for_each}
use model_lib.Work.{
  Handler, Args, zero_args, init_args, handle_signup, handle_login, recv_fileinfo, recv_filedata,
  handle_refind_a, handle_refind_b, handle_offline, handle_show, handle_send, handle_recv,
}
use model_lib.Work.Copy.{copy_sendpack}
use model_lib.Sqlite.Write.{sqlite3_init}
use model_lib.Handle.Account
use model_lib.Handle.Show
use model_lib.Handle.Send
use model_lib.Handle.Offline

-- `transfer` stands for the three handlers of files, whose state is not the server's: Transfer
-- models them.
module _ (e : Env) (transfer : Handler → ℤ → SendPack → M (Unit {0})) where
  -- The function behind the pointer `handle1`.
  abbrev pub call : Handler → ℤ → SendPack → M (Unit {0})
  call handle_signup = Account.handle_signup e
  call handle_login = Account.handle_login e
  call handle_refind_a = Account.handle_refind_a e
  call handle_refind_b = Account.handle_refind_b e
  call handle_offline = Offline.handle_offline
  call handle_show = Show.handle_show e
  call handle_send = Send.handle_send e
  call recv_fileinfo = transfer recv_fileinfo
  call recv_filedata = transfer recv_filedata
  call handle_recv = transfer handle_recv

  abbrev call_if_set : Option Handler → ℤ → SendPack → M (Unit {0})
  call_if_set none conn_fd pk = pure tt
  call_if_set (some h) conn_fd pk = call h conn_fd pk

  -- A NULL `handle1` is skipped.
  unfoldable pub worker : Args → M (Unit {0})
  worker pw = call_if_set pw.handle1 pw.fd pw.sdpk

  -- One packet, with the job done before the next packet comes.
  unfoldable pub handle_packet : ℤ → SendPack → M (Unit {0})
  unfolding worker
  handle_packet sockfd temp_recv =
      if int_eq temp_recv.send_cmd Cmd.client_exit then pure tt else (do
        sdpk ← or_fault (copy_sendpack zero_pack temp_recv)
        worker (init_args sockfd temp_recv (record zero_args { sdpk = sdpk })))

  -- The events of the loop, each with its connection and the packet that it brings.
  unfoldable pub serve : List (ℤ × SendPack) → M (Unit {0})
  unfolding handle_packet
  serve events = for_each events (λ p. handle_packet p.0 p.1)

  -- main, from the initialisation of its two lists and of the database to its loop.
  unfoldable pub run : List (ℤ × SendPack) → M (Unit {0})
  unfolding serve
  run events = do
    modify λ s. record s { cb_list = []; online_user = [] }
    sqlite3_init e
    serve events

-- The globals of a process that has just been started.
abbrev pub globals : Server
globals = record {
  flag = pos 0;
  cb_list = [];
  online_user = [];
  temp_name = [];
  db = [];
  sent = [];
}
