-- ===== src/Work.antt =====
-- epoll+tpool/server/work.c: the job of a packet, and the copies on its way to a worker.
pub mod Copy
use model_lib.Base.{Option, none, some, if◌then◌else◌, ℤ, pos, int_eq}
use model_lib.Packet.{SendPack, zero_pack}
use model_lib.Packet.Cmd

-- The handlers that a job can name.
pub data Handler : Type 0 where
  handle_signup handle_login recv_fileinfo recv_filedata handle_refind_a handle_refind_b : Handler
  handle_offline handle_show handle_send handle_recv : Handler

-- `struct args`; none is a NULL `handle1`. `handle2` and `handle3` are never set.
pub record Args : Type 0 where
  pub fd : ℤ
  pub flag : ℤ
  pub sdpk : SendPack
  pub handle1 : Option Handler

-- `memset(p_args, 0, sizeof(struct args))`
abbrev pub zero_args : Args
zero_args = record { fd = pos 0; flag = pos 0; sdpk = zero_pack; handle1 = none }

-- The `switch` of `init_args`: any other command leaves `handle1` alone.
unfoldable pub select_handler : ℤ → Option Handler → Option Handler
select_handler cmd old =
    if int_eq cmd Cmd.signup
    then some handle_signup
    else if int_eq cmd Cmd.login
    then some handle_login
    else if int_eq cmd Cmd.file_info
    then some recv_fileinfo
    else if int_eq cmd Cmd.file_data
    then some recv_filedata
    else if int_eq cmd Cmd.refind_a
    then some handle_refind_a
    else if int_eq cmd Cmd.refind_b
    then some handle_refind_b
    else if int_eq cmd Cmd.offline
    then some handle_offline
    else if int_eq cmd Cmd.show
    then some handle_show
    else if int_eq cmd Cmd.muti_send
    then some handle_send
    else if int_eq cmd Cmd.recv_file
    then some handle_recv
    else old

unfoldable pub init_args : ℤ → SendPack → Args → Args
unfolding select_handler
init_args sockfd recv p_args = record p_args {
  fd = sockfd;
  handle1 = select_handler recv.send_cmd p_args.handle1;
}
