-- ===== src/Packet/Cmd.antt =====
-- The commands of a packet, from epoll+tpool/server/head.h.
use model_lib.Base.{ℤ, pos}

abbrev pub signup : ℤ
signup = pos 1011

abbrev pub login : ℤ
login = pos 1000

abbrev pub client_exit : ℤ
client_exit = pos 1001

abbrev pub refind_a : ℤ
refind_a = pos 1002

abbrev pub refind_b : ℤ
refind_b = pos 1021

abbrev pub offline : ℤ
offline = pos 1005

abbrev pub muti_send : ℤ
muti_send = pos 1006

abbrev pub show : ℤ
show = pos 1007

abbrev pub recv_file : ℤ
recv_file = pos 1014

abbrev pub info : ℤ
info = pos 1016

abbrev pub file_info : ℤ
file_info = pos 1019

abbrev pub file_data : ℤ
file_data = pos 1020

abbrev pub delete : ℤ
delete = pos 1004

abbrev pub friend_req : ℤ
friend_req = pos 1008

abbrev pub friend_acc : ℤ
friend_acc = pos 1009

abbrev pub group : ℤ
group = pos 1010

abbrev pub change : ℤ
change = pos 1012

abbrev pub check : ℤ
check = pos 1017

abbrev pub fresh : ℤ
fresh = pos 1018
