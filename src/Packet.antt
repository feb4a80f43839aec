-- ===== src/Packet.antt =====
-- The structures of epoll+tpool/server/head.h and its constants.
pub mod Cmd
use model_lib.Base.{ℕ, [], ℤ, pos}
use model_lib.CString.{Buf}

-- The packet that client and server exchange.
pub record SendPack : Type 0 where
  pub send_cmd : ℤ
  pub result : ℤ
  pub sourse_name : Buf
  pub temp_name : Buf
  pub send_msg0 : Buf
  pub send_msg1 : Buf
  pub send_msg2 : Buf
  pub send_msg3 : Buf
  pub send_msg4 : Buf
  pub send_id1 : ℤ
  pub send_id2 : ℤ

-- A packet after `memset(&pack, 0, sizeof(pack))`.
abbrev pub zero_pack : SendPack
zero_pack = record {
  send_cmd = pos 0;
  result = pos 0;
  sourse_name = [];
  temp_name = [];
  send_msg0 = [];
  send_msg1 = [];
  send_msg2 = [];
  send_msg3 = [];
  send_msg4 = [];
  send_id1 = pos 0;
  send_id2 = pos 0;
}

-- What the server keeps of the user on a connection.
pub record CurrentData : Type 0 where
  pub current_name : Buf
  pub current_pswd : Buf
  pub current_ques : Buf
  pub current_answ : Buf
  pub current_id1 : ℤ
  pub current_id2 : ℤ
  pub fd : ℤ

-- What a list node holds besides its `next` pointer.
pub record Node : Type 0 where
  pub fd : ℤ
  pub name : Buf
  pub name1 : Buf
  pub name2 : Buf
  pub name3 : Buf
  pub pswd : Buf
  pub ques : Buf
  pub answ : Buf
  pub message : Buf
  pub dec : Buf
  pub id1 : ℤ
  pub id2 : ℤ

-- A node after `memset`.
abbrev pub zero_node : Node
zero_node = record {
  fd = pos 0;
  name = [];
  name1 = [];
  name2 = [];
  name3 = [];
  pswd = [];
  ques = [];
  answ = [];
  message = [];
  dec = [];
  id1 = pos 0;
  id2 = pos 0;
}

abbrev pub success : ℤ
success = pos 3001

abbrev pub fail : ℤ
fail = pos 3002

-- The `cmd` of `search_data`.
abbrev pub inport : ℕ
inport = 201

abbrev pub count : ℕ
count = 202

abbrev pub exchange : ℕ
exchange = 1015
