-- ===== src/Client/Receiver.antt =====
-- The thread that shows what the server sends on its own: pthread_recv and handle_friend of function.c.
use model_lib.Base.{◌∷◌, ◌++◌, if◌then◌else◌, pos, int_eq}
use model_lib.CString.{text}
use model_lib.Packet.{SendPack, zero_pack}
use model_lib.Packet.Cmd
use model_lib.Client.{Env, C, pure, ◌>>=◌, gets, modify}
use model_lib.Client.Console.{recv_pk, string_of, show_text}

module _ (e : Env) where
  -- The request goes to the front of the list; the rest of the node is as `malloc` left it.
  unfoldable pub handle_friend : SendPack → C (Unit {0})
  handle_friend recv_pack =
      modify λ s. record s {
        friend_req = record e.heap_node { id1 = recv_pack.send_id1 } ∷ s.friend_req;
      }

  -- A packet with another command is dropped.
  unfoldable pub handle_arrival : SendPack → C (Unit {0})
  unfolding handle_friend string_of show_text
  handle_arrival recv_pack =
      if int_eq recv_pack.send_cmd Cmd.friend_req
      then handle_friend recv_pack
      else if int_eq recv_pack.send_cmd Cmd.muti_send
      then (do
        name ← string_of recv_pack.sourse_name
        msg ← string_of recv_pack.send_msg0
        show_text (name ++ (text ":" ++ msg)))
      else if int_eq recv_pack.send_cmd Cmd.info
      then (do msg ← string_of recv_pack.send_msg0; show_text msg)
      else pure tt

  -- A round of the thread's loop, run between two calls of the other thread. That other calls can come
  -- between the test of flag and the recv is not modelled.
  unfoldable pub receive_round : C (Unit {0})
  unfolding handle_arrival recv_pk
  receive_round = do
    flag ← gets λ s. s.flag
    if int_eq flag (pos 1) then (recv_pk zero_pack >>= handle_arrival) else pure tt
