-- ===== src/Client/Talk/Offline.antt =====
-- What user_offline of function.c sends.
use model_lib.Base.{◌≡◌, refl, true, [], ◌∷◌, ◌++◌, ℤ}
use model_lib.CString.{Text}
use model_lib.Packet.{SendPack, zero_pack}
use model_lib.Packet.Cmd
use model_lib.Work.Copy.{IsString}
use model_lib.Client.{packet, Env, Client, ok}
use model_lib.Client.Console.{send_pk}
use model_lib.Client.Account.Login.{memcpy_string-IsString}
use model_lib.Client.Talk.{user_offline}

abbrev pub offline_packet : Text → ℤ → SendPack
offline_packet name id = record zero_pack {
  send_cmd = Cmd.offline;
  sourse_name = name;
  send_id1 = id;
}

pub user_offline-sends :
    (e : Env) (s : Client)
    → IsString s.temp_data0.current_name
    → e.send_ok ≡ true
    → user_offline e s
      ≡ ok tt (record s {
        sent =
            s.sent
            ++ packet (offline_packet s.temp_data0.current_name s.temp_data0.current_id1) ∷ [];
      })
unfolding user_offline send_pk
user_offline-sends e s str up = rw (memcpy_string-IsString s.temp_data0.current_name s str, up) refl
