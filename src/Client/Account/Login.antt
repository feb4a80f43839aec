-- ===== src/Client/Account/Login.antt =====
-- The client's part of a login and of going offline.
use model_lib.Base.{ℕ, ◌≤◌, ◌≡◌, refl, true, List, [], ◌∷◌, ◌++◌, length, arith}
use model_lib.CString.{Text, Buf, IsClean, c_str-clean, copy_str-nil, max_size}
use model_lib.Packet.{SendPack, zero_pack, success}
use model_lib.Packet.Cmd
use model_lib.Work.Copy.{IsString}
use model_lib.Client.{Arrival, message, packet, Env, Client, ok}
use model_lib.Client.Scan.{skip_spaces}
use model_lib.Client.Scan.Words.{IsWord, scanf_word-IsWord}
use model_lib.Client.Console.{getchar, memcpy_string, recv_pk, send_pk, string_of}
use model_lib.Client.Password.{newline}
use model_lib.Client.Password.Typed.{IsPlain, ask_password-plain}
use model_lib.Client.Account.{zero_data, login_answer, login}

-- What the user types.
abbrev pub keys_of : Text → Text → List ℕ → List ℕ
keys_of name pw rest = name ++ newline ∷ (pw ++ newline ∷ rest)

abbrev pub login_packet : Text → Text → SendPack
login_packet name pw = record zero_pack {
  send_cmd = Cmd.login;
  sourse_name = name ++ 0 ∷ [];
  send_msg0 = pw;
}

-- A name and a password that the dialogue accepts.
pub record Credentials (name pw : Text) : Type 0 where
  pub name-IsWord : IsWord name
  pub name-IsString : IsString name
  pub pw-IsPlain : IsPlain pw
  pub pw_long : 6 ≤ length pw
  pub pw_short : length pw ≤ 15

pub memcpy_string-IsString : (b : Buf) (s : Client) → IsString b → memcpy_string [] b s ≡ ok b s
unfolding memcpy_string string_of
memcpy_string-IsString b s str =
    rw
      (c_str-clean max_size b str.clean str.fits, copy_str-nil max_size b (omega (arith, str.fits)))

module _ (e : Env) (c : Client) (name pw : Text) (rest : List ℕ) where
  -- The client after the packet was sent.
  abbrev pub asked : Client
  asked = record c {
    temp_data0 = zero_data;
    typed = rest;
    sent = c.sent ++ packet (login_packet name pw) ∷ [];
  }

  pub login-accepted :
      (more : List Arrival) (pk : SendPack)
      → skip_spaces c.typed ≡ keys_of name pw rest
      → Credentials name pw
      → IsClean rest
      → c.arrived ≡ message (packet pk) ∷ more
      → e.send_ok ≡ true
      → pk.result ≡ success
      → IsString pk.sourse_name
      → login e c
        ≡ ok success (record asked {
          arrived = more;
          temp_data0 = record zero_data {
            current_name = pk.sourse_name;
            current_id1 = pk.send_id1;
          };
        })
  unfolding login getchar send_pk recv_pk login_answer
  login-accepted more pk at cred clean first up good str =
      let s1 = record c { temp_data0 = zero_data } in
      let s2 = record s1 { typed = pw ++ newline ∷ rest } in
      let s3 = record asked {
        arrived = more;
        temp_data0 = record zero_data { current_id1 = pk.send_id1 };
      } in
      rw
        (
          scanf_word-IsWord name newline (pw ++ newline ∷ rest) s1 at cred.name-IsWord refl
              cred.name-IsString.fits,
          ask_password-plain s2 pw rest refl cred.pw-IsPlain clean cred.pw_long cred.pw_short,
          copy_str-nil max_size pw (omega (arith, cred.pw_short)),
          up,
          first,
          good,
          memcpy_string-IsString pk.sourse_name s3 str,
        )
        refl
