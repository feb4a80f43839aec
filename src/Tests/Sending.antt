-- ===== src/Tests/Sending.antt =====
-- A file of three bytes, sent by the client.
use model_lib.Base.{◌≡◌, refl, some, List, [], ◌∷◌, ℕ, arith, pos, length}
use model_lib.CString.Decimal.{signed_value, digits_value}
use model_lib.Transfer.{file_heads}
use model_lib.Transfer.Blocks.{info_of}
use model_lib.Transfer.Roundtrip.{Tiles}
use model_lib.Client
use model_lib.Client.{message, slot, packet, file_info}
use model_lib.Client.Scan.{skip_spaces, until_other, scan_int}
use model_lib.Client.Account.{zero_data}
use model_lib.Client.Files.{sendfile}
use model_lib.Client.Files.Sending.{Typed, announced, payload, info_packet, sendfile-payload}
use model_lib.Tests.{alice, reply, alice-IsString, reply-IsString}
use model_lib.Tests.Client.{host, quiet}

abbrev three : List ℕ
three = 1 ∷ 2 ∷ 3 ∷ []

abbrev sender : Client.Env
sender = record host { file = λ name. some three }

-- The file `b`, one user, and the name of the user.
abbrev answers : List ℕ
answers = 98 ∷ 10 ∷ 49 ∷ 10 ∷ 97 ∷ 108 ∷ 10 ∷ []

abbrev asked : Client.Client
asked = record quiet {
  temp_data0 = record zero_data { current_name = alice };
  typed = answers;
  arrived = message (slot 0) ∷ [];
}

answers-Typed : Typed answers reply (pos 1) alice []
unfolding skip_spaces scan_int until_other signed_value digits_value
answers-Typed = record {
  keys1 = 49 ∷ 10 ∷ 97 ∷ 108 ∷ 10 ∷ [];
  keys2 = 10 ∷ 97 ∷ 108 ∷ 10 ∷ [];
  name_typed = refl;
  name-IsWord = (refl, tt);
  cmd_typed = refl;
  to_typed = refl;
  to-IsWord = (refl, (refl, tt));
}

sendfile-payload_example :
    let r = info_of reply (length three) in
    let heads = file_heads r.0 r.1 reply 0 in
    (sendfile sender asked
      ≡ Client.ok tt (record asked {
        flag = pos 1;
        typed = 10 ∷ [];
        arrived = [];
        sent =
            packet (info_packet alice (pos 1) alice reply) ∷ file_info r.0 ∷ announced three heads;
      }))
    × (length heads ≡ r.0.count)
    × Tiles three 0 0 heads
    × (payload (announced three heads) ≡ three)
sendfile-payload_example =
    sendfile-payload sender asked reply alice (pos 1) three [] 0 [] answers-Typed reply-IsString
      (omega arith) (omega arith) alice-IsString refl (omega arith) refl refl
