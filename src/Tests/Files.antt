-- ===== src/Tests/Files.antt =====
-- A file of three bytes.
use model_lib.Base.{List, [], ◌∷◌, ◌++◌, ℕ, zero, suc, true, pos}
use model_lib.Packet.{SendPack, zero_pack}
use model_lib.Tests.{alice, secret}
use model_lib.Transfer.{blocksize, FileInfo}
use model_lib.Transfer.Receive.{Conn, zero_conn, undisturbed}

abbrev file_name : List ℕ
file_name = 102 ∷ []

abbrev copies : ℕ → Conn → List Conn
copies zero c = []
copies (suc n) c = c ∷ copies n c

abbrev busy_conn : Conn
busy_conn = record zero_conn { used = true }

-- Only the last slot is free.
abbrev nearly_full : List Conn
nearly_full = copies 9 busy_conn ++ zero_conn ∷ []

-- Another thread frees the slot 5 in front of the second test.
abbrev later_freed : List Conn
later_freed = copies 5 busy_conn ++ zero_conn ∷ copies 3 busy_conn ++ zero_conn ∷ []

abbrev tests : List (List Conn)
tests = nearly_full ∷ undisturbed 9 later_freed

-- Alice sends the file to one user.
abbrev upload : SendPack
upload = record zero_pack {
  result = pos 1;
  sourse_name = alice;
  send_msg0 = secret;
  send_msg1 = file_name;
}

abbrev file_info : FileInfo
file_info = record { filename = 102 ∷ 0 ∷ []; filesize = 3; count = 1; bs = blocksize }
