-- ===== src/Tests.antt =====
-- Concrete packets, databases and server states on which the theorems are run.
pub mod Account
pub mod Messages
pub mod Stored
pub mod Friends
pub mod Database
pub mod Lists
pub mod Pool
pub mod Files
pub mod Requests
pub mod Origin
pub mod Race
pub mod Fetch
pub mod Sending
pub mod Groups
pub mod Client
pub mod Loop
pub mod Datagrams
use model_lib.Base.{
  ◌≡◌, refl, true, List, [], ◌∷◌, some, none, arith, ℤ, pos, Option, ℕ, zero, suc, ◌<◌, length,
}
use model_lib.CString.{Text, text, IsClean}
use model_lib.Packet.{SendPack, zero_pack, Node, zero_node}
use model_lib.Packet.Cmd
use model_lib.Server.{Row, Answer, Env, Server}
use model_lib.Work.Copy.{IsString, HasStrings}
use model_lib.Sqlite.Import.{user_row, user_node, Fits}

abbrev pub alice : Text
alice = 97 ∷ 108 ∷ []

abbrev pub secret : Text
secret = 112 ∷ 119 ∷ []

abbrev pub question : Text
question = 113 ∷ 63 ∷ []

abbrev pub reply : Text
reply = 98 ∷ []

pub alice-IsString : IsString alice
alice-IsString = omega arith

pub secret-IsString : IsString secret
secret-IsString = omega arith

pub reply-IsString : IsString reply
reply-IsString = omega arith

pub question-IsString : IsString question
question-IsString = omega arith

abbrev pub alice_row : Row
alice_row = user_row alice secret question reply (pos 1)

abbrev pub alice_node : Node
alice_node = user_node alice secret question reply (pos 1)

pub alice-Fits : Fits alice secret question reply
alice-Fits = omega arith

abbrev pub found : List Row → Answer
found rows = record { rc_ok = true; rows = rows }

-- A database that gives every statement the same rows, on connections that are all up.
abbrev pub answering : List Row → Env
answering rows = record {
  exec = λ history sql. found rows;
  open_ok = true;
  send_ok = λ fd. true;
  stack_pack = zero_pack;
  heap_node = zero_node;
  name_address = pos 4096;
}

-- A database that gives its first statement no rows and every other one the rows.
abbrev pub later : List Row → List Text → Text → Answer
later rows [] sql = found []
later rows (q ∷ history) sql = found rows

abbrev pub growing : List Row → Env
growing rows = record (answering rows) { exec = later rows }

abbrev pub idle : Server
idle = record { flag = pos 0; cb_list = []; online_user = []; temp_name = []; db = []; sent = [] }

-- Alice's name, with a password or another text.
abbrev pub from_alice : Text → SendPack
from_alice msg = record zero_pack { sourse_name = alice; send_msg0 = msg }

pub from_alice-HasStrings : HasStrings (from_alice secret)
from_alice-HasStrings = omega arith

abbrev pub connection : ℤ
connection = pos 5
