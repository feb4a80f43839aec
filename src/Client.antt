-- ===== src/Client.antt =====
-- The client process: its globals, the user at its terminal, the connection to the server, and the
-- effects of a dialogue. The code is epoll+tpool/client.
pub mod Scan
pub mod Console
pub mod Password
pub mod Account
pub mod Talk
pub mod Receiver
pub mod Files
pub mod Links
pub mod Menu
pub mod Datagrams
use model_lib.Base.{ℕ, zero, suc, Bool, true, false, Option, none, some, List, [], ◌∷◌, ◌++◌, ℤ}
use model_lib.CString.{Text}
use model_lib.Packet.{SendPack, CurrentData, Node}
use model_lib.Transfer.{FileInfo, Head}
use model_lib.Transfer.Receive.{Conn}

-- What one `send` puts on the socket: a packet, the sizes of a file, a block's head, a piece of a
-- file, or the number of a slot.
pub data Message : Type 0 where
  packet : SendPack → Message
  file_info : FileInfo → Message
  block : Head → Message
  bytes : List ℕ → Message
  slot : ℕ → Message

-- What a `recv` meets next: a message, the end of the connection, or an error.
pub data Arrival : Type 0 where
  message : Message → Arrival
  closed failed : Arrival

-- What is not in the repository: whether `send` succeeds, what an uninitialised packet or `int` on
-- the stack holds, what the memory of a fresh node holds, the files of the directory, the socket's
-- descriptor, and whether a new
-- file can be opened; and `rounds`, more than the rounds of
-- any menu's loop.
pub record Env : Type 0 where
  pub send_ok : Bool
  pub stack_pack : SendPack
  pub stack_int : ℤ
  pub heap_node : Node
  pub file : Text → Option (List ℕ)
  pub sockfd : ℤ
  pub opens : Text → Bool
  pub rounds : ℕ

-- The globals `flag`, `temp_data0`, `friend_req`, `gconn` and `freeid`, the keys typed and not yet
-- read, what arrives on the socket, what was sent, the files received whole, and the texts that
-- `printf` showed with a received value.
pub record Client : Type 0 where
  pub flag : ℤ
  pub temp_data0 : CurrentData
  pub friend_req : List Node
  pub typed : List ℕ
  pub arrived : List Arrival
  pub sent : List Message
  pub gconn : List Conn
  pub freeid : ℕ
  pub saved : List (List ℕ)
  pub shown : List Text

-- `waiting` is a call that blocks, for a key or for a packet. `fault` is undefined behaviour,
-- or a message of another kind than the call takes; `exited` a call of `exit`, and `endless` a loop that used up its rounds.
pub data Outcome (A : Type 0) : Type 0 where
  ok : A → Client → Outcome A
  waiting : Client → Outcome A
  exited : Client → Outcome A
  endless : Client → Outcome A
  fault : Outcome A

abbrev pub C : Type 0 → Type 0
C A = Client → Outcome A

abbrev pub pure : {A : Type 0} → A → C A
pure = ok

abbrev pub crash : {A : Type 0} → C A
crash s = fault

infixl 5 ◌>>=◌ ◌>>◌
abbrev pub and_then : {A B : Type 0} → Outcome A → (A → C B) → Outcome B
and_then (ok a s) k = k a s
and_then (waiting s) k = waiting s
and_then (exited s) k = exited s
and_then (endless s) k = endless s
and_then fault k = fault

abbrev pub ◌>>=◌ : {A B : Type 0} → C A → (A → C B) → C B
m >>= k = λ s. and_then (m s) k

abbrev pub ◌>>◌ : {B : Type 0} → C (Unit {0}) → C B → C B
m >> k = m >>= λ _. k

abbrev pub gets : {A : Type 0} → (Client → A) → C A
gets f s = ok (f s) s

abbrev pub modify : (Client → Client) → C (Unit {0})
modify f s = ok tt (f s)

abbrev pub or_fault : {A : Type 0} → Option A → C A
or_fault none = crash
or_fault (some a) = pure a

-- `if(b) break;`
abbrev pub unless : Bool → C (Unit {0}) → C (Unit {0})
unless true k = pure tt
unless false k = k

-- `while(1)`, left when the body returns `true`.
unfoldable pub repeat : ℕ → C Bool → C (Unit {0})
repeat zero body = endless
repeat (suc fuel) body = body >>= λ stop. unless stop (repeat fuel body)
