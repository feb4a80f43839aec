-- ===== src/Server.antt =====
-- The server process: its globals, what it takes from outside, and the effects of a handler.
pub mod Keeps
use model_lib.Base.{ℕ, Bool, Option, none, some, List, [], ◌∷◌, ◌++◌, ltb, if◌then◌else◌, length, ℤ}
use model_lib.CString.{Text, Buf}
use model_lib.Packet.{SendPack, Node}

-- A row as `sqlite3_exec` hands it to a callback: column names and values, NULL among these.
abbrev pub Row : Type 0
Row = List (Text × Option Text)

-- Whether the statement returned `SQLITE_OK`, and the rows that the callback was called for.
pub record Answer : Type 0 where
  pub rc_ok : Bool
  pub rows : List Row

-- What is not in the repository: `sqlite3_exec`, as a function of the statements executed so far
-- and the new one; whether `sqlite3_open` succeeds; whether `send` on a descriptor succeeds; what an uninitialised packet on the
-- stack holds, and a fresh node on the heap; and the address of a packet's `sourse_name`, read as an `int`.
pub record Env : Type 0 where
  pub exec : List Text → Text → Answer
  pub open_ok : Bool
  pub send_ok : ℤ → Bool
  pub stack_pack : SendPack
  pub heap_node : Node
  pub name_address : ℤ

-- The globals `flag`, `cb_head`, `online_user`, `temp_name` and `db`, and the packets sent so far,
-- each with its descriptor. The lists leave out their dummy heads, and `db` is the statements
-- executed so far.
pub record Server : Type 0 where
  pub flag : ℤ
  pub cb_list : List Node
  pub online_user : List Node
  pub temp_name : Buf
  pub db : List Text
  pub sent : List (ℤ × SendPack)

-- `fault` is undefined behaviour: a NULL pointer read, or a read or write past an array's end.
-- `exited` is a call of `exit`.
pub data Run (A : Type 0) : Type 0 where
  ok : A → Server → Run A
  fault : Run A
  exited : Run A

abbrev pub M : Type 0 → Type 0
M A = Server → Run A

abbrev pub pure : {A : Type 0} → A → M A
pure = ok

abbrev pub crash : {A : Type 0} → M A
crash s = fault

abbrev pub exit : {A : Type 0} → M A
exit s = exited

infixl 5 ◌>>=◌ ◌>>◌
abbrev pub and_then : {A B : Type 0} → Run A → (A → M B) → Run B
and_then (ok a s) k = k a s
and_then fault k = fault
and_then exited k = exited

abbrev pub ◌>>=◌ : {A B : Type 0} → M A → (A → M B) → M B
m >>= k = λ s. and_then (m s) k

abbrev pub ◌>>◌ : {B : Type 0} → M (Unit {0}) → M B → M B
m >> k = m >>= λ _. k

abbrev pub gets : {A : Type 0} → (Server → A) → M A
gets f s = ok (f s) s

abbrev pub modify : (Server → Server) → M (Unit {0})
modify f s = ok tt (f s)

abbrev pub or_fault : {A : Type 0} → Option A → M A
or_fault none = crash
or_fault (some a) = pure a

-- `p` of `p->name`, where `p` is the first node behind a list's head.
abbrev pub first_node : List Node → M Node
first_node [] = crash
first_node (n ∷ ns) = pure n

-- `sprintf` of the text into an array of `cap` bytes.
unfoldable pub sprintf : (cap : ℕ) → Text → M Text
sprintf cap t = if ltb (length t) cap then pure t else crash

-- A loop over a list: `while(p != NULL) { …; p = p->next; }`.
unfoldable pub for_each : {A : Type 0} → List A → (A → M (Unit {0})) → M (Unit {0})
for_each [] body = pure tt
for_each (x ∷ xs) body = body x >> for_each xs body

module _ (e : Env) where
  -- The whole packet is written, or the process exits.
  unfoldable pub send_pk : SendPack → ℤ → M (Unit {0})
  send_pk pk sockfd s =
      if e.send_ok sockfd then ok tt (record s { sent = s.sent ++ (sockfd, pk) ∷ [] }) else exited

  unfoldable pub sqlite3_exec : Text → M Answer
  sqlite3_exec sql s = ok (e.exec s.db sql) (record s { db = s.db ++ sql ∷ [] })
