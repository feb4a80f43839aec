-- ===== src/Client/Console.antt =====
-- The socket and the terminal: send_pk, recv_pk and press_anykey of function.c, and the calls of
-- `scanf` and `getchar`.
use model_lib.Base.{ℕ, Option, none, some, List, [], ◌∷◌, ◌++◌, if◌then◌else◌, ℤ}
use model_lib.CString.{Text, Buf, max_size, put_str, c_str, copy_str}
use model_lib.Packet.{SendPack}
use model_lib.Client.{
  Arrival, message, Env, C, ok, waiting, exited, fault, pure, ◌>>=◌, modify, or_fault, packet,
  closed, failed,
}
use model_lib.Client.Scan.{Read, got, unfinished, broken, scan_word, scan_int}

-- The keys that were read are gone; otherwise the call waits for more.
abbrev pub after_read : {A : Type 0} → Read A → C A
after_read (got a rest) s = ok a (record s { typed = rest })
after_read unfinished s = waiting s
after_read broken s = fault

abbrev pub reading : {A : Type 0} → (List ℕ → Read A) → C A
reading f = λ s. after_read (f s.typed) s

abbrev one_key : List ℕ → Read ℕ
one_key [] = unfinished
one_key (c ∷ s) = got c s

unfoldable pub getchar : C ℕ
getchar = reading one_key

-- `scanf("%s", dst)` into an array of `MAX_SIZE` bytes; a longer word runs over its end.
unfoldable pub scanf_word : Buf → C Buf
scanf_word dst = do word ← reading scan_word; or_fault (put_str max_size dst word)

abbrev or_old : ℤ → Option ℤ → ℤ
or_old old none = old
or_old old (some z) = z

-- `scanf("%d", &old)`
unfoldable pub scanf_int : ℤ → C ℤ
scanf_int old = do z ← reading scan_int; pure (or_old old z)

-- `%s` of an array.
unfoldable pub string_of : Buf → C Text
string_of b = or_fault (c_str max_size b)

-- `memcpy(dst, src, strlen(src))`
unfoldable pub memcpy_string : Buf → Buf → C Buf
unfolding string_of
memcpy_string dst src = do t ← string_of src; or_fault (copy_str max_size dst t)

unfoldable pub show_text : Text → C (Unit {0})
show_text t = modify λ s. record s { shown = s.shown ++ t ∷ [] }

abbrev take_arrival : List Arrival → SendPack → C SendPack
take_arrival [] pk s = waiting s
take_arrival (message (packet p) ∷ rest) pk s = ok p (record s { arrived = rest })
take_arrival (message m ∷ rest) pk s = fault
take_arrival (closed ∷ rest) pk s = ok pk s
take_arrival (failed ∷ rest) pk s = exited s

-- A closed connection leaves the packet as it was. A packet comes in one piece.
unfoldable pub recv_pk : SendPack → C SendPack
recv_pk pk s = take_arrival s.arrived pk s

module _ (e : Env) where
  unfoldable pub send_pk : SendPack → C (Unit {0})
  send_pk pk s =
      if e.send_ok then ok tt (record s { sent = s.sent ++ packet pk ∷ [] }) else exited s

  -- The number typed; when none is, what the variable held.
  unfoldable pub press_anykey : C ℤ
  unfolding scanf_int
  press_anykey = scanf_int e.stack_int
