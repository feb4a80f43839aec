-- ===== src/Client/Password.antt =====
-- passwd_input of function.c, and the loop around it in the dialogues.
pub mod Editor
pub mod Bounds
pub mod Typed
use model_lib.Base.{
  ℕ, zero, suc, ◌+◌, ◌-◌, Bool, true, false, ◌&&◌, ◌||◌, Option, none, some, List, [], ◌∷◌, ◌==◌,
  ltb, leb, if◌then◌else◌, length, take, ℤ, pos, negsuc,
}
use model_lib.CString.{Buf, Text, c_str, max_size}
use model_lib.Client.{Client, C, pure, crash, ◌>>=◌, gets, endless, or_fault}
use model_lib.Client.Scan.{Read, got, unfinished, broken}
use model_lib.Client.Console.{reading}

-- `b[i] = c`
unfoldable pub set_at : ℕ → ℕ → Buf → Buf
set_at zero c [] = c ∷ []
set_at zero c (x ∷ b) = c ∷ b
set_at (suc i) c [] = 0 ∷ set_at i c []
set_at (suc i) c (x ∷ b) = x ∷ set_at i c b

-- The key that erases, Ctrl-S.
abbrev pub erase : ℕ
erase = 19

abbrev pub newline : ℕ
newline = 10

-- `i = i - 2` and the loop's `i++`.
abbrev pub step_back : ℕ → ℤ
step_back zero = negsuc 0
step_back (suc i) = pos i

-- `if(i < 0) passwd[0] = '\0'`, after `i = i - 2`.
abbrev pub clear_first : ℕ → Buf → Buf
clear_first i b = if ltb i 2 then set_at 0 0 b else b

-- The loop: `getch`, and then the key stored at `passwd[i]`, tested and perhaps overwritten.
unfoldable pub passwd_loop : List ℕ → ℤ → Buf → Read Buf
unfolding set_at
passwd_loop [] i passwd = unfinished
passwd_loop (c ∷ keys) (negsuc i) passwd = broken
passwd_loop (c ∷ keys) (pos i) passwd =
    let erased = passwd_loop keys (step_back i) (clear_first i (set_at i c passwd)) in
    let longer = passwd_loop keys (pos (i + 1)) (set_at i c passwd) in
    if leb max_size i
    then broken
    else if c == newline
    then got (set_at i 0 passwd) keys
    else if c == erase
    then erased
    else longer

-- The array and the password's length.
unfoldable pub passwd_input : Buf → C (Buf × ℕ)
unfolding passwd_loop
passwd_input passwd = do
  passwd' ← reading λ keys. passwd_loop keys (pos 0) passwd
  t ← or_fault (c_str max_size passwd')
  pure (passwd', length t)

-- `while(1)`, which ends with a password of a suitable length. Only its characters are used, and the
-- array is not cleared between two tries.
unfoldable pub password_rounds : (fuel : ℕ) → Buf → C Text
unfolding passwd_input
password_rounds zero buf = endless
password_rounds (suc fuel) buf = passwd_input buf >>= λ r.
    if ltb 15 r.1 || ltb r.1 6 then password_rounds fuel r.0 else pure (take r.1 r.0)

-- A round takes a key at least, so there are no more rounds than keys.
unfoldable pub ask_password : C Text
unfolding password_rounds
ask_password s = password_rounds (suc (length s.typed)) [] s
