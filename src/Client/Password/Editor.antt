-- ===== src/Client/Password/Editor.antt =====
-- passwd_input of function.c is a line editor.
use model_lib.Base.{
  ℕ, zero, suc, ◌+◌, ◌≤◌, ◌<◌, ◌≡◌, ◌≢◌, refl, sym, ap, ◌∙◌, false, Option, none, some, List, [],
  ◌∷◌, ◌++◌, ◌==◌, arith, ltb, leb, if◌then◌else◌, length, take, pos, negsuc, Bool-cases, inl, inr,
}
use mathlib.Core.Path.{subst}
use model_lib.CString.{Buf, Text, IsClean, c_str, max_size}
use model_lib.Client.{Client, pure, ◌>>=◌, or_fault}
use model_lib.Client.Scan.{Read, got, unfinished, broken}
use model_lib.Client.Console.{reading, after_read}
use model_lib.Client.Password.{
  set_at, erase, newline, step_back, clear_first, passwd_loop, passwd_input,
}

-- The reference: the line typed so far, as a list that grows and shrinks at its end.
unfoldable pub drop_last : Text → Text
drop_last [] = []
drop_last (x ∷ []) = []
drop_last (x ∷ y ∷ t) = x ∷ drop_last (y ∷ t)

-- There is nothing to erase in an empty line.
abbrev pub shorten : Text → Option Text
shorten [] = none
shorten (x ∷ t) = some (drop_last (x ∷ t))

-- `none` is the place before the line, where the next key does harm.
unfoldable pub edit : List ℕ → Option Text → Read Text
edit [] line = unfinished
edit (c ∷ keys) none = broken
edit (c ∷ keys) (some line) =
    let erased = edit keys (shorten line) in
    let longer = edit keys (some (line ++ c ∷ [])) in
    if leb max_size (length line)
    then broken
    else if c == newline
    then got line keys
    else if c == erase
    then erased
    else longer

-- The first bytes of an array.
unfoldable pub front : ℕ → Buf → Text
front zero b = []
front (suc i) [] = 0 ∷ front i []
front (suc i) (x ∷ b) = x ∷ front i b

front-set_at : (j k c : ℕ) (b : Buf) → j ≤ k → front j (set_at k c b) ≡ front j b
unfolding set_at front
front-set_at zero k c b h = refl
front-set_at (suc j) zero c b h = absurd (omega arith)
front-set_at (suc j) (suc k) c [] h = rw (front-set_at j k c [] (omega arith))
front-set_at (suc j) (suc k) c (x ∷ b) h = rw (front-set_at j k c b (omega arith))

front-longer : (i c : ℕ) (b : Buf) → front (suc i) (set_at i c b) ≡ front i b ++ c ∷ []
unfolding set_at front
front-longer zero c [] = refl
front-longer zero c (x ∷ b) = refl
front-longer (suc i) c [] = rw (front-longer i c [])
front-longer (suc i) c (x ∷ b) = rw (front-longer i c b)

front-shorter : (i : ℕ) (b : Buf) → drop_last (front (suc i) b) ≡ front i b
unfolding front drop_last
front-shorter zero [] = refl
front-shorter zero (x ∷ b) = refl
front-shorter (suc i) [] = rw (front-shorter i [])
front-shorter (suc i) (x ∷ []) = rw (front-shorter i [])
front-shorter (suc i) (x ∷ y ∷ b) = rw (front-shorter i (y ∷ b))

length-front : (i : ℕ) (b : Buf) → length (front i b) ≡ i
unfolding front
length-front zero b = refl
length-front (suc i) [] = rw (length-front i [])
length-front (suc i) (x ∷ b) = rw (length-front i b)

-- The NUL at the end makes the bytes before it the string.
c_str-set_at :
    (cap i : ℕ) (b : Buf)
    → i < cap
    → IsClean (front i b)
    → c_str cap (set_at i 0 b) ≡ some (front i b)
unfolding c_str set_at front
c_str-set_at zero i b h cl = absurd (omega arith)
c_str-set_at (suc cap) zero [] h cl = refl
c_str-set_at (suc cap) zero (x ∷ b) h cl = refl
c_str-set_at (suc cap) (suc i) [] h cl = absurd (cl.0 refl)
c_str-set_at (suc cap) (suc i) (zero ∷ b) h cl = absurd (cl.0 refl)
c_str-set_at (suc cap) (suc i) (suc x ∷ b) h cl = rw (c_str-set_at cap i b (omega arith) cl.1)

take-set_at : (i c : ℕ) (b : Buf) → take i (set_at i c b) ≡ front i b
unfolding set_at front
take-set_at zero c b = refl
take-set_at (suc i) c [] = rw (take-set_at i c [])
take-set_at (suc i) c (x ∷ b) = rw (take-set_at i c b)

IsClean-append : (t : Text) (c : ℕ) → IsClean t → c ≢ 0 → IsClean (t ++ c ∷ [])
IsClean-append [] c cl h = (h, tt)
IsClean-append (x ∷ t) c cl h = (cl.0, IsClean-append t c cl.1 h)

drop_last-IsClean : (t : Text) → IsClean t → IsClean (drop_last t)
unfolding drop_last
drop_last-IsClean [] cl = tt
drop_last-IsClean (x ∷ []) cl = tt
drop_last-IsClean (x ∷ y ∷ t) cl = (cl.0, drop_last-IsClean (y ∷ t) cl.1)

-- The array holds the line, or both went wrong in the same way.
pub data Matches : Read Buf → Read Text → Type 0 where
  line :
      (b : Buf) (t : Text) (keys : List ℕ)
      → c_str max_size b ≡ some t
      → take (length t) b ≡ t
      → Matches (got b keys) (got t keys)
  more : Matches unfinished unfinished
  harm : Matches broken broken

passwd_loop-negative :
    (keys : List ℕ) (i : ℕ) (b : Buf) → Matches (passwd_loop keys (negsuc i) b) (edit keys none)
unfolding passwd_loop edit
passwd_loop-negative [] i b = more
passwd_loop-negative (c ∷ keys) i b = harm

clear_first-front :
    (i : ℕ) (b : Buf) → front i (clear_first (suc i) (set_at (suc i) erase b)) ≡ front i b
unfolding front
clear_first-front zero b = refl
clear_first-front (suc i) b =
    let far : ltb (suc (suc i)) 2 ≡ false = ground arith in
    rw far (front-set_at (suc i) (suc (suc i)) erase b (omega arith))

shorten-front : (i : ℕ) (b : Buf) → shorten (front (suc i) b) ≡ some (front i b)
unfolding front
shorten-front i [] = ap some (front-shorter i [])
shorten-front i (x ∷ b) = ap some (front-shorter i (x ∷ b))

-- From any array on, the loop does what the editor does.
abbrev pub Follows : List ℕ → Type 0
Follows keys =
    (i : ℕ) (b : Buf)
    → IsClean (front i b)
    → Matches (passwd_loop keys (pos i) b) (edit keys (some (front i b)))

-- The key that erases.
erase-Matches :
    (keys : List ℕ) (i : ℕ) (b : Buf)
    → Follows keys
    → IsClean (front i b)
    → Matches
        (passwd_loop keys (step_back i) (clear_first i (set_at i erase b)))
        (edit keys (shorten (front i b)))
unfolding front
erase-Matches keys zero b follows cl = passwd_loop-negative keys 0 _
erase-Matches keys (suc i) b follows cl =
    let b' = clear_first (suc i) (set_at (suc i) erase b) in
    let same : front i b' ≡ front i b = clear_first-front i b in
    let cl' : IsClean (front i b') =
      subst IsClean (front-shorter i b ∙ sym same) (drop_last-IsClean (front (suc i) b) cl) in
    rw (shorten-front i b, sym same) (follows i b' cl')

-- A key that is stored.
longer-Matches :
    (c : ℕ) (keys : List ℕ) (i : ℕ) (b : Buf)
    → Follows keys
    → c ≢ 0
    → IsClean (front i b)
    → Matches
        (passwd_loop keys (pos (i + 1)) (set_at i c b))
        (edit keys (some (front i b ++ c ∷ [])))
longer-Matches c keys i b follows nonzero cl =
    let next : i + 1 ≡ suc i = omega arith in
    let cl' : IsClean (front (suc i) (set_at i c b)) =
      subst IsClean (sym (front-longer i c b)) (IsClean-append (front i b) c cl nonzero) in
    rw (next, sym (front-longer i c b)) (follows (suc i) (set_at i c b) cl')

newline-Matches :
    (keys : List ℕ) (i : ℕ) (b : Buf)
    → i < max_size
    → IsClean (front i b)
    → Matches (got (set_at i 0 b) keys) (got (front i b) keys)
newline-Matches keys i b h cl =
    line _ _ keys (c_str-set_at max_size i b h cl) (rw (length-front i b, take-set_at i 0 b))

pub passwd_loop-Matches : (keys : List ℕ) → IsClean keys → Follows keys
unfolding passwd_loop edit
passwd_loop-Matches [] clean i b cl = more
passwd_loop-Matches (c ∷ keys) clean i b cl =
    let follows = passwd_loop-Matches keys clean.1 in
    elim (Bool-cases (leb max_size i)) [
      | inl full ↦ rw (length-front i b, full) harm
      | inr room ↦ elim (Bool-cases (c == newline)) [
        | inl end ↦ rw (length-front i b, room, end) (newline-Matches keys i b (ground arith) cl)
        | inr other ↦ elim (Bool-cases (c == erase)) [
          | inl back ↦
              let key : c ≡ erase = ground arith in
              rw (length-front i b, room, other, back, key) (erase-Matches keys i b follows cl)
          | inr plain ↦
              rw (length-front i b, room, other, plain)
                (longer-Matches c keys i b follows clean.0 cl)
        ]
      ]
    ]

-- What the caller gets from an array: its first characters, as many as the length says.
abbrev pub password_of : Buf × ℕ → Text × ℕ
password_of r = (take r.1 r.0, r.1)

Matches-outcome :
    (r : Read Buf) (t : Read Text) (s : Client)
    → Matches r t
    → ((after_read r >>= λ b. or_fault (c_str max_size b) >>= λ u. pure (b, length u)) >>= λ r.
          pure (password_of r))
        s
      ≡ (after_read t >>= λ u. pure (u, length u)) s
Matches-outcome r t s (line b u keys str all) = rw (str, all)
Matches-outcome r t s more = refl
Matches-outcome r t s harm = refl

-- For keys without NUL, from any array on, passwd_input gives the password and the length that a
-- line editor on a plain list gives, which appends each key, drops the last one at the key 19 and
-- ends at the newline; it reads the same keys, waits at the same place, and writes outside the
-- array exactly if the editor meets a key with 128 characters in the line or behind an erasure of
-- the empty line.
pub passwd_input-edit :
    (b : Buf) (s : Client)
    → IsClean s.typed
    → (passwd_input b >>= λ r. pure (password_of r)) s
      ≡ (reading (λ keys. edit keys (some [])) >>= λ t. pure (t, length t)) s
unfolding passwd_input front
passwd_input-edit b s clean =
    Matches-outcome (passwd_loop s.typed (pos 0) b) (edit s.typed (some [])) s
      (passwd_loop-Matches s.typed clean 0 b tt)
