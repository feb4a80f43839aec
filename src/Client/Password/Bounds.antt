-- ===== src/Client/Password/Bounds.antt =====
-- The loop around passwd_input in the dialogues of function.c: it ends, and with what.
use model_lib.Base.{
  ℕ, zero, suc, ◌+◌, ◌≤◌, ◌<◌, ◌≡◌, true, false, ◌||◌, some, List, [], ◌∷◌, ◌==◌, arith, ltb, leb,
  if◌then◌else◌, length, take, ℤ, pos, negsuc, Bool-cases, Option-cases, inl, inr,
}
use model_lib.CString.{Buf, Text, c_str, max_size}
use model_lib.Client.{
  Client, Outcome, C, pure, ◌>>=◌, or_fault, ok, endless, waiting, exited, fault,
}
use model_lib.Client.Scan.{Read, got, unfinished, broken}
use model_lib.Client.Console.{after_read}
use model_lib.Client.Password.{
  set_at, erase, newline, step_back, clear_first, passwd_loop, passwd_input, password_rounds,
  ask_password,
}

-- Fewer keys are left.
Shorter : ℕ → Read Buf → Type 0
Shorter n (got b rest) = length rest < n
Shorter n unfinished = Unit
Shorter n broken = Unit

Shorter-suc : (n : ℕ) (r : Read Buf) → Shorter n r → Shorter (suc n) r
unfolding Shorter
Shorter-suc n (got b rest) h = omega arith
Shorter-suc n unfinished h = tt
Shorter-suc n broken h = tt

passwd_loop-Shorter :
    (keys : List ℕ) (i : ℤ) (b : Buf) → Shorter (length keys) (passwd_loop keys i b)
unfolding passwd_loop Shorter
passwd_loop-Shorter [] i b = tt
passwd_loop-Shorter (c ∷ keys) (negsuc i) b = tt
passwd_loop-Shorter (c ∷ keys) (pos i) b = elim (Bool-cases (leb max_size i)) [
  | inl full ↦ rw full tt
  | inr room ↦ elim (Bool-cases (c == newline)) [
    | inl end ↦ rw (room, end) (omega arith)
    | inr other ↦ elim (Bool-cases (c == erase)) [
      | inl back ↦
          rw (room, other, back)
            (Shorter-suc (length keys) _
              (passwd_loop-Shorter keys (step_back i) (clear_first i (set_at i c b))))
      | inr plain ↦
          rw (room, other, plain)
            (Shorter-suc (length keys) _ (passwd_loop-Shorter keys (pos (i + 1)) (set_at i c b)))
    ]
  ]
]

-- The loop did not use up its fuel, and a password that it returned has 6 to 15 characters.
abbrev pub Suitable : Outcome Text → Type 0
Suitable (ok t s) = (6 ≤ length t) × (length t ≤ 15)
Suitable (endless s) = true ≡ false
Suitable (waiting s) = Unit
Suitable (exited s) = Unit
Suitable fault = Unit

length-c_str :
    (cap : ℕ) (b : Buf) (t : Text) → c_str cap b ≡ some t → length (take (length t) b) ≡ length t
unfolding c_str
length-c_str zero b t h = absurd (cc)
length-c_str (suc cap) [] t h = let e : t ≡ [] = ground arith in rw e
length-c_str (suc cap) (zero ∷ b) t h = let e : t ≡ [] = ground arith in rw e
length-c_str (suc cap) (suc c ∷ b) t h = elim (Option-cases (c_str cap b)) [
  | inl missing ↦ absurd (ground arith)
  | inr (u, e) ↦ let same : t ≡ suc c ∷ u = ground arith in rw (same, length-c_str cap b u e)
]

abbrev pub with_length : Buf → Text → C (Buf × ℕ)
with_length b u = pure (b, length u)

abbrev AllSuitable : ℕ → Type 0
AllSuitable fuel =
    (b : Buf) (s : Client) → length s.typed < fuel → Suitable (password_rounds fuel b s)

-- One round, by what the keys gave.
round-Suitable :
    (fuel : ℕ) (r : Read Buf) (s : Client)
    → AllSuitable fuel
    → Shorter (length s.typed) r
    → length s.typed < suc fuel
    → Suitable (
        ((after_read r >>= λ b. or_fault (c_str max_size b) >>= with_length b) >>= λ r.
        if ltb 15 r.1 || ltb r.1 6 then password_rounds fuel r.0 else pure (take r.1 r.0))
          s)
unfolding Shorter
round-Suitable fuel (got b rest) s again h few = elim (Option-cases (c_str max_size b)) [
  | inl missing ↦ rw missing tt
  | inr (t, e) ↦ elim (Bool-cases (ltb 15 (length t) || ltb (length t) 6)) [
    | inl bad ↦ rw (e, bad) (again b (record s { typed = rest }) (omega arith))
    | inr good ↦ rw (e, good, length-c_str max_size b t e) (ground arith, ground arith)
  ]
]
round-Suitable fuel unfinished s again h few = tt
round-Suitable fuel broken s again h few = tt

password_rounds-Suitable : (fuel : ℕ) → AllSuitable fuel
unfolding password_rounds passwd_input
password_rounds-Suitable zero b s h = absurd (omega arith)
password_rounds-Suitable (suc fuel) b s h =
    round-Suitable fuel (passwd_loop s.typed (pos 0) b) s (password_rounds-Suitable fuel)
      (passwd_loop-Shorter s.typed (pos 0) b) h

-- Whatever is typed, the loop of the dialogues around passwd_input never uses up its rounds, one
-- more than there are keys, and a password that it returns has 6 to 15 characters.
pub ask_password-Suitable : (s : Client) → Suitable (ask_password s)
unfolding ask_password
ask_password-Suitable s = password_rounds-Suitable (suc (length s.typed)) [] s (omega arith)
