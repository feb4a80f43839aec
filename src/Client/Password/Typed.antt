-- ===== src/Client/Password/Typed.antt =====
-- A suitable password that is typed without a correction is what the dialogues get.
use model_lib.Base.{
  ℕ, ◌+◌, ◌≤◌, ◌<◌, ◌≡◌, ◌≢◌, refl, ap, ◌∙◌, false, ◌||◌, some, List, [], ◌∷◌, ◌++◌, ◌==◌, arith,
  ltb, leb, if◌then◌else◌, length, take, length-append, pos, append-nil, append_assoc,
}
use model_lib.CString.{Buf, Text, IsClean, c_str, max_size}
use model_lib.Client.{Client, pure, ◌>>=◌, or_fault, ok}
use model_lib.Client.Scan.{Read, got, unfinished, broken}
use model_lib.Client.Console.{after_read}
use model_lib.Client.Password.{
  erase, newline, passwd_loop, passwd_input, password_rounds, ask_password,
}
use model_lib.Client.Password.Editor.{edit, Matches, line, more, harm, passwd_loop-Matches, front}
use model_lib.Client.Password.Bounds.{with_length}

-- Neither NUL nor a key that the editor treats apart.
abbrev pub IsPlain : Text → Type 0
IsPlain [] = Unit
IsPlain (c ∷ t) = (c ≢ 0) × ((c == newline) ≡ false) × ((c == erase) ≡ false) × IsPlain t

pub plain-IsClean : (t rest : Text) → IsPlain t → IsClean rest → IsClean (t ++ rest)
plain-IsClean [] rest p cl = cl
plain-IsClean (c ∷ t) rest p cl = (p.0, plain-IsClean t rest p.3 cl)

edit-plain :
    (t before : Text) (rest : List ℕ)
    → IsPlain t
    → length before + length t < max_size
    → edit (t ++ newline ∷ rest) (some before) ≡ got (before ++ t) rest
unfolding edit
edit-plain [] before rest p h =
    let room : leb max_size (length before) ≡ false = ground arith in rw (room, append-nil)
edit-plain (c ∷ t) before rest p h =
    let room : leb max_size (length before) ≡ false = ground arith in
    let grows : length (before ++ c ∷ []) ≡ length before + 1 = length-append before (c ∷ []) in
    rw (
      room,
      p.1,
      p.2,
      edit-plain t (before ++ c ∷ []) rest p.3 (omega (arith, grows)),
      append_assoc,
    )

-- What the editor gives has a suitable length.
abbrev Good : Read Text → Type 0
Good (got t rest) = (6 ≤ length t) × (length t ≤ 15)
Good unfinished = Unit
Good broken = Unit

Matches-round :
    (fuel : ℕ) (r : Read Buf) (q : Read Text) (s : Client)
    → Matches r q
    → Good q
    → ((after_read r >>= λ b. or_fault (c_str max_size b) >>= with_length b) >>= λ r.
          if ltb 15 r.1 || ltb r.1 6 then password_rounds fuel r.0 else pure (take r.1 r.0))
        s
      ≡ after_read q s
Matches-round fuel r q s (line b t keys str all) good =
    let fits : (ltb 15 (length t) || ltb (length t) 6) ≡ false = ground arith in rw (str, fits, all)
Matches-round fuel r q s more good = refl
Matches-round fuel r q s harm good = refl

pub ask_password-plain :
    (s : Client) (pw : Text) (rest : List ℕ)
    → s.typed ≡ pw ++ newline ∷ rest
    → IsPlain pw
    → IsClean rest
    → 6 ≤ length pw
    → length pw ≤ 15
    → ask_password s ≡ ok pw (record s { typed = rest })
unfolding ask_password password_rounds passwd_input front
ask_password-plain s pw rest at plain clean long short =
    let keys : IsClean s.typed =
      rw at (plain-IsClean pw (newline ∷ rest) plain (ground arith, clean)) in
    let is : edit s.typed (some []) ≡ got pw rest =
      rw at (edit-plain pw [] rest plain (omega arith)) in
    let good : Good (edit s.typed (some [])) = rw is (long, short) in
    let matches = passwd_loop-Matches s.typed keys 0 [] tt in
    let fuel = length s.typed in
    Matches-round fuel (passwd_loop s.typed (pos 0) []) (edit s.typed (some [])) s matches good
    ∙ ap (λ q. after_read q s) is
