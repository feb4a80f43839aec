-- ===== src/Handle/Change/Refuse.antt =====
-- What handle_change (epoll+tpool/server/handle.c) does with a new password, question or answer.
use model_lib.Base.{
  ◌+◌, ◌≤◌, ◌<◌, ◌≡◌, ◌≢◌, refl, sym, ap, true, false, [], ◌∷◌, ◌++◌, arith, length, length-append,
  ℤ, pos, int_eq, int_eq_iff, Bool-cases, inl, inr,
}
use mathlib.Core.Path.{subst}
use model_lib.CString.{Text, text}
use model_lib.Packet.{SendPack, CurrentData, Node}
use model_lib.Server.{Answer, Env, Server, ok}
use model_lib.Work.Copy.{IsString}
use model_lib.Sqlite.Import.{user_row, user_node, inport_row-user_row}
use model_lib.Sqlite.Insert.{c_string-ok}
use model_lib.Sqlite.Search.{searched, Imports}
use model_lib.Handle.Account.ByName.{name_bound, name_query, inport_name}
use model_lib.Handle.Account.Signup.{send_pk-ok}
use model_lib.Handle.Account.Login.{memcpy_str-nil}
use model_lib.Handle.Account.Refind.{answered}
use model_lib.Handle.Show.Listing.{line_pack, strcpy-nil}
use model_lib.Handle.Send.{inform}
use model_lib.Handle.Change.{Choice, choose, choose_column, refuse_change, handle_change}

abbrev pub chosen : (column old_value : Text) → Choice
chosen column old_value = record { column = column; old_value = old_value; others = pos 1 }

-- A state in which a search has found one user.
abbrev pub holding : Server → Node → Server
holding s user = record s { cb_list = user ∷ [] }

pub choose-ok :
    (column : Text) (field : Node → Text) (user : Node) (s : Server)
    → IsString (field user)
    → choose column field (holding s user) ≡ ok (chosen column (field user)) (holding s user)
unfolding choose
choose-ok column field user s str = rw (
  c_string-ok (field user) (holding s user) str,
  memcpy_str-nil (field user) (holding s user) str,
)

int_eq-false : (a b : ℤ) → a ≢ b → int_eq a b ≡ false
int_eq-false a b ne = elim (Bool-cases (int_eq a b)) [
  | inl same ↦ absurd (ne ((int_eq_iff a b).0 same))
  | inr other ↦ other
]

-- No choice but the name counts users.
choose_column-others :
    (e : Env) (recv : SendPack) (user : Node) (s : Server)
    → recv.send_id1 ≢ pos 1
    → IsString user.pswd
    → IsString user.ques
    → IsString user.answ
    → (choice : Choice) × (choose_column e recv (holding s user) ≡ ok choice (holding s user))
      × (choice.others ≡ pos 1)
unfolding choose_column
choose_column-others e recv user s other p q a =
    let id = recv.send_id1 in
    let n = int_eq-false id (pos 1) other in
    elim (Bool-cases (int_eq id (pos 2))) [
      | inl x ↦ (
        chosen (text "pswd") user.pswd,
        rw (choose_column, n, x) (choose-ok (text "pswd") (λ n. n.pswd) user s p),
        refl,
      )
      | inr x ↦ elim (Bool-cases (int_eq id (pos 3))) [
        | inl y ↦ (
          chosen (text "ques") user.ques,
          rw (choose_column, n, x, y) (choose-ok (text "ques") (λ n. n.ques) user s q),
          refl,
        )
        | inr y ↦ elim (Bool-cases (int_eq id (pos 4))) [
          | inl z ↦ (
            chosen (text "answ") user.answ,
            rw (choose_column, n, x, y, z) (choose-ok (text "answ") (λ n. n.answ) user s a),
            refl,
          )
          | inr z ↦ (chosen [] [], rw (choose_column, n, x, y, z) refl, refl)
        ]
      ]
    ]

-- The answer's text.
abbrev pub used_line : Text → Text
used_line new = text "Your new name " ++ (new ++ text " has already been used !")

length-used_line : (new : Text) → length (used_line new) ≡ 38 + length new
unfolding text
length-used_line new = simp length-append (omega arith)

refuse_change-ok :
    (e : Env) (recv : SendPack) (cfd : ℤ) (temp : CurrentData) (s : Server)
    → IsString recv.send_msg0
    → length recv.send_msg0 < 90
    → e.send_ok cfd ≡ true
    → refuse_change e recv cfd temp s
      ≡ ok temp (record s { sent = s.sent ++ (cfd, line_pack (used_line recv.send_msg0)) ∷ [] })
unfolding refuse_change inform
refuse_change-ok e recv cfd temp s str short up = rw (
  c_string-ok recv.send_msg0 s str,
  strcpy-nil (used_line recv.send_msg0) s (omega (arith, length-used_line recv.send_msg0)),
  send_pk-ok e (line_pack (used_line recv.send_msg0)) cfd s up,
)

-- For a change of anything but the name, of a user with a name of at most 90 characters, with a new
-- text of fewer than 90 characters, on a connection that is up, handle_change changes nothing: it
-- executes only the search of the user, and answers that the new name has already been used.
pub handle_change-used_line :
    (e : Env) (recv : SendPack) (cfd : ℤ) (temp : CurrentData) (s : Server) (found : Answer)
    (pswd ques answ : Text) (id : ℤ)
    → recv.send_id1 ≢ pos 1
    → IsString temp.current_name
    → length temp.current_name ≤ name_bound
    → e.exec s.db (name_query temp.current_name) ≡ found
    → found.rows ≡ user_row temp.current_name pswd ques answ id ∷ []
    → IsString pswd
    → IsString ques
    → IsString answ
    → IsString recv.send_msg0
    → length recv.send_msg0 < 90
    → e.send_ok cfd ≡ true
    → handle_change e recv cfd temp s
      ≡ ok temp (
          answered s temp.current_name
            (user_node temp.current_name pswd ques answ id)
            cfd
            (line_pack (used_line recv.send_msg0)))
unfolding handle_change
handle_change-used_line e recv cfd temp s found pswd ques answ id other str short run one p q a new
      fits up =
    let name = temp.current_name in
    let user = user_node name pswd ques answ id in
    let im : Imports found.rows (user ∷ []) =
      subst (λ r. Imports r (user ∷ [])) (sym one)
        (
          inport_row-user_row name pswd ques answ id (record {
            name_fits = omega (arith, str.fits);
            pswd_fits = omega (arith, p.fits);
            ques_fits = omega (arith, q.fits);
            answ_fits = omega (arith, a.fits);
          }),
          tt,
        ) in
    let len : length found.rows ≡ 1 = ap length one in
    let s1 = searched s (name_query name) 1 (user ∷ []) in
    let (choice, c, k) = choose_column-others e recv user s1 other p q a in
    rw (
      c_string-ok name s str,
      inport_name e name s found (user ∷ []) run im short (omega arith),
      len,
      c,
      k,
      refuse_change-ok e recv cfd temp s1 new fits up,
    )
