-- ===== src/Handle/Account/Refind.antt =====
-- `handle_refind_a` and `handle_refind_b` of handle.c: the question, and the password for its answer.
use mathlib.Core.List.{reverse_aux}
use mathlib.Core.Path.{subst}
use model_lib.Base.{
  ℕ, zero, suc, ◌≤◌, ◌<◌, ◌≡◌, refl, ◌==◌, inl, inr, Bool-cases, append-nil, true, false, some,
  Bool, List, [], ◌∷◌, ◌++◌, arith, length, if◌then◌else◌, ℤ, pos, ap, sym,
}
use model_lib.CString.{Text, Buf, str_eq, max_size, IsClean}
use model_lib.Packet.{SendPack, zero_pack, Node, success, fail}
use model_lib.Server.{Env, Answer, Row, Server, ok}
use model_lib.Work.Copy.{IsString}
use model_lib.Sqlite.Search.{int_bound, Imports, searched}
use model_lib.Sqlite.Import.{user_row, user_node, Fits, inport_row-user_row}
use model_lib.Sqlite.Insert.{c_string-ok}
use model_lib.Handle.Account.{strcmp_eq, handle_refind_a, handle_refind_b}
use model_lib.Handle.Account.ByName.{name_bound, name_query, inport_name}
use model_lib.Handle.Account.Signup.{send_pk-ok}
use model_lib.Handle.Account.Login.{memcpy_str-nil}

-- On strings that fit into their arrays `strcmp` compares them whole.
strcmp_eq-str_eq :
    (cap : ℕ) (a b : Buf)
    → IsClean a
    → IsClean b
    → length a < cap
    → length b < cap
    → strcmp_eq cap a b ≡ some (str_eq a b)
unfolding strcmp_eq str_eq
strcmp_eq-str_eq zero a b ca cb la lb = absurd (omega arith)
strcmp_eq-str_eq (suc cap) [] [] ca cb la lb = refl
strcmp_eq-str_eq (suc cap) [] (y ∷ b) ca cb la lb = ground arith
strcmp_eq-str_eq (suc cap) (x ∷ a) [] ca cb la lb = ground arith
strcmp_eq-str_eq (suc cap) (x ∷ a) (y ∷ b) ca cb la lb =
    ground (arith, strcmp_eq-str_eq cap a b ca.1 cb.1 (omega arith) (omega arith))

-- The state after a search by name that found one user, and an answer.
abbrev pub answered : Server → (name : Text) → Node → ℤ → SendPack → Server
answered s name user cfd reply = record s {
  flag = pos 1;
  cb_list = user ∷ [];
  db = s.db ++ name_query name ∷ [];
  sent = s.sent ++ (cfd, reply) ∷ [];
}

-- The answer to `REFINDA` for the users of the name.
abbrev pub asked : List Node → List SendPack
asked [] = record zero_pack { result = fail } ∷ []
asked (user ∷ []) = record zero_pack { result = success; send_msg0 = user.ques } ∷ []
asked (user ∷ other ∷ ns) = []

abbrev pub to_client : ℤ → List SendPack → List (ℤ × SendPack)
to_client cfd [] = []
to_client cfd (p ∷ ps) = (cfd, p) ∷ to_client cfd ps

abbrev pub Questions : List Node → Type 0
Questions [] = Unit
Questions (user ∷ ns) = IsString user.ques × Questions ns

module _ (e : Env) (cfd : ℤ) (pk : SendPack) where
  -- For a name of at most 90 characters, on a connection that is up, handle_refind_a answers FAIL
  -- if nobody has the name and SUCCESS with the question if one user has it; if several have it, it
  -- sends nothing.
  pub handle_refind_a-asked :
      (s : Server) (rc : Bool) (rows : List Row) (ns : List Node)
      → IsString pk.sourse_name
      → length pk.sourse_name ≤ name_bound
      → e.exec s.db (name_query pk.sourse_name) ≡ record { rc_ok = rc; rows = rows }
      → Imports rows ns
      → Questions ns
      → length rows < int_bound
      → e.send_ok cfd ≡ true
      → handle_refind_a e cfd pk s
        ≡ ok tt (record s {
          flag = pos (length rows);
          cb_list = reverse_aux ns [];
          db = s.db ++ name_query pk.sourse_name ∷ [];
          sent = s.sent ++ to_client cfd (asked ns);
        })
  unfolding handle_refind_a
  handle_refind_a-asked s rc [] [] str short run im qs few up =
      let name = pk.sourse_name in
      rw (
        c_string-ok name s str,
        inport_name e name s (record { rc_ok = rc; rows = [] }) [] run im short few,
        send_pk-ok e (record zero_pack { result = fail }) cfd (searched s (name_query name) 0 [])
            up,
      )
  handle_refind_a-asked s rc [] (n ∷ ns) str short run im qs few up = absurd im
  handle_refind_a-asked s rc (r ∷ rows) [] str short run im qs few up = absurd im
  handle_refind_a-asked s rc (r ∷ []) (n ∷ []) str short run im qs few up =
      let name = pk.sourse_name in
      let found = searched s (name_query name) 1 (n ∷ []) in
      rw (
        c_string-ok name s str,
        inport_name e name s (record { rc_ok = rc; rows = r ∷ [] }) (n ∷ []) run im short few,
        c_string-ok n.ques found qs.0,
        memcpy_str-nil n.ques found qs.0,
        send_pk-ok e (record zero_pack { result = success; send_msg0 = n.ques }) cfd found up,
      )
  handle_refind_a-asked s rc (r ∷ []) (n ∷ m ∷ ns) str short run im qs few up = absurd im.1
  handle_refind_a-asked s rc (r ∷ q ∷ rows) (n ∷ []) str short run im qs few up = absurd im.1
  handle_refind_a-asked s rc (r ∷ q ∷ rows) (n ∷ m ∷ ns) str short run im qs few up =
      let name = pk.sourse_name in
      let some_found : (suc (suc (length rows)) == 0) ≡ false = ground arith in
      let not_one : (suc (suc (length rows)) == 1) ≡ false = ground arith in
      rw (
        c_string-ok name s str,
        inport_name e name s (record { rc_ok = rc; rows = r ∷ q ∷ rows }) (n ∷ m ∷ ns) run im short
            few,
        some_found,
        not_one,
        append-nil,
      )

  -- For a name of at most 90 characters with one user, whose fields fit and whose answer is a
  -- string, on a connection that is up, handle_refind_b sends the stored password if the packet's
  -- answer is the stored one, and FAIL with no password if it is another.
  pub handle_refind_b-answ :
      (s : Server) (found : Answer) (pswd ques answ : Text) (id : ℤ)
      → IsString pk.sourse_name
      → IsString pk.send_msg0
      → IsString answ
      → length pk.sourse_name ≤ name_bound
      → e.exec s.db (name_query pk.sourse_name) ≡ found
      → found.rows ≡ user_row pk.sourse_name pswd ques answ id ∷ []
      → Fits pk.sourse_name pswd ques answ
      → e.send_ok cfd ≡ true
      → handle_refind_b e cfd pk s
        ≡ ok tt (
            answered s pk.sourse_name (user_node pk.sourse_name pswd ques answ id) cfd (
              if str_eq answ pk.send_msg0
              then record zero_pack { result = success; send_msg0 = pswd }
              else record zero_pack { result = fail }))
  unfolding handle_refind_b
  handle_refind_b-answ s found pswd ques answ id str msg ans short run one fits up =
      let name = pk.sourse_name in
      let user = user_node name pswd ques answ id in
      let im : Imports found.rows (user ∷ []) =
        subst (λ r. Imports r (user ∷ [])) (sym one)
          (inport_row-user_row name pswd ques answ id fits, tt) in
      let len : length found.rows ≡ 1 = ap length one in
      let t = searched s (name_query name) 1 (user ∷ []) in
      rw
        (
          c_string-ok name s str,
          inport_name e name s found (user ∷ []) run im short (omega arith),
          len,
          strcmp_eq-str_eq max_size answ pk.send_msg0 ans.clean msg.clean ans.fits msg.fits,
        )
        (elim (Bool-cases (str_eq answ pk.send_msg0)) [
          | inl same ↦ rw (
            same,
            send_pk-ok e (record zero_pack { result = success; send_msg0 = pswd }) cfd t up,
          )
          | inr other ↦ rw (other, send_pk-ok e (record zero_pack { result = fail }) cfd t up)
        ])
