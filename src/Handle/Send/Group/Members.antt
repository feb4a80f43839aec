-- ===== src/Handle/Send/Group/Members.antt =====
-- The loops of `handle_send` in epoll+tpool/server/handle.c over a group's members and over the users
-- online.
use model_lib.Base.{
  ◌≡◌, refl, inl, inr, true, List, [], ◌∷◌, ◌++◌, append-nil, append_assoc, arith, ℤ, Bool-cases,
  int_eq,
}
use model_lib.CString.{text}
use model_lib.CString.Decimal.{IsInt}
use model_lib.Packet.{SendPack, Node}
use model_lib.Server.{Env, Server, ok}
use model_lib.Server.Keeps.{All}
use model_lib.Work.Copy.{IsString}
use model_lib.Sqlite.Insert.{c_string-ok, entry_stmt, executed}
use model_lib.Handle.Common.{fold_each}
use model_lib.Handle.Account.Signup.{send_pk-ok}
use model_lib.Handle.Send.{reach_member, deliver_member, send_member}
use model_lib.Handle.Send.Rows.{group_row-ok, insert_text}
use model_lib.Handle.Send.Everyone.{broadcast, copies}
use model_lib.Handle.Send.Group.{
  group_text-IsString, Fitting, with_id, from_group, reached, member_entries, Ready, forward-Ready,
}

gunchecked-IsString : IsString (text "gunchecked")
unfolding text
gunchecked-IsString = omega arith

module _ (e : Env) (pk : SendPack) (f : Fitting pk.sourse_name pk.send_msg0) where
  reach_member-ok :
      (recv : SendPack) (q : Node) (s : Server)
      → Ready pk recv
      → e.send_ok q.fd ≡ true
      → reach_member e pk recv q s
        ≡ ok
            (broadcast (from_group pk))
            (record s { sent = s.sent ++ (q.fd, broadcast (from_group pk)) ∷ [] })
  unfolding reach_member
  reach_member-ok recv q s ready up = rw (
    c_string-ok pk.sourse_name s f.name_str,
    c_string-ok pk.send_msg0 s f.text_str,
    forward-Ready pk f recv s ready,
    send_pk-ok e (broadcast (from_group pk)) q.fd s up,
  )

  reach_each :
      (id : ℤ) (qs : List Node) (recv : SendPack) (s : Server)
      → Ready pk recv
      → ((fd : ℤ) → e.send_ok fd ≡ true)
      → (last : SendPack) × Ready pk last
        × (fold_each qs recv (deliver_member e pk id) s
            ≡ ok last (record s { sent = s.sent ++ copies (from_group pk) (with_id id qs) }))
  unfolding fold_each deliver_member
  reach_each id [] recv s ready up = (recv, ready, rw append-nil)
  reach_each id (q ∷ qs) recv s ready up = elim (Bool-cases (int_eq q.id1 id)) [
    | inl same ↦
        let sent : ℤ × SendPack = (q.fd, broadcast (from_group pk)) in
        let s1 = record s { sent = s.sent ++ sent ∷ [] } in
        let (last, ready', run) = reach_each id qs (broadcast (from_group pk)) s1 (inr refl) up in
        (
          last,
          ready',
          rw (
            same,
            reach_member-ok recv q s ready (up q.fd),
            run,
            append_assoc s.sent (sent ∷ []) (copies (from_group pk) (with_id id qs)),
          ),
        )
    | inr other ↦
        let (last, ready', run) = reach_each id qs recv s ready up in (last, ready', rw other run)
  ]

  pub members_each :
      (ps : List Node) (recv : SendPack) (s : Server)
      → Ready pk recv
      → All (λ (p : Node). IsString p.name) ps
      → IsInt pk.send_id1
      → ((fd : ℤ) → e.send_ok fd ≡ true)
      → (last : SendPack) × Ready pk last
        × (fold_each ps recv (send_member e pk) s
            ≡ ok last (record s {
              db = s.db ++ member_entries pk ps;
              sent = s.sent ++ reached pk s.online_user ps;
            }))
  unfolding fold_each send_member
  members_each [] recv s ready strs i up = (recv, ready, rw (append-nil, append-nil))
  members_each (p ∷ ps) recv s ready strs i up =
      let message = (from_group pk).send_msg0 in
      let str = group_text-IsString pk.sourse_name pk.send_msg0 f in
      let entry = entry_stmt p.name (text "gunchecked") pk.send_id1 message in
      let s1 = executed s entry in
      let (next, ready', run) = reach_each p.id1 s.online_user recv s1 ready up in
      let s2 = record s1 {
        sent = s.sent ++ copies (from_group pk) (with_id p.id1 s.online_user);
      } in
      let (last, ready'', run') = members_each ps next s2 ready' strs.1 i up in
      (
        last,
        ready'',
        rw (
          c_string-ok pk.send_msg0 s f.text_str,
          c_string-ok pk.sourse_name s f.name_str,
          group_row-ok (text "gunchecked") pk.send_id1 message gunchecked-IsString str s,
          c_string-ok p.name s strs.0,
          insert_text (text "gunchecked") pk.send_id1 message gunchecked-IsString str e p.name s
              strs.0 i,
          run,
          run',
          append_assoc s.db (entry ∷ []) (member_entries pk ps),
          append_assoc s.sent (copies (from_group pk) (with_id p.id1 s.online_user))
              (reached pk s.online_user ps),
        ),
      )
