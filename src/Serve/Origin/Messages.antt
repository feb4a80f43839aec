-- ===== src/Serve/Origin/Messages.antt =====
-- handle_send of epoll+tpool/server/handle.c writes to the connection that it answers and to those of
-- users who are online.
use model_lib.Base.{Option, none, some, List, [], ◌∷◌, ℤ, int_eq, Bool-cases, inl, inr}
use model_lib.CString.{Text, text}
use model_lib.Packet.{SendPack, zero_pack, Node, inport}
use model_lib.Server.{Env, Server, M, ◌>>=◌, gets, for_each}
use model_lib.Server.Keeps.{
  All, Ends, Ends-fold_every, Keeps, OfOption, Ends-bind, Ends-for_each, Ends-fold_each, ends_rules,
}
use model_lib.Sqlite.{search_data, search_by_id}
use model_lib.Handle.Common.{fold_each}
use model_lib.Handle.Send.{
  message_row, find_online, forward, group_row, inform, deliver_one, send_single, reach_member,
  deliver_member, send_member, send_group_members, send_group, send_online, deliver_all,
  store_message, send_all, handle_send,
}
use model_lib.Serve.Origin.{actions, Origin}

module _ (D L : ℤ → Type 0) (sub : (fd : ℤ) → L fd → D fd) (e : Env) where
  find_online-All :
      (id : ℤ) (ns : List Node)
      → All (λ n. L n.fd) ns
      → OfOption (λ (n : Node). L n.fd) (find_online id ns)
  unfolding find_online
  find_online-All id [] h = tt
  find_online-All id (n ∷ ns) h = elim (Bool-cases (int_eq n.id1 id)) [
    | inl this ↦ rw this h.0
    | inr other ↦ rw other (find_online-All id ns h.1)
  ]

  message_row-Origin :
      (kind : Text) (id : ℤ) (t : Text) → Keeps (Origin D L) (message_row kind id t)
  unfolding message_row
  message_row-Origin kind id t s h = search actions depth 12

  group_row-Origin : (kind : Text) (id : ℤ) (t : Text) → Keeps (Origin D L) (group_row kind id t)
  unfolding group_row
  group_row-Origin kind id t s h = search actions depth 12

  forward-Origin : (pk : SendPack) (t u : Text) → Keeps (Origin D L) (forward pk t u)
  unfolding forward
  forward-Origin pk t u s h = search actions depth 12

  inform-Origin : (pk : SendPack) (t : Text) → Keeps (Origin D L) (inform pk t)
  unfolding inform
  inform-Origin pk t s h = search actions depth 12

  deliver_one-Origin :
      (pk : SendPack) (p : Option Node)
      → OfOption (λ n. L n.fd) p
      → Keeps (Origin D L) (deliver_one e pk p)
  unfolding deliver_one
  deliver_one-Origin pk none l s h = h
  deliver_one-Origin pk (some p) l s h = let d : D p.fd = sub p.fd l in search actions depth 20

  reach_member-Origin :
      (pk recv : SendPack) (q : Node) → L q.fd → Keeps (Origin D L) (reach_member e pk recv q)
  unfolding reach_member
  reach_member-Origin pk recv q l s h =
      let d : D q.fd = sub q.fd l in search (actions, forward-Origin) depth 20

  deliver_member-Origin :
      (pk : SendPack) (id : ℤ) (recv : SendPack) (q : Node)
      → L q.fd
      → Keeps (Origin D L) (deliver_member e pk id recv q)
  unfolding deliver_member
  deliver_member-Origin pk id recv q l s h = search (ends_rules, reach_member-Origin) depth 12

  deliver_all-Origin :
      (pk recv : SendPack) (q : Node) → L q.fd → Keeps (Origin D L) (deliver_all e pk recv q)
  unfolding deliver_all
  deliver_all-Origin pk recv q l s h =
      let d : D q.fd = sub q.fd l in search (actions, forward-Origin) depth 20

  store_message-Origin : (pk : SendPack) (q : Node) → Keeps (Origin D L) (store_message e pk q)
  unfolding store_message
  store_message-Origin pk q s h = search (actions, message_row-Origin) depth 20

  -- The rounds over the users who are online.
  each_online-Origin :
      (recv : SendPack) (body : SendPack → Node → M SendPack)
      → ((b : SendPack) (q : Node) → L q.fd → Keeps (Origin D L) (body b q))
      → (s : Server) → Origin D L s
      → Ends (Origin D L) (fold_each s.online_user recv body s)
  each_online-Origin recv body kept s h =
      Ends-fold_every (Origin D L) (λ (n : Node). L n.fd) s.online_user recv body h.1 kept s h

  deliver_found-Origin :
      (pk : SendPack) (id : ℤ) (s : Server)
      → Origin D L s
      → Ends (Origin D L) (deliver_one e pk (find_online id s.online_user) s)
  deliver_found-Origin pk id s h =
      deliver_one-Origin pk (find_online id s.online_user) (find_online-All id s.online_user h.1) s
        h

  send_single-Origin : (pk : SendPack) → Keeps (Origin D L) (send_single e pk)
  unfolding send_single search_by_id
  send_single-Origin pk s h = search (actions, message_row-Origin, deliver_found-Origin) depth 20

  send_member-Origin :
      (pk recv : SendPack) (p : Node) → Keeps (Origin D L) (send_member e pk recv p)
  unfolding send_member
  send_member-Origin pk recv p s h =
      let kept = deliver_member-Origin pk p.id1 in
      search (actions, group_row-Origin, each_online-Origin, kept) depth 20

  send_group_members-Origin :
      (cfd : ℤ) (pk : SendPack) → D cfd → Keeps (Origin D L) (send_group_members e cfd pk)
  unfolding send_group_members
  send_group_members-Origin cfd pk d s h =
      let kept = send_member-Origin pk in
      search (actions, group_row-Origin, inform-Origin, Ends-fold_each, kept) depth 20

  send_group-Origin : (cfd : ℤ) (pk : SendPack) → D cfd → Keeps (Origin D L) (send_group e cfd pk)
  unfolding send_group
  send_group-Origin cfd pk d s h =
      search (actions, inform-Origin, send_group_members-Origin) depth 20

  send_online-Origin : (ns : List Node) → Keeps (Origin D L) (send_online e ns)
  unfolding send_online
  send_online-Origin [] s h = h
  send_online-Origin (n ∷ ns) s h = tt

  deliver_each-Origin :
      (pk recv : SendPack) (s : Server)
      → Origin D L s
      → Ends (Origin D L) (fold_each s.online_user recv (deliver_all e pk) s)
  deliver_each-Origin pk recv s h =
      each_online-Origin recv (deliver_all e pk) (deliver_all-Origin pk) s h

  store_each-Origin :
      (pk : SendPack) (ns : List Node) → Keeps (Origin D L) (for_each ns (store_message e pk))
  store_each-Origin pk ns s h =
      Ends-for_each (Origin D L) ns (store_message e pk) (store_message-Origin pk) s h

  abbrev store_all : SendPack → M (Unit {0})
  store_all pk = do
    _ ← search_data e (text "userdata") none none inport
    for_each (← gets λ s. s.cb_list) (store_message e pk)

  store_all-Origin : (pk : SendPack) → Keeps (Origin D L) (store_all pk)
  store_all-Origin pk s h = search (actions, store_each-Origin) depth 20

  send_all-Origin : (pk : SendPack) → Keeps (Origin D L) (send_all e pk)
  unfolding send_all
  send_all-Origin pk s h =
      Ends-bind (Origin D L) (fold_each s.online_user zero_pack (deliver_all e pk) s)
        (λ _. store_all pk) (deliver_each-Origin pk zero_pack s h) (λ _. store_all-Origin pk)

  pub handle_send-Origin :
      (cfd : ℤ) (pk : SendPack) → D cfd → Keeps (Origin D L) (handle_send e cfd pk)
  unfolding handle_send
  handle_send-Origin cfd pk d s h =
      search
        (ends_rules, send_single-Origin, send_group-Origin, send_online-Origin, send_all-Origin)
        depth 20
