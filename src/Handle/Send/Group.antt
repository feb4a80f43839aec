-- ===== src/Handle/Send/Group.antt =====
-- A message to a group: `handle_send` of epoll+tpool/server/handle.c with `result` 2, its texts and packets.
pub mod Members
pub mod Sent
use mathlib.Core.Path.{subst}
use mathlib.Core.List.{reverse_aux}
use model_lib.Base.{
  ◌+◌, ◌<◌, ◌≤◌, ◌≡◌, ◌≢◌, ◌⊎◌, refl, ap, sym, inl, inr, ◌∙◌, Bool, true, false, some, none, suc,
  List, [], ◌∷◌, ◌++◌, append-nil, append_assoc, arith, length, length-append, drop_all, lt→ltb, ℕ,
  ℤ, pos, if◌then◌else◌, Bool-cases, int_eq,
}
use model_lib.CString.{Text, text, max_size, IsClean, put_str, str_eq}
use model_lib.CString.Decimal.{IsInt}
use model_lib.Packet.{SendPack, zero_pack, Node, inport, count}
use model_lib.Packet.Cmd
use model_lib.Server.{Env, Answer, Server, ok}
use model_lib.Server.Keeps.{All}
use model_lib.Work.Copy.{IsString}
use model_lib.Sqlite.{search_sql, search_data}
use model_lib.Sqlite.Sql.{select_text}
use model_lib.Sqlite.Search.{int_bound, Imports, searched, search_data-inport, length-select_text}
use model_lib.Sqlite.Insert.{c_string-ok, entry_stmt, executed}
use model_lib.Handle.Common.{strcpy, fold_each}
use model_lib.Handle.Account.Signup.{send_pk-ok}
use model_lib.Handle.Show.Listing.{strcpy-nil}
use model_lib.Handle.Groups.Join.{group_query, count_group}
use model_lib.Handle.Send.{
  forward, inform, group_text, reach_member, deliver_member, send_member, send_group_members,
  send_group, handle_send,
}
use model_lib.Handle.Send.Rows.{group_row-ok, insert_text}
use model_lib.Handle.Send.Everyone.{
  broadcast, copies, forward-fresh, forward-broadcast, All-reverse_aux,
}

IsClean-++ : (a b : Text) → IsClean a → IsClean b → IsClean (a ++ b)
IsClean-++ [] b cl cl' = cl'
IsClean-++ (c ∷ a) b cl cl' = (cl.0, IsClean-++ a b cl.1 cl')

length-group_text :
    (message group : Text) → length (group_text message group) ≡ 14 + length message + length group
unfolding group_text text
length-group_text message group = simp length-append (omega arith)

-- The line that the sender gets.
abbrev pub sent_line : Text → Text → Text
sent_line message group =
    text "# Message " ++ (message ++ (text " has been sent to group " ++ (group ++ text " !")))

length-sent_line :
    (message group : Text) → length (sent_line message group) ≡ 36 + length message + length group
unfolding text
length-sent_line message group = simp length-append (omega arith)

-- A group's name and a message that fit into the line together.
pub record Fitting (group message : Text) : Type 0 where
  pub name_str : IsString group
  pub text_str : IsString message
  pub both : length message + length group < 92

pub group_text-IsString :
    (group message : Text) → Fitting group message → IsString (group_text message group)
unfolding group_text text
group_text-IsString group message f = record {
  clean = IsClean-++ message _ f.text_str.clean (
      IsClean-++ (text " (from group ") _ (omega arith)
        (IsClean-++ group (text ")") f.name_str.clean (omega arith)));
  fits = omega (arith, length-group_text message group, f.both);
}

-- The line over the text of a message to the group covers it.
put_str-sent_line :
    (group message : Text)
    → Fitting group message
    → put_str max_size (group_text message group ++ 0 ∷ []) (sent_line message group)
      ≡ some (sent_line message group ++ 0 ∷ [])
unfolding put_str
put_str-sent_line group message f =
    let old = group_text message group ++ 0 ∷ [] in
    let short : length (sent_line message group) < max_size =
      omega (arith, length-sent_line message group, f.both) in
    let covered : length old ≤ suc (length (sent_line message group)) = omega (
      arith,
      length-sent_line message group,
      length-group_text message group,
      length-append (group_text message group) (0 ∷ []),
    ) in
    rw (lt→ltb _ _ short, drop_all (suc (length (sent_line message group))) old covered) refl

-- The users with the id.
abbrev pub with_id : ℤ → List Node → List Node
with_id id [] = []
with_id id (q ∷ qs) = if int_eq q.id1 id then q ∷ with_id id qs else with_id id qs

module _ (pk : SendPack) where
  -- The message as the group's.
  abbrev pub from_group : SendPack
  from_group = record pk { send_msg0 = group_text pk.send_msg0 pk.sourse_name }

  -- For each member what its online users get.
  abbrev pub reached : List Node → List Node → List (ℤ × SendPack)
  reached online [] = []
  reached online (p ∷ ps) = copies from_group (with_id p.id1 online) ++ reached online ps

  -- The rows for the members.
  abbrev pub member_entries : List Node → List Text
  member_entries [] = []
  member_entries (p ∷ ps) =
      entry_stmt p.name (text "gunchecked") pk.send_id1 from_group.send_msg0 ∷ member_entries ps

  -- What the packet is that each round writes over.
  abbrev pub Ready : SendPack → Type 0
  Ready recv = (recv ≡ zero_pack) ⊎ (recv ≡ broadcast from_group)

  -- The packet to the sender, over the last one that was sent.
  abbrev pub closing : SendPack → SendPack
  closing recv = record recv {
    send_cmd = Cmd.info;
    send_msg0 = sent_line pk.send_msg0 pk.sourse_name ++ 0 ∷ [];
  }

  module _ (f : Fitting pk.sourse_name pk.send_msg0) where
    pub forward-Ready :
        (recv : SendPack) (s : Server)
        → Ready recv
        → forward recv pk.sourse_name from_group.send_msg0 s ≡ ok (broadcast from_group) s
    forward-Ready recv s (inl fresh) =
        rw fresh (
          forward-fresh from_group s f.name_str (group_text-IsString pk.sourse_name pk.send_msg0 f))
    forward-Ready recv s (inr again) = rw again (
        forward-broadcast from_group s f.name_str
          (group_text-IsString pk.sourse_name pk.send_msg0 f))

    pub inform-Ready :
        (recv : SendPack) (s : Server)
        → Ready recv
        → inform recv (sent_line pk.send_msg0 pk.sourse_name) s ≡ ok (closing recv) s
    unfolding inform strcpy
    inform-Ready recv s (inl fresh) = rw (
      fresh,
      strcpy-nil (sent_line pk.send_msg0 pk.sourse_name) s
          (omega (arith, length-sent_line pk.send_msg0 pk.sourse_name, f.both)),
    )
    inform-Ready recv s (inr again) = rw (again, put_str-sent_line pk.sourse_name pk.send_msg0 f)
