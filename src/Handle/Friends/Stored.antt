-- ===== src/Handle/Friends/Stored.antt =====
-- The messages that wait for a user: handle_message of epoll+tpool/server/handle.c with `send_id1`
-- 2.
use mathlib.Core.List.{reverse_aux}
use model_lib.Base.{
  ◌≤◌, ◌<◌, ◌≡◌, refl, ◌∙◌, true, some, List, [], ◌∷◌, ◌++◌, append-nil, append_assoc, arith,
  length, ℤ, pos,
}
use model_lib.CString.{Text, text}
use model_lib.CString.Decimal.{IsInt}
use model_lib.Packet.{SendPack, zero_pack, CurrentData, Node}
use model_lib.Packet.Cmd
use model_lib.Server.{Row, Answer, Env, Server, ok}
use model_lib.Server.Keeps.{All}
use model_lib.Work.Copy.{IsString}
use model_lib.Sqlite.Insert.{c_string-ok}
use model_lib.Sqlite.Search.{int_bound, Imports, searched}
use model_lib.Handle.Common.{fold_each}
use model_lib.Handle.Account.ByName.{name_bound}
use model_lib.Handle.Account.Signup.{send_pk-ok}
use model_lib.Handle.Send.Single.{id_query, search_name_by_id}
use model_lib.Handle.Send.Everyone.{All-reverse_aux}
use model_lib.Handle.Friends.Marks.{
  unchecked_query, checked_stmt, search_unchecked, mark_stored-checked, over, memcpy_str-over,
}
use model_lib.Handle.Friends.{deliver_stored, deliver_kind, handle_message}

module _ (e : Env) (name_of : ℤ → Text) where
  -- A stored message of strings, whose sender the database knows by name, whatever was executed
  -- before.
  pub record Known (p : Node) : Type 0 where
    pub id : IsInt p.id1
    pub message : IsString p.message
    pub name : IsString (name_of p.id1)
    pub column : Text
    pub others : Row
    pub known :
        (history : List Text)
        → e.exec history (id_query p.id1)
          ≡ record { rc_ok = true; rows = ((column, some (name_of p.id1)) ∷ others) ∷ [] }

  abbrev next_pack : SendPack → Node → SendPack
  next_pack sdpk p = record sdpk {
    send_cmd = Cmd.muti_send;
    sourse_name = over sdpk.sourse_name (name_of p.id1);
    send_msg0 = over sdpk.send_msg0 p.message;
  }

  -- The packets, each written over the one before it.
  abbrev pub arrivals : ℤ → SendPack → List Node → List (ℤ × SendPack)
  arrivals cfd sdpk [] = []
  arrivals cfd sdpk (p ∷ ps) = (cfd, next_pack sdpk p) ∷ arrivals cfd (next_pack sdpk p) ps

  -- The statements, two for each message.
  abbrev pub readings : Text → List Node → List Text
  readings own [] = []
  readings own (p ∷ ps) = id_query p.id1 ∷ checked_stmt own p.message ∷ readings own ps

  module _ (cfd : ℤ) (temp : CurrentData) (up : e.send_ok cfd ≡ true)
      (own : IsString temp.current_name) (short : length temp.current_name ≤ name_bound) where
    deliver_stored-ok :
        (sdpk : SendPack) (p : Node) (s : Server)
        → Known p
        → deliver_stored e cfd temp (some (text "checked")) sdpk p s
          ≡ ok (next_pack sdpk p) (record s {
            flag = pos 1;
            cb_list = [];
            temp_name = name_of p.id1;
            db = s.db ++ id_query p.id1 ∷ checked_stmt temp.current_name p.message ∷ [];
            sent = s.sent ++ (cfd, next_pack sdpk p) ∷ [];
          })
    unfolding deliver_stored
    deliver_stored-ok sdpk p s k =
        let a : Answer = record {
          rc_ok = true;
          rows = ((k.column, some (name_of p.id1)) ∷ k.others) ∷ [];
        } in
        let s1 = record (searched s (id_query p.id1) 1 []) { temp_name = name_of p.id1 } in
        let s2 = record s1 { sent = s.sent ++ (cfd, next_pack sdpk p) ∷ [] } in
        rw (
          search_name_by_id e p.id1 s a k.id (k.known s.db) (omega (arith, k.name.fits), tt)
              (omega arith),
          c_string-ok (name_of p.id1) s1 k.name,
          memcpy_str-over sdpk.sourse_name (name_of p.id1) s1 k.name.fits,
          c_string-ok p.message s1 k.message,
          memcpy_str-over sdpk.send_msg0 p.message s1 k.message.fits,
          send_pk-ok e (next_pack sdpk p) cfd s1 up,
          mark_stored-checked e temp p.message s2 own short k.message.fits,
          append_assoc s.db (id_query p.id1 ∷ []) (checked_stmt temp.current_name p.message ∷ []),
        )

    -- What the loop leaves besides the counter, the list and the name, which each search replaces.
    pub record Delivered (s t : Server) (sdpk : SendPack) (ps : List Node) : Type 0 where
      pub sent : t.sent ≡ s.sent ++ arrivals cfd sdpk ps
      pub db : t.db ≡ s.db ++ readings temp.current_name ps
      pub online : t.online_user ≡ s.online_user

    deliver_each :
        (ps : List Node) (sdpk : SendPack) (s : Server)
        → All Known ps
        → (last : SendPack) × (t : Server) × (fold_each ps sdpk
              (deliver_stored e cfd temp (some (text "checked")))
              s
            ≡ ok last t)
          × Delivered s t sdpk ps
    unfolding fold_each
    deliver_each [] sdpk s known =
        (sdpk, s, refl, record { sent = rw append-nil; db = rw append-nil; online = refl })
    deliver_each (p ∷ ps) sdpk s known =
        let s1 : Server = record s {
          flag = pos 1;
          cb_list = [];
          temp_name = name_of p.id1;
          db = s.db ++ id_query p.id1 ∷ checked_stmt temp.current_name p.message ∷ [];
          sent = s.sent ++ (cfd, next_pack sdpk p) ∷ [];
        } in
        let (last, t, run, done) = deliver_each ps (next_pack sdpk p) s1 known.1 in
        (
          last,
          t,
          rw (deliver_stored-ok sdpk p s known.0) run,
          record {
            sent =
                done.sent
                ∙ append_assoc s.sent ((cfd, next_pack sdpk p) ∷ [])
                    (arrivals cfd (next_pack sdpk p) ps);
            db =
                done.db
                ∙ append_assoc s.db (id_query p.id1 ∷ checked_stmt temp.current_name p.message ∷ [])
                    (readings temp.current_name ps);
            online = done.online;
          },
        )

handle_message_kind :
    (e : Env) (cfd : ℤ) (recv : SendPack) (temp : CurrentData) (s : Server)
    → recv.send_id1 ≡ pos 2
    → handle_message e cfd recv temp s
      ≡ deliver_kind e cfd temp (text "unchecked") (some (text "checked")) s
unfolding handle_message
handle_message_kind e cfd recv temp s two = simp two

-- With send_id1 2, for a user whose name is a string of at most 90 characters, on a connection that
-- is up, let the rows of unchecked messages hold strings and be fewer than an int can count, and
-- let the database have a name, a string, for the id of each sender. Then handle_message sends
-- every message with its sender's name, the last row first, and marks it as checked by its text.
-- Each packet is written over the one before it, and neither copy writes a NUL: behind a shorter
-- text, or a shorter name, the end of an earlier one stays.
pub handle_message-unchecked :
    (e : Env) (name_of : ℤ → Text) (cfd : ℤ) (recv : SendPack) (temp : CurrentData) (s : Server)
    (a : Answer) (ns : List Node)
    → recv.send_id1 ≡ pos 2
    → IsString temp.current_name
    → length temp.current_name ≤ name_bound
    → e.exec s.db (unchecked_query temp.current_name) ≡ a
    → Imports a.rows ns
    → length a.rows < int_bound
    → All (Known e name_of) ns
    → e.send_ok cfd ≡ true
    → (t : Server) × (handle_message e cfd recv temp s ≡ ok tt t)
      × (t.sent ≡ s.sent ++ arrivals e name_of cfd zero_pack (reverse_aux ns []))
      × (t.db
          ≡ s.db
            ++ unchecked_query temp.current_name
              ∷ readings e name_of temp.current_name (reverse_aux ns []))
      × (t.online_user ≡ s.online_user)
unfolding deliver_kind
handle_message-unchecked e name_of cfd recv temp s a ns two own short run im few known up =
    let ps = reverse_aux ns [] in
    let query = unchecked_query temp.current_name in
    let s1 = searched s query (length a.rows) ps in
    let (last, t, loop, done) =
      deliver_each e name_of cfd temp up own short ps zero_pack s1
        (All-reverse_aux (Known e name_of) ns [] known tt) in
    (
      t,
      handle_message_kind e cfd recv temp s two
          ∙ rw (
            c_string-ok temp.current_name s own,
            search_unchecked e temp.current_name s a ns run im short few,
            loop,
          ),
      done.sent,
      done.db ∙ append_assoc s.db (query ∷ []) (readings e name_of temp.current_name ps),
      done.online,
    )
