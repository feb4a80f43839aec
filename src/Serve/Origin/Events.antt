-- ===== src/Serve/Origin/Events.antt =====
-- Where packets go: the loop of epoll+tpool/server/server.c over all its events.
use model_lib.Base.{
  ◌≡◌, refl, ◌⊎◌, true, false, Bool, if◌then◌else◌, Option, none, some, List, [], ◌∷◌, arith, ℤ,
  int_eq, inl, inr,
}
use mathlib.Core.Path.{subst}
use model_lib.Packet.{SendPack, Node}
use model_lib.Packet.Cmd
use model_lib.Server.{Env, Server, M, ok, for_each}
use model_lib.Server.Keeps.{All, Ends, Keeps, Ends-bind, ends_rules}
use model_lib.Work.{
  Handler, handle_signup, handle_login, recv_fileinfo, recv_filedata, handle_refind_a,
  handle_refind_b, handle_offline, handle_show, handle_send, handle_recv, select_handler, init_args,
}
use model_lib.Sqlite.Write.{sqlite3_init}
use model_lib.Serve.{call_if_set, worker, handle_packet, serve, run, globals}
use model_lib.Serve.Origin.{Origin, create_table-Origin}
use model_lib.Serve.Origin.Accounts.{
  handle_signup-Origin, handle_login-Origin, handle_refind_a-Origin, handle_refind_b-Origin,
  handle_offline-Origin,
}
use model_lib.Serve.Origin.Listings.{handle_show-Origin}
use model_lib.Serve.Origin.Messages.{handle_send-Origin}

-- A packet has come on the descriptor.
abbrev pub Came : List (ℤ × SendPack) → ℤ → Type 0
Came [] fd = ⊥
Came (p ∷ ps) fd = (p.0 ≡ fd) ⊎ Came ps fd

-- A packet with the command LOGIN has come on the descriptor.
abbrev pub AskedLogin : List (ℤ × SendPack) → ℤ → Type 0
AskedLogin [] fd = ⊥
AskedLogin (p ∷ ps) fd = ((p.0 ≡ fd) × (int_eq p.1.send_cmd Cmd.login ≡ true)) ⊎ AskedLogin ps fd

AskedLogin-Came : (ps : List (ℤ × SendPack)) (fd : ℤ) → AskedLogin ps fd → Came ps fd
AskedLogin-Came [] fd a = absurd a
AskedLogin-Came (p ∷ ps) fd (inl here) = inl here.0
AskedLogin-Came (p ∷ ps) fd (inr there) = inr (AskedLogin-Came ps fd there)

select_login : (cmd : ℤ) → select_handler cmd none ≡ some handle_login → int_eq cmd Cmd.login ≡ true
unfolding select_handler
select_login cmd h = ground arith

-- A command that is none of the file transfers'.
pub record NoTransfer (cmd : ℤ) : Type 0 where
  pub not_info : int_eq cmd Cmd.file_info ≡ false
  pub not_data : int_eq cmd Cmd.file_data ≡ false
  pub not_recv : int_eq cmd Cmd.recv_file ≡ false

-- The handlers that stay for such commands.
abbrev Chats : Option Handler → Type 0
Chats (some recv_fileinfo) = ⊥
Chats (some recv_filedata) = ⊥
Chats (some handle_recv) = ⊥
Chats o = Unit {0}

Chats-if : (b : Bool) (x o : Option Handler) → Chats x → Chats o → Chats (if b then x else o)
Chats-if true x o here rest = here
Chats-if false x o here rest = rest

select_handler-Chats : (cmd : ℤ) → NoTransfer cmd → Chats (select_handler cmd none)
unfolding select_handler
select_handler-Chats cmd q = rw (q.not_info, q.not_data, q.not_recv) (search (Chats-if) depth 12)

module _ (e : Env) (transfer : Handler → ℤ → SendPack → M (Unit {0})) (D L : ℤ → Type 0)
    (sub : (fd : ℤ) → L fd → D fd) where
  call_if_set-Origin :
      (o : Option Handler) (fd : ℤ) (pk : SendPack)
      → D fd
      → Chats o
      → (o ≡ some handle_login → L fd)
      → Keeps (Origin D L) (call_if_set e transfer o fd pk)
  call_if_set-Origin none fd pk d q l = λ s h. h
  call_if_set-Origin (some handle_signup) fd pk d q l = handle_signup-Origin D L e fd pk d
  call_if_set-Origin (some handle_login) fd pk d q l = handle_login-Origin D L e fd pk d (l refl)
  call_if_set-Origin (some handle_refind_a) fd pk d q l = handle_refind_a-Origin D L e fd pk d
  call_if_set-Origin (some handle_refind_b) fd pk d q l = handle_refind_b-Origin D L e fd pk d
  call_if_set-Origin (some handle_offline) fd pk d q l = handle_offline-Origin D L e fd pk
  call_if_set-Origin (some handle_show) fd pk d q l = handle_show-Origin D L e fd pk d
  call_if_set-Origin (some handle_send) fd pk d q l = handle_send-Origin D L sub e fd pk d
  call_if_set-Origin (some recv_fileinfo) fd pk d q l = absurd q
  call_if_set-Origin (some recv_filedata) fd pk d q l = absurd q
  call_if_set-Origin (some handle_recv) fd pk d q l = absurd q

  pub handle_packet-Origin :
      (fd : ℤ) (pk : SendPack)
      → D fd
      → NoTransfer pk.send_cmd
      → (int_eq pk.send_cmd Cmd.login ≡ true → L fd)
      → Keeps (Origin D L) (handle_packet e transfer fd pk)
  unfolding handle_packet worker init_args
  handle_packet-Origin fd pk d q l s h =
      let called = λ (sdpk : SendPack).
        call_if_set-Origin (select_handler pk.send_cmd none) fd sdpk d
          (select_handler-Chats pk.send_cmd q) (λ same. l (select_login pk.send_cmd same)) in
      search (ends_rules, called) depth 12

  serve-Origin :
      (ps : List (ℤ × SendPack))
      → All (λ (p : ℤ × SendPack). D p.0 × (int_eq p.1.send_cmd Cmd.login ≡ true → L p.0)) ps
      → All (λ (p : ℤ × SendPack). NoTransfer p.1.send_cmd) ps
      → Keeps (Origin D L) (serve e transfer ps)
  unfolding serve for_each
  serve-Origin [] known chats s h = h
  serve-Origin (p ∷ ps) known chats s h =
      Ends-bind (Origin D L) (handle_packet e transfer p.0 p.1 s) (λ _. serve e transfer ps)
        (handle_packet-Origin p.0 p.1 known.0.0 chats.0 known.0.1 s h)
        (λ _. serve-Origin ps known.1 chats.1)

  -- Before the first event nothing is sent and nobody is online.
  sqlite3_init-Origin : Keeps (Origin D L) (sqlite3_init e)
  unfolding sqlite3_init
  sqlite3_init-Origin s h = search (ends_rules, create_table-Origin) depth 20

-- What an event brings, seen from the whole list.
events_known :
    (D L : ℤ → Type 0) (ps : List (ℤ × SendPack))
    → ((fd : ℤ) → Came ps fd → D fd)
    → ((fd : ℤ) → AskedLogin ps fd → L fd)
    → All (λ (p : ℤ × SendPack). D p.0 × (int_eq p.1.send_cmd Cmd.login ≡ true → L p.0)) ps
events_known D L [] came asked = tt
events_known D L (p ∷ ps) came asked = (
  (came p.0 (inl refl), λ login. asked p.0 (inl (refl, login))),
  events_known D L ps (λ fd c. came fd (inr c)) (λ fd a. asked fd (inr a)),
)

-- Whatever packets come, none of them with a command of the file transfers, and whatever the
-- database answers: if the server runs from its start over all of them, then every packet that it
-- has sent went to a descriptor on which some packet has come, and every user online is there with
-- a descriptor on which a packet with the command LOGIN has come. A descriptor is a number here:
-- one that is closed and given out again is the same descriptor, so that the theorem does not tell
-- the connections apart that had it one after the other.
pub run-Origin :
    (e : Env) (transfer : Handler → ℤ → SendPack → M (Unit {0})) (ps : List (ℤ × SendPack))
    (t : Server)
    → All (λ (p : ℤ × SendPack). NoTransfer p.1.send_cmd) ps
    → run e transfer ps globals ≡ ok tt t
    → All (λ (m : ℤ × SendPack). Came ps m.0) t.sent
      × All (λ (n : Node). AskedLogin ps n.fd) t.online_user
unfolding run
run-Origin e transfer ps t chats goes =
    let D = Came ps in
    let L = AskedLogin ps in
    let known = events_known D L ps (λ fd c. c) (λ fd a. a) in
    let begun : Server = record globals { cb_list = []; online_user = [] } in
    let ends : Ends (Origin D L) (run e transfer ps globals) =
      Ends-bind (Origin D L) (sqlite3_init e begun) (λ _. serve e transfer ps)
        (sqlite3_init-Origin e transfer D L (AskedLogin-Came ps) begun (tt, tt))
        (λ _. serve-Origin e transfer D L (AskedLogin-Came ps) ps known chats) in
    subst (Ends (Origin D L)) goes ends
