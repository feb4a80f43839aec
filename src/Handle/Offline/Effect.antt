-- ===== src/Handle/Offline/Effect.antt =====
-- `handle_offline` of handle.c takes the user's node out of the list of online users.
use model_lib.Base.{
  ◌<◌, ◌≡◌, refl, ◌≢◌, sym, false, inl, inr, none, some, List, [], ◌∷◌, ◌++◌, arith, length, lt→ltb,
  ℤ, int_eq, int_eq_iff, int_eq_refl, Bool-cases,
}
use model_lib.CString.{max_size}
use model_lib.CString.Decimal.{show_int, IsInt, length-show_int-le, atoi-show_int}
use model_lib.Packet.{SendPack, Node}
use model_lib.Server.{Env, Server, ok, fault, sprintf}
use model_lib.Link.{matches}
use model_lib.Link.Refine.{take_out}
use model_lib.Handle.Offline.{handle_offline}
use model_lib.Handle.Account.Login.{logged_in}

-- None of the nodes has the id.
abbrev pub Without : ℤ → List Node → Type 0
Without id [] = Unit
Without id (n ∷ ns) = (n.id1 ≢ id) × Without id ns

-- The digits of an id match the nodes that have it.
matches-id : (id : ℤ) (n : Node) → matches (show_int id) 1 n ≡ int_eq id n.id1
unfolding matches
matches-id id n = rw atoi-show_int

not_same : (id : ℤ) (n : Node) → n.id1 ≢ id → int_eq id n.id1 ≡ false
not_same id n ne = elim (Bool-cases (int_eq id n.id1)) [
  | inl same ↦ absurd (ne (sym ((int_eq_iff id n.id1).0 same)))
  | inr other ↦ other
]

take_out-middle :
    (id : ℤ) (before : List Node) (n : Node) (after : List Node)
    → Without id before
    → n.id1 ≡ id
    → take_out (matches (show_int id) 1) (before ++ n ∷ after) ≡ some (before ++ after)
unfolding take_out
take_out-middle id [] n after w e = rw (matches-id id n, e, int_eq_refl id)
take_out-middle id (m ∷ before) n after w e =
    rw (matches-id id m, not_same id m w.0, take_out-middle id before n after w.1 e)

take_out-Without :
    (id : ℤ) (ns : List Node) → Without id ns → take_out (matches (show_int id) 1) ns ≡ none
unfolding take_out
take_out-Without id [] w = refl
take_out-Without id (n ∷ ns) w = rw (matches-id id n, not_same id n w.0, take_out-Without id ns w.1)

short_id : (id : ℤ) → IsInt id → length (show_int id) < max_size
short_id id i = omega (arith, length-show_int-le id i)

module _ (cfd : ℤ) (recv : SendPack) where
  -- handle_offline takes the first online user with the id out of the list; the others stay in
  -- their order, and nothing is sent or stored.
  pub handle_offline_removes :
      (s : Server) (before : List Node) (n : Node) (after : List Node)
      → IsInt recv.send_id1
      → s.online_user ≡ before ++ n ∷ after
      → Without recv.send_id1 before
      → n.id1 ≡ recv.send_id1
      → handle_offline cfd recv s ≡ ok tt (record s { online_user = before ++ after })
  unfolding handle_offline sprintf
  handle_offline_removes s before n after i at w e =
      rw (
        lt→ltb _ _ (short_id recv.send_id1 i),
        at,
        take_out-middle recv.send_id1 before n after w e,
      )

  -- A user who is not online makes handle_offline read through NULL in remove_node.
  handle_offline_missing :
      (s : Server)
      → IsInt recv.send_id1
      → Without recv.send_id1 s.online_user
      → handle_offline cfd recv s ≡ fault
  unfolding handle_offline sprintf
  handle_offline_missing s i w =
      rw (lt→ltb _ _ (short_id recv.send_id1 i), take_out-Without recv.send_id1 s.online_user w)

  -- Going offline right after a login, with the id that the login gave, brings back the list of
  -- online users from before it and changes nothing else.
  pub offline-login :
      (e : Env) (fd : ℤ) (pk : SendPack) (s : Server) (id : ℤ)
      → IsInt id
      → recv.send_id1 ≡ id
      → handle_offline cfd recv (logged_in e fd pk s id)
        ≡ ok tt (record (logged_in e fd pk s id) { online_user = s.online_user })
  offline-login e fd pk s id i same =
      handle_offline_removes (logged_in e fd pk s id) [] _ s.online_user (rw same i) refl tt
        (sym same)
