-- ===== src/Serve/Origin/Accounts.antt =====
-- The handlers of accounts and handle_offline of epoll+tpool/server/handle.c: what they send, and whom
-- they put online.
use model_lib.Base.{ℕ, Bool, Option, none, some, List, [], ◌∷◌, ℤ, Bool-cases, inl, inr}
use model_lib.CString.{Buf}
use model_lib.Packet.{SendPack, Node}
use model_lib.Server.{Env, Server, M, modify}
use model_lib.Server.Keeps.{All, Keeps, OfOption, Ends-known, ends_rules}
use model_lib.Link.{matches}
use model_lib.Link.Refine.{take_out}
use model_lib.Handle.Account.{
  signup_new, handle_signup, login_accept, handle_login, refind_question, handle_refind_a,
  handle_refind_b,
}
use model_lib.Handle.Offline.{remove_online, handle_offline}
use model_lib.Serve.Origin.{actions, Origin}

module _ (D L : ℤ → Type 0) (e : Env) where
  signup_new-Origin : (cfd : ℤ) (pk : SendPack) → D cfd → Keeps (Origin D L) (signup_new e cfd pk)
  unfolding signup_new
  signup_new-Origin cfd pk d s h = search actions depth 30

  pub handle_signup-Origin :
      (cfd : ℤ) (pk : SendPack) → D cfd → Keeps (Origin D L) (handle_signup e cfd pk)
  unfolding handle_signup
  handle_signup-Origin cfd pk d s h = search (actions, signup_new-Origin) depth 30

  login_accept-Origin :
      (cfd : ℤ) (buf : Buf) (pk : SendPack) (found : Node)
      → D cfd
      → L cfd
      → Keeps (Origin D L) (login_accept e cfd buf pk found)
  unfolding login_accept
  login_accept-Origin cfd buf pk found d l s h =
      let joins : (s : Server) (n : Node)
          → L n.fd
          → Origin D L s
          → Origin D L (record s { online_user = n ∷ s.online_user }) =
        λ s n l h. (h.0, (l, h.1)) in
      search (actions, joins) depth 30

  pub handle_login-Origin :
      (cfd : ℤ) (pk : SendPack) → D cfd → L cfd → Keeps (Origin D L) (handle_login e cfd pk)
  unfolding handle_login
  handle_login-Origin cfd pk d l s h = search (actions, login_accept-Origin) depth 30

  refind_question-Origin : (cfd : ℤ) → D cfd → Keeps (Origin D L) (refind_question e cfd)
  unfolding refind_question
  refind_question-Origin cfd d s h = search actions depth 30

  pub handle_refind_a-Origin :
      (cfd : ℤ) (pk : SendPack) → D cfd → Keeps (Origin D L) (handle_refind_a e cfd pk)
  unfolding handle_refind_a
  handle_refind_a-Origin cfd pk d s h = search (actions, refind_question-Origin) depth 30

  pub handle_refind_b-Origin :
      (cfd : ℤ) (pk : SendPack) → D cfd → Keeps (Origin D L) (handle_refind_b e cfd pk)
  unfolding handle_refind_b
  handle_refind_b-Origin cfd pk d s h = search actions depth 30

  take_out-All :
      (test : Node → Bool) (ns : List Node)
      → All (λ n. L n.fd) ns
      → OfOption (All (λ (n : Node). L n.fd)) (take_out test ns)
  unfolding take_out
  take_out-All test [] h = tt
  take_out-All test (n ∷ ns) h = elim (Bool-cases (test n)) [
    | inl now ↦ rw now h.1
    | inr later ↦ rw later (kept (take_out test ns) (take_out-All test ns h.1))
  ]
    where
      kept :
          (r : Option (List Node))
          → OfOption (All (λ (n : Node). L n.fd)) r
          → OfOption (All (λ (n : Node). L n.fd)) (elim r [ none ↦ none | some xs ↦ some (n ∷ xs) ])
      kept none q = tt
      kept (some xs) q = (h.0, q)

  abbrev put_back : List Node → M (Unit {0})
  put_back rest = modify λ s. record s { online_user = rest }

  remove_online-Origin :
      (content : Buf) (range : ℕ) → Keeps (Origin D L) (remove_online content range)
  unfolding remove_online
  remove_online-Origin content range s h =
      Ends-known (Origin D L) (All (λ (n : Node). L n.fd))
        (take_out (matches content range) s.online_user) put_back s
        (take_out-All (matches content range) s.online_user h.1) λ rest q. (h.0, q)

  pub handle_offline-Origin : (cfd : ℤ) (pk : SendPack) → Keeps (Origin D L) (handle_offline cfd pk)
  unfolding handle_offline
  handle_offline-Origin cfd pk s h = search (ends_rules, remove_online-Origin) depth 12
