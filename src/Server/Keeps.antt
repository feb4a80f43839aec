-- ===== src/Server/Keeps.antt =====
-- Invariants of the server's actions: one rule for each way to build an action of handle.c and
-- sqlite.c.
use model_lib.Base.{
  Bool, true, false, Option, none, some, List, [], ◌∷◌, ℕ, if◌then◌else◌, ltb, length,
}
use model_lib.CString.{Text}
use model_lib.Packet.{Node}
use model_lib.Server.{
  Server, Run, M, ok, fault, exited, pure, crash, and_then, or_fault, first_node, sprintf, for_each,
}
use model_lib.Handle.Common.{fold_each}

-- What holds of the globals that a run ends with. A fault and an exit leave none.
abbrev pub Ends : {A : Type 0} → (Server → Type 0) → Run A → Type 0
Ends P (ok a s) = P s
Ends P fault = Unit
Ends P exited = Unit

abbrev pub Keeps : {A : Type 0} → (Server → Type 0) → M A → Type 0
Keeps P m = (s : Server) → P s → Ends P (m s)

abbrev pub All : {A : Type 0} → (A → Type 0) → List A → Type 0
All P [] = Unit
All P (x ∷ xs) = P x × All P xs

abbrev pub OfOption : {A : Type 0} → (A → Type 0) → Option A → Type 0
OfOption Q none = Unit
OfOption Q (some a) = Q a

module _ (P : Server → Type 0) where
  pub Ends-bind :
      {A B : Type 0} (r : Run A) (k : A → M B)
      → Ends P r
      → ((a : A) → Keeps P (k a))
      → Ends P (and_then r k)
  Ends-bind (ok a s) k h kk = kk a s h
  Ends-bind fault k h kk = tt
  Ends-bind exited k h kk = tt

  pub Ends-or_fault : {A : Type 0} (o : Option A) → Keeps P (or_fault o)
  Ends-or_fault none s h = tt
  Ends-or_fault (some a) s h = h

  -- The rest may use what is known of the value.
  pub Ends-known :
      {A B : Type 0} (Q : A → Type 0) (o : Option A) (k : A → M B) (s : Server)
      → OfOption Q o
      → ((a : A) → Q a → Ends P (k a s))
      → Ends P (and_then (or_fault o s) k)
  Ends-known Q none k s q kk = tt
  Ends-known Q (some a) k s q kk = kk a q

  pub Ends-first_node : (ns : List Node) → Keeps P (first_node ns)
  Ends-first_node [] s h = tt
  Ends-first_node (n ∷ ns) s h = h

  pub Ends-if :
      {A : Type 0} (b : Bool) (m n : M A) (s : Server)
      → Ends P (m s)
      → Ends P (n s)
      → Ends P ((if b then m else n) s)
  Ends-if true m n s km kn = km
  Ends-if false m n s km kn = kn

  pub Ends-sprintf : (size : ℕ) (t : Text) → Keeps P (sprintf size t)
  unfolding sprintf
  Ends-sprintf size t s h = Ends-if (ltb (length t) size) (pure t) crash s h tt

  pub Ends-for_each :
      {A : Type 0} (xs : List A) (body : A → M (Unit {0}))
      → ((x : A) → Keeps P (body x))
      → Keeps P (for_each xs body)
  unfolding for_each
  Ends-for_each [] body kb s h = h
  Ends-for_each (x ∷ xs) body kb s h =
      Ends-bind (body x s) (λ _. for_each xs body) (kb x s h) (λ _. Ends-for_each xs body kb)

  -- Every element has a property that the rounds need.
  pub Ends-fold_every :
      {A B : Type 0} (Q : A → Type 0) (xs : List A) (b : B) (body : B → A → M B)
      → All Q xs
      → ((b : B) (x : A) → Q x → Keeps P (body b x))
      → Keeps P (fold_each xs b body)
  unfolding fold_each
  Ends-fold_every Q [] b body q kb s h = h
  Ends-fold_every Q (x ∷ xs) b body q kb s h =
      Ends-bind (body b x s) (λ b'. fold_each xs b' body) (kb b x q.0 s h)
        (λ b'. Ends-fold_every Q xs b' body q.1 kb)

  pub Ends-fold_each :
      {A B : Type 0} (xs : List A) (b : B) (body : B → A → M B)
      → ((b : B) (x : A) → Keeps P (body b x))
      → Keeps P (fold_each xs b body)
  unfolding fold_each
  Ends-fold_each [] b body kb s h = h
  Ends-fold_each (x ∷ xs) b body kb s h =
      Ends-bind (body b x s) (λ b'. fold_each xs b' body) (kb b x s h)
        (λ b'. Ends-fold_each xs b' body kb)

pub ruleset ends_rules = (Ends-bind, Ends-or_fault, Ends-first_node, Ends-if, Ends-sprintf)
