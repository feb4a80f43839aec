-- ===== src/MainLoop/Count.antt =====
-- How many threads and jobs belong to a connection.
use model_lib.Base.{
  ℕ, zero, suc, ◌+◌, ◌≤◌, ◌<◌, ◌≡◌, ◌≢◌, refl, Bool, true, false, List, [], ◌∷◌, ◌++◌, ◌==◌, arith,
  ℤ, int_eq, Bool-cases, inl, inr, ==_iff,
}
use model_lib.Work.{Args}
use model_lib.Tpool.Threads.{Phase, ready, asleep, running, ended, Signal, woke, nobody, update}

abbrev pub bit : Bool → ℕ
bit true = 1
bit false = 0

-- A thread that runs a job of the connection.
abbrev pub runs : ℤ → Phase → Bool
runs fd (running j) = int_eq fd j.fd
runs fd ready = false
runs fd asleep = false
runs fd ended = false

unfoldable pub total : ℕ → (ℕ → Phase) → ℤ → ℕ
total zero f fd = 0
total (suc n) f fd = total n f fd + bit (runs fd (f n))

-- Jobs of the connection.
unfoldable pub occurs : ℤ → List Args → ℕ
occurs fd [] = 0
occurs fd (j ∷ js) = bit (int_eq fd j.fd) + occurs fd js

pub occurs-append :
    (fd : ℤ) (js ks : List Args) → occurs fd (js ++ ks) ≡ occurs fd js + occurs fd ks
unfolding occurs
occurs-append fd [] ks = omega arith
occurs-append fd (j ∷ js) ks = omega (arith, occurs-append fd js ks)

-- A thread past the first `n`.
total-above :
    (n i : ℕ) (f : ℕ → Phase) (p : Phase) (fd : ℤ)
    → n ≤ i
    → total n (update f i p) fd ≡ total n f fd
unfolding total
total-above zero i f p fd h = refl
total-above (suc n) i f p fd h =
    let other : (n == i) ≡ false = ground arith in
    rw (other, total-above n i f p fd (omega arith)) refl

-- A thread that changes its phase.
pub total-update :
    (n i : ℕ) (f : ℕ → Phase) (p : Phase) (fd : ℤ)
    → i < n
    → total n (update f i p) fd + bit (runs fd (f i)) ≡ total n f fd + bit (runs fd p)
unfolding total
total-update zero i f p fd h = absurd (omega arith)
total-update (suc n) i f p fd h = elim (Bool-cases (n == i)) [
  | inl e ↦
      let at : n ≡ i = (==_iff n i).0 e in
      rw (e, total-above n i f p fd (omega arith), at) (omega arith)
  | inr other ↦ rw other (omega (arith, total-update n i f p fd (ground arith)))
]

pub total-Signal : (n : ℕ) (f g : ℕ → Phase) (fd : ℤ) → Signal n f g → total n g fd ≡ total n f fd
total-Signal n f g fd (woke i h e eq) =
    let u = total-update n i f ready fd h in
    let z : bit (runs fd (f i)) ≡ 0 = rw e refl in rw eq (omega arith)
total-Signal n f g fd (nobody none eq) = rw eq refl

-- Two threads of the same connection count twice.
one_running : (n i : ℕ) (f : ℕ → Phase) (fd : ℤ) → i < n → runs fd (f i) ≡ true → 1 ≤ total n f fd
unfolding total
one_running zero i f fd h e = absurd (omega arith)
one_running (suc n) i f fd h e = elim (Bool-cases (n == i)) [
  | inl at ↦
      let same : n ≡ i = (==_iff n i).0 at in
      let one : bit (runs fd (f n)) ≡ 1 = rw (same, e) refl in omega arith
  | inr other ↦ omega (arith, one_running n i f fd (ground arith) e)
]

pub two_running :
    (n i k : ℕ) (f : ℕ → Phase) (fd : ℤ)
    → i < n
    → k < n
    → i ≢ k
    → runs fd (f i) ≡ true
    → runs fd (f k) ≡ true
    → 2 ≤ total n f fd
unfolding total
two_running zero i k f fd hi hk ne ei ek = absurd (omega arith)
two_running (suc n) i k f fd hi hk ne ei ek = elim (Bool-cases (n == i)) [
  | inl at ↦
      let same : n ≡ i = (==_iff n i).0 at in
      let one : bit (runs fd (f n)) ≡ 1 = rw (same, ei) refl in
      omega (arith, one_running n k f fd (omega arith) ek)
  | inr not_i ↦ elim (Bool-cases (n == k)) [
    | inl at ↦
        let same : n ≡ k = (==_iff n k).0 at in
        let one : bit (runs fd (f n)) ≡ 1 = rw (same, ek) refl in
        omega (arith, one_running n i f fd (omega arith) ei)
    | inr not_k ↦ omega (arith, two_running n i k f fd (ground arith) (ground arith) ne ei ek)
  ]
]
