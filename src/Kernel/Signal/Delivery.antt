-- ===== src/Kernel/Signal/Delivery.antt =====
-- Which signal `next_pending` takes.
use axebergos.Prelude.{
  ◌≡◌, ◌≢◌, refl, ap, ◌↔◌, Bool, true, false, not, ◌==◌, List, [], ◌∷◌, ◌++◌, none, some, inl, inr,
  ◌⊎◌, All, All-of_append, Bool-cases, arith,
}
use axebergos.Kernel.Signal.{Signal, sigkill, sigstop, signal_key, signal_same_iff, can_catch}
use axebergos.Kernel.Signal.Process.{
  ProcessSignals, contains, take_first, select, next_pending, has_pending, any_deliverable,
}

-- The list has no element that passes, or splits at the first that does.
pub data First (p : Signal → Bool) (xs : List Signal) : Type 0 where
  missed : All (λ x. p x ≡ false) xs → take_first p xs ≡ none → First p xs
  hit :
      (pre post : List Signal) (x : Signal)
      → xs ≡ pre ++ x ∷ post
      → All (λ y. p y ≡ false) pre
      → p x ≡ true
      → take_first p xs ≡ some (x, pre ++ post)
      → First p xs

First-cons :
    (p : Signal → Bool) (y : Signal) (xs : List Signal)
    → p y ≡ false
    → First p xs
    → First p (y ∷ xs)
unfolding take_first
First-cons p y xs e (missed a t) = missed (e, a) (rw (e, t))
First-cons p y xs e (hit pre post x s a h t) =
    hit (y ∷ pre) post x (ap (◌∷◌ y) s) (e, a) h (rw (e, t))

pub First-all : (p : Signal → Bool) (xs : List Signal) → First p xs
unfolding take_first
First-all p [] = missed tt refl
First-all p (x ∷ xs) = elim (Bool-cases (p x)) [
  | inl e ↦ hit [] xs x refl tt e (rw e)
  | inr e ↦ First-cons p x xs e (First-all p xs)
]

abbrev pub Lacks : Signal → List Signal → Type 0
Lacks s xs = All (λ x. x ≢ s) xs

Lacks-of_missed : (s : Signal) (xs : List Signal) → All (λ x. (x == s) ≡ false) xs → Lacks s xs
Lacks-of_missed s [] a = tt
Lacks-of_missed s (x ∷ xs) a =
    ((λ e. ground (arith, a.0, (signal_same_iff x s).1 e)), Lacks-of_missed s xs a.1)

-- The answers of `next_pending`.
pub data Taken (ps : ProcessSignals) : Type 0 where
  takes :
      (s : Signal) (pre post : List Signal)
      → ps.pending ≡ pre ++ s ∷ post
      → next_pending ps ≡ (record ps { pending = pre ++ post }, some s)
      → ((s ≡ sigkill) × Lacks sigkill pre)
        ⊎ ((s ≡ sigstop) × Lacks sigkill ps.pending × Lacks sigstop pre)
        ⊎ (Lacks sigkill ps.pending
            × Lacks sigstop ps.pending
            × (contains ps.blocked s ≡ false)
            × All (λ x. contains ps.blocked x ≡ true) pre)
      → Taken ps
  takes_none :
      next_pending ps ≡ (ps, none)
      → Lacks sigkill ps.pending
      → Lacks sigstop ps.pending
      → All (λ x. contains ps.blocked x ≡ true) ps.pending
      → Taken ps

All-true :
    (b : List Signal) (xs : List Signal)
    → All (λ x. not (contains b x) ≡ false) xs
    → All (λ x. contains b x ≡ true) xs
All-true b [] a = tt
All-true b (x ∷ xs) a = (ground (arith, a.0), All-true b xs a.1)

-- How `next_pending` answers: SIGKILL if it is pending, else SIGSTOP if it is pending, else the first
-- signal that is not blocked; the signal leaves the queue, and the rest keeps its order. There is no
-- answer exactly when neither is pending and every pending signal is blocked.
pub next_pending-Taken : (ps : ProcessSignals) → Taken ps
unfolding next_pending select
next_pending-Taken ps = elim (First-all (λ x. x == sigkill) ps.pending) [
  | hit pre post x s a h t ↦
      takes x pre post s (rw (t, select, next_pending))
        (inl ((signal_same_iff x sigkill).0 h, Lacks-of_missed sigkill pre a))
  | missed k t ↦ elim (First-all (λ x. x == sigstop) ps.pending) [
    | hit pre post x s a h u ↦ takes x pre post s (rw (t, u, select, next_pending)) (
        inr (
          inl (
            (signal_same_iff x sigstop).0 h,
            Lacks-of_missed sigkill ps.pending k,
            Lacks-of_missed sigstop pre a,
          )))
    | missed q u ↦ elim (First-all (λ x. not (contains ps.blocked x)) ps.pending) [
      | hit pre post x s a h v ↦ takes x pre post s (rw (t, u, v, select, next_pending)) (
          inr (
            inr (
              Lacks-of_missed sigkill ps.pending k,
              Lacks-of_missed sigstop ps.pending q,
              ground arith,
              All-true ps.blocked pre a,
            )))
      | missed a v ↦
          takes_none (rw (t, u, v, select, next_pending)) (Lacks-of_missed sigkill ps.pending k)
            (Lacks-of_missed sigstop ps.pending q) (All-true ps.blocked ps.pending a)
    ]
  ]
]

any_deliverable_none :
    (b : List Signal) (xs : List Signal)
    → (any_deliverable b xs ≡ false) ↔ All (λ x. (contains b x ≡ true) × (can_catch x ≡ true)) xs
any_deliverable_none b [] = (λ e. tt, λ a. refl)
any_deliverable_none b (x ∷ xs) = ground (arith, any_deliverable_none b xs)

-- The one that `takes` finds is deliverable.
taken_deliverable :
    (ps : ProcessSignals) (s : Signal) (pre post : List Signal)
    → ps.pending ≡ pre ++ s ∷ post
    → (contains ps.blocked s ≡ false) ⊎ (can_catch s ≡ false)
    → has_pending ps ≡ true
unfolding has_pending
taken_deliverable ps s pre post e d = elim (Bool-cases (any_deliverable ps.blocked ps.pending)) [
  | inl h ↦ h
  | inr h ↦
      let all = (any_deliverable_none ps.blocked ps.pending).0 h in
      let at =
        (All-of_append (λ x. (contains ps.blocked x ≡ true) × (can_catch x ≡ true)) pre (s ∷ post)
          (rw (← e) all)).1.0 in
      ground (arith, d, at)
]

All-can_catch :
    (b : List Signal) (xs : List Signal)
    → Lacks sigkill xs
    → Lacks sigstop xs
    → All (λ x. contains b x ≡ true) xs
    → All (λ x. (contains b x ≡ true) × (can_catch x ≡ true)) xs
unfolding can_catch
All-can_catch b [] k q a = tt
All-can_catch b (x ∷ xs) k q a = (
  (a.0, ground (arith, k.0, q.0, signal_same_iff x sigkill, signal_same_iff x sigstop)),
  All-can_catch b xs k.1 q.1 a.1,
)

-- `has_pending` says whether `next_pending` has an answer.
pub has_pending_iff : (ps : ProcessSignals) → (has_pending ps ≡ true) ↔ ((next_pending ps).1 ≢ none)
unfolding has_pending can_catch
has_pending_iff ps = elim (next_pending-Taken ps) [
  | takes s pre post e t (inl (k, l)) ↦ (
    λ h. λ n. ground (arith, t, n),
    λ n. taken_deliverable ps s pre post e (inr (rw (k, can_catch) refl)),
  )
  | takes s pre post e t (inr (inl (k, l, l₂))) ↦ (
    λ h. λ n. ground (arith, t, n),
    λ n. taken_deliverable ps s pre post e (inr (rw (k, can_catch) refl)),
  )
  | takes s pre post e t (inr (inr (k, q, b, l))) ↦
      (λ h. λ n. ground (arith, t, n), λ n. taken_deliverable ps s pre post e (inl b))
  | takes_none t k q a ↦
      let h =
        (any_deliverable_none ps.blocked ps.pending).1
          (All-can_catch ps.blocked ps.pending k q a) in
      (λ g. λ n. ground (arith, g, h), λ n. absurd (n (ap (λ r. r.1) t)))
]
