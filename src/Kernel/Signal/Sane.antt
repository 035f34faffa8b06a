-- ===== src/Kernel/Signal/Sane.antt =====
-- The invariant of the signal state, and that each call keeps it.
use axebergos.Prelude.{
  ℕ, ◌≡◌, refl, true, false, not, ◌&&◌, ◌==◌, number_key, List, [], ◌∷◌, ◌++◌, inl, inr, All,
  All-append, All-filter, All-of_append, Pairwise, Pairwise-filter, Pairwise-snoc, Bool-cases,
  Option-cases, arith,
}
use axebergos.Prelude.Table
use axebergos.Kernel.Signal.{
  Signal, sigkill, sigstop, sigcont, signal_key, signal_same_iff, can_catch, SignalAction, default,
  SignalDisposition, get_action, set_action, reset, from_num,
}
use axebergos.Kernel.Signal.Process.{
  ProcessSignals, contains, insert_signal, remove_signal, unstop, send, next_pending, block,
  block_bits, unblock_bits, numbers, set_blocked_mask, SigProcMaskHow, block_all, unblock_all,
  set_mask, sigprocmask, has_bit,
}
use axebergos.Kernel.Signal.Delivery.{takes, takes_none, next_pending-Taken}

-- At most SIGKILL waits twice; what can not be caught is not blocked and has no action of its own.
pub record IsSane (ps : ProcessSignals) : Type 0 where
  pub coalesced : Pairwise (λ a b. a ≡ b → a ≡ sigkill) ps.pending
  pub catchable : All (λ s. can_catch s ≡ true) ps.blocked
  pub unhandled : (s : Signal) → can_catch s ≡ false → get_action ps.disposition s ≡ default

contains-false :
    (s : Signal) (xs : List Signal) → contains xs s ≡ false → All (λ x. x ≡ s → x ≡ sigkill) xs
unfolding contains
contains-false s [] e = tt
contains-false s (x ∷ xs) e = elim (Bool-cases (x == s)) [
  | inl h ↦ ground (arith, e, h)
  | inr h ↦ (
    (λ q. ground (arith, h, (signal_same_iff x s).1 q)),
    contains-false s xs (ground (arith, e, h)),
  )
]

All-sigkill : (s : Signal) (xs : List Signal) → s ≡ sigkill → All (λ x. x ≡ s → x ≡ sigkill) xs
All-sigkill s [] e = tt
All-sigkill s (x ∷ xs) e = ((λ q. cc), All-sigkill s xs e)

unstop-coalesced :
    (ps : ProcessSignals) (s : Signal)
    → Pairwise (λ a b. a ≡ b → a ≡ sigkill) ps.pending
    → Pairwise (λ a b. a ≡ b → a ≡ sigkill) (unstop ps s).pending
unfolding unstop
unstop-coalesced ps s h = elim (Bool-cases (s == sigcont)) [
  | inl e ↦
      rw e (Pairwise-filter (λ a b. a ≡ b → a ≡ sigkill) (λ x. not (x == sigstop)) ps.pending h)
  | inr e ↦ rw e h
]

send-coalesced :
    (ps : ProcessSignals) (s : Signal)
    → Pairwise (λ a b. a ≡ b → a ≡ sigkill) ps.pending
    → Pairwise (λ a b. a ≡ b → a ≡ sigkill) (send ps s).pending
unfolding send
send-coalesced ps s h =
    let h' = unstop-coalesced ps s h in
    let queue = (unstop ps s).pending in
    elim (Bool-cases (s == sigkill)) [
      | inl e ↦ rw e (
          Pairwise-snoc (λ a b. a ≡ b → a ≡ sigkill) queue s h'
            (All-sigkill s queue ((signal_same_iff s sigkill).0 e)))
      | inr e ↦ elim (Bool-cases (contains queue s)) [
        | inl c ↦ rw (e, c) h'
        | inr c ↦
            rw (e, c)
              (Pairwise-snoc (λ a b. a ≡ b → a ≡ sigkill) queue s h' (contains-false s queue c))
      ]
    ]

send_same :
    (ps : ProcessSignals) (s : Signal)
    → ((send ps s).blocked ≡ ps.blocked) × ((send ps s).disposition ≡ ps.disposition)
unfolding send unstop
send_same ps s = ground arith

pub send-IsSane : (ps : ProcessSignals) (s : Signal) → IsSane ps → IsSane (send ps s)
send-IsSane ps s h = record {
  coalesced = send-coalesced ps s h.coalesced;
  catchable = rw ((send_same ps s).0) h.catchable;
  unhandled = rw ((send_same ps s).1) h.unhandled;
}

Pairwise-without :
    (R : Signal → Signal → Type 0) (pre post : List Signal) (x : Signal)
    → Pairwise R (pre ++ x ∷ post)
    → Pairwise R (pre ++ post)
Pairwise-without R [] post x h = h.1
Pairwise-without R (y ∷ pre) post x h =
    let (l, r) = All-of_append (R y) pre (x ∷ post) h.0 in
    (All-append (R y) pre post l r.1, Pairwise-without R pre post x h.1)

pub next_pending-IsSane : (ps : ProcessSignals) → IsSane ps → IsSane (next_pending ps).0
next_pending-IsSane ps h = elim (next_pending-Taken ps) [
  | takes s pre post e t k ↦ rw t record {
    coalesced = Pairwise-without (λ a b. a ≡ b → a ≡ sigkill) pre post s (rw (← e) h.coalesced);
    catchable = h.catchable;
    unhandled = h.unhandled;
  }
  | takes_none t k q a ↦ rw t h
]

pub set_action-unhandled :
    (d : SignalDisposition) (s : Signal) (a : SignalAction)
    → ((t : Signal) → can_catch t ≡ false → get_action d t ≡ default)
    → (t : Signal) → can_catch t ≡ false
    → get_action (set_action d s a).0 t ≡ default
unfolding set_action get_action
set_action-unhandled d s a h t u =
    ground (arith, h t u, Table.get-insert s t a d, signal_same_iff s t)

pub reset-unhandled :
    (d : SignalDisposition) (s : Signal)
    → ((t : Signal) → can_catch t ≡ false → get_action d t ≡ default)
    → (t : Signal) → can_catch t ≡ false
    → get_action (reset d s) t ≡ default
unfolding reset get_action
reset-unhandled d s h t u = ground (arith, h t u, Table.get-remove s t d, signal_same_iff s t)

insert_signal-catchable :
    (s : Signal) (xs : List Signal)
    → can_catch s ≡ true
    → All (λ x. can_catch x ≡ true) xs
    → All (λ x. can_catch x ≡ true) (insert_signal s xs)
unfolding insert_signal
insert_signal-catchable s xs e h = elim (Bool-cases (contains xs s)) [
  | inl c ↦ rw c h
  | inr c ↦ rw c (e, h)
]

block_bits-catchable :
    (is : List ℕ) (mask : ℕ) (xs : List Signal)
    → All (λ x. can_catch x ≡ true) xs
    → All (λ x. can_catch x ≡ true) (block_bits is mask xs)
unfolding block_bits
block_bits-catchable [] mask xs h = h
block_bits-catchable (i ∷ is) mask xs h =
    block_bits-catchable is mask _ (elim (Option-cases (from_num i)) [
      | inl e ↦ rw e h
      | inr (s, e) ↦ elim (Bool-cases (has_bit mask i && can_catch s)) [
        | inl c ↦ rw (e, c) (insert_signal-catchable s xs (ground (arith, c)) h)
        | inr c ↦ rw (e, c) h
      ]
    ])

unblock_bits-catchable :
    (is : List ℕ) (mask : ℕ) (xs : List Signal)
    → All (λ x. can_catch x ≡ true) xs
    → All (λ x. can_catch x ≡ true) (unblock_bits is mask xs)
unfolding unblock_bits remove_signal
unblock_bits-catchable [] mask xs h = h
unblock_bits-catchable (i ∷ is) mask xs h =
    unblock_bits-catchable is mask _ (elim (Option-cases (from_num i)) [
      | inl e ↦ rw e h
      | inr (s, e) ↦ elim (Bool-cases (has_bit mask i)) [
        | inl c ↦ rw (e, c) (All-filter (λ x. can_catch x ≡ true) (λ x. not (x == s)) xs h)
        | inr c ↦ rw (e, c) h
      ]
    ])

pub sigprocmask-catchable :
    (ps : ProcessSignals) (how : SigProcMaskHow) (mask : ℕ)
    → All (λ x. can_catch x ≡ true) ps.blocked
    → All (λ x. can_catch x ≡ true) (sigprocmask ps how mask).0.blocked
unfolding sigprocmask set_blocked_mask
sigprocmask-catchable ps block_all mask h = block_bits-catchable numbers mask ps.blocked h
sigprocmask-catchable ps unblock_all mask h = unblock_bits-catchable numbers mask ps.blocked h
sigprocmask-catchable ps set_mask mask h = block_bits-catchable numbers mask [] tt

pub sigprocmask_same :
    (ps : ProcessSignals) (how : SigProcMaskHow) (mask : ℕ)
    → ((sigprocmask ps how mask).0.pending ≡ ps.pending)
      × ((sigprocmask ps how mask).0.disposition ≡ ps.disposition)
unfolding sigprocmask set_blocked_mask
sigprocmask_same ps block_all mask = (refl, refl)
sigprocmask_same ps unblock_all mask = (refl, refl)
sigprocmask_same ps set_mask mask = (refl, refl)

pub block-catchable :
    (ps : ProcessSignals) (s : Signal)
    → All (λ x. can_catch x ≡ true) ps.blocked
    → All (λ x. can_catch x ≡ true) (block ps s).0.blocked
unfolding block
block-catchable ps s h = elim (Bool-cases (can_catch s)) [
  | inl e ↦ rw e (insert_signal-catchable s ps.blocked e h)
  | inr e ↦ rw e h
]

pub block_same :
    (ps : ProcessSignals) (s : Signal)
    → ((block ps s).0.pending ≡ ps.pending) × ((block ps s).0.disposition ≡ ps.disposition)
unfolding block
block_same ps s = ground arith
