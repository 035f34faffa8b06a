-- ===== src/Kernel/Signal/Masks.antt =====
-- Which signals are blocked after `sigprocmask`.
use axebergos.Prelude.{
  ℕ, ◌≡◌, refl, ap, Bool, true, false, not, ◌&&◌, ◌||◌, ◌==◌, number_key, List, [], ◌∷◌, some, inl,
  inr, if◌then◌else◌, filter, Bool-cases, Option-cases, arith,
}
use axebergos.Kernel.Signal.{
  Signal, sigterm, sigkill, sigstop, sigcont, sigint, sigquit, sighup, sigusr1, sigusr2, sigchld,
  sigalrm, sigpipe, num, from_num, from_num-num, signal_key, signal_same_iff, can_catch,
}
use axebergos.Kernel.Signal.Process.{
  ProcessSignals, contains, insert_signal, remove_signal, has_bit, block_bits, unblock_bits,
  numbers, SigProcMaskHow, block_all, unblock_all, set_mask, sigprocmask, set_blocked_mask,
}

pub contains-insert_signal :
    (s t : Signal) (xs : List Signal) → contains (insert_signal s xs) t ≡ (s == t) || contains xs t
unfolding insert_signal contains
contains-insert_signal s t xs = ground (arith, signal_same_iff s t)

contains-filter :
    (p : Signal → Bool) (xs : List Signal) (t : Signal)
    → contains (filter p xs) t ≡ p t && contains xs t
unfolding contains
contains-filter p [] t = ground arith
contains-filter p (x ∷ xs) t =
    let ih = contains-filter p xs t in
    elim (Bool-cases (x == t)) [
      | inr e ↦ elim (Bool-cases (p x)) [ inl h ↦ rw (h, e) ih | inr h ↦ rw (h, e) ih ]
      | inl e ↦
          let same : p x ≡ p t = ap p ((signal_same_iff x t).0 e) in
          elim (Bool-cases (p x)) [
            | inl h ↦ ground (arith, e, h, same)
            | inr h ↦ ground (arith, e, h, same, ih)
          ]
    ]

same_comm : (s t : Signal) → (s == t) ≡ (t == s)
same_comm s t = ground arith

pub contains-remove_signal :
    (s t : Signal) (xs : List Signal)
    → contains (remove_signal s xs) t ≡ not (t == s) && contains xs t
unfolding remove_signal
contains-remove_signal s t xs = contains-filter (λ x. not (x == s)) xs t

num-from_num : (i : ℕ) (s : Signal) → from_num i ≡ some s → num s ≡ i
unfolding from_num
num-from_num i s e = ground arith

abbrev listed : List ℕ → ℕ → Bool
listed [] n = false
listed (i ∷ is) n = if i == n then true else listed is n

listed-numbers : (s : Signal) → listed numbers (num s) ≡ true
listed-numbers sigterm = refl
listed-numbers sigkill = refl
listed-numbers sigstop = refl
listed-numbers sigcont = refl
listed-numbers sigint = refl
listed-numbers sigquit = refl
listed-numbers sighup = refl
listed-numbers sigusr1 = refl
listed-numbers sigusr2 = refl
listed-numbers sigchld = refl
listed-numbers sigalrm = refl
listed-numbers sigpipe = refl

contains-num :
    (mask : ℕ) (s t : Signal) (i : ℕ) (b : List Signal) (later : Bool)
    → num s ≡ i
    → contains (if has_bit mask i && can_catch s then insert_signal s b else b) t
        || (later && has_bit mask (num t) && can_catch t)
      ≡ contains b t
        || ((if i == num t then true else later) && has_bit mask (num t) && can_catch t)
contains-num mask s t i b later e = elim (Bool-cases (s == t)) [
  | inl h ↦
      rw (← e, h, ← (signal_same_iff s t).0 h)
        (ground (arith, contains-insert_signal s s b, signal_same_iff s s))
  | inr h ↦ rw (← e, h) (ground (arith, contains-insert_signal s t b))
]

contains-block_bits :
    (is : List ℕ) (mask : ℕ) (b : List Signal) (t : Signal)
    → contains (block_bits is mask b) t
      ≡ contains b t || (listed is (num t) && has_bit mask (num t) && can_catch t)
unfolding block_bits
contains-block_bits [] mask b t = ground arith
contains-block_bits (i ∷ is) mask b t = elim (Option-cases (from_num i)) [
  | inl e ↦ rw (e, contains-block_bits is mask b t) (ground (arith, from_num-num t))
  | inr (s, e) ↦
      rw (e, contains-block_bits is mask)
        (contains-num mask s t i b (listed is (num t)) (num-from_num i s e))
]

remains_num :
    (mask : ℕ) (s t : Signal) (i : ℕ) (b : List Signal) (later : Bool)
    → num s ≡ i
    → contains (if has_bit mask i then remove_signal s b else b) t
        && not (later && has_bit mask (num t))
      ≡ contains b t && not ((if i == num t then true else later) && has_bit mask (num t))
remains_num mask s t i b later e = elim (Bool-cases (s == t)) [
  | inl h ↦
      rw (← e, h, ← (signal_same_iff s t).0 h)
        (ground (arith, contains-remove_signal s s b, signal_same_iff s s))
  | inr h ↦ rw (← e, h) (ground (arith, contains-remove_signal s t b))
]

contains-unblock_bits :
    (is : List ℕ) (mask : ℕ) (b : List Signal) (t : Signal)
    → contains (unblock_bits is mask b) t
      ≡ contains b t && not (listed is (num t) && has_bit mask (num t))
unfolding unblock_bits
contains-unblock_bits [] mask b t = ground arith
contains-unblock_bits (i ∷ is) mask b t = elim (Option-cases (from_num i)) [
  | inl e ↦ rw (e, contains-unblock_bits is mask b t) (ground (arith, from_num-num t))
  | inr (s, e) ↦
      rw (e, contains-unblock_bits is mask)
        (remains_num mask s t i b (listed is (num t)) (num-from_num i s e))
]

-- Whether a call asks to block a signal, by whether the signal was blocked.
abbrev pub asked_to_block : SigProcMaskHow → Bool → ℕ → Signal → Bool
asked_to_block block_all was mask s = was || (has_bit mask (num s) && can_catch s)
asked_to_block unblock_all was mask s = was && not (has_bit mask (num s))
asked_to_block set_mask was mask s = has_bit mask (num s) && can_catch s

-- Which signals are blocked after a call of `sigprocmask`, in its three modes: SIGKILL and SIGSTOP are
-- never added, whatever the mask.
pub sigprocmask_lem :
    (ps : ProcessSignals) (how : SigProcMaskHow) (mask : ℕ) (s : Signal)
    → contains (sigprocmask ps how mask).0.blocked s
      ≡ asked_to_block how (contains ps.blocked s) mask s
unfolding sigprocmask set_blocked_mask contains
sigprocmask_lem ps block_all mask s =
    rw (contains-block_bits numbers mask ps.blocked s, listed-numbers s) refl
sigprocmask_lem ps unblock_all mask s =
    rw (contains-unblock_bits numbers mask ps.blocked s, listed-numbers s) refl
sigprocmask_lem ps set_mask mask s =
    rw (contains-block_bits numbers mask [] s, listed-numbers s) refl
