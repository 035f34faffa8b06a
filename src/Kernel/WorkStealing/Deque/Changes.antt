-- ===== src/Kernel/WorkStealing/Deque/Changes.antt =====
-- What a change of the list of tasks leaves of what the slots hold and of what the thieves know.
use axebergos.Prelude.{
  ℕ, suc, ◌+◌, ◌-◌, ◌%◌, ◌<◌, ◌≡◌, ◌≢◌, refl, sym, ap, ◌∙◌, number_key, List, [], ◌∷◌, ◌++◌, Option,
  some, inl, inr, ◌⊎◌, length, get_elem?, length-append, Bool-cases, ltb, arith,
}
use axebergos.Prelude.Slices.{get_elem?-append}
use axebergos.Kernel.WorkStealing.Deque.{
  ThiefPc, resting, top_loaded, bottom_loaded, task_read, update_slots,
}
use axebergos.Kernel.WorkStealing.Deque.Words.{slot_ne}
use axebergos.Kernel.WorkStealing.Deque.Invariant.{Holds, ThiefKnows}

module _ {T : Type 0} where
  pub length-snoc : (tasks : List T) (x : T) → length (tasks ++ x ∷ []) ≡ length tasks + 1
  length-snoc tasks x = omega (arith, length-append tasks (x ∷ []))

  pub get_elem?-snoc :
      (tasks : List T) (x : T) → get_elem? (tasks ++ x ∷ []) (length tasks) ≡ some x
  get_elem?-snoc [] x = refl
  get_elem?-snoc (y ∷ tasks) x = get_elem?-snoc tasks x

  pub get_elem?-snoc_of_lt :
      (tasks : List T) (x : T) (i : ℕ)
      → i < length tasks
      → get_elem? (tasks ++ x ∷ []) i ≡ get_elem? tasks i
  get_elem?-snoc_of_lt tasks x i h = ground (arith, get_elem?-append tasks (x ∷ []) i, h)

  -- A list is empty or has a last element.
  pub List-cases_last :
      (tasks : List T) → (tasks ≡ []) ⊎ ((rest : List T) × (x : T) × (tasks ≡ rest ++ x ∷ []))
  List-cases_last [] = inl refl
  List-cases_last (y ∷ tasks) = elim (List-cases_last tasks) [
    | inl e ↦ inr ([], y, rw e refl)
    | inr (rest, x, e) ↦ inr (y ∷ rest, x, rw e refl)
  ]

  pub Holds-write :
      (slots : ℕ → Option T) (c t : ℕ) (tasks : List T) (x : T)
      → Holds slots c t tasks
      → length tasks < c
      → Holds (update_slots slots ((t + length tasks) % c) x) c t tasks
  Holds-write slots c t tasks x h room = record {
    filled = λ i lt.
        let apart : (t + i) % c ≢ (t + length tasks) % c = λ e.
          slot_ne c (t + i) (length tasks - i) (omega (arith, lt)) (omega (arith, room))
            (e ∙ ap (λ (n : ℕ). n % c) (omega (arith, lt))) in
        ground (arith, h.filled i lt, apart);
    fits = h.fits;
  }

  pub Holds-snoc :
      (slots : ℕ → Option T) (c t : ℕ) (tasks : List T) (x : T)
      → Holds slots c t tasks
      → length tasks < c
      → slots ((t + length tasks) % c) ≡ some x
      → Holds slots c t (tasks ++ x ∷ [])
  Holds-snoc slots c t tasks x h room own = record {
    filled = λ i lt. elim (Bool-cases (ltb i (length tasks))) [
      | inl old ↦
          let below : i < length tasks = ground (arith, old) in
          h.filled i below ∙ sym (get_elem?-snoc_of_lt tasks x i below)
      | inr last ↦
          let same : i ≡ length tasks = ground (arith, last, lt, length-snoc tasks x) in
          rw same (own ∙ sym (get_elem?-snoc tasks x))
    ];
    fits = omega (arith, room, length-snoc tasks x);
  }

  pub Holds-tail :
      (slots : ℕ → Option T) (c t : ℕ) (tasks : List T) (x : T)
      → Holds slots c t (x ∷ tasks)
      → Holds slots c (t + 1) tasks
  Holds-tail slots c t tasks x h = record {
    filled = λ i lt.
        let same : t + 1 + i ≡ t + suc i = omega arith in
        rw same (h.filled (suc i) (omega (arith, lt)));
    fits = omega (arith, h.fits);
  }

  pub Holds-init :
      (slots : ℕ → Option T) (c t : ℕ) (tasks : List T) (x : T)
      → Holds slots c t (tasks ++ x ∷ [])
      → Holds slots c t tasks
  Holds-init slots c t tasks x h = record {
    filled = λ i lt.
        h.filled i (omega (arith, lt, length-snoc tasks x)) ∙ get_elem?-snoc_of_lt tasks x i lt;
    fits = omega (arith, h.fits, length-snoc tasks x);
  }

  pub ThiefKnows-snoc :
      (t : ℕ) (tasks : List T) (x : T) (pc : ThiefPc T)
      → ThiefKnows t tasks pc
      → ThiefKnows t (tasks ++ x ∷ []) pc
  ThiefKnows-snoc t tasks x resting k = tt
  ThiefKnows-snoc t tasks x (top_loaded p) k = k
  ThiefKnows-snoc t tasks x (bottom_loaded p) k = (k.0, λ e. omega (arith, length-snoc tasks x))
  ThiefKnows-snoc t tasks x (task_read p found) k = (
    k.0,
    (λ e. omega (arith, length-snoc tasks x)),
    (λ e. k.2 e ∙ sym (get_elem?-snoc_of_lt tasks x 0 (k.1 e))),
  )

  pub ThiefKnows-init :
      (t : ℕ) (tasks : List T) (x : T) (pc : ThiefPc T)
      → 0 < length tasks
      → ThiefKnows t (tasks ++ x ∷ []) pc
      → ThiefKnows t tasks pc
  ThiefKnows-init t tasks x resting more k = tt
  ThiefKnows-init t tasks x (top_loaded p) more k = k
  ThiefKnows-init t tasks x (bottom_loaded p) more k = (k.0, λ e. more)
  ThiefKnows-init t tasks x (task_read p found) more k =
      (k.0, (λ e. more), (λ e. k.2 e ∙ get_elem?-snoc_of_lt tasks x 0 more))

  -- When the top moves on, no loaded top is that of now.
  pub ThiefKnows-next :
      (t : ℕ) (tasks after : List T) (pc : ThiefPc T)
      → ThiefKnows t tasks pc
      → ThiefKnows (t + 1) after pc
  ThiefKnows-next t tasks after resting k = tt
  ThiefKnows-next t tasks after (top_loaded p) k = (k.0, omega (arith, k.1))
  ThiefKnows-next t tasks after (bottom_loaded p) k =
      ((k.0.0, omega (arith, k.0.1)), λ e. absurd (omega (arith, e, k.0.1)))
  ThiefKnows-next t tasks after (task_read p found) k = (
    (k.0.0, omega (arith, k.0.1)),
    (λ e. absurd (omega (arith, e, k.0.1))),
    (λ e. absurd (omega (arith, e, k.0.1))),
  )

  pub List-nil : (tasks : List T) → length tasks ≡ 0 → tasks ≡ []
  List-nil [] e = refl
  List-nil (x ∷ tasks) e = absurd (omega (arith, e))

  pub List-cons :
      (tasks : List T) → 0 < length tasks → (x : T) × (rest : List T) × (tasks ≡ x ∷ rest)
  List-cons [] e = absurd (omega (arith, e))
  List-cons (x ∷ tasks) e = (x, tasks, refl)

  pub List-lone :
      (tasks rest : List T) (x : T) → tasks ≡ x ∷ rest → length rest ≡ 0 → tasks ≡ rest ++ x ∷ []
  List-lone tasks [] x e h = e
  List-lone tasks (y ∷ rest) x e h = absurd (omega (arith, h))
