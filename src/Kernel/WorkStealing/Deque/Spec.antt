-- ===== src/Kernel/WorkStealing/Deque/Spec.antt =====
-- The deque as a list of tasks, the oldest first, that each call changes at one moment.
use mathlib.Core.List.{Perm, perm_append_singleton, append_assoc, append-nil}
use mathlib.Core.List.Perm
use axebergos.Prelude.{ℕ, ◌≤◌, ◌≡◌, List, [], ◌∷◌, ◌++◌, Option, none, some, length}
use axebergos.Kernel.WorkStealing.Deque.{
  Event, pushed, refused, popped, pop_empty, stolen, steal_empty, retried,
}

module _ {T : Type 0} (capacity : ℕ) where
  -- What an event says of the tasks before and after it. A push is refused only when the deque is
  -- full, a pop finds nothing only when it is empty, and a thief finds nothing only when at most one
  -- task is left.
  abbrev pub Allowed : List T → Event T → List T → Type 0
  Allowed before (pushed task) after = after ≡ before ++ task ∷ []
  Allowed before refused after = (after ≡ before) × (capacity ≤ length before)
  Allowed before (popped found) after =
      (task : T) × (found ≡ some task) × (before ≡ after ++ task ∷ [])
  Allowed before pop_empty after = (after ≡ before) × (before ≡ [])
  Allowed before (stolen found) after = (task : T) × (found ≡ some task) × (before ≡ task ∷ after)
  Allowed before steal_empty after = (after ≡ before) × (length before ≤ 1)
  Allowed before retried after = after ≡ before

  -- A sequence of events, from the tasks before to those after.
  abbrev pub Explains : List T → List (Event T) → List T → Type 0
  Explains before [] after = after ≡ before
  Explains before (e ∷ es) after =
      (between : List T) × Allowed before e between × Explains between es after

  pub Explains-append :
      (before between after : List T) (es fs : List (Event T))
      → Explains before es between
      → Explains between fs after
      → Explains before (es ++ fs) after
  Explains-append before between after [] fs e f = rw (← e) f
  Explains-append before between after (x ∷ es) fs (middle, a, e) f =
      (middle, a, Explains-append middle between after es fs e f)

-- The tasks that were put in, and those that were taken out.
abbrev pub put_in : {T : Type 0} → List (Event T) → List T
put_in [] = []
put_in (pushed task ∷ es) = task ∷ put_in es
put_in (refused ∷ es) = put_in es
put_in (popped found ∷ es) = put_in es
put_in (pop_empty ∷ es) = put_in es
put_in (stolen found ∷ es) = put_in es
put_in (steal_empty ∷ es) = put_in es
put_in (retried ∷ es) = put_in es

abbrev pub one_of : {T : Type 0} → Option T → List T
one_of none = []
one_of (some task) = task ∷ []

abbrev pub taken_out : {T : Type 0} → List (Event T) → List T
taken_out [] = []
taken_out (pushed task ∷ es) = taken_out es
taken_out (refused ∷ es) = taken_out es
taken_out (popped found ∷ es) = one_of found ++ taken_out es
taken_out (pop_empty ∷ es) = taken_out es
taken_out (stolen found ∷ es) = one_of found ++ taken_out es
taken_out (steal_empty ∷ es) = taken_out es
taken_out (retried ∷ es) = taken_out es

module _ {T : Type 0} (capacity : ℕ) where
  -- No task is lost, and none is taken more often than it was put in.
  pub Explains-perm :
      (before after : List T) (es : List (Event T))
      → Explains capacity before es after
      → Perm (before ++ put_in es) (taken_out es ++ after)
  Explains-perm before after [] e = rw (e, append-nil before) (Perm.refl before)
  Explains-perm before after (pushed task ∷ es) (between, a, e) =
      rw (← append_assoc before (task ∷ []) (put_in es), ← a) (Explains-perm between after es e)
  Explains-perm before after (refused ∷ es) (between, a, e) =
      rw (← a.0) (Explains-perm between after es e)
  Explains-perm before after (popped found ∷ es) (between, (task, f, b), e) =
      rw (f, b)
        (Perm.trans (Perm.append (perm_append_singleton task between) (Perm.refl (put_in es)))
          (Perm.cons task (Explains-perm between after es e)))
  Explains-perm before after (pop_empty ∷ es) (between, a, e) =
      rw (← a.0) (Explains-perm between after es e)
  Explains-perm before after (stolen found ∷ es) (between, (task, f, b), e) =
      rw (f, b) (Perm.cons task (Explains-perm between after es e))
  Explains-perm before after (steal_empty ∷ es) (between, a, e) =
      rw (← a.0) (Explains-perm between after es e)
  Explains-perm before after (retried ∷ es) (between, a, e) =
      rw (← a) (Explains-perm between after es e)
