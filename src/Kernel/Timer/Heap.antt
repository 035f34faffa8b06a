-- ===== src/Kernel/Timer/Heap.antt =====
-- The heap of timers as a table from ids to deadlines, and what a pop takes from it.
use axebergos.Prelude.{
  ℕ, suc, ◌≡◌, refl, ap, true, false, ◌==◌, number_key, List, [], ◌∷◌, Option, none, some, inl, inr,
  ◌⊎◌, if◌then◌else◌, length, Bool-cases, arith,
}
use axebergos.Kernel.Timer.{Clock, TimerEntry, pop}

-- Finite f64 numbers are ordered totally by `<=`.
pub record IsOrdered {Time : Type 0} (clock : Clock Time) : Type 0 where
  pub total : (a b : Time) → clock.before a b ≡ false → clock.before b a ≡ true
  pub trans :
      (a b c : Time) → clock.before a b ≡ true → clock.before b c ≡ true → clock.before a c ≡ true

module _ {Time : Type 0} (clock : Clock Time) where
  -- The deadline of the entry of an id.
  unfoldable pub deadline_of : ℕ → List (TimerEntry Time) → Option Time
  deadline_of id [] = none
  deadline_of id (e ∷ es) = if e.id == id then some e.deadline else deadline_of id es

  -- No id has two entries.
  abbrev pub HasDistinctIds : List (TimerEntry Time) → Type 0
  HasDistinctIds [] = Unit
  HasDistinctIds (e ∷ es) = (deadline_of e.id es ≡ none) × HasDistinctIds es

  -- What `pop` takes: an entry of least deadline; the others keep their deadlines.
  pub record IsPopped (es : List (TimerEntry Time)) (first : TimerEntry Time)
      (rest : List (TimerEntry Time)) : Type 0 where
    pub shorter : length es ≡ suc (length rest)
    pub others :
        (id : ℕ)
        → deadline_of id es ≡ (if first.id == id then some first.deadline else deadline_of id rest)
    pub gone : deadline_of first.id rest ≡ none
    pub least :
        (id : ℕ) (d : Time) → deadline_of id es ≡ some d → clock.before first.deadline d ≡ true
    pub distinct : HasDistinctIds rest

  pub deadline_of-nil : (id : ℕ) → deadline_of id [] ≡ none
  unfolding deadline_of
  deadline_of-nil id = refl

  before_refl : IsOrdered clock → (a : Time) → clock.before a a ≡ true
  before_refl o a = elim (Bool-cases (clock.before a a)) [ inl e ↦ e | inr e ↦ o.total a a e ]

  pop-empty : (es : List (TimerEntry Time)) → pop clock es ≡ none → es ≡ []
  unfolding pop
  pop-empty [] e = refl
  pop-empty (x ∷ es) e = ground (arith, e)

  first-IsPopped :
      (e : TimerEntry Time) (es : List (TimerEntry Time))
      → HasDistinctIds (e ∷ es)
      → ((id : ℕ) (d : Time) → deadline_of id es ≡ some d → clock.before e.deadline d ≡ true)
      → IsOrdered clock
      → IsPopped (e ∷ es) e es
  unfolding deadline_of
  first-IsPopped e es h l o = record {
    shorter = refl;
    others = λ id. refl;
    gone = h.0;
    least = λ id d q. ground (arith, q, l id d, before_refl o e.deadline);
    distinct = h.1;
  }

  later-IsPopped :
      (e f : TimerEntry Time) (es rest : List (TimerEntry Time))
      → HasDistinctIds (e ∷ es)
      → clock.before e.deadline f.deadline ≡ false
      → IsOrdered clock
      → IsPopped es f rest
      → IsPopped (e ∷ es) f (e ∷ rest)
  unfolding deadline_of
  later-IsPopped e f es rest h b o p = record {
    shorter = omega (arith, p.shorter);
    others = λ id. ground (arith, p.others id, p.others e.id, h.0);
    gone = ground (arith, p.gone, p.others e.id, h.0);
    least = λ id d q. ground (arith, q, p.least id d, o.total e.deadline f.deadline b);
    distinct = (ground (arith, p.others e.id, h.0), p.distinct);
  }

  pub pop-IsPopped :
      (es : List (TimerEntry Time))
      → IsOrdered clock
      → HasDistinctIds es
      → ((es ≡ []) × (pop clock es ≡ none))
        ⊎ ((first : TimerEntry Time) × (rest : List (TimerEntry Time)) × (pop clock es
              ≡ some (first, rest))
            × IsPopped es first rest)
  unfolding pop
  pop-IsPopped [] o h = inl (refl, refl)
  pop-IsPopped (e ∷ es) o h = elim (pop-IsPopped es o h.1) [
    | inl (n, q) ↦ inr (
      e,
      es,
      rw (q, n) refl,
      first-IsPopped e es h (λ id d g. ground (arith, g, ap (deadline_of id) n, deadline_of-nil id))
          o,
    )
    | inr (f, rest, q, p) ↦ elim (Bool-cases (clock.before e.deadline f.deadline)) [
      | inl b ↦ inr (
        e,
        es,
        rw (q, b) refl,
        first-IsPopped e es h (λ id d g. o.trans e.deadline f.deadline d b (p.least id d g)) o,
      )
      | inr b ↦ inr (f, e ∷ rest, rw (q, b) refl, later-IsPopped e f es rest h b o p)
    ]
  ]
