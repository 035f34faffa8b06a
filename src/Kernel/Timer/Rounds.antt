-- ===== src/Kernel/Timer/Rounds.antt =====
-- The loop of `tick`: what it leaves of each timer, by induction on the entries of the heap.
use axebergos.Prelude.{
  ℕ, zero, suc, ◌≡◌, refl, sym, ◌∙◌, Bool, true, false, ◌&&◌, ◌==◌, number_key, same_refl, List,
  Option, none, some, inl, inr, if◌then◌else◌, length, Bool-cases, Option-cases, arith,
}
use axebergos.Prelude.Table
use axebergos.Prelude.Table.{Table, get-insert, get-retain, keep_if}
use axebergos.Kernel.Timer.{
  Clock, Timer, TimerEntry, is_pending_state, is_expired, fire, reset_interval, pop, Round, expire,
  visit, rounds,
}
use axebergos.Kernel.Timer.Heap.{
  IsOrdered, deadline_of, deadline_of-nil, HasDistinctIds, IsPopped, pop-IsPopped,
}

module _ {Time : Type 0} (clock : Clock Time) where
  -- A timer after it fired at `now`.
  abbrev pub after_fire : Timer Time → Time → Timer Time
  after_fire t now = (reset_interval clock (fire clock t).0 now).0

  -- A timer after the loop, by the deadline of its entry in the heap.
  abbrev pub settled : Option Time → Option (Timer Time) → Time → Option (Timer Time)
  settled none t now = t
  settled (some d) none now = none
  settled (some d) (some t) now =
      if clock.before d now && is_pending_state t.state then some (after_fire t now) else some t

  -- A timer's entry in the heap has the timer's deadline.
  abbrev pub Agrees : List (TimerEntry Time) → Table ℕ (Timer Time) → Type 0
  Agrees heap timers =
      (id : ℕ) (d : Time) (t : Timer Time)
      → deadline_of clock id heap ≡ some d
      → Table.get id timers ≡ some t
      → t.deadline ≡ d

  pub visit-heap : (r : Round clock) (id : ℕ) (now : Time) → (visit clock r id now).heap ≡ r.heap
  unfolding visit expire
  visit-heap r id now = ground arith

  pub visit-none :
      (r : Round clock) (i : ℕ) (now : Time)
      → Table.get i r.timers ≡ none
      → (visit clock r i now).timers ≡ r.timers
  unfolding visit
  visit-none r i now e = rw (visit, e) refl

  pub visit-idle :
      (r : Round clock) (i : ℕ) (now : Time) (t : Timer Time)
      → Table.get i r.timers ≡ some t
      → is_pending_state t.state ≡ false
      → (visit clock r i now).timers ≡ r.timers
  unfolding visit
  visit-idle r i now t e p = rw (visit, e, p) refl

  pub visit-due :
      (r : Round clock) (i : ℕ) (now : Time) (t : Timer Time)
      → Table.get i r.timers ≡ some t
      → is_pending_state t.state ≡ true
      → clock.before t.deadline now ≡ true
      → (visit clock r i now).timers ≡ Table.insert i (after_fire t now) r.timers
  unfolding visit is_expired expire
  visit-due r i now t e p due = rw (visit, e, p, due) refl

  pub visit-get :
      (r : Round clock) (i id : ℕ) (d now : Time)
      → ((t : Timer Time) → Table.get i r.timers ≡ some t → t.deadline ≡ d)
      → clock.before d now ≡ true
      → Table.get id (visit clock r i now).timers
        ≡ (if i == id then settled (some d) (Table.get id r.timers) now else Table.get id r.timers)
  visit-get r i id d now agree due =
      let same : (i == id) ≡ true → i ≡ id = λ e. ground (arith, e) in
      elim (Option-cases (Table.get i r.timers)) [
        | inl e ↦
            rw (visit-none r i now e)
              (elim (Bool-cases (i == id)) [ inl s ↦ rw (s, ← same s, e) refl | inr s ↦ rw s refl ])
        | inr (t, e) ↦ elim (Bool-cases (is_pending_state t.state)) [
          | inl p ↦
              let on_time : clock.before t.deadline now ≡ true = rw (agree t e) due in
              rw (visit-due r i now t e p on_time, get-insert i id (after_fire t now) r.timers)
                (elim (Bool-cases (i == id)) [
                  | inl s ↦ rw (s, ← same s, e, p, due) refl
                  | inr s ↦ rw s refl
                ])
          | inr p ↦ rw (visit-idle r i now t e p) (elim (Bool-cases (i == id)) [
            | inl s ↦ rw (s, ← same s, e, p, due) refl
            | inr s ↦ rw s refl
          ])
        ]
      ]

  not_due :
      (d : Option Time) (t : Option (Timer Time)) (now : Time)
      → ((a : Time) → d ≡ some a → clock.before a now ≡ false)
      → settled d t now ≡ t
  not_due none t now h = refl
  not_due (some a) none now h = refl
  not_due (some a) (some t) now h = rw (h a refl) refl

  pub rounds-none :
      (fuel : ℕ) (r : Round clock) (now : Time)
      → pop clock r.heap ≡ none
      → rounds clock (suc fuel) r now ≡ r
  unfolding rounds
  rounds-none fuel r now q = rw (rounds, q) refl

  pub rounds-early :
      (fuel : ℕ) (r : Round clock) (now : Time) (f : TimerEntry Time)
      (rest : List (TimerEntry Time))
      → pop clock r.heap ≡ some (f, rest)
      → clock.before f.deadline now ≡ false
      → rounds clock (suc fuel) r now ≡ r
  unfolding rounds
  rounds-early fuel r now f rest q b = rw (rounds, q, b) refl

  pub rounds-due :
      (fuel : ℕ) (r : Round clock) (now : Time) (f : TimerEntry Time)
      (rest : List (TimerEntry Time))
      → pop clock r.heap ≡ some (f, rest)
      → clock.before f.deadline now ≡ true
      → rounds clock (suc fuel) r now
        ≡ rounds clock fuel (visit clock (record r { heap = rest }) f.id now) now
  unfolding rounds
  rounds-due fuel r now f rest q b = rw (rounds, q, b) refl

  -- An entry that is not due when the least one is not.
  pub later :
      (es rest : List (TimerEntry Time)) (f : TimerEntry Time) (now : Time) (id : ℕ) (d : Time)
      → IsOrdered clock
      → IsPopped clock es f rest
      → clock.before f.deadline now ≡ false
      → deadline_of clock id es ≡ some d
      → clock.before d now ≡ false
  later es rest f now id d o p b e = elim (Bool-cases (clock.before d now)) [
    | inr c ↦ c
    | inl c ↦ ground (arith, b, o.trans f.deadline d now (p.least id d e) c)
  ]

  settled-pop :
      (es rest : List (TimerEntry Time)) (f : TimerEntry Time) (t : Option (Timer Time))
      (now : Time) (id : ℕ)
      → IsPopped clock es f rest
      → settled
          (deadline_of clock id rest)
          (if f.id == id then settled (some f.deadline) t now else t)
          now
        ≡ settled (deadline_of clock id es) t now
  settled-pop es rest f t now id p = elim (Bool-cases (f.id == id)) [
    | inl s ↦
        let same : f.id ≡ id = ground (arith, s) in
        let gone : deadline_of clock id rest ≡ none = rw (← same) p.gone in
        rw (p.others id, s, gone) refl
    | inr s ↦ rw (p.others id, s) refl
  ]

  if-false {ℓ} : {A : Type ℓ} (b : Bool) (x y : A) → b ≡ false → (if b then x else y) ≡ y
  if-false b x y e = rw e refl

  pub settled-none : (d : Option Time) (now : Time) → settled d none now ≡ none
  settled-none none now = refl
  settled-none (some a) now = refl

  pub rounds-zero : (r : Round clock) (now : Time) → rounds clock 0 r now ≡ r
  unfolding rounds
  rounds-zero r now = refl

  pub visit-Agrees :
      (r : Round clock) (rest : List (TimerEntry Time)) (f : TimerEntry Time) (now : Time)
      → IsPopped clock r.heap f rest
      → clock.before f.deadline now ≡ true
      → Agrees r.heap r.timers
      → Agrees rest (visit clock (record r { heap = rest }) f.id now).timers
  visit-Agrees r rest f now p due a id d t e g =
      let own : (u : Timer Time) → Table.get f.id r.timers ≡ some u → u.deadline ≡ f.deadline =
        λ u k. a f.id f.deadline u (rw (p.others f.id, same_refl f.id) refl) k in
      let seen = visit-get (record r { heap = rest }) f.id id f.deadline now own due in
      elim (Bool-cases (f.id == id)) [
        | inl s ↦ ground (arith, e, s, p.gone)
        | inr s ↦ a id d t (rw (p.others id, s) e) (sym (seen ∙ if-false (f.id == id) _ _ s) ∙ g)
      ]

  -- The loop, on as much fuel as the heap has entries: each timer is as `settled` says.
  pub rounds-get :
      (fuel : ℕ) (r : Round clock) (now : Time) (id : ℕ)
      → IsOrdered clock
      → length r.heap ≡ fuel
      → HasDistinctIds clock r.heap
      → Agrees r.heap r.timers
      → Table.get id (rounds clock fuel r now).timers
        ≡ settled (deadline_of clock id r.heap) (Table.get id r.timers) now
  rounds-get zero r now id o n h a = elim (pop-IsPopped clock r.heap o h) [
    | inl (empty, q) ↦ rw (rounds-zero r now, empty, deadline_of-nil clock id) refl
    | inr (f, rest, q, p) ↦ ground (arith, n, p.shorter)
  ]
  rounds-get (suc fuel) r now id o n h a = elim (pop-IsPopped clock r.heap o h) [
    | inl (empty, q) ↦ rw (rounds-none fuel r now q, empty, deadline_of-nil clock id) refl
    | inr (f, rest, q, p) ↦ elim (Bool-cases (clock.before f.deadline now)) [
      | inr b ↦ rw (rounds-early fuel r now f rest q b) (
          sym (
            not_due (deadline_of clock id r.heap) (Table.get id r.timers) now
              (λ d e. later r.heap rest f now id d o p b e)))
      | inl b ↦
          let r' = visit clock (record r { heap = rest }) f.id now in
          let left : r'.heap ≡ rest = visit-heap (record r { heap = rest }) f.id now in
          let own : (u : Timer Time) → Table.get f.id r.timers ≡ some u → u.deadline ≡ f.deadline =
            λ u k. a f.id f.deadline u (rw (p.others f.id, same_refl f.id) refl) k in
          let ih =
            rounds-get fuel r' now id o (rw left (omega (arith, n, p.shorter))) (rw left p.distinct)
              (rw left (visit-Agrees r rest f now p b a)) in
          rw
            (
              rounds-due fuel r now f rest q b,
              ih,
              left,
              visit-get (record r { heap = rest }) f.id id f.deadline now own b,
            )
            (settled-pop r.heap rest f (Table.get id r.timers) now id p)
    ]
  ]
