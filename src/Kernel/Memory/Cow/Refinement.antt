-- ===== src/Kernel/Memory/Cow/Refinement.antt =====
-- Memories that share pages answer as memories that do not.
use axebergos.Prelude.{ℕ, ◌≡◌, refl, sym, ap, number_key, List, [], ◌∷◌, inl, inr, replicate, arith}
use axebergos.Kernel.Memory.Cow.{new, from_data, cow_clone}
use axebergos.Kernel.Memory.Cow.Read.{read_lem}
use axebergos.Kernel.Memory.Cow.Build.{new-Builds, from_data-Builds}
use axebergos.Kernel.Memory.Cow.Worlds.{total-nil}
use axebergos.Kernel.Memory.Cow.Requests.{
  Request, creates, loads, forks, writes, reads, drops, found, World, step, run, flat_step,
  flat_run, empty_world,
}
use axebergos.Kernel.Memory.Cow.Steps.{
  Stands, Answers, both, built-Stands, fork-Stands, drop-Stands, write-Stands,
}

step-Answers :
    (w : World) (fs : List (List ℕ)) (r : Request)
    → Stands w fs
    → Answers (step w r) (flat_step fs r)
unfolding step flat_step cow_clone
step-Answers w fs (creates size) h = (
  built-Stands w fs (new w.frames size) (replicate size 0) h
      (new-Builds w.frames h.fresh h.whole size),
  refl,
)
step-Answers w fs (loads content) h = (
  built-Stands w fs (from_data w.frames content) content h
      (from_data-Builds w.frames h.fresh h.whole content),
  refl,
)
step-Answers w fs (forks i) h = elim (both w fs i h) [
  | inl (e, e') ↦ rw (step, flat_step, e, e') (h, refl)
  | inr (m, f, e, e', flat) ↦ rw (step, flat_step, e, e') (fork-Stands w fs i m f h e flat, refl)
]
step-Answers w fs (writes i offset buf) h = elim (both w fs i h) [
  | inl (e, e') ↦ rw (step, flat_step, e, e') (h, refl)
  | inr (m, f, e, e', flat) ↦
      let (s', m', faults, done_is, now) = write-Stands w fs i offset buf m f h e flat in
      rw (step, flat_step, e, e', done_is) (now, refl)
]
step-Answers w fs (reads i offset n) h = elim (both w fs i h) [
  | inl (e, e') ↦ rw (step, flat_step, e, e') (h, refl)
  | inr (m, f, e, e', flat) ↦
      rw (step, flat_step, e, e') (h, ap found (read_lem w.frames m f offset n flat))
]
step-Answers w fs (drops i) h = elim (both w fs i h) [
  | inl (e, e') ↦ rw (step, flat_step, e, e') (h, refl)
  | inr (m, f, e, e', flat) ↦ rw (step, flat_step, e, e') (drop-Stands w fs i m h e, refl)
]

run-Answers :
    (rs : List Request) (w : World) (fs : List (List ℕ)) → Stands w fs → run w rs ≡ flat_run fs rs
unfolding run flat_run
run-Answers [] w fs h = refl
run-Answers (r ∷ rs) w fs h =
    let (h', same) = step-Answers w fs r h in
    rw (same, run-Answers rs (step w r).0 (flat_step fs r).0 h') refl

-- Any sequence of requests is answered as by lists of bytes that share nothing: a memory made of zeros
-- or of given bytes, a clone that starts with the bytes of its original, a write that stores what fits
-- in one memory and in no other, a read of the bytes that stand there, and a drop.
pub run-empty_world : (rs : List Request) → run empty_world rs ≡ flat_run [] rs
run-empty_world rs = run-Answers rs empty_world [] (record {
  counted = λ x. sym (total-nil x);
  fresh = λ x n. refl;
  whole = λ x p. ground (arith, p);
  as_many = refl;
  flat = λ i m f e e'. ground (arith, e);
})
