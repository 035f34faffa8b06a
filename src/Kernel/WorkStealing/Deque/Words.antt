-- ===== src/Kernel/WorkStealing/Deque/Words.antt =====
-- The packed top while its generation and its index are the same number, and indices of the ring.
use Prim.Native.Nat.{bit_or, bit_or-bitwise, digits, max}
use axebergos.Prelude.{
  ℕ, zero, suc, ◌+◌, ◌*◌, ◌-◌, ◌/◌, ◌%◌, ◌<◌, ◌≤◌, ◌≡◌, ◌≢◌, refl, sym, ◌∙◌, arith,
}
use native.Mathlib.Decide.{dec_lt}
use native.Mathlib.Nat.{mod-eq_of_lt, mod-eq-sub-mod, mod-add-mod, mod-lt}
use axebergos.Prelude.Words.{u32_mod, u64_mod}
use axebergos.Kernel.WorkStealing.Deque.{pack_top, next_top}

digits-zero : (n a : ℕ) → a ≤ n → digits (λ b. b) max n a 0 ≡ a
digits-zero zero zero h = refl
digits-zero zero (suc a) h = absurd (omega (arith, h))
digits-zero (suc n) zero h = refl
digits-zero (suc n) (suc a) h = omega (arith, digits-zero n (suc a / 2) (omega (arith, h)))

pub bit_or-zero : (a : ℕ) → bit_or a 0 ≡ a
bit_or-zero a = bit_or-bitwise a 0 ∙ digits-zero a a (omega arith)

-- The index `u` under the generation `u`.
abbrev pub packed : ℕ → ℕ
packed u = u * u32_mod + u

pub next_top-packed : (u : ℕ) → u + 1 < u32_mod → next_top (packed u) ≡ packed (u + 1)
unfolding next_top pack_top
next_top-packed u small =
    let left : (u * u32_mod + u) / u32_mod % u32_mod ≡ u = omega (arith, small) in
    let right : (u * u32_mod + u) % u32_mod ≡ u = omega (arith, small) in
    let none_over : (u + 1) % u64_mod / u32_mod ≡ 0 = omega (arith, small) in
    rw (left, right, none_over, bit_or-zero) (omega (arith, small))

pub packed-index : (u : ℕ) → u < u32_mod → packed u % u32_mod ≡ u
packed-index u small = omega (arith, small)

slot_ne_near : (c r d : ℕ) → r < c → 0 < d → d < c → r ≢ (r + d) % c
slot_ne_near c r d inside pos small e = elim (dec_lt (r + d) c) [
  | yes h ↦ omega (arith, e, mod-eq_of_lt h, pos)
  | no h ↦
      let over : c ≤ r + d = omega (arith, h) in
      let last : r + d - c < c = omega (arith, inside, small) in
      omega (arith, e, mod-eq-sub-mod over, mod-eq_of_lt last, small, over)
]

-- Two indices less than a capacity apart have different slots.
pub slot_ne : (c a d : ℕ) → 0 < d → d < c → a % c ≢ (a + d) % c
slot_ne c a d pos small e =
    slot_ne_near c (a % c) d (mod-lt a (omega (arith, small))) pos small
      (e ∙ sym (mod-add-mod a c d))
