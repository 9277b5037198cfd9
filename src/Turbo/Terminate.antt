-- ===== src/Turbo/Terminate.antt =====
-- Three termination steps of src/turbo.rs empty the register.
use syndrome.Prelude.{
  ℕ, zero, suc, ◌%◌, ◌<◌, bit_xor, Bool, true, ◌&&◌, ltb, ◌==◌, all_below, all_below-true, tabulate,
  tabulate_from, ◌≡◌, refl, arith,
}
use syndrome.Word.{◌>>>◌}
use syndrome.Turbo.{next_state, rsc_trellis, rsc_next, rsc_parity, rsc_feedback}

-- The input that makes the feedback zero.
abbrev pub tail_input : ℕ → ℕ
tail_input state = bit_xor ((state >>> 1) % 2) ((state >>> 2) % 2)

-- The register after `n` termination steps.
abbrev pub tail_end : ℕ → ℕ → ℕ
tail_end zero s = s
tail_end (suc n) s = tail_end n (next_state s (tail_input s))

abbrev steps_stay : ℕ → Bool
steps_stay s = ltb (next_state s 0) 8 && ltb (next_state s 1) 8

every_step : all_below 8 steps_stay ≡ true
unfolding rsc_trellis rsc_next rsc_parity rsc_feedback tabulate tabulate_from all_below
every_step = refl

every_end : all_below 8 (λ s. tail_end 3 s == 0) ≡ true
unfolding rsc_trellis rsc_next rsc_parity rsc_feedback tabulate tabulate_from all_below
every_end = refl

pub next_state-lt : (s b : ℕ) → s < 8 → b < 2 → next_state s b < 8
next_state-lt s zero hs hb = ground (arith, all_below-true 8 steps_stay s every_step hs)
next_state-lt s (suc zero) hs hb = ground (arith, all_below-true 8 steps_stay s every_step hs)
next_state-lt s (suc (suc b)) hs hb = absurd (omega (arith, hb))

pub tail_end-zero : (s : ℕ) → s < 8 → tail_end 3 s ≡ 0
tail_end-zero s hs = ground (arith, all_below-true 8 (λ s. tail_end 3 s == 0) s every_end hs)
