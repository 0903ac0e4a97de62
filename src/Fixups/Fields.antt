-- ===== src/Fixups/Fields.antt =====
-- The fields of a DYLD_CHAINED_PTR_64_OFFSET pointer (main.c, chained64_*), against the layout of the
-- bit fields that fixup-chains.h gives.
use maloader.Common.{ℕ, ◌+◌, ◌*◌, ◌/◌, ◌^◌, ◌<◌, ◌≡◌, ◌∙◌, arith, true, false}
use maloader.Common.Bits.{bit_and_mask}
use maloader.Fixups.{
  chained64_bind_ordinal, chained64_bind_addend, chained64_rebase_target, chained64_next,
  chained64_is_bind,
}

-- dyld_chained_ptr_64_rebase: target 36 bits, high8 8, reserved 7, next 12, bind 1.
abbrev pub rebase_word : (target high8 next : ℕ) → ℕ
rebase_word target high8 next = target + 2 ^ 36 * high8 + 2 ^ 51 * next

-- dyld_chained_ptr_64_bind: ordinal 24 bits, addend 8, reserved 19, next 12, bind 1.
abbrev pub bind_word : (ordinal addend next : ℕ) → ℕ
bind_word ordinal addend next = ordinal + 2 ^ 24 * addend + 2 ^ 51 * next + 2 ^ 63

-- A rebase pointer whose fields fit is read as its target and its `next`, whatever `high8` holds.
pub rebase_word-decode :
    (target high8 next : ℕ)
    → target < 2 ^ 36
    → high8 < 2 ^ 8
    → next < 2 ^ 12
    → (chained64_is_bind (rebase_word target high8 next) ≡ false)
      × (chained64_rebase_target (rebase_word target high8 next) ≡ target)
      × (chained64_next (rebase_word target high8 next) ≡ next)
unfolding chained64_is_bind chained64_rebase_target chained64_next
rebase_word-decode target high8 next t h n =
    let word = rebase_word target high8 next in
    (
      ground (arith, bit_and_mask 1 (word / 2 ^ 63)),
      bit_and_mask 36 word ∙ omega arith,
      bit_and_mask 12 (word / 2 ^ 51) ∙ omega arith,
    )

-- A bind pointer whose fields fit is read as its ordinal, its addend and its `next`.
pub bind_word-decode :
    (ordinal addend next : ℕ)
    → ordinal < 2 ^ 24
    → addend < 2 ^ 8
    → next < 2 ^ 12
    → (chained64_is_bind (bind_word ordinal addend next) ≡ true)
      × (chained64_bind_ordinal (bind_word ordinal addend next) ≡ ordinal)
      × (chained64_bind_addend (bind_word ordinal addend next) ≡ addend)
      × (chained64_next (bind_word ordinal addend next) ≡ next)
unfolding chained64_is_bind chained64_bind_ordinal chained64_bind_addend chained64_next
bind_word-decode ordinal addend next o a n =
    let word = bind_word ordinal addend next in
    (
      ground (arith, bit_and_mask 1 (word / 2 ^ 63)),
      bit_and_mask 24 word ∙ omega arith,
      bit_and_mask 8 (word / 2 ^ 24) ∙ omega arith,
      bit_and_mask 12 (word / 2 ^ 51) ∙ omega arith,
    )
