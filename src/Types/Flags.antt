-- ===== src/Types/Flags.antt =====
-- The flag words of include/hvax/types.hpp. A mask is one bit, so `word & mask`, `word | mask` and
-- `word & ~mask` are written by division.
use hvax.Prelude.{
  ℕ, ◌+◌, ◌-◌, ◌/◌, ◌%◌, ◌≡◌, Bool, true, false, not, ◌&&◌, arith, if◌then◌else◌, ◌==◌,
}

abbrev pub tombstone : ℕ
tombstone = 1

abbrev pub low_quality : ℕ
low_quality = 2

abbrev pub repeat_identity : ℕ
repeat_identity = 2

abbrev pub pinned : ℕ
pinned = 2

abbrev pub hidden_flag : ℕ
hidden_flag = 4

-- (word & mask) != 0
unfoldable pub has : ℕ → ℕ → Bool
has mask word = (word / mask) % 2 == 1

-- word | mask
unfoldable pub set_flag : ℕ → ℕ → ℕ
unfolding has
set_flag mask word = if has mask word then word else word + mask

-- word & ~mask
unfoldable pub clear_flag : ℕ → ℕ → ℕ
unfolding has
clear_flag mask word = if has mask word then word - mask else word

unfoldable pub slot_live : ℕ → Bool
slot_live flags = not (has tombstone flags)

unfoldable pub face_indexable : ℕ → Bool
face_indexable flags = not (has tombstone flags) && not (has low_quality flags)

module _ (w : ℕ) where
  pub has-set_tombstone : has tombstone (set_flag tombstone w) ≡ true
  unfolding has set_flag
  has-set_tombstone = ground arith

  pub has-clear_tombstone : has tombstone (clear_flag tombstone w) ≡ false
  unfolding has clear_flag
  has-clear_tombstone = ground arith

  pub has_hidden-set_tombstone : has hidden_flag (set_flag tombstone w) ≡ has hidden_flag w
  unfolding has set_flag
  has_hidden-set_tombstone = ground arith

  pub has_hidden-clear_tombstone : has hidden_flag (clear_flag tombstone w) ≡ has hidden_flag w
  unfolding has clear_flag
  has_hidden-clear_tombstone = ground arith

  pub has-pinned-set_tombstone : has pinned (set_flag tombstone w) ≡ has pinned w
  unfolding has set_flag
  has-pinned-set_tombstone = ground arith

  pub has-pinned-set_pinned : has pinned (set_flag pinned w) ≡ true
  unfolding has set_flag
  has-pinned-set_pinned = ground arith

  pub has-tombstone-set_pinned : has tombstone (set_flag pinned w) ≡ has tombstone w
  unfolding has set_flag
  has-tombstone-set_pinned = ground arith

  pub has-tombstone-clear_pinned : has tombstone (clear_flag pinned w) ≡ has tombstone w
  unfolding has clear_flag
  has-tombstone-clear_pinned = ground arith

  pub has_hidden-set_pinned : has hidden_flag (set_flag pinned w) ≡ has hidden_flag w
  unfolding has set_flag
  has_hidden-set_pinned = ground arith

  pub has_hidden-clear_pinned : has hidden_flag (clear_flag pinned w) ≡ has hidden_flag w
  unfolding has clear_flag
  has_hidden-clear_pinned = ground arith

  pub has_hidden-set_hidden : has hidden_flag (set_flag hidden_flag w) ≡ true
  unfolding has set_flag
  has_hidden-set_hidden = ground arith

  pub has_hidden-clear_hidden : has hidden_flag (clear_flag hidden_flag w) ≡ false
  unfolding has clear_flag
  has_hidden-clear_hidden = ground arith

  pub has-tombstone-set_hidden : has tombstone (set_flag hidden_flag w) ≡ has tombstone w
  unfolding has set_flag
  has-tombstone-set_hidden = ground arith

  pub has-tombstone-clear_hidden : has tombstone (clear_flag hidden_flag w) ≡ has tombstone w
  unfolding has clear_flag
  has-tombstone-clear_hidden = ground arith

  -- The gate decides the low-quality bit and no other.
  pub live-regated :
      (pass : Bool)
      → slot_live (
          if pass
          then clear_flag low_quality w
          else set_flag low_quality (clear_flag low_quality w))
        ≡ slot_live w
  unfolding slot_live has set_flag clear_flag
  live-regated true = ground arith
  live-regated false = ground arith
