-- ===== src/Span.antt =====
-- `std::span<uintptr_t>`: where a stack begins and its size in machine words; and the masks that
-- the sources round sizes with.
use libcommunism.Base.{ℕ, ◌*◌, ◌/◌, ◌^◌}

pub record Span : Type 0 where
  pub addr : ℕ
  pub size : ℕ

-- x & ~(2 ^ k - 1).
unfoldable pub clear_low : ℕ → ℕ → ℕ
clear_low x k = x / 2 ^ k * 2 ^ k
