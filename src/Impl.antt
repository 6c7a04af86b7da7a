-- ===== src/Impl.antt =====
-- The base class of the backends, src/CothreadImpl.h, and the machine words that they run on.
use libcommunism.Base.{ℕ, ◌*◌, ◌%◌, ◌^◌}
use libcommunism.Span.{Span}
use libcommunism.Machine.{Word}

-- sizeof(uintptr_t), and the modulus of size_t and of a pointer.
abbrev pub word64 : Word
word64 = record { bytes = 8; modulus = 2 ^ 64 }

abbrev pub word32 : Word
word32 = record { bytes = 4; modulus = 2 ^ 32 }

pub record CothreadImpl : Type 0 where
  pub stack : Span

unfoldable pub get_stack_size : Word → CothreadImpl → ℕ
get_stack_size w impl = impl.stack.size * w.bytes % w.modulus

unfoldable pub get_stack : CothreadImpl → ℕ
get_stack impl = impl.stack.addr
