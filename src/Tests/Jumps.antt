-- ===== src/Tests/Jumps.antt =====
-- Switches by sigsetjmp() and siglongjmp(): a library that keeps one place for each buffer, and three
-- cothreads with buffers at 4096, 8192 and 12288.
use libcommunism.Base.{ℕ, ◌+◌, false, Option, some, List, [], ◌∷◌}
use libcommunism.Saved.{put}
use libcommunism.SetJmp.{SetJmp}
use libcommunism.SetJmp.Switch.{Place, in_setup_thunk, JumpLibrary}

abbrev jumps : JumpLibrary (Place ℕ ℕ)
jumps = record {
  Buffers = ℕ → Option (Place ℕ ℕ);
  sigsetjmp = λ p at b. (put b p at, 0);
  siglongjmp = λ p b. b p;
}

abbrev thread : ℕ → SetJmp
thread addr = record { stack = record { addr = addr; size = 64 }; owns_stack = false }

abbrev started : ℕ → Option (Place ℕ ℕ)
started q =
    some (in_setup_thunk (record { entry = q; stack = record { ss_sp = q + 256; ss_size = 256 } }))

-- From the first cothread to the second, to the third, and back to the first.
abbrev tour : List (SetJmp × ℕ)
tour = (thread 8192, 1) ∷ (thread 12288, 2) ∷ (thread 4096, 3) ∷ []
