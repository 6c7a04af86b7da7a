-- ===== src/Amd64/SysV/Bounds.antt =====
-- Which stacks hold the first frame that Prepare() of src/arch/amd64/SysV.cpp builds, and which
-- sizes ValidateStackSize() lets through.
use libcommunism.Base.{ℕ, ◌+◌, ◌*◌, ◌%◌, ◌^◌, ◌≤◌, ◌<◌, ◌≡◌, ◌↔◌, ok, List, [], ◌∷◌, arith}
use libcommunism.Memory.{Memory, write_self}
use libcommunism.Span.{Span, clear_low}
use libcommunism.Impl.{word64}
use libcommunism.Machine.{add_word, sub_word}
use libcommunism.Machine.Cursor.{Cursor, push_words, replicate, push_words-Stacked}
use libcommunism.Machine.Frame.{frame_start, push_zeros}
use libcommunism.Amd64.Object.{Amd64, Symbols, cothread_off_context_top}
use libcommunism.Amd64.SysV.{k_num_saved_registers, validate_stack_size, build_frame}

-- ValidateStackSize() accepts exactly the positive multiples of 64.
pub validate_stack_size_iff :
    (size : ℕ) → (validate_stack_size size ≡ ok tt) ↔ ((0 < size) × (size % 64 ≡ 0))
unfolding validate_stack_size
validate_stack_size_iff size = (λ e. ground arith, λ (pos, mult). ground arith)

-- The frame begins ten words below the end of the stack, wherever the stack begins.
start_wraps :
    (stack : Span)
    → 160 ≤ stack.addr
    → stack.addr + stack.size * 8 < 2 ^ 64
    → stack.size * 8 % 16 ≡ 0
    → frame_start word64 stack k_num_saved_registers + 80 ≡ stack.addr + stack.size * 8
unfolding frame_start add_word sub_word clear_low
start_wraps stack low high even = omega arith

module _ (f : Symbols) (wrap : Amd64) (info : ℕ) (m : Memory) where
  abbrev from : Cursor
  from = record { at = frame_start word64 wrap.stack k_num_saved_registers; mem = m }

  abbrev words : List ℕ
  words =
      f.entry_returned_stub
      ∷ info
      ∷ f.dereference_call_info
      ∷ f.jump_to_entry
      ∷ replicate k_num_saved_registers 0

  build_frame_top :
      80 ≤ frame_start word64 wrap.stack k_num_saved_registers
      → frame_start word64 wrap.stack k_num_saved_registers < 2 ^ 64
      → build_frame f wrap info m (wrap.this + cothread_off_context_top) + 80
        ≡ frame_start word64 wrap.stack k_num_saved_registers
  unfolding build_frame push_words push_zeros
  build_frame_top low high =
      rw write_self (push_words-Stacked word64 (omega arith) words [] from low high tt).at

  -- ValidateStackSize() accepts every stack whose size is a positive multiple of 64, and where such a
  -- stack begins at 160 or above and ends within the address space, the stack pointer that
  -- Prepare() stores lies within it if and only if it has at least 160 bytes.
  pub build_frame_within_iff :
      0 < wrap.stack.size
      → wrap.stack.size * 8 % 64 ≡ 0
      → 160 ≤ wrap.stack.addr
      → wrap.stack.addr + wrap.stack.size * 8 < 2 ^ 64
      → (validate_stack_size (wrap.stack.size * 8) ≡ ok tt)
        × ((wrap.stack.addr ≤ build_frame f wrap info m (wrap.this + cothread_off_context_top))
            ↔ (160 ≤ wrap.stack.size * 8))
  build_frame_within_iff pos mult low high =
      let start = start_wraps wrap.stack low high (omega arith) in
      let top = build_frame_top (omega (arith, start)) (omega (arith, start, high)) in
      (
        (validate_stack_size_iff (wrap.stack.size * 8)).1 (omega arith, mult),
        (λ within. omega (arith, start, top), λ large. omega (arith, start, top)),
      )
