-- ===== src/Amd64/Windows/Start.antt =====
-- From the constructor of src/arch/amd64/Common.cpp that allocates the stack to the entry point: Prepare()
-- of Windows.cpp, then Switch and JumpToEntry of Windows.asm.
use libcommunism.Base.{ℕ, ◌+◌, ◌*◌, ◌^◌, ◌≤◌, ◌<◌, ◌≡◌, ◌≢◌, ◌⊎◌, ok, ok-inj, some, arith, sym, ◌∙◌}
use mathlib.Core.Path.{subst}
use libcommunism.Memory.{Apart, SameOn}
use libcommunism.Impl.{word64}
use libcommunism.Heap.{Allocator, IsAllocator, Process}
use libcommunism.Machine.{State, exec}
use libcommunism.Machine.Kept.{Prepared-same}
use libcommunism.Amd64.Object.{Amd64, Symbols, cothread_off_context_top}
use libcommunism.Amd64.Common.{alloc_size, construct_sized}
use libcommunism.Amd64.Windows.{
  k_num_saved_registers, Reg, Reg-discrete, switch_code, jump_to_entry_code,
}
use libcommunism.Amd64.Windows.Life.{
  windows, allocated, made, informed, after, construct_sized-ok, made-HasRoom,
  build_frame-IsPrepared,
}
use libcommunism.Amd64.Windows.Entry.{CanStart, IsEntered, jump_to_entry-switch_code_win}

module _ {E : Type 0} (a : Allocator E) (law : IsAllocator (2 ^ 64) a) (f : Symbols) (this : ℕ)
    (entry : E) (n : ℕ) (p : Process a) where
  -- The stack of the object and its field are as they were after the constructor.
  abbrev pub IsLeftAlone : Amd64 → Process a → State Reg → Type 0
  IsLeftAlone t q s =
      (s.mem (t.this + cothread_off_context_top) ≡ q.mem (t.this + cothread_off_context_top))
      × SameOn t.stack.addr (t.stack.addr + t.stack.size * 8) q.mem s.mem

  -- What the first switch to the object `t` comes to.
  abbrev Starts : Amd64 × Process a → Type 0
  Starts (t, q) =
      (s : State Reg)
      → IsLeftAlone t q s
      → CanStart t s
      → (info : ℕ) × (a.info q.heap info ≡ some entry)
        × IsEntered f t info
            (exec Reg-discrete word64 jump_to_entry_code (exec Reg-discrete word64 switch_code s))

  -- A cothread that the constructor has given a new stack, for a request of less than the alignment or
  -- of at least 512 bytes, off its own field: whatever the program has written since, but for the
  -- cothread's stack and its field, the first switch to it, where the conditions of `CanStart` hold,
  -- arrives at the call of DereferenceCallInfo with a CallInfo that stores the entry point, on the
  -- cothread's stack.
  pub IsEntered-construct_sized_win :
      (allocated a law f this entry n p).1 ≢ 0
      → (n < 64) ⊎ (512 ≤ n)
      → (let buf = (allocated a law f this entry n p).1 in
          Apart buf (buf + alloc_size n) (this + cothread_off_context_top))
      → (t : Amd64) (q : Process a) (s : State Reg)
      → construct_sized a (windows a f) this entry n p ≡ ok (t, q)
      → IsLeftAlone t q s
      → CanStart t s
      → (info : ℕ) × (a.info q.heap info ≡ some entry)
        × IsEntered f t info
            (exec Reg-discrete word64 jump_to_entry_code (exec Reg-discrete word64 switch_code s))
  IsEntered-construct_sized_win fine large apart t q s run =
      let object = made a law f this entry n p in
      let left = after a law f this entry n p in
      let room = made-HasRoom a law f this entry n p fine large apart in
      let info = (informed a law f this entry n p).1 in
      subst Starts (ok-inj (sym (construct_sized-ok a law f this entry n p fine) ∙ run))
        (λ s same k. (
          info,
          law.new_stores entry _,
          jump_to_entry-switch_code_win f object info s.mem s room
              (Prepared-same word64 (omega arith) cothread_off_context_top k_num_saved_registers
                f.entry_returned_stub info f.dereference_call_info f.jump_to_entry this object.stack
                p.mem left.mem room (build_frame-IsPrepared f object info p.mem room) s.mem same.0
                same.1)
              k,
        ))
        s
