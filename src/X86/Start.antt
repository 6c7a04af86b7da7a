-- ===== src/X86/Start.antt =====
-- From the constructor of src/arch/x86/Common.cpp that allocates the stack to the entry point: Prepare(),
-- then Switch and JumpToEntry of Fastcall.S.
use libcommunism.Base.{ℕ, ◌+◌, ◌*◌, ◌^◌, ◌≤◌, ◌<◌, ◌≡◌, ◌≢◌, ◌⊎◌, ok, ok-inj, some, arith, sym, ◌∙◌}
use mathlib.Core.Path.{subst}
use libcommunism.Memory.{Apart, SameOn}
use libcommunism.Impl.{word32}
use libcommunism.Heap.{Allocator, IsAllocator, Process}
use libcommunism.Machine.{State, exec}
use libcommunism.Machine.Kept.{Prepared-same}
use libcommunism.X86.{
  X86, Symbols, Platform, cothread_off_context_top, k_num_saved_registers, alloc_size, stack_memory,
  construct_sized, Reg, Reg-discrete, switch_code, jump_to_entry_code,
}
use libcommunism.X86.Life.{made, after, construct_sized-ok, made-HasRoom}
use libcommunism.X86.Entry.{CanStart, IsEntered, build_frame-IsPrepared, jump_to_entry_lem}

module _ {E : Type 0} (a : Allocator E) (law : IsAllocator (2 ^ 32) a) (platform : Platform)
    (f : Symbols) (this : ℕ) (entry : E) (n buf : ℕ) (heap : a.Heap) (p : Process a) where
  -- The stack of the object and its field are as they were after the constructor.
  abbrev pub IsLeftAlone : X86 → Process a → State Reg → Type 0
  IsLeftAlone t q s =
      (s.mem (t.this + cothread_off_context_top) ≡ q.mem (t.this + cothread_off_context_top))
      × SameOn t.stack.addr (t.stack.addr + t.stack.size * 4) q.mem s.mem

  -- What the first switch to the object `t` comes to.
  abbrev Starts : X86 × Process a → Type 0
  Starts (t, q) =
      (s : State Reg)
      → IsLeftAlone t q s
      → CanStart t s
      → (info : ℕ) × (a.info q.heap info ≡ some entry)
        × IsEntered f t info
            (exec Reg-discrete word32 jump_to_entry_code (exec Reg-discrete word32 switch_code s))

  -- On Windows and elsewhere: a cothread that the constructor has given a new stack, for a request of
  -- less than the alignment or of at least 64 bytes, off its own field: whatever the program has
  -- written since, but for the cothread's stack and its field, the first switch to it, where the
  -- conditions of `CanStart` hold, arrives at the call of DereferenceCallInfo with a CallInfo that
  -- stores the entry point, on the cothread's stack.
  pub IsEntered-construct_sized_x86 :
      stack_memory a platform (alloc_size n) p.heap ≡ ok (heap, buf)
      → buf ≢ 0
      → (n < 16) ⊎ (64 ≤ n)
      → Apart buf (buf + alloc_size n) (this + cothread_off_context_top)
      → (t : X86) (q : Process a) (s : State Reg)
      → construct_sized a platform f this entry n p ≡ ok (t, q)
      → IsLeftAlone t q s
      → CanStart t s
      → (info : ℕ) × (a.info q.heap info ≡ some entry)
        × IsEntered f t info
            (exec Reg-discrete word32 jump_to_entry_code (exec Reg-discrete word32 switch_code s))
  IsEntered-construct_sized_x86 got ne large apart t q s run =
      let object = made a law platform f this entry n buf heap p in
      let left = after a law platform f this entry n buf heap p in
      let room = made-HasRoom a law platform f this entry n buf heap p got ne large apart in
      let info = (a.new_info entry heap).1 in
      subst Starts
        (ok-inj (sym (construct_sized-ok a law platform f this entry n buf heap p got ne) ∙ run))
        (λ s same k. (
          info,
          law.new_stores entry heap,
          jump_to_entry_lem f object info s.mem s room
              (Prepared-same word32 (omega arith) cothread_off_context_top k_num_saved_registers 0
                info f.dereference_call_info f.jump_to_entry this object.stack p.mem left.mem room
                (build_frame-IsPrepared f object info p.mem room) s.mem same.0 same.1)
              k,
        ))
        s
