-- ===== src/Amd64/SysV/Start.antt =====
-- From the constructor of src/arch/amd64/Common.cpp that allocates the stack to the entry point: Prepare()
-- of SysV.cpp, then Switch and JumpToEntry of SysV.S.
use libcommunism.Base.{ℕ, ◌+◌, ◌*◌, ◌^◌, ◌≤◌, ◌<◌, ◌≡◌, ◌⊎◌, ok, some, arith}
use mathlib.Core.Path.{subst}
use libcommunism.Memory.{Apart, SameOn}
use libcommunism.Impl.{word64}
use libcommunism.Heap.{Allocator, IsAllocator, Process}
use libcommunism.Machine.{State, exec}
use libcommunism.Machine.Kept.{Prepared-same}
use libcommunism.Amd64.Object.{Amd64, Symbols, cothread_off_context_top}
use libcommunism.Amd64.Common.{alloc_size, construct_sized}
use libcommunism.Amd64.Common.Sizes.{alloc_size_aligned}
use libcommunism.Amd64.SysV.{
  k_num_saved_registers, Reg, Reg-discrete, switch_code, jump_to_entry_code,
}
use libcommunism.Amd64.SysV.Life.{sysv, made, informed, after, made_unique, made-HasRoom}
use libcommunism.Amd64.SysV.Entry.{CanStart, IsEntered, build_frame-IsPrepared, entered}

module _ {E : Type 0} (a : Allocator E) (law : IsAllocator (2 ^ 64) a) (f : Symbols) (this : ℕ)
    (entry : E) (n : ℕ) (p : Process a) (large : (n < 64) ⊎ (192 ≤ n)) where
  -- The stack of the object and its field are as they were after the constructor.
  abbrev pub IsLeftAlone : Amd64 → Process a → State Reg → Type 0
  IsLeftAlone t q s =
      (s.mem (t.this + cothread_off_context_top) ≡ q.mem (t.this + cothread_off_context_top))
      × SameOn t.stack.addr (t.stack.addr + t.stack.size * 8) q.mem s.mem

  abbrev IsOff : Amd64 → Type 0
  IsOff t = Apart t.stack.addr (t.stack.addr + t.stack.size * 8) (this + cothread_off_context_top)

  -- What the first switch to the object `t` comes to.
  abbrev Starts : Amd64 × Process a → Type 0
  Starts (t, q) =
      (s : State Reg)
      → IsOff t
      → IsLeftAlone t q s
      → CanStart t s
      → (info : ℕ) × (a.info q.heap info ≡ some entry)
        × IsEntered f t info
            (exec Reg-discrete word64 jump_to_entry_code (exec Reg-discrete word64 switch_code s))

  made-Starts :
      (allocated_ok : (a.posix_memalign 64 (alloc_size n) p.heap).1 ≡ 0)
      → Starts (made a law f this entry n p, after a law f this entry n p)
  made-Starts fine s off same k =
      let t = made a law f this entry n p in
      let i = (informed a law f this entry n p).1 in
      let room =
        made-HasRoom a law f this entry n p fine large (rw (← (alloc_size_aligned n).2) off) in
      (
        i,
        law.new_stores entry _,
        entered f t i s.mem s room
            (Prepared-same word64 (omega arith) cothread_off_context_top k_num_saved_registers _ i _
              _ this t.stack p.mem (after a law f this entry n p).mem room
              (build_frame-IsPrepared f t i p.mem room) s.mem same.0 same.1)
            k,
      )

  -- A cothread that the constructor has given a stack, for a request of less than the alignment or of
  -- at least 192 bytes, off its own field: whatever the program has written since, but for the
  -- cothread's stack and its field, the first switch to it, where the conditions of `CanStart` hold,
  -- arrives at the call of DereferenceCallInfo with a CallInfo that stores the entry point, on the
  -- cothread's stack.
  pub IsEntered-construct_sized :
      (t : Amd64) (q : Process a) (s : State Reg)
      → construct_sized a (sysv a f) this entry n p ≡ ok (t, q)
      → IsOff t
      → IsLeftAlone t q s
      → CanStart t s
      → (info : ℕ) × (a.info q.heap info ≡ some entry)
        × IsEntered f t info
            (exec Reg-discrete word64 jump_to_entry_code (exec Reg-discrete word64 switch_code s))
  IsEntered-construct_sized t q s e =
      let (fine, same) = made_unique a law f this entry n p t q e in
      subst Starts same (made-Starts fine) s
