-- ===== src/Aarch64/Start.antt =====
-- From the constructor of src/arch/aarch64/Common.cpp that allocates the stack to the entry point:
-- Prepare() of AAPCS.cpp, then Switch and Aarch64AapcsEntryStub of AAPCS.S.
use libcommunism.Base.{ℕ, ◌+◌, ◌^◌, ◌<◌, ◌≡◌, ok, ok-inj, some, sym, ◌∙◌}
use mathlib.Core.Path.{subst}
use libcommunism.Memory.{Apart, SameOn}
use libcommunism.Heap.{Allocator, IsAllocator, Process}
use libcommunism.Aarch64.{
  Aarch64, cothread_off_context_top, k_context_save_area_size, alloc_size, construct_sized,
}
use libcommunism.Aarch64.Machine.{State, exec, switch_code, entry_stub_code}
use libcommunism.Aarch64.Life.{allocated, made, informed, after, construct_sized-ok, after-IsReady}
use libcommunism.Aarch64.Prepare.{IsReady-same}
use libcommunism.Aarch64.Switch.{CanSwitch}
use libcommunism.Aarch64.Entry.{IsEntered, entry_stub-switch_code}

module _ {E : Type 0} (a : Allocator E) (law : IsAllocator (2 ^ 64) a)
    (entry_stub dereference_call_info next this : ℕ) (entry : E) (n : ℕ) (p : Process a) where
  -- The context of the object and its field are as they were after the constructor.
  abbrev pub IsLeftAlone : Aarch64 → Process a → State → Type 0
  IsLeftAlone t q s =
      (s.mem (t.this + cothread_off_context_top) ≡ q.mem (t.this + cothread_off_context_top))
      × SameOn t.stack.addr (t.stack.addr + 0x68) q.mem s.mem

  -- What the first switch to the object `t` comes to, from a context at `here`.
  abbrev Starts : Aarch64 × Process a → Type 0
  Starts (t, q) =
      (here : ℕ) (s : State)
      → IsLeftAlone t q s
      → CanSwitch here t.stack.addr s
      → (info : ℕ) × (a.info q.heap info ≡ some entry)
        × ((exec switch_code s).pc ≡ entry_stub)
        × IsEntered dereference_call_info next t info
            (exec (entry_stub_code dereference_call_info next) (exec switch_code s))

  -- A cothread that the constructor has given a new stack off its own field: whatever the program has
  -- written since, but for the cothread's context and its field, the first switch to it, where the
  -- conditions of `CanSwitch` hold, arrives at the entry stub, which calls DereferenceCallInfo with a
  -- CallInfo that stores the entry point, at the end of the cothread's stack.
  pub IsEntered-construct_sized_arm :
      (allocated a law entry_stub this entry n p).1 ≡ 0
      → n + k_context_save_area_size < 2 ^ 64
      → (let buf = (allocated a law entry_stub this entry n p).2 in
          Apart buf (buf + alloc_size n) (this + cothread_off_context_top))
      → (t : Aarch64) (q : Process a) (here : ℕ) (s : State)
      → construct_sized a entry_stub this entry n p ≡ ok (t, q)
      → IsLeftAlone t q s
      → CanSwitch here t.stack.addr s
      → (info : ℕ) × (a.info q.heap info ≡ some entry)
        × ((exec switch_code s).pc ≡ entry_stub)
        × IsEntered dereference_call_info next t info
            (exec (entry_stub_code dereference_call_info next) (exec switch_code s))
  IsEntered-construct_sized_arm fine room apart t q here s run =
      let object = made a law entry_stub this entry n p in
      let left = after a law entry_stub this entry n p in
      let info = (informed a law entry_stub this entry n p).1 in
      let ready = after-IsReady a law entry_stub this entry n p fine room apart in
      subst Starts (ok-inj (sym (construct_sized-ok a law entry_stub this entry n p fine) ∙ run))
        (λ here s same k.
          let (pc, entered) =
            entry_stub-switch_code entry_stub dereference_call_info next object info here s.mem s
              (IsReady-same entry_stub object info p.mem left.mem s.mem ready same.0 same.1) k in
          (info, law.new_stores entry _, pc, entered))
        here s
