-- ===== src/Cothread/Processor.antt =====
-- The class Cothread of src/Cothread.cpp over a backend whose switchTo() is the call of assembly code
-- of the shape that src/arch/amd64 and src/arch/x86 have. The backend's state is the processor's; what
-- its other calls do is a parameter.
pub mod Resume
use libcommunism.Base.{ℕ, suc, ◌+◌, ◌*◌, ◌≤◌, ◌<◌, ◌≡◌, ◌≢◌, some, ok, List, length}
use libcommunism.Machine.{Word, Instr, State}
use libcommunism.Machine.Switch.{call_switch}
use libcommunism.Machine.Threads.{Layout, View, Refines, Works}
use libcommunism.Cothread.{Backend, Cothread, Runtime, switch_to}

-- The calls of a backend other than switchTo(), over its state.
pub record Calls (World : Type 0) : Type 0 where
  pub alloc_kernel_thread_wrapper : World → World × ℕ
  pub new_cothread : World → World × ℕ
  pub delete_impl : ℕ → World → World
  pub destroy_impl : ℕ → World → World
  pub get_stack : ℕ → World → ℕ
  pub get_stack_size : ℕ → World → ℕ

-- A backend whose state is `World`, with its switchTo().
abbrev pub processor : {World : Type 0} → ((this other : ℕ) → World → World) → Calls World → Backend
processor {World} switch_to calls = record {
  World = World;
  alloc_kernel_thread_wrapper = calls.alloc_kernel_thread_wrapper;
  new_cothread = calls.new_cothread;
  switch_to = switch_to;
  delete_impl = calls.delete_impl;
  destroy_impl = calls.destroy_impl;
  get_stack = calls.get_stack;
  get_stack_size = calls.get_stack_size;
}

module _ {R : Type 0} (w : Word) (off : ℕ) (save : List R) (l : Layout) (at : ℕ → ℕ) where
  -- The Cothread objects at the addresses `at` 0, `at` 1, ... have the layout's objects as their
  -- implementations; gCurrent is the one on whose stack the processor works, and every other
  -- waits in its context.
  pub record IsConsistent {H : Type 0} {b : Backend} (view : View) (machine : State R)
      (r : Runtime H b) : Type 0 where
    pub threads :
        (i : ℕ) → i < l.count → (c : Cothread) × (r.threads (at i) ≡ some c) × (c.impl ≡ l.obj i)
    pub alive : (i : ℕ) → i < l.count → at i ≢ 0
    pub current : r.current ≡ at view.current
    pub refines : Refines w off save l view machine

module _ {R H : Type 0} (w : Word) (off : ℕ) (save : List R)
    (call : (this other : ℕ) → State R → State R) (calls : Calls (State R)) (l : Layout)
    (at : ℕ → ℕ) where
  -- Runs of a program, from cothread to cothread, in which no call of Cothread::switchTo() is for
  -- cothread `i`; a call needs room for Switch and its return address on the caller's stack.
  pub data RunsWithout (i : ℕ)
      : ℕ → Runtime H (processor call calls) → ℕ → Runtime H (processor call calls) → Type 0 where
    here : {k : ℕ} {r : Runtime H (processor call calls)} → RunsWithout i k r k r
    work :
        {k m : ℕ} {r q : Runtime H (processor call calls)} {t : State R}
        → Works w off save l k r.world t
        → RunsWithout i k (record r { world = t }) m q
        → RunsWithout i k r m q
    switch :
        {k j m : ℕ} {r q u : Runtime H (processor call calls)}
        → j < l.count
        → j ≢ k
        → j ≢ i
        → l.lo k + suc (length save) * w.bytes ≤ r.world.sp
        → switch_to (processor call calls) (at j) r ≡ ok q
        → RunsWithout i j q m u
        → RunsWithout i k r m u
