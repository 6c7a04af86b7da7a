-- ===== src/Cothread.antt =====
-- The public class Cothread: include/libcommunism/Cothread.h and src/Cothread.cpp, for one kernel
-- thread, over the interface of src/CothreadImpl.h that a backend fills.
pub mod Current
pub mod Chain
pub mod Construct
pub mod Handlers
pub mod Processor
pub mod Places
pub mod KernelThreads
use libcommunism.Base.{
  ℕ, Bool, true, false, Option, none, some, Outcome, ok, terminated, undefined, ◌>>=◌, List, [],
  ◌∷◌, ◌++◌, arith, ◌==◌, if◌then◌else◌,
}

-- What Cothread.cpp calls of a backend and of operator new; a pointer is an address, 0 is nullptr.
pub record Backend : Type 1 where
  pub World : Type 0
  pub alloc_kernel_thread_wrapper : World → World × ℕ
  pub new_cothread : World → World × ℕ
  -- this->switchTo(from), `delete impl`, and the destructor alone
  pub switch_to : (this from : ℕ) → World → World
  pub delete_impl : ℕ → World → World
  pub destroy_impl : ℕ → World → World
  pub get_stack : ℕ → World → ℕ
  pub get_stack_size : ℕ → World → ℕ

-- The fields of a Cothread; `impl_buffer` is where its buffer begins.
pub record Cothread : Type 0 where
  pub label : List ℕ
  pub impl : ℕ
  pub impl_buffer : ℕ
  pub impl_buffer_used : Bool

-- gReturnHandler: the library's own handler, or one that the program has set.
pub data Handler (H : Type 0) : Type 0 where
  default_handler : Handler H
  user_handler : H → Handler H

-- What the default handler prints.
pub data Output : Type 0 where
  thread_pointer : ℕ → Output
  thread_label : List ℕ → Output
  unnamed_cothread : Output
  returned_from_entry : Output

-- The globals, the Cothread objects by their addresses, and the backend's state.
pub record Runtime (H : Type 0) (b : Backend) : Type 0 where
  pub current : ℕ
  pub handler : Handler H
  pub threads : ℕ → Option Cothread
  pub world : b.World

abbrev pub update : (ℕ → Option Cothread) → ℕ → Option Cothread → ℕ → Option Cothread
update f p c q = if p == q then c else f q

-- A use of the object behind a pointer.
abbrev pub deref {ℓ} : {A : Type ℓ} → Option A → Outcome A
deref none = undefined
deref (some x) = ok x

-- Cothread(CothreadImpl *impl) : impl(impl)
abbrev pub of_impl : (this impl : ℕ) → Cothread
of_impl this impl = record { label = []; impl = impl; impl_buffer = this; impl_buffer_used = false }

unfoldable pub get_label : Cothread → List ℕ
get_label t = t.label

unfoldable pub set_label : List ℕ → Cothread → Cothread
set_label new_label t = record t { label = new_label }

-- DefaultCothreadReturnedHandler: what it prints, and how it ends.
print_label : List ℕ → Output
print_label [] = unnamed_cothread
print_label (c ∷ cs) = thread_label (c ∷ cs)

unfoldable pub default_cothread_returned_handler :
    (thread : ℕ) → (ℕ → Option Cothread) → List Output × Outcome (Unit {0})
unfolding print_label get_label
default_cothread_returned_handler thread threads =
    if thread == 0
    then (thread_pointer 0 ∷ returned_from_entry ∷ [], terminated)
    else elim (threads thread) [
      | none ↦ (thread_pointer thread ∷ [], undefined)
      | some t ↦
          (thread_pointer thread ∷ print_label (get_label t) ∷ returned_from_entry ∷ [], terminated)
    ]

module _ {H : Type 0} (b : Backend) where
  -- Cothread::Current()
  unfoldable pub current : Runtime H b → Outcome (ℕ × Runtime H b)
  current r =
      if r.current == 0
      then (let (world, impl) = b.alloc_kernel_thread_wrapper r.world in
          if impl == 0
          then terminated
          else (let (world, this) = b.new_cothread world in
              ok (
                this,
                record r {
                  current = this;
                  threads = update r.threads this (some (of_impl this impl));
                  world = world;
                },
              )))
      else ok (r.current, r)

  -- Cothread::switchTo()
  unfoldable pub switch_to : (this : ℕ) → Runtime H b → Outcome (Runtime H b)
  unfolding current
  switch_to this r = do
    (c, s) ← current r
    from ← deref (s.threads c)
    t ← deref (s.threads this)
    ok (record s { current = this; world = b.switch_to t.impl from.impl s.world })

  -- Cothread::~Cothread()
  unfoldable pub destroy : (this : ℕ) → Runtime H b → Outcome (Runtime H b)
  destroy this r = do
    t ← deref (r.threads this)
    let world =
        if t.impl_buffer_used
        then b.destroy_impl t.impl_buffer r.world
        else b.delete_impl t.impl r.world
    ok (record r { threads = update r.threads this none; world = world })

  unfoldable pub set_return_handler : H → Runtime H b → Runtime H b
  set_return_handler h r = record r { handler = user_handler h }

  unfoldable pub reset_return_handler : Runtime H b → Runtime H b
  reset_return_handler r = record r { handler = default_handler }

  unfoldable pub get_stack : (this : ℕ) → Runtime H b → Outcome ℕ
  get_stack this r = do t ← deref (r.threads this); ok (b.get_stack t.impl r.world)

  unfoldable pub get_stack_size : (this : ℕ) → Runtime H b → Outcome ℕ
  get_stack_size this r = do t ← deref (r.threads this); ok (b.get_stack_size t.impl r.world)

  -- A program's calls of switchTo(), one after another.
  unfoldable pub run : List ℕ → Runtime H b → Outcome (Runtime H b)
  run [] r = ok r
  run (t ∷ ts) r = switch_to t r >>= run ts
