-- ===== src/Machine/Threads.antt =====
-- Several cothreads on one processor: a scheduler's view of `Switch`. Each thread has an object
-- and a stack; the running one works on its own stack and may switch to any other.
pub mod Resume
pub mod Call
use libcommunism.Base.{
  ℕ, suc, ◌+◌, ◌-◌, ◌*◌, ◌≤◌, ◌<◌, ◌≡◌, ◌≢◌, ◌⊎◌, inl, inr, refl, sym, ap, ◌∙◌, List, [], ◌∷◌, ◌++◌,
  arith, length, ◌==◌, ==_iff, Bool-cases, if◌then◌else◌,
}
use mathlib.Core.List.{reverse}
use libcommunism.Memory.{Apart, Memory, SameOn}
use libcommunism.Machine.{Word, Instr, State, exec}
use libcommunism.Machine.Stack.{Distinct, length-reverse_aux, length-map}
use libcommunism.Machine.Switch.{
  Context, IsSuspended, IsSuspended-same, CanSwitch, Switched, IsRunning, caller, switch_shape,
}
use libcommunism.Machine.Switch.Run.{exec-Switched}

-- Where the objects and the stacks of threads 0, 1, ... below `count` stand.
pub record Layout : Type 0 where
  pub count : ℕ
  pub obj : ℕ → ℕ
  pub lo : ℕ → ℕ
  pub hi : ℕ → ℕ

-- The stacks are disjoint, and the fields with the stack pointers distinct and off the stacks.
pub record IsLayout (w : Word) (off : ℕ) (l : Layout) : Type 0 where
  pub fits : (i : ℕ) → i < l.count → l.hi i < w.modulus
  pub obj_fits : (i : ℕ) → i < l.count → l.obj i + off < w.modulus
  pub disjoint :
      (i j : ℕ) → i < l.count → j < l.count → i ≢ j → (l.hi i ≤ l.lo j) ⊎ (l.hi j ≤ l.lo i)
  pub differ : (i j : ℕ) → i < l.count → j < l.count → i ≢ j → l.obj i + off ≢ l.obj j + off
  pub apart : (i j : ℕ) → i < l.count → j < l.count → Apart (l.lo j) (l.hi j) (l.obj i + off)

-- The scheduler's view: who runs, and in which context each other thread waits.
pub record View : Type 0 where
  pub current : ℕ
  pub context : ℕ → Context

unfoldable pub transfer : View → (to : ℕ) → Context → View
transfer v to c = record { current = to; context = λ k. if v.current == k then c else v.context k }

module _ {R : Type 0} (w : Word) (off : ℕ) (save : List R) (l : Layout) where
  -- Thread `j` waits in context `c`, its frame on its own stack.
  pub record Waits (m : Memory) (j : ℕ) (c : Context) : Type 0 where
    pub suspended : IsSuspended w off m (l.obj j) c
    pub low : l.lo j ≤ m (l.obj j + off)
    pub high : c.sp ≤ l.hi j
    pub count : length c.words ≡ length save

  -- The machine is in a state that the view describes.
  pub record Refines (v : View) (s : State R) : Type 0 where
    pub known : v.current < l.count
    pub low : l.lo v.current ≤ s.sp
    pub high : s.sp ≤ l.hi v.current
    pub waiting : (j : ℕ) → j < l.count → j ≢ v.current → Waits s.mem j (v.context j)

  -- Thread `i` calls Switch(i, j), with room on its stack.
  pub record CanLeave (from to : R) (i j : ℕ) (s : State R) : Type 0 where
    pub from_arg : s.regs from ≡ l.obj i
    pub to_arg : s.regs to ≡ l.obj j
    pub room : l.lo i + length save * w.bytes ≤ s.sp
    pub top : s.sp + w.bytes ≤ l.hi i
    pub other : j < l.count
    pub differ : j ≢ i

  -- What a thread's own code may do: anything to registers and to memory, but for the other
  -- threads' stacks and the fields that hold stack pointers.
  pub record Works (i : ℕ) (s t : State R) : Type 0 where
    pub low : l.lo i ≤ t.sp
    pub high : t.sp ≤ l.hi i
    pub stacks : (j : ℕ) → j < l.count → j ≢ i → SameOn (l.lo j) (l.hi j) s.mem t.mem
    pub fields : (j : ℕ) → j < l.count → t.mem (l.obj j + off) ≡ s.mem (l.obj j + off)

  module _ (same : Discrete R) (from to : R) (code : List (Instr R)) where
    -- Runs of the machine in which no switch goes to thread `i`.
    pub data RunsWithout (i : ℕ) : ℕ → State R → ℕ → State R → Type 0 where
      here : {k : ℕ} {s : State R} → RunsWithout i k s k s
      work :
          {k m : ℕ} {s t u : State R} → Works k s t → RunsWithout i k t m u → RunsWithout i k s m u
      switch :
          {k j m : ℕ} {s u : State R}
          → CanLeave from to k j s
          → j ≢ i
          → RunsWithout i j (exec same w code s) m u
          → RunsWithout i k s m u
