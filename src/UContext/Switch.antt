-- ===== src/UContext/Switch.antt =====
-- switchTo() of src/arch/ucontext/UContext.cpp. swapcontext() is a parameter with the behaviour that
-- its manual page documents.
use libcommunism.Base.{ℕ, ◌≡◌, ◌≢◌, refl, Option, some, List}
use libcommunism.Saved.{Saves, Avoids, after, switch_to-after}
use libcommunism.UContext.{UContext, Made}

-- Where a cothread goes on: at the start of EntryStub(), on the stack and with the id that
-- Prepare() gave to makecontext(), or behind swapcontext() in a call of switchTo(), whose place and
-- registers are of type `K`.
pub data Place (K : Type 0) : Type 0 where
  in_entry_stub : Made → Place K
  in_switch_to : K → Place K

-- How swapcontext() ends: the program goes on at a place, where there is a context to go to, or the
-- call returns -1 to its caller.
pub data Swap (P : Type 0) : Type 0 where
  swapped : Option P → Swap P
  failed : Swap P

-- swapcontext(oucp, ucp) at a place, and the context kept in the ucontext_t at an address.
pub record ContextLibrary (P : Type 0) : Type 1 where
  pub Contexts : Type 0
  pub swapcontext : (oucp ucp : ℕ) → P → Contexts → Contexts × Swap P
  pub context : ℕ → Contexts → Option P

-- Calls that succeed: they save the caller in `oucp`, change no other context, and go on at that
-- in `ucp`.
pub record IsContextLibrary {P : Type 0} (lib : ContextLibrary P) : Type 0 where
  pub saves :
      (oucp ucp : ℕ) (at : P) (c : lib.Contexts)
      → lib.context oucp (lib.swapcontext oucp ucp at c).0 ≡ some at
  pub others :
      (oucp ucp q : ℕ) (at : P) (c : lib.Contexts)
      → q ≢ oucp
      → lib.context q (lib.swapcontext oucp ucp at c).0 ≡ lib.context q c
  pub succeeds :
      (oucp ucp : ℕ) (at : P) (c : lib.Contexts)
      → (lib.swapcontext oucp ucp at c).1
        ≡ swapped (lib.context ucp (lib.swapcontext oucp ucp at c).0)

unfoldable pub context_for : UContext → ℕ
context_for thread = thread.stack.addr

module _ {K : Type 0} (lib : ContextLibrary (Place K)) where
  -- Called at `k`: the contexts that it leaves, and where the program goes on. The result of
  -- swapcontext() is not looked at, so that after a failure the call returns.
  unfoldable pub switch_to :
      (this from : UContext) → K → lib.Contexts → lib.Contexts × Option (Place K)
  unfolding context_for
  switch_to this from k c =
      let (d, end) = lib.swapcontext (context_for from) (context_for this) (in_switch_to k) c in
      (d, elim end [ swapped at ↦ at | failed ↦ some (in_switch_to k) ])

  module _ (law : IsContextLibrary lib) where
    pub switch_to-Saves : Saves context_for in_switch_to lib.context switch_to
    unfolding switch_to context_for
    switch_to-Saves = record {
      saves = λ this from k c. law.saves _ _ _ c;
      others = λ this from k c q ne. law.others _ _ q _ c ne;
      resumes = λ this from k c.
          rw (law.succeeds (context_for from) (context_for this) (in_switch_to k) c) refl;
    }

    -- Over such a swapcontext(), a call of switchTo() from `i` returns to its caller when some
    -- cothread switches back to `i`, whatever calls of switchTo() that do not go to `i` there were
    -- in between.
    pub switch_to_returns_ucontext :
        (ts : List (UContext × K)) (i j : UContext) (k l : K) (c : lib.Contexts)
        → context_for j ≢ context_for i
        → Avoids context_for i ts
        → (let (last, d) = after switch_to ts j (switch_to j i k c).0 in (switch_to i last l d).1)
          ≡ some (in_switch_to k)
    switch_to_returns_ucontext =
        switch_to-after context_for in_switch_to lib.context switch_to switch_to-Saves
