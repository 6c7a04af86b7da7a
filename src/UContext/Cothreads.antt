-- ===== src/UContext/Cothreads.antt =====
-- Cothreads of src/Cothread.cpp that switch by src/arch/ucontext/UContext.cpp.
use libcommunism.Base.{ℕ, ◌≡◌, ◌≢◌, some, Outcome, ok, ◌>>=◌, List}
use libcommunism.Saved.{Avoids}
use libcommunism.UContext.{UContext}
use libcommunism.UContext.Switch.{
  Place, in_switch_to, ContextLibrary, IsContextLibrary, context_for, switch_to, switch_to-Saves,
}
use libcommunism.Cothread.{Cothread}
use libcommunism.Cothread.Processor.{Calls}
use libcommunism.Cothread.Places

module _ {K : Type 0} (H : Type 0) (lib : ContextLibrary (Place K)) (objects : ℕ → UContext)
    (calls : Calls (Places.World K (Place K) lib.Contexts)) where
  abbrev pub Program : Type 0
  Program = Places.Program H (switch_to lib) objects calls

  abbrev pub call : ℕ → K → Program → Outcome Program
  call = Places.call H (switch_to lib) objects calls

  abbrev pub run_calls : List (ℕ × K) → Program → Outcome Program
  run_calls = Places.run_calls H (switch_to lib) objects calls

  module _ (threads : ℕ → Cothread) where
    abbrev pub Alive : Program → ℕ → Type 0
    Alive = Places.Alive H (switch_to lib) objects calls threads

    abbrev pub AllAlive : Program → List ℕ → Type 0
    AllAlive = Places.AllAlive H (switch_to lib) objects calls threads

    abbrev pub object : ℕ → UContext
    object = Places.object objects threads

    -- Over a swapcontext() whose calls succeed as documented, where the Cothread objects live at their
    -- addresses: after a call of Cothread::switchTo() for a cothread with another ucontext_t, and any
    -- row of calls for cothreads with other contexts than the first caller's, none of them by the
    -- cothread that it is for, a call for that caller goes on behind its own call, with gCurrent as
    -- before it, and none of the calls fails.
    pub switch_to-switch_to_ucontext :
        IsContextLibrary lib
        → (j : ℕ) (k l : K) (ts : List (ℕ × K)) (r : Program) → Alive r r.current
        → Alive r j
        → AllAlive r (Places.targets ts)
        → Places.Leaves j ts
        → context_for (object j) ≢ context_for (object r.current)
        → Avoids context_for (object r.current) (Places.moves objects threads ts)
        → (z : Program) × ((call j k r >>= (λ q. run_calls ts q >>= call r.current l)) ≡ ok z)
          × (z.current ≡ r.current)
          × (z.world.goes ≡ some (in_switch_to k))
    switch_to-switch_to_ucontext law j k l ts r here there alive leaves =
        Places.call-call H (switch_to lib) objects calls threads context_for in_switch_to
          lib.context (switch_to-Saves lib law) j k l ts r here there alive
