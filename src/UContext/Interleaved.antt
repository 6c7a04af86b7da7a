-- ===== src/UContext/Interleaved.antt =====
-- The map from ids to entry points of src/arch/ucontext/UContext.cpp under several kernel threads: its
-- lock makes one step of each critical section, and the steps may come in any order.
use libcommunism.Base.{ℕ, ◌+◌, ◌^◌, ◌<◌, ◌≡◌, ◌≢◌, refl, none, some, arith, ◌==◌, if◌then◌else◌}
use libcommunism.UContext.{Contexts, next_id_loop, emplace, register, take}
use libcommunism.UContext.Ids.{IsBelow}

module _ {E : Type 0} where
  -- No thread has registered an entry point.
  abbrev pub initial : Contexts E
  initial = record { next_id = 0; info = λ q. none }

  -- A Prepare() registers, with a counter that does not overflow; an EntryStub() takes the entry
  -- point under an id other than `i`.
  pub data StepWithout (i : ℕ) : Contexts E → Contexts E → Type 0 where
    registers :
        {c d : Contexts E} {id : ℕ} (e : E)
        → c.next_id + 1 < 2 ^ 31
        → register e c ≡ some (id, d)
        → StepWithout i c d
    takes :
        {c d : Contexts E} {id : ℕ} {e : E} → id ≢ i → take id c ≡ some (e, d) → StepWithout i c d

  pub data StepsWithout (i : ℕ) : Contexts E → Contexts E → Type 0 where
    here : {c : Contexts E} → StepsWithout i c c
    next : {c d f : Contexts E} → StepWithout i c d → StepsWithout i d f → StepsWithout i c f

  -- An EntryStub() never has the id 0, so that a run without it is any run.
  abbrev pub IsReachable : Contexts E → Type 0
  IsReachable c = StepsWithout 0 initial c

  -- What a registration does, where the counter does not overflow.
  record Registers (e : E) (c : Contexts E) (id : ℕ) (d : Contexts E) : Type 0 where
    id_is : id ≡ c.next_id + 1
    counter : d.next_id ≡ c.next_id + 1
    info : (q : ℕ) → d.info q ≡ emplace (c.next_id + 1) e c.info q

  register-Registers :
      (e : E) (c d : Contexts E) (id : ℕ)
      → c.next_id + 1 < 2 ^ 31
      → register e c ≡ some (id, d)
      → Registers e c id d
  unfolding register
  register-Registers e c d id room run =
      let next : next_id_loop 2 c.next_id ≡ some (c.next_id + 1) =
        unfold next_id_loop in ground arith in
      record { id_is = ground arith; counter = ground arith; info = λ q. ground (arith, next) }

  step-IsBelow : {i : ℕ} {c d : Contexts E} → StepWithout i c d → IsBelow c → IsBelow d
  unfolding take emplace
  step-IsBelow (registers {c} {d} {id = id'} e room run) below id lt =
      let r = register-Registers e c d id' room run in
      ground (arith, r.info id, r.counter, below id)
  step-IsBelow (takes {c} {d} ne run) below id lt = ground (arith, below id)

  step_keeps :
      {i : ℕ} {c d : Contexts E} {e : E} → StepWithout i c d → c.info i ≡ some e → d.info i ≡ some e
  unfolding take emplace
  step_keeps {i} (registers {c} {d} {id = id'} e room run) held =
      let r = register-Registers e c d id' room run in ground (arith, r.info i, held)
  step_keeps (takes ne run) held = ground arith

  steps-IsBelow : {i : ℕ} {c d : Contexts E} → StepsWithout i c d → IsBelow c → IsBelow d
  steps-IsBelow here below = below
  steps-IsBelow (next step rest) below = steps-IsBelow rest (step-IsBelow step below)

  steps_keep :
      {i : ℕ} {c d : Contexts E} {e : E}
      → StepsWithout i c d
      → c.info i ≡ some e
      → d.info i ≡ some e
  steps_keep here held = held
  steps_keep (next step rest) held = steps_keep rest (step_keeps step held)

  pub info-register :
      (e : E) (c d d' : Contexts E) (id : ℕ)
      → IsReachable c
      → c.next_id + 1 < 2 ^ 31
      → register e c ≡ some (id, d)
      → StepsWithout id d d'
      → (c.info id ≡ none) × (d'.info id ≡ some e)
  info-register e c d d' id reached room run steps =
      let r = register-Registers e c d id room run in
      let below = steps-IsBelow reached (λ q lt. refl) in
      let unused : c.info id ≡ none = below id (omega (arith, r.id_is)) in
      let new : d.info id ≡ some e = unfold emplace in ground (arith, r.info id, r.id_is, unused) in
      (unused, steps_keep steps new)

  -- From any state that the steps reach, where the counter does not overflow, a Prepare() registers its
  -- entry point under an id that is not in use; whatever steps follow, as long as none is the
  -- EntryStub() of that id, that EntryStub() takes this entry point, and leaves none under the id.
  pub take-register :
      (e : E) (c d d' : Contexts E) (id : ℕ)
      → IsReachable c
      → c.next_id + 1 < 2 ^ 31
      → register e c ≡ some (id, d)
      → StepsWithout id d d'
      → (c.info id ≡ none) × (f : Contexts E) × (take id d' ≡ some (e, f)) × (take id f ≡ none)
  unfolding take emplace
  take-register e c d d' id reached room run steps =
      let (unused, held) = info-register e c d d' id reached room run steps in
      (
        unused,
        record d' { info = λ q. if id == q then none else d'.info q },
        rw (held, take) refl,
        ground arith,
      )
