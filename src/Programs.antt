-- ===== src/Programs.antt =====
-- Programs over the class Cothread, as src/test has them: what a program does between two calls of
-- switchTo() is a function, and the calls go to the class over a backend that the C library carries
-- out, src/arch/setjmp or src/arch/ucontext.
pub mod Rounds
pub mod Scene
pub mod ContextSwitch
pub mod ReturnHandler
pub mod Benchmark
pub mod StackAccessors
use libcommunism.Base.{ℕ, suc, zero, Outcome, ok, terminated, ◌>>=◌}
use libcommunism.Saved.{SwitchTo}
use libcommunism.Cothread.{default_handler, user_handler, deref}
use libcommunism.Cothread.Processor.{Calls}
use libcommunism.Cothread.Places.{World, Program, call}

-- What comes after a stretch of a program: a call of Cothread::switchTo() for a cothread, at a place
-- in the program; the end of a cothread's entry point; or the end of the program.
pub data Stretch (K S : Type 0) : Type 0 where
  switches : (to : ℕ) (k : K) → S → Stretch K S
  returns : S → Stretch K S
  stops : S → Stretch K S

-- Where a stretch begins: at a cothread's entry point, or behind a call of switchTo().
pub data Spot (E K : Type 0) : Type 0 where
  entry : E → Spot E K
  behind : K → Spot E K

-- A program: the stretch from each spot, on the program's variables, and that of a return handler.
pub record Code (H E K S : Type 0) : Type 0 where
  pub from : Spot E K → S → Stretch K S
  pub handler : H → S → Stretch K S

-- `spot` is what the library's places are in the program.
module _ {T E K P B H S : Type 0} (switch_to : SwitchTo T K P B) (objects : ℕ → T)
    (calls : Calls (World K P B)) (spot : P → Spot E K) (code : Code H E K S) where
  abbrev pub Running : Type 0
  Running = Program H switch_to objects calls

  -- The stretch behind the end of an entry point: the return handler's. Where that comes to its own
  -- end, or the handler is the library's, the process is terminated.
  unfoldable pub handled : Stretch K S → Running → Outcome (Stretch K S)
  handled (switches to k s) r = ok (switches to k s)
  handled (stops s) r = ok (stops s)
  handled (returns s) r = elim r.handler [
    | default_handler ↦ terminated
    | user_handler h ↦ elim (code.handler h s) [
      | switches to k s ↦ ok (switches to k s)
      | returns s ↦ terminated
      | stops s ↦ ok (stops s)
    ]
  ]

  -- Where a run stands: at the start of a stretch, or at the end of the program.
  pub data Progress : Type 0 where
    at_place : P → S → Running → Progress
    stopped : S → Running → Progress

  -- A stretch, and the call that ends it.
  unfoldable pub round : P → S → Running → Outcome Progress
  unfolding handled
  round p s r = do
    stretch ← handled (code.from (spot p) s) r
    elim stretch [
      | switches to k s ↦ do
        q ← call H switch_to objects calls to k r
        next ← deref q.world.goes
        ok (at_place next s q)
      | stops s ↦ ok (stopped s r)
      | returns s ↦ terminated
    ]

  -- At most `fuel` stretches.
  unfoldable pub run : (fuel : ℕ) → P → S → Running → Outcome Progress
  unfolding round
  run zero p s r = ok (at_place p s r)
  run (suc n) p s r = do
    progress ← round p s r
    elim progress [ at_place p s r ↦ run n p s r | stopped s r ↦ ok (stopped s r) ]
