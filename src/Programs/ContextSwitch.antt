-- ===== src/Programs/ContextSwitch.antt =====
-- src/test/src/basic.cpp: "context switch between main, cothread, and back".
use libcommunism.Base.{ℕ, ◌+◌, ◌≡◌, refl, ◌∙◌, Option, ok}
use libcommunism.Saved.{SwitchTo, Saves}
use libcommunism.Cothread.{Cothread}
use libcommunism.Cothread.Processor.{Calls}
use libcommunism.Cothread.Places.{World, Program}
use libcommunism.Programs.{
  Stretch, switches, stops, returns, Spot, entry, behind, Code, run, stopped, handled,
}
use libcommunism.Programs.Scene.{IsScene, back, run-back}
use libcommunism.Programs.Rounds.{run-stops}

-- The lines at which the program calls switchTo(), and the one at which it starts.
pub data Line : Type 0 where
  starts t1_switches main_switches : Line

-- The program, on its `counter`.
unfoldable pub code : (H E : Type 0) (main t1 : ℕ) → Code H E Line ℕ
code H E main t1 = record { from = from; handler = λ h s. returns s }
  where
    from : Spot E Line → ℕ → Stretch Line ℕ
    from (behind starts) counter = switches t1 t1_switches 0
    from (entry e) counter = switches main main_switches (counter + 1)
    from (behind main_switches) counter = returns counter
    from (behind t1_switches) counter = stops counter

module _ {T E P B : Type 0} (H : Type 0) (switch_to : SwitchTo T Line P B) (objects : ℕ → T)
    (calls : Calls (World Line P B)) (spot : P → Spot E Line) (threads : ℕ → Cothread)
    (buffer : T → ℕ) (place : Line → P) (saved : ℕ → B → Option P)
    (law : Saves buffer place saved switch_to) (spots : (k : Line) → spot (place k) ≡ behind k)
    (main t1 : ℕ) where
  -- Over a C library that saves and resumes places as documented: the program ends with `main` current
  -- and with a counter of 1, as it requires, whatever the counter was before.
  pub run-context_switch :
      (p : P) (e : E) (r : Program H switch_to objects calls) (counter : ℕ)
      → IsScene H switch_to objects calls spot threads buffer saved main t1 p r
      → spot p ≡ entry e
      → (z : Program H switch_to objects calls) × (run switch_to objects calls spot
            (code H E main t1)
            3
            (place starts)
            counter
            r
          ≡ ok (stopped 1 z))
        × (z.current ≡ main)
  unfolding code handled
  run-context_switch p e r counter scene first = (
    back H switch_to objects calls spot threads buffer saved main t1 place law p t1_switches
        main_switches r scene,
    run-back H switch_to objects calls spot threads buffer saved main t1 place law p t1_switches
          main_switches r scene (code H E main t1) 1 (place starts) counter 0 1
          (rw (spots starts) refl) (rw first refl)
        ∙ run-stops switch_to objects calls spot (code H E main t1) threads 0 (place t1_switches) 1
            1 _ (rw (spots t1_switches) refl),
    refl,
  )
