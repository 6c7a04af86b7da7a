-- ===== src/Programs/ReturnHandler.antt =====
-- src/test/src/basic.cpp: "test return handler".
use libcommunism.Base.{ℕ, ◌≡◌, refl, ◌∙◌, Option, ok}
use libcommunism.Saved.{SwitchTo, Saves}
use libcommunism.Cothread.{Cothread, set_return_handler}
use libcommunism.Cothread.Processor.{Calls}
use libcommunism.Cothread.Places.{World, Program, backend}
use libcommunism.Programs.{
  Stretch, switches, stops, returns, Spot, entry, behind, Code, run, stopped, handled,
}
use libcommunism.Programs.Scene.{IsScene, back, run-back}
use libcommunism.Programs.Rounds.{run-stops}

-- The lines at which the program calls switchTo(), and the one at which it starts.
pub data Line : Type 0 where
  starts t1_switches handler_switches : Line

pub record Counters : Type 0 where
  pub counter1 : ℕ
  pub counter2 : ℕ

-- The program, with its return handler.
unfoldable pub code : (H E : Type 0) (main t1 : ℕ) → Code H E Line Counters
code H E main t1 = record {
  from = from;
  handler = λ h s. switches main handler_switches (record s { counter2 = 420 });
}
  where
    from : Spot E Line → Counters → Stretch Line Counters
    from (behind starts) s = switches t1 t1_switches s
    from (entry e) s = returns (record s { counter1 = 69 })
    from (behind handler_switches) s = returns s
    from (behind t1_switches) s = stops s

module _ {T E P B : Type 0} (H : Type 0) (switch_to : SwitchTo T Line P B) (objects : ℕ → T)
    (calls : Calls (World Line P B)) (spot : P → Spot E Line) (threads : ℕ → Cothread)
    (buffer : T → ℕ) (place : Line → P) (saved : ℕ → B → Option P)
    (law : Saves buffer place saved switch_to) (spots : (k : Line) → spot (place k) ≡ behind k)
    (main t1 : ℕ) where
  -- Over a C library that saves and resumes places as documented: with the counters at 0 and the
  -- return handler set, the program ends with `main` current and with the counters at 69 and at 420,
  -- as it requires: the end of the entry point has called the handler.
  pub run-return_handler :
      (p : P) (e : E) (h : H) (r : Program H switch_to objects calls)
      → IsScene H switch_to objects calls spot threads buffer saved main t1 p r
      → spot p ≡ entry e
      → (z : Program H switch_to objects calls) × (run switch_to objects calls spot
            (code H E main t1)
            3
            (place starts)
            (record { counter1 = 0; counter2 = 0 })
            (set_return_handler (backend switch_to objects calls) h r)
          ≡ ok (stopped (record { counter1 = 69; counter2 = 420 }) z))
        × (z.current ≡ main)
  unfolding code handled set_return_handler
  run-return_handler p e h r scene first =
      let none : Counters = record { counter1 = 0; counter2 = 0 } in
      let both : Counters = record { counter1 = 69; counter2 = 420 } in
      let set = set_return_handler (backend switch_to objects calls) h r in
      let ready : IsScene H switch_to objects calls spot threads buffer saved main t1 p set =
        record {
          current = scene.current;
          main_alive = scene.main_alive;
          t1_alive = scene.t1_alive;
          differ = scene.differ;
          leads = scene.leads;
        } in
      (
        back H switch_to objects calls spot threads buffer saved main t1 place law p t1_switches
            handler_switches set ready,
        run-back H switch_to objects calls spot threads buffer saved main t1 place law p t1_switches
              handler_switches set ready (code H E main t1) 1 (place starts) none none both
              (rw (spots starts) refl) (rw first refl)
            ∙ run-stops switch_to objects calls spot (code H E main t1) threads 0
                (place t1_switches) both both _ (rw (spots t1_switches) refl),
        refl,
      )
