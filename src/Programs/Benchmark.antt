-- ===== src/Programs/Benchmark.antt =====
-- src/test/src/timing.cpp: the benchmark of context switches. How often its body is measured is Catch2's
-- choice.
use libcommunism.Base.{ℕ, zero, suc, ◌+◌, ◌*◌, ◌≡◌, refl, ◌∙◌, Option, ok, arith}
use libcommunism.Saved.{SwitchTo, Saves}
use libcommunism.Cothread.{Cothread}
use libcommunism.Cothread.Processor.{Calls}
use libcommunism.Cothread.Places.{World, Program}
use libcommunism.Programs.{
  Stretch, switches, stops, returns, Spot, entry, behind, Code, run, stopped, handled,
}
use libcommunism.Programs.Scene.{IsScene, back-IsScene, run-back}
use libcommunism.Programs.Rounds.{run-stops}

-- The lines at which the program calls switchTo(), and the one at which it starts.
pub data Line : Type 0 where
  starts t1_switches main_switches : Line

-- The calls that are still to be measured, those that have returned, and the rounds of the loop in the
-- cothread.
pub record Meter : Type 0 where
  pub left : ℕ
  pub measured : ℕ
  pub rounds : ℕ

unfoldable pub measure : (t1 : ℕ) → Meter → Stretch Line Meter
measure t1 s = elim s.left [
  | zero ↦ stops s
  | suc n ↦ switches t1 t1_switches (record s { left = n })
]

unfoldable pub code : (H E : Type 0) (main t1 : ℕ) → Code H E Line Meter
unfolding measure
code H E main t1 = record { from = from; handler = λ h s. returns s }
  where
    -- while(1) { main->switchTo(); }
    loop : Meter → Stretch Line Meter
    loop s = switches main main_switches (record s { rounds = s.rounds + 1 })

    from : Spot E Line → Meter → Stretch Line Meter
    from (behind starts) s = measure t1 s
    from (behind t1_switches) s = measure t1 (record s { measured = s.measured + 1 })
    from (entry e) s = loop s
    from (behind main_switches) s = loop s

module _ {T E P B : Type 0} (H : Type 0) (switch_to : SwitchTo T Line P B) (objects : ℕ → T)
    (calls : Calls (World Line P B)) (spot : P → Spot E Line) (threads : ℕ → Cothread)
    (buffer : T → ℕ) (place : Line → P) (saved : ℕ → B → Option P)
    (law : Saves buffer place saved switch_to) (spots : (k : Line) → spot (place k) ≡ behind k)
    (main t1 : ℕ) where
  abbrev Scene : P → Program H switch_to objects calls → Type 0
  Scene = IsScene H switch_to objects calls spot threads buffer saved main t1

  -- The program runs from `q` to its end, with `main` current.
  Ends : ℕ → P → Meter → Program H switch_to objects calls → (measured rounds : ℕ) → Type 0
  Ends n q s r measured rounds =
      (z : Program H switch_to objects calls) × (run switch_to objects calls spot (code H E main t1)
          n q s r
        ≡ ok (stopped (record { left = 0; measured = measured; rounds = rounds }) z))
      × (z.current ≡ main)

  -- A measured call, from a place at which the program is about to measure.
  measured_call :
      (f measured rounds : ℕ) (q p : P) (s u : Meter) (r : Program H switch_to objects calls)
      → Scene p r
      → handled switch_to objects calls spot
          (code H E main t1)
          ((code H E main t1).from (spot q) s)
          r
        ≡ ok (switches t1 t1_switches u)
      → ((x : Program H switch_to objects calls)
          → handled switch_to objects calls spot
              (code H E main t1)
              ((code H E main t1).from (spot p) u)
              x
            ≡ ok (switches main main_switches (record u { rounds = u.rounds + 1 })))
      → ((x : Program H switch_to objects calls)
          → Scene (place main_switches) x
          → Ends f (place t1_switches) (record u { rounds = u.rounds + 1 }) x measured rounds)
      → Ends (suc (suc f)) q s r measured rounds
  unfolding Ends
  measured_call f measured rounds q p s u r scene leave return rest =
      let (z, runs, current) = rest _ (
        back-IsScene H switch_to objects calls spot threads buffer saved main t1 place law p
          t1_switches main_switches r scene) in
      (
        z,
        run-back H switch_to objects calls spot threads buffer saved main t1 place law p t1_switches
              main_switches r scene (code H E main t1) f q s _ _ leave (return _)
            ∙ runs,
        current,
      )

  -- Two stretches for each call, and the last.
  stretches : ℕ → ℕ
  stretches zero = 1
  stretches (suc n) = suc (suc (stretches n))

  -- From behind a measured call.
  measures :
      (n d c measured rounds : ℕ) (r : Program H switch_to objects calls)
      → Scene (place main_switches) r
      → d + 1 + n ≡ measured
      → c + n ≡ rounds
      → Ends
          (stretches n)
          (place t1_switches)
          (record { left = n; measured = d; rounds = c })
          r
          measured
          rounds
  unfolding stretches Ends code measure handled
  measures zero d c measured rounds r scene e f = (
    r,
    run-stops switch_to objects calls spot (code H E main t1) threads 0 (place t1_switches) _
        (record { left = 0; measured = measured; rounds = rounds }) r
        (rw (spots t1_switches) (ground arith)),
    scene.current,
  )
  measures (suc n) d c measured rounds r scene e f =
      measured_call (stretches n) measured rounds (place t1_switches) (place main_switches)
        (record { left = suc n; measured = d; rounds = c })
        (record { left = n; measured = d + 1; rounds = c }) r scene (rw (spots t1_switches) refl)
        (λ x. rw (spots main_switches) refl)
        (λ x there. measures n (d + 1) (c + 1) measured rounds x there (omega arith) (omega arith))

  stretches_lem : (n : ℕ) → stretches n ≡ n * 2 + 1
  unfolding stretches
  stretches_lem zero = refl
  stretches_lem (suc n) = omega (arith, stretches_lem n)

  -- Over a C library that saves and resumes places as documented: however many calls are to be
  -- measured, every measured call of switchTo() returns, after one round of the cothread's endless
  -- loop for each of them, and the program ends with `main` current.
  pub run-benchmark :
      (n : ℕ) (p : P) (e : E) (r : Program H switch_to objects calls)
      → Scene p r
      → spot p ≡ entry e
      → (z : Program H switch_to objects calls) × (run switch_to objects calls spot
            (code H E main t1)
            (n * 2 + 1)
            (place starts)
            (record { left = n; measured = 0; rounds = 0 })
            r
          ≡ ok (stopped (record { left = 0; measured = n; rounds = n }) z))
        × (z.current ≡ main)
  unfolding Ends code measure handled stretches
  run-benchmark zero p e r scene first = (
    r,
    run-stops switch_to objects calls spot (code H E main t1) threads 0 (place starts) _
        (record { left = 0; measured = 0; rounds = 0 }) r (rw (spots starts) refl),
    scene.current,
  )
  run-benchmark (suc n) p e r scene first = rw (← stretches_lem (suc n)) (
      measured_call (stretches n) (suc n) (suc n) (place starts) p
        (record { left = suc n; measured = 0; rounds = 0 })
        (record { left = n; measured = 0; rounds = 0 }) r scene (rw (spots starts) refl)
        (λ x. rw first refl)
        (λ x there. measures n 0 1 (suc n) (suc n) x there (omega arith) (omega arith)))
