-- ===== src/Cothread/Places.antt =====
-- The class Cothread of src/Cothread.cpp over a backend whose switchTo() the C library carries out:
-- src/arch/setjmp and src/arch/ucontext. What the backend's other calls do is a parameter.
use libcommunism.Base.{
  ℕ, ◌≡◌, ◌≢◌, refl, sym, ap, ◌∙◌, Option, some, Outcome, ok, ◌>>=◌, List, [], ◌∷◌, map,
}
use libcommunism.Saved.{SwitchTo, Saves, Avoids, after, switch_to-after}
use libcommunism.Cothread.{Backend, Cothread, Runtime, switch_to}
use libcommunism.Cothread.Processor.{Calls, processor}
use libcommunism.Cothread.Chain.{IsThread, AreThreads, AreThreads-moved, switch_to-ok, last}

-- What the library keeps; `at` is the place of the program's next call of switchTo(), and `goes` the
-- one at which the program goes on behind the latest.
pub record World (K P B : Type 0) : Type 0 where
  pub buffers : B
  pub at : K
  pub goes : Option P

module _ {T K P B : Type 0} (switches : SwitchTo T K P B) (objects : ℕ → T) where
  -- The backend's switchTo() for the objects behind two pointers.
  abbrev pub switch_world : (this from : ℕ) → World K P B → World K P B
  switch_world this from w =
      let (b, p) = switches (objects this) (objects from) w.at w.buffers in
      record w { buffers = b; goes = p }

  abbrev pub backend : Calls (World K P B) → Backend
  backend calls = processor switch_world calls

-- No call of a row is for the cothread that makes it; `from` makes the first.
abbrev pub Leaves : {K : Type 0} → (from : ℕ) → List (ℕ × K) → Type 0
Leaves from [] = Unit {0}
Leaves from ((t, k) ∷ ts) = (t ≢ from) × Leaves t ts

-- Calls of Cothread::switchTo(), each by its target and its place in the program.
abbrev pub targets : {K : Type 0} → List (ℕ × K) → List ℕ
targets = map (λ c. c.0)

module _ {T : Type 0} (objects : ℕ → T) (threads : ℕ → Cothread) where
  -- The backend's object of a Cothread object, and the backend's switches of a row of calls.
  abbrev pub object : ℕ → T
  object t = objects (threads t).impl

  abbrev pub moves : {K : Type 0} → List (ℕ × K) → List (T × K)
  moves = map (λ c. (object c.0, c.1))

module _ {T K P B : Type 0} (H : Type 0) (switches : SwitchTo T K P B) (objects : ℕ → T)
    (calls : Calls (World K P B)) where
  abbrev pub Program : Type 0
  Program = Runtime H (backend switches objects calls)

  -- A call of Cothread::switchTo() for `t` at the place `k` in the program, and a row of them.
  abbrev pub call : ℕ → K → Program → Outcome Program
  call t k r =
      switch_to (backend switches objects calls) t (record r { world = record r.world { at = k } })

  unfoldable pub run_calls : List (ℕ × K) → Program → Outcome Program
  run_calls [] r = ok r
  run_calls ((t, k) ∷ ts) r = call t k r >>= run_calls ts

  module _ (threads : ℕ → Cothread) where
    abbrev pub Alive : Program → ℕ → Type 0
    Alive = IsThread (backend switches objects calls) threads

    abbrev pub AllAlive : Program → List ℕ → Type 0
    AllAlive = AreThreads (backend switches objects calls) threads

    -- The program behind a call.
    abbrev pub called : ℕ → K → Program → Program
    called t k r =
        let (b, p) =
          switches (object objects threads t) (object objects threads r.current) k
            r.world.buffers in
        record r { current = t; world = record { buffers = b; at = k; goes = p } }

    pub call-called :
        (t : ℕ) (k : K) (r : Program)
        → Alive r r.current
        → Alive r t
        → call t k r ≡ ok (called t k r)
    call-called t k r h g =
        switch_to-ok (backend switches objects calls) threads
          (record r { world = record r.world { at = k } }) t h g

    -- A row of calls returns, with the last target current, and the library's state as after the
    -- backend's switches.
    rest_lem :
        (ts : List (ℕ × K)) (r : Program)
        → Alive r r.current
        → AllAlive r (targets ts)
        → (w : World K P B) × (run_calls ts r
            ≡ ok (record r { current = last r.current (targets ts); world = w }))
          × (after switches
                (moves objects threads ts)
                (object objects threads r.current)
                r.world.buffers
              ≡ (object objects threads (last r.current (targets ts)), w.buffers))
          × Alive r (last r.current (targets ts))
    unfolding run_calls after last
    rest_lem [] r h hs = (r.world, refl, refl, h)
    rest_lem ((t, k) ∷ ts) r h hs =
        let (w, run, same, alive) = rest_lem ts (called t k r) hs.0 (
          AreThreads-moved (backend switches objects calls) threads r t (called t k r).world
            (targets ts) hs.1) in
        (w, rw (call-called t k r h hs.0) run, same, alive)

    module _ (buffer : T → ℕ) (place : K → P) (saved : ℕ → B → Option P)
        (law : Saves buffer place saved switches) where
      -- A call by which the current cothread leaves, calls that do not go to it, and a call for it.
      pub call-call :
          (j : ℕ) (k l : K) (ts : List (ℕ × K)) (r : Program)
          → Alive r r.current
          → Alive r j
          → AllAlive r (targets ts)
          → buffer (object objects threads j) ≢ buffer (object objects threads r.current)
          → Avoids buffer (object objects threads r.current) (moves objects threads ts)
          → (z : Program) × ((call j k r >>= (λ q. run_calls ts q >>= call r.current l)) ≡ ok z)
            × (z.current ≡ r.current)
            × (z.world.goes ≡ some (place k))
      call-call j k l ts r here there alive differ out =
          let q = called j k r in
          let moved = AreThreads-moved (backend switches objects calls) threads r j q.world in
          let (w, run, same, last_alive) = rest_lem ts q there (moved (targets ts) alive) in
          let u : Program = record q { current = last j (targets ts); world = w } in
          (
            called r.current l u,
            rw (call-called j k r here there, run) (call-called r.current l u last_alive here),
            refl,
            sym (ap (λ c. (switches (object objects threads r.current) c.0 l c.1).1) same)
                ∙ switch_to-after buffer place saved switches law (moves objects threads ts)
                    (object objects threads r.current) (object objects threads j) k l
                    r.world.buffers differ out,
          )
