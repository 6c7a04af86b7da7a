-- ===== src/Cothread/KernelThreads.antt =====
-- src/Cothread.cpp under several kernel threads: gCurrent is thread_local, gReturnHandler and the Cothread
-- objects are the process's. A call of switchTo() is one step,
-- which says nothing of a call for a cothread that a kernel thread is executing.
use libcommunism.Base.{
  arith, ℕ, ◌≡◌, ◌≢◌, refl, some, Outcome, ok, ◌>>=◌, List, [], ◌∷◌, ◌==◌, if◌then◌else◌,
  Bool-cases, inl, inr, ◌∙◌, Option,
}
use libcommunism.Cothread.{Backend, Cothread, Handler, Runtime, switch_to}
use libcommunism.Cothread.Chain.{last, switch_to-ok}

-- The process; `currents` has the gCurrent of each kernel thread.
pub record Process (H : Type 0) (b : Backend) : Type 0 where
  pub currents : ℕ → ℕ
  pub handler : Handler H
  pub threads : ℕ → Option Cothread
  pub world : b.World

abbrev pub set_current : (ℕ → ℕ) → ℕ → ℕ → ℕ → ℕ
set_current currents i t j = if i == j then t else currents j

module _ {H : Type 0} (b : Backend) where
  -- What kernel thread `i` sees, and the process after a call by it.
  abbrev pub view : ℕ → Process H b → Runtime H b
  view i s = record {
    current = s.currents i;
    handler = s.handler;
    threads = s.threads;
    world = s.world;
  }

  abbrev pub store : ℕ → Runtime H b → Process H b → Process H b
  store i r s = record {
    currents = set_current s.currents i r.current;
    handler = r.handler;
    threads = r.threads;
    world = r.world;
  }

  -- A call of switchTo() for `t` by kernel thread `i`, and a row of calls by any of them.
  unfoldable pub switch_to_on : (i t : ℕ) → Process H b → Outcome (Process H b)
  switch_to_on i t s = do r ← switch_to b t (view i s); ok (store i r s)

  unfoldable pub run_on : List (ℕ × ℕ) → Process H b → Outcome (Process H b)
  run_on [] s = ok s
  run_on ((i, t) ∷ ts) s = switch_to_on i t s >>= run_on ts

-- The targets of the calls that kernel thread `i` makes.
unfoldable pub own : ℕ → List (ℕ × ℕ) → List ℕ
own i [] = []
own i ((j, t) ∷ ts) = let rest = own i ts in if j == i then t ∷ rest else rest

-- Each kernel thread's gCurrent behind the calls.
unfoldable pub lasts : List (ℕ × ℕ) → (ℕ → ℕ) → ℕ → ℕ
lasts [] c = c
lasts ((i, t) ∷ ts) c = lasts ts (set_current c i t)

lasts-last : (i : ℕ) (ts : List (ℕ × ℕ)) (c : ℕ → ℕ) → lasts ts c i ≡ last (c i) (own i ts)
unfolding lasts own last
lasts-last i [] c = refl
lasts-last i ((j, t) ∷ ts) c = elim (Bool-cases (j == i)) [
  | inl e ↦ rw e (lasts-last i ts (set_current c j t) ∙ rw e refl)
  | inr e ↦ rw e (lasts-last i ts (set_current c j t) ∙ rw e refl)
]

module _ (b : Backend) (at : ℕ → Cothread) where
  -- The backend's switches, each from the cothread that is current on the caller's kernel thread.
  unfoldable pub switches_on : List (ℕ × ℕ) → (ℕ → ℕ) → b.World → b.World
  switches_on [] c w = w
  switches_on ((i, t) ∷ ts) c w =
      switches_on ts (set_current c i t) (b.switch_to (at t).impl (at (c i)).impl w)

  -- The object lives at its address.
  abbrev pub IsLive : (ℕ → Option Cothread) → ℕ → Type 0
  IsLive threads t = (t ≢ 0) × (threads t ≡ some (at t))

  -- The cothreads that are current on the callers' kernel threads, and the targets, live, and no
  -- target is being executed, by the caller's kernel thread or another, when the call is made.
  abbrev pub AreLive : (ℕ → Option Cothread) → (ℕ → ℕ) → List (ℕ × ℕ) → Type 0
  AreLive threads c [] = Unit {0}
  AreLive threads c ((i, t) ∷ ts) =
      IsLive threads (c i)
      × IsLive threads t
      × ((m : ℕ) → c m ≢ t)
      × AreLive threads (set_current c i t) ts

  lasts_apart :
      (threads : ℕ → Option Cothread) (ts : List (ℕ × ℕ)) (c : ℕ → ℕ)
      → AreLive threads c ts
      → ((m n : ℕ) → m ≢ n → c m ≢ 0 → c m ≢ c n)
      → (i j : ℕ) → i ≢ j
      → c i ≢ 0
      → lasts ts c i ≢ lasts ts c j
  unfolding lasts
  lasts_apart threads [] c live apart i j ne at_one = apart i j ne at_one
  lasts_apart threads ((k, t) ∷ ts) c live apart i j ne at_one =
      lasts_apart threads ts (set_current c k t) live.3
        (λ m n diff. ground (arith, apart m n, live.2 m, live.2 n, live.1.0)) i j ne
        (ground (arith, live.1.0))

  runs_lem :
      {H : Type 0} (ts : List (ℕ × ℕ)) (s : Process H b)
      → AreLive s.threads s.currents ts
      → run_on b ts s
        ≡ ok
            (record s { currents = lasts ts s.currents; world = switches_on ts s.currents s.world })
  unfolding run_on switch_to_on lasts switches_on
  runs_lem [] s live = refl
  runs_lem ((i, t) ∷ ts) s live = rw (switch_to-ok b at (view b i s) t live.0 live.1) (
      runs_lem ts
        (record s {
          currents = set_current s.currents i t;
          world = b.switch_to (at t).impl (at (s.currents i)).impl s.world;
        })
        live.3)

  -- Whatever the order in which kernel threads call switchTo(), where the cothreads live that are
  -- current on the callers' threads and those that the calls are for, no call is for a cothread
  -- that is being executed then, and no two kernel threads execute one cothread at first: no call
  -- fails, the backend switches each time from the cothread that is current on the caller's own
  -- thread, on every kernel thread that one is the target of the thread's own last call, and
  -- a kernel thread that executes a cothread shares it with no other behind the calls.
  pub run_on-switches_on :
      {H : Type 0} (ts : List (ℕ × ℕ)) (s : Process H b)
      → AreLive s.threads s.currents ts
      → ((m n : ℕ) → m ≢ n → s.currents m ≢ 0 → s.currents m ≢ s.currents n)
      → (i j : ℕ) → i ≢ j
      → s.currents i ≢ 0
      → (run_on b ts s
          ≡ ok (record s {
            currents = lasts ts s.currents;
            world = switches_on ts s.currents s.world;
          }))
        × (lasts ts s.currents i ≡ last (s.currents i) (own i ts))
        × (lasts ts s.currents i ≢ lasts ts s.currents j)
  run_on-switches_on ts s live apart i j ne at_one = (
    runs_lem ts s live,
    lasts-last i ts s.currents,
    lasts_apart s.threads ts s.currents live apart i j ne at_one,
  )
