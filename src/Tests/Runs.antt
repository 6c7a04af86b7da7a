-- ===== src/Tests/Runs.antt =====
-- A backend that records its switches, and programs over it.
use libcommunism.Base.{
  ℕ, ◌+◌, ◌≡◌, ◌≢◌, refl, Option, none, some, Outcome, ok, List, [], ◌∷◌, ◌>>=◌, arith, ◌==◌,
  if◌then◌else◌,
}
use libcommunism.Impl.{word64}
use libcommunism.Cothread.{
  Backend, Cothread, Runtime, default_handler, user_handler, update, of_impl, destroy,
}
use libcommunism.Cothread.Chain.{last}
use libcommunism.Cothread.KernelThreads.{
  Process, run_on, lasts, own, switches_on, run_on-switches_on,
}
use libcommunism.Cothread.Construct.{construct, destroy-construct_in_place}
use libcommunism.X86.Returned as X86
use libcommunism.Amd64.Returned as Amd64
use libcommunism.Amd64.SysV as SysV
use libcommunism.Amd64.Windows as Windows
use libcommunism.Aarch64.Returned as Aarch64

-- The calls of a backend, the last one first.
pub data Call : Type 0 where
  switched : (this from : ℕ) → Call
  deleted destroyed : ℕ → Call

abbrev pub recorder : Backend
recorder = record {
  World = List Call;
  alloc_kernel_thread_wrapper = λ w. (w, 50);
  new_cothread = λ w. (w, 10);
  switch_to = λ this from w. switched this from ∷ w;
  delete_impl = λ p w. deleted p ∷ w;
  destroy_impl = λ p w. destroyed p ∷ w;
  get_stack = λ p w. 0;
  get_stack_size = λ p w. 0;
}

-- The Cothread at `p` has its implementation at `p + 100`.
abbrev at : ℕ → Cothread
at p = of_impl p (p + 100)

abbrev threads : ℕ → Option Cothread
threads p = if p == 0 then none else some (at p)

-- Before the first call of Current(), and with cothread 20 running. A handler of the program's own
-- is the number of a cothread that it switches to.
abbrev fresh : Runtime ℕ recorder
fresh = record { current = 0; handler = default_handler; threads = threads; world = [] }

abbrev running : Runtime ℕ recorder
running = record fresh { current = 20 }

-- A handler that records the cothread that it is given, and returns.
abbrev pub counting : Runtime ℕ recorder → Runtime ℕ recorder
counting r = record r { world = deleted r.current ∷ r.world }

abbrev pub count_handler : ℕ → ℕ → Runtime ℕ recorder → Outcome (Runtime ℕ recorder)
count_handler h c r = ok (record r { world = deleted c ∷ r.world })

-- Kernel threads 0 and 1, on cothreads 20 and 30: thread 0 goes to 40, thread 1 to 50, and thread 0 back.
abbrev process : Process ℕ recorder
process = record {
  currents = λ i. if i == 0 then 20 else (if i == 1 then 30 else 0);
  handler = default_handler;
  threads = threads;
  world = [];
}

run_on-switches_on_example :
    (run_on recorder ((0, 40) ∷ (1, 50) ∷ (0, 20) ∷ []) process
      ≡ ok (record process {
        currents = lasts ((0, 40) ∷ (1, 50) ∷ (0, 20) ∷ []) process.currents;
        world = switched 120 140 ∷ switched 150 130 ∷ switched 140 120 ∷ [];
      }))
    × (lasts ((0, 40) ∷ (1, 50) ∷ (0, 20) ∷ []) process.currents 1 ≡ 50)
    × (lasts ((0, 40) ∷ (1, 50) ∷ (0, 20) ∷ []) process.currents 1
        ≢ lasts ((0, 40) ∷ (1, 50) ∷ (0, 20) ∷ []) process.currents 0)
unfolding switches_on own last
run_on-switches_on_example =
    run_on-switches_on recorder at ((0, 40) ∷ (1, 50) ∷ (0, 20) ∷ []) process
      (
        (λ e. omega (arith, e), refl),
        (λ e. omega (arith, e), refl),
        λ m. ground arith,
        (
          (λ e. omega (arith, e), refl),
          (λ e. omega (arith, e), refl),
          λ m. ground arith,
          ((λ e. omega (arith, e), refl), (λ e. omega (arith, e), refl), λ m. ground arith, tt),
        ),
      )
      (λ m n ne at_one. ground arith) 1 0 (λ e. omega (arith, e)) (λ e. omega (arith, e))

abbrev build : ℕ → List Call → Outcome (List Call)
build p w = ok w

destroy-construct_in_place_example :
    (construct {H = ℕ} recorder word64
        (record { size_of = 64; align_of = 8 })
        (λ w. (w, 700))
        build
        60
        64
        fresh
      >>= destroy recorder 60)
    ≡ ok (record fresh { threads = update threads 60 none; world = destroyed 64 ∷ [] })
destroy-construct_in_place_example =
    destroy-construct_in_place recorder word64 (record { size_of = 64; align_of = 8 })
      (λ w. (w, 700)) build 60 64 fresh refl refl

-- A cothread with a handler of the program's own.
abbrev pub handled : Runtime ℕ recorder
handled = record running { handler = user_handler 3 }

abbrev leave : Runtime ℕ recorder → Outcome (Runtime ℕ recorder)
leave r = ok (record r { world = destroyed 1 ∷ r.world })

abbrev pub left : Runtime ℕ recorder
left = record handled { world = destroyed 1 ∷ [] }
