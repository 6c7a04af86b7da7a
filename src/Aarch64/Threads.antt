-- ===== src/Aarch64/Threads.antt =====
-- Cothreads that switch by the code of src/arch/aarch64/AAPCS.S. The context of a cothread is at the
-- start of its stack, where its own code does not write.
use libcommunism.Base.{ℕ, ◌+◌, ◌^◌, ◌≤◌, ◌<◌, ◌≡◌, ◌≢◌, ◌⊎◌, refl, sym, ◌∙◌, arith}
use libcommunism.Memory.{Apart, Memory}
use libcommunism.Aarch64.Machine.{x0, x1, lr, State, exec, switch_code}
use libcommunism.Aarch64.Context.{Each, Each-map, Each-zip}
use libcommunism.Aarch64.Switch.{context, context_room, Switched, switch_code-Switched_arm}

-- Where the objects and the contexts of cothreads 0, 1, ... below `count` stand.
pub record Layout : Type 0 where
  pub count : ℕ
  pub obj : ℕ → ℕ
  pub area : ℕ → ℕ

-- The contexts are disjoint, and the fields that point to them are off them.
pub record IsLayout (l : Layout) : Type 0 where
  pub fits : (i : ℕ) → i < l.count → l.area i + 0xB0 < 2 ^ 64
  pub obj_fits : (i : ℕ) → i < l.count → l.obj i + 0x20 < 2 ^ 64
  pub disjoint :
      (i j : ℕ)
      → i < l.count
      → j < l.count
      → i ≢ j
      → (l.area i + 0xB0 ≤ l.area j) ⊎ (l.area j + 0xB0 ≤ l.area i)
  pub apart :
      (i j : ℕ) → i < l.count → j < l.count → Apart (l.area j) (l.area j + 0xB0) (l.obj i + 0x20)

module _ (l : Layout) where
  -- Every object points to its context.
  abbrev pub Points : Memory → Type 0
  Points m = (i : ℕ) → i < l.count → m (l.obj i + 0x20) ≡ l.area i

  -- Cothread `i` calls Switch(i, j).
  pub record CanLeave (i j : ℕ) (s : State) : Type 0 where
    pub from_arg : s.regs x0 ≡ l.obj i
    pub to_arg : s.regs x1 ≡ l.obj j
    pub known : i < l.count
    pub other : j < l.count
    pub differ : i ≢ j

  -- What a cothread's own code may do: anything to registers and to memory, but for the contexts
  -- and the fields that point to them.
  pub record Works (s t : State) : Type 0 where
    pub contexts :
        (j : ℕ) → j < l.count → (a : ℕ) → l.area j ≤ a → a < l.area j + 0xB0 → t.mem a ≡ s.mem a
    pub fields : (j : ℕ) → j < l.count → t.mem (l.obj j + 0x20) ≡ s.mem (l.obj j + 0x20)

  -- Runs of the machine, from cothread to cothread, in which no switch goes to cothread `i`.
  pub data RunsWithout (i : ℕ) : ℕ → State → ℕ → State → Type 0 where
    here : {k : ℕ} {s : State} → RunsWithout i k s k s
    work : {k m : ℕ} {s t u : State} → Works s t → RunsWithout i k t m u → RunsWithout i k s m u
    switch :
        {k j m : ℕ} {s u : State}
        → CanLeave k j s
        → j ≢ i
        → RunsWithout i j (exec switch_code s) m u
        → RunsWithout i k s m u

  module _ (ok : IsLayout l) where
    pub leave-Switched :
        (i j : ℕ) (s : State)
        → Points s.mem
        → CanLeave i j s
        → Switched (l.area i) (l.area j) s (exec switch_code s)
    leave-Switched i j s points k = switch_code-Switched_arm (l.area i) (l.area j) s record {
      from = rw k.from_arg (points i k.known);
      to = rw k.to_arg (points j k.other);
      from_fits = rw k.from_arg (ok.obj_fits i k.known);
      to_fits = rw k.to_arg (ok.obj_fits j k.other);
      here_fits = ok.fits i k.known;
      there_fits = ok.fits j k.other;
      apart = ok.disjoint i j k.known k.other k.differ;
    }

    -- Memory off the context of the cothread that leaves stays.
    pub left_alone :
        (i j : ℕ) (s : State)
        → Points s.mem
        → CanLeave i j s
        → (a : ℕ) → Apart (l.area i) (l.area i + 0xB0) a
        → (exec switch_code s).mem a ≡ s.mem a
    left_alone i j s points k a apart = (leave-Switched i j s points k).mem a (
        Each-map (λ r o. o < 0xB0) (λ r o. l.area i + o ≢ a) context
          (λ r o lt e. omega (arith, apart, lt, e)) context_room)

    pub leave-Points :
        (i j : ℕ) (s : State) → Points s.mem → CanLeave i j s → Points (exec switch_code s).mem
    leave-Points i j s points k n lt =
        left_alone i j s points k (l.obj n + 0x20) (ok.apart n i lt k.known) ∙ points n lt

    -- A run without a switch to `i` leaves the words of its context.
    runs_keep :
        (i : ℕ) {k m : ℕ} {s u : State}
        → RunsWithout i k s m u
        → i < l.count
        → i ≢ k
        → Points s.mem
        → Points u.mem
          × (i ≢ m)
          × ((a : ℕ) → l.area i ≤ a → a < l.area i + 0xB0 → u.mem a ≡ s.mem a)
    runs_keep i here lt ne points = (points, ne, λ a lo hi. refl)
    runs_keep i (work {s} {t} w rest) lt ne points =
        let (points', ne', same) =
          runs_keep i rest lt ne (λ n low. w.fields n low ∙ points n low) in
        (points', ne', λ a lo hi. same a lo hi ∙ w.contexts i lt a lo hi)
    runs_keep i (switch {k} {j} {s} leave other rest) lt ne points =
        let (points', ne', same) =
          runs_keep i rest lt (λ e. other (sym e)) (leave-Points k j s points leave) in
        (
          points',
          ne',
          λ a lo hi.
              same a lo hi
              ∙ left_alone k j s points leave a
                  (omega (arith, lo, hi, ok.disjoint i k lt leave.known ne)),
        )

    -- Over disjoint contexts, a cothread that leaves by Switch() goes on, when some cothread
    -- switches back to it, at its return address, with its stack pointer and with X19 to X29 and D8
    -- to D15 as they were, whichever cothreads ran in between and whatever they did to registers
    -- and memory, but for the contexts and the fields that point to them.
    pub round_trip_arm :
        (i j : ℕ) (s : State) {m : ℕ} {u : State}
        → Points s.mem
        → CanLeave i j s
        → RunsWithout i j (exec switch_code s) m u
        → CanLeave m i u
        → Each (λ r o. (exec switch_code u).regs r ≡ s.regs r) context
          × ((exec switch_code u).pc ≡ s.regs lr)
    round_trip_arm i j s {m} {u} points k run back =
        let out = leave-Switched i j s points k in
        let (points', ne, same) = runs_keep i run k.known k.differ (leave-Points i j s points k) in
        let into = leave-Switched m i u points' back in
        let kept : Each (λ r o. u.mem (l.area i + o) ≡ s.regs r) context =
          Each-zip (λ r o. (exec switch_code s).mem (l.area i + o) ≡ s.regs r) (λ r o. o < 0xB0)
            (λ r o. u.mem (l.area i + o) ≡ s.regs r) context
            (λ r o e lt. same (l.area i + o) (omega arith) (omega (arith, lt)) ∙ e) out.saved
            context_room in
        (
          Each-zip (λ r o. (exec switch_code u).regs r ≡ u.mem (l.area i + o))
              (λ r o. u.mem (l.area i + o) ≡ s.regs r)
              (λ r o. (exec switch_code u).regs r ≡ s.regs r) context (λ r o e f. e ∙ f) into.loaded
              kept,
          into.pc ∙ kept.1.0,
        )
