-- ===== src/Aarch64/Cothreads.antt =====
-- Cothreads of src/Cothread.cpp that switch by the code of src/arch/aarch64/AAPCS.S.
use libcommunism.Base.{ℕ, ◌<◌, ◌≡◌, ◌≢◌, refl, sym, ap, ◌∙◌, false, some, ok, ok-inj, arith, ◌==◌}
use mathlib.Core.Path.{subst}
use package.libcommunism.Machine.{set_reg}
use libcommunism.Aarch64.Machine.{
  x0, x1, lr, Reg-discrete, bl, State, step, exec, switch_code, switch_to,
}
use libcommunism.Aarch64.Context.{Each}
use libcommunism.Aarch64.Switch.{context}
use libcommunism.Aarch64.Threads.{
  Layout, IsLayout, Points, CanLeave, Works, leave-Points, left_alone, leave-Switched,
}
use libcommunism.Aarch64.Threads
use libcommunism.Cothread.{Backend, Cothread, Runtime, current}
use libcommunism.Cothread
use libcommunism.Cothread.Processor.{Calls, processor}

module _ (H : Type 0) (entry next : ℕ) (calls : Calls State) (l : Layout) (at : ℕ → ℕ) where
  abbrev b : Backend
  b = processor (switch_to entry next) calls

  -- Cothread objects over this backend, at the addresses `at` 0, `at` 1, ...
  abbrev pub Program : Type 0
  Program = Runtime H b

  -- The objects have the layout's as their implementations, which point to their contexts; gCurrent
  -- is the cothread `k`.
  pub record IsConsistent (k : ℕ) (r : Program) : Type 0 where
    pub threads :
        (i : ℕ) → i < l.count → (c : Cothread) × (r.threads (at i) ≡ some c) × (c.impl ≡ l.obj i)
    pub alive : (i : ℕ) → i < l.count → at i ≢ 0
    pub known : k < l.count
    pub current : r.current ≡ at k
    pub points : Points l r.world.mem

  -- Runs of a program, from cothread to cothread, in which no call of Cothread::switchTo() is for
  -- cothread `i`.
  pub data RunsWithout (i : ℕ) : ℕ → Program → ℕ → Program → Type 0 where
    here : {k : ℕ} {r : Program} → RunsWithout i k r k r
    work :
        {k m : ℕ} {r q : Program} {t : State}
        → Works l r.world t
        → RunsWithout i k (record r { world = t }) m q
        → RunsWithout i k r m q
    switch :
        {k j m : ℕ} {r q u : Program}
        → j < l.count
        → j ≢ k
        → j ≢ i
        → Cothread.switch_to b (at j) r ≡ ok q
        → RunsWithout i j q m u
        → RunsWithout i k r m u

  -- The registers at the first instruction of Switch.
  abbrev called : (k j : ℕ) → State → State
  called k j s = step (bl entry next) (record s {
    regs = set_reg Reg-discrete x1 (l.obj j) (set_reg Reg-discrete x0 (l.obj k) s.regs);
  })

  module _ (valid : IsLayout l) where
    module _ (k j : ℕ) (r : Program) (g : IsConsistent k r) (other : j < l.count)
        (differ : j ≢ k) where
      abbrev switched : Program
      switched = record r { current = at j; world = exec switch_code (called k j r.world) }

      switch_to-switched : Cothread.switch_to b (at j) r ≡ ok switched
      unfolding Cothread.switch_to current switch_to
      switch_to-switched =
          let (c, here_c, impl_c) = g.threads k g.known in
          let (t, here_t, impl_t) = g.threads j other in
          let alive = g.alive k g.known in
          let zero : (r.current == 0) ≡ false = ground (arith, g.current, alive) in
          let from_c : r.threads r.current ≡ some c = ap r.threads g.current ∙ here_c in
          rw (zero, from_c, here_t, impl_c, impl_t) refl

      leaves : CanLeave l k j (called k j r.world)
      unfolding step set_reg Reg-discrete
      leaves = record {
        from_arg = refl;
        to_arg = refl;
        known = g.known;
        other = other;
        differ = λ e. differ (sym e);
      }

      points : Points l (called k j r.world).mem
      unfolding step
      points = g.points

      switched-IsConsistent : IsConsistent j switched
      switched-IsConsistent = record {
        threads = g.threads;
        alive = g.alive;
        known = other;
        current = refl;
        points = leave-Points l valid k j (called k j r.world) points leaves;
      }

      arrived : (q : Program) → Cothread.switch_to b (at j) r ≡ ok q → switched ≡ q
      arrived q call = ok-inj (sym switch_to-switched ∙ call)

    called-Works : (k j : ℕ) (s : State) → Works l s (called k j s)
    unfolding step
    called-Works k j s = record { contexts = λ i lt a lo hi. refl; fields = λ i lt. refl }

    -- The processor's part in a run of the program, up to some more work at its end.
    rest_lem :
        (i : ℕ) {k m : ℕ} {r u : Program} {t : State}
        → RunsWithout i k r m u
        → IsConsistent k r
        → i ≢ k
        → (IsConsistent m u → Works l u.world t)
        → IsConsistent m u × (i ≢ m) × Threads.RunsWithout l i k r.world m t
    rest_lem i here g ne last = (g, ne, Threads.work (last g) Threads.here)
    rest_lem i (work {r} {t = t} w rest) g ne last =
        let (g', ne', run) =
          rest_lem i rest
            (record {
              threads = g.threads;
              alive = g.alive;
              known = g.known;
              current = g.current;
              points = λ n lt. w.fields n lt ∙ g.points n lt;
            })
            ne last in
        (g', ne', Threads.work w run)
    rest_lem i {m} {u} {t} (switch {k} {j} {r} other differ out go rest) g ne last =
        let (g', ne', run) =
          rest_lem i rest
            (subst (IsConsistent j) (arrived k j r g other differ _ go)
              (switched-IsConsistent k j r g other differ))
            (λ e. out (sym e)) last in
        (
          g',
          ne',
          Threads.work (called-Works k j r.world) (
              Threads.switch (leaves k j r g other differ) out (
                subst (λ q. Threads.RunsWithout l i j q.world m t)
                  (sym (arrived k j r g other differ _ go)) run)),
        )

    -- Where gCurrent is the cothread on which the processor works, and the contexts are disjoint: after
    -- a call of Cothread::switchTo() for another cothread and a run without a call for the caller,
    -- a call for the caller does not fail; gCurrent is as before the first call, and the processor
    -- goes on behind it, with the stack pointer, X19 to X29 and D8 to D15 of the first call.
    pub switch_to-switch_to_arm :
        (k j : ℕ) {m : ℕ} (r q u : Program)
        → IsConsistent k r
        → j < l.count
        → j ≢ k
        → Cothread.switch_to b (at j) r ≡ ok q
        → RunsWithout k j q m u
        → (z : Program) × (Cothread.switch_to b (at k) u ≡ ok z)
          × (z.current ≡ r.current)
          × (z.world.pc ≡ next)
          × Each (λ g o. z.world.regs g ≡ set_reg Reg-discrete lr next r.world.regs g) context
    unfolding step set_reg Reg-discrete
    switch_to-switch_to_arm k j {m} r q u g other differ go run =
        let here_q = arrived k j r g other differ q go in
        let (g', ne, machine) =
          rest_lem k run
            (subst (IsConsistent j) here_q (switched-IsConsistent k j r g other differ))
            (λ e. differ (sym e)) (λ g'. called-Works m k u.world) in
        let (regs, pc) =
          Threads.round_trip_arm l valid k j (called k j r.world) (points k j r g other differ)
            (leaves k j r g other differ)
            (subst (λ q. Threads.RunsWithout l k j q.world m (called m k u.world)) (sym here_q)
              machine)
            (leaves m k u g' g.known ne) in
        (
          switched m k u g' g.known ne,
          switch_to-switched m k u g' g.known ne,
          sym g.current,
          pc,
          regs,
        )
