-- ===== src/Cothread/Processor/Resume.antt =====
-- A call of Cothread::switchTo() returns to its caller when the cothread is switched back to.
use libcommunism.Base.{
  ℕ, suc, ◌+◌, ◌*◌, ◌≤◌, ◌<◌, ◌≡◌, ◌≢◌, refl, sym, ap, ◌∙◌, false, some, ok, ok-inj, List, [],
  arith, length, map, ◌==◌,
}
use mathlib.Core.List.{reverse_aux}
use mathlib.Core.Path.{subst}
use libcommunism.Memory.{write, write_self}
use libcommunism.Machine.{Word, Instr, State, sub_word, set_reg, step}
use libcommunism.Machine.Stack.{sub_word_lem, Outside, map-set_reg}
use libcommunism.Machine.Switch.{Context, IsRunning, Switches, caller, calling, call_switch}
use libcommunism.Machine.Threads.{Layout, IsLayout, View, transfer, Refines, CanLeave}
use libcommunism.Machine.Threads.Resume.{Works-Refines, leave-Refines, leave-Switched}
use libcommunism.Machine.Threads.Call.{called-Works, called-CanLeave}
use libcommunism.Cothread.{Backend, Runtime, current, switch_to}
use libcommunism.Cothread.Processor.{
  Calls, processor, IsConsistent, RunsWithout, here, work, switch,
}

module _ {R : Type 0} (H : Type 0) (same : Discrete R) (w : Word) (0-lt : 0 < w.bytes) (off : ℕ)
    (save : List R) (from to : R) (apart : from ≢ to) (code : List (Instr R))
    (switches : Switches same w off save from to code) (entry next : ℕ)
    (call : (this other : ℕ) → State R → State R)
    (calls_code : (this other : ℕ) (s : State R)
      → call this other s ≡ call_switch same w from to code entry next this other s)
    (calls : Calls (State R)) (l : Layout) (ok_l : IsLayout w off l) (at : ℕ → ℕ) where
  abbrev b : Backend
  b = processor call calls

  abbrev Program : Type 0
  Program = Runtime H b

  abbrev Good : View → Program → Type 0
  Good v r = IsConsistent w off save l at v r.world r

  module _ (v : View) (j : ℕ) (r : Program) (g : Good v r) (other : j < l.count)
      (differ : j ≢ v.current)
      (room : l.lo v.current + suc (length save) * w.bytes ≤ r.world.sp) where
    abbrev called : State R
    called = calling same w from to entry next (l.obj j) (l.obj v.current) r.world

    abbrev switched : Program
    switched = record r { current = at j; world = call (l.obj j) (l.obj v.current) r.world }

    switch_to-switched : switch_to b (at j) r ≡ ok switched
    unfolding switch_to current
    switch_to-switched =
        let (c, here_c, impl_c) = g.threads v.current g.refines.known in
        let (t, here_t, impl_t) = g.threads j other in
        let alive = g.alive v.current g.refines.known in
        let zero : (r.current == 0) ≡ false = ground (arith, g.current, alive) in
        let from_c : r.threads r.current ≡ some c = ap r.threads g.current ∙ here_c in
        rw (zero, from_c, here_t, impl_c, impl_t) refl

    called-Good : Refines w off save l v called
    called-Good =
        Works-Refines w 0-lt off save l ok_l v r.world called
          (called-Works same w 0-lt off save l ok_l from to apart v.current j g.refines.known other
            differ entry next r.world room g.refines.high)
          g.refines

    leaves : CanLeave w off save l from to v.current j called
    leaves =
        called-CanLeave same w 0-lt off save l ok_l from to apart v.current j g.refines.known other
          differ entry next r.world room g.refines.high

    switched-Good : Good (transfer v j (caller w save called)) switched
    unfolding call_switch transfer
    switched-Good = record {
      threads = g.threads;
      alive = g.alive;
      current = refl;
      refines = rw (calls_code (l.obj j) (l.obj v.current) r.world) (
          leave-Refines w 0-lt off save l ok_l same from to code switches v j called called-Good
            leaves);
    }

    switched_running : IsRunning save (v.context j) switched.world
    unfolding call_switch
    switched_running =
        rw (calls_code (l.obj j) (l.obj v.current) r.world)
          (leave-Switched w 0-lt off save l ok_l same from to code switches v j called called-Good
            leaves).running

    -- The state in which a call leaves the view: the caller waits, the target runs.
    next_view : View
    next_view = transfer v j (caller w save called)

    arrived : (q : Program) → switch_to b (at j) r ≡ ok q → switched ≡ q
    arrived q call = ok-inj (sym switch_to-switched ∙ call)

    arrived-Good : (q : Program) → switch_to b (at j) r ≡ ok q → Good next_view q
    unfolding next_view
    arrived-Good q call =
        subst (Good (transfer v j (caller w save called))) (arrived q call) switched-Good

  abbrev Runs : ℕ → ℕ → Program → ℕ → Program → Type 0
  Runs i k r m q = RunsWithout w off save call calls l at i k r m q

  -- A run without a switch to `i` leaves the context in which `i` waits.
  rest-Good :
      (i : ℕ) (c : Context) {k m : ℕ} {r q : Program}
      → Runs i k r m q
      → (v : View) → v.current ≡ k
      → i ≢ k
      → v.context i ≡ c
      → Good v r
      → (v' : View) × (v'.current ≡ m) × (v'.context i ≡ c) × (i ≢ m) × Good v' q
  unfolding transfer next_view
  rest-Good i c here v e ne held g = (v, e, held, ne, g)
  rest-Good i c (work {r = r} {t = t} step rest) v e ne held g =
      rest-Good i c rest v e ne held record {
        threads = g.threads;
        alive = g.alive;
        current = g.current;
        refines = Works-Refines w 0-lt off save l ok_l v r.world t (rw e step) g.refines;
      }
  rest-Good i c (switch {j = j} {r = r} other differ out room call rest) v e ne held g =
      let small : l.lo v.current + suc (length save) * w.bytes ≤ r.world.sp = rw e room in
      let apart_v : j ≢ v.current = λ p. differ (p ∙ e) in
      rest-Good i c rest (next_view v j r g other apart_v small) refl (λ p. out (sym p))
        (ground (arith, held, ne, e)) (arrived-Good v j r g other apart_v small _ call)

  module _ (out_from : Outside from save) (out_to : Outside to save) where
    -- The context in which a caller of Cothread::switchTo() leaves.
    abbrev pub leaving : State R → Context
    leaving s = record { words = reverse_aux (map s.regs save) []; ip = next; sp = s.sp }

    caller-called :
        (this other : ℕ) (s : State R)
        → w.bytes ≤ s.sp
        → s.sp < w.modulus
        → caller w save (calling same w from to entry next this other s) ≡ leaving s
    unfolding step
    caller-called this other s room lt =
        λ i. record { words = reverse_aux (words i) []; ip = ip i; sp = sp i }
      where
        down : sub_word w s.sp w.bytes + w.bytes ≡ s.sp
        down = omega (arith, sub_word_lem w s.sp w.bytes room lt, room)

        words : map (set_reg same to this (set_reg same from other s.regs)) save ≡ map s.regs save
        words =
            map-set_reg same to this (set_reg same from other s.regs) save out_to
            ∙ map-set_reg same from other s.regs save out_from

        ip : write s.mem (sub_word w s.sp w.bytes) next (sub_word w s.sp w.bytes) ≡ next
        ip = write_self s.mem (sub_word w s.sp w.bytes) next

        sp : sub_word w s.sp w.bytes + w.bytes ≡ s.sp
        sp = down

    -- After a call by which a cothread goes to `j` and a run without a call for it, some other cothread
    -- may call switchTo() for it: the call does not fail, gCurrent is then as before the first call,
    -- and the processor goes on behind that.
    pub switch_to-switch_to :
        (v : View) (j : ℕ) {m : ℕ} (r q u : Program)
        → Good v r
        → j < l.count
        → j ≢ v.current
        → l.lo v.current + suc (length save) * w.bytes ≤ r.world.sp
        → switch_to b (at j) r ≡ ok q
        → Runs v.current j q m u
        → l.lo m + suc (length save) * w.bytes ≤ u.world.sp
        → (z : Program) × (switch_to b (at v.current) u ≡ ok z)
          × (z.current ≡ r.current)
          × IsRunning save (leaving r.world) z.world
    unfolding next_view transfer
    switch_to-switch_to v j {m} r q u g other differ room go run room' =
        let (v', now, ctx, ne, g') =
          rest-Good v.current (caller w save (called v j r g other differ room)) run
            (next_view v j r g other differ room) refl (λ p. differ (sym p)) (ground arith)
            (arrived-Good v j r g other differ room q go) in
        let enough : l.lo v'.current + suc (length save) * w.bytes ≤ u.world.sp = rw now room' in
        let apart_i : v.current ≢ v'.current = λ p. ne (p ∙ now) in
        (
          switched v' v.current u g' g.refines.known apart_i enough,
          switch_to-switched v' v.current u g' g.refines.known apart_i enough,
          sym g.current,
          subst
              (λ c.
                IsRunning save c (switched v' v.current u g' g.refines.known apart_i enough).world)
              (ctx
                ∙ caller-called (l.obj j) (l.obj v.current) r.world (omega (arith, room))
                    (omega (arith, g.refines.high, ok_l.fits v.current g.refines.known)))
              (switched_running v' v.current u g' g.refines.known apart_i enough),
        )
