-- ===== src/Machine/Threads/Resume.antt =====
-- Every thread resumes in the context in which it switched away, whatever ran meanwhile.
use libcommunism.Base.{
  ℕ, suc, ◌+◌, ◌*◌, ◌<◌, ◌≡◌, ◌≢◌, inl, inr, refl, sym, ap, List, [], arith, length, ◌==◌, ==_iff,
  Bool-cases, map,
}
use libcommunism.Memory.{Apart, Memory, SameOn}
use libcommunism.Machine.{Word, Instr, State, exec}
use libcommunism.Machine.Stack.{length-reverse_aux, length-map}
use libcommunism.Machine.Switch.{
  Context, IsSuspended-same, CanSwitch, Switched, Switches, IsRunning, caller,
}
use libcommunism.Machine.Threads.{
  Layout, IsLayout, View, transfer, Waits, Refines, CanLeave, Works, RunsWithout, here, work,
  switch,
}

module _ {R : Type 0} (w : Word) (0-lt : 0 < w.bytes) (off : ℕ) (save : List R) (l : Layout)
    (ok : IsLayout w off l) where
  -- A thread keeps waiting while its stack and its field stay as they are.
  Waits-same :
      (m n : Memory) (j : ℕ) (c : Context)
      → n (l.obj j + off) ≡ m (l.obj j + off)
      → SameOn (l.lo j) (l.hi j) m n
      → Waits {R = R} w off save l m j c
      → Waits {R = R} w off save l n j c
  Waits-same m n j c cell same h = record {
    suspended =
        IsSuspended-same m n 0-lt cell
          (λ q lo hi. same q (omega (arith, lo, h.low)) (omega (arith, hi, h.high))) h.suspended;
    low = rw cell h.low;
    high = h.high;
    count = h.count;
  }

  pub Works-Refines :
      (v : View) (s t : State R)
      → Works w off save l v.current s t
      → Refines w off save l v s
      → Refines w off save l v t
  Works-Refines v s t k r = record {
    known = r.known;
    low = k.low;
    high = k.high;
    waiting = λ j lt ne.
        Waits-same s.mem t.mem j (v.context j) (k.fields j lt) (k.stacks j lt ne)
          (r.waiting j lt ne);
  }

  module _ (same : Discrete R) (from to : R) (code : List (Instr R))
      (switches : Switches same w off save from to code) where
    abbrev pub after : State R → State R
    after s = exec same w code s

    module _ (v : View) (j : ℕ) (s : State R) (r : Refines w off save l v s)
        (k : CanLeave w off save l from to v.current j s) where
      waits : Waits w off save l s.mem j (v.context j)
      waits = r.waiting j k.other k.differ

      leave-CanSwitch :
          CanSwitch w off (length save) (s.regs from) (s.regs to) s.sp s.mem (v.context j)
      leave-CanSwitch =
          rw (k.from_arg, k.to_arg)
            record {
              room = omega (arith, k.room);
              top = omega (arith, k.top, ok.fits v.current r.known);
              from_fits = ok.obj_fits v.current r.known;
              to_fits = ok.obj_fits j k.other;
              from_apart =
                  omega (arith, ok.apart v.current v.current r.known r.known, k.room, k.top);
              to_apart = omega (arith, ok.apart j v.current k.other r.known, k.room, k.top);
              differ = λ e. ok.differ j v.current k.other r.known k.differ (sym e);
              count = waits.count;
              resumes = omega (arith, waits.high, ok.fits j k.other);
              suspended = waits.suspended;
              frame_apart = omega (
                arith,
                ok.disjoint j v.current k.other r.known k.differ,
                waits.high,
                waits.low,
                k.room,
                k.top,
              );
              frame_spared =
                  omega (arith, ok.apart v.current j r.known k.other, waits.high, waits.low);
            }

      pub leave-Switched : Switched w off save (l.obj v.current) (v.context j) s (after s)
      unfolding after
      leave-Switched = rw (← k.from_arg) (switches s (v.context j) leave-CanSwitch)

      -- Memory off the stack of the thread that leaves, and off its field, stays.
      left_alone :
          (q : ℕ)
          → Apart (l.lo v.current) (l.hi v.current) q
          → q ≢ l.obj v.current + off
          → (after s).mem q ≡ s.mem q
      left_alone q apart ne = leave-Switched.mem q (omega (arith, apart, k.room, k.top)) ne

      others_wait :
          (i : ℕ) → i < l.count → i ≢ v.current → Waits w off save l (after s).mem i (v.context i)
      others_wait i lt ne =
          Waits-same s.mem (after s).mem i (v.context i)
            (left_alone (l.obj i + off) (ok.apart i v.current lt r.known)
              (ok.differ i v.current lt r.known ne))
            (λ q lo hi.
              left_alone q (omega (arith, lo, hi, ok.disjoint i v.current lt r.known ne))
                (omega (arith, lo, hi, ok.apart v.current i r.known lt)))
            (r.waiting i lt ne)

      words : length (caller w save s).words ≡ length save
      words = omega (arith, length-reverse_aux (map s.regs save) [], length-map s.regs save)

      leaver_waits : Waits w off save l (after s).mem v.current (caller w save s)
      leaver_waits = record {
        suspended = leave-Switched.saved;
        low = omega (arith, cell, k.room);
        high = k.top;
        count = words;
      }
        where
          size : suc (length (caller w save s).words) * w.bytes ≡ suc (length save) * w.bytes
          size = ap (λ n. suc n * w.bytes) words

          cell : (after s).mem (l.obj v.current + off) + length save * w.bytes ≡ s.sp
          cell = omega (arith, leave-Switched.saved.sp, size)

      pub leave-Refines : Refines w off save l (transfer v j (caller w save s)) (after s)
      unfolding transfer
      leave-Refines = record {
        known = k.other;
        low = omega (arith, leave-Switched.running.sp, waits.low, waits.suspended.sp);
        high = omega (arith, leave-Switched.running.sp, waits.high);
        waiting = λ i lt ne. elim (Bool-cases (v.current == i)) [
          | inl e ↦ rw (e, ← (==_iff v.current i).0 e) leaver_waits
          | inr e ↦ rw e (others_wait i lt (λ p. ground arith))
        ];
      }

    -- A run without a switch to `i` leaves the context in which `i` waits.
    runs-Refines :
        (i : ℕ) (c : Context) {k m : ℕ} {s u : State R}
        → RunsWithout w off save l same from to code i k s m u
        → (v : View) → v.current ≡ k
        → i ≢ k
        → v.context i ≡ c
        → Refines w off save l v s
        → (v' : View) × (v'.current ≡ m) × (v'.context i ≡ c) × (i ≢ m) × Refines w off save l v' u
    unfolding transfer after
    runs-Refines i c here v e ne held r = (v, e, held, ne, r)
    runs-Refines i c (work {s} {t} step rest) v e ne held r =
        runs-Refines i c rest v e ne held (Works-Refines v s t (rw e step) r)
    runs-Refines i c (switch {j} {s} leave other rest) v e ne held r =
        runs-Refines i c rest (transfer v j (caller w save s)) refl (λ p. other (sym p))
          (ground arith) (leave-Refines v j s r (rw e leave))

    -- A thread that switches away goes on, when some thread switches back to it, with its
    -- callee-saved registers, at its return address and with its stack pointer.
    pub resumes_caller :
        (v : View) (j : ℕ) (s : State R) {m : ℕ} {u : State R}
        → Refines w off save l v s
        → CanLeave w off save l from to v.current j s
        → RunsWithout w off save l same from to code v.current j (exec same w code s) m u
        → CanLeave w off save l from to m v.current u
        → IsRunning save (caller w save s) (exec same w code u)
    unfolding after transfer
    resumes_caller v j s {u} r k run back =
        let (v', now, ctx, ne, r') =
          runs-Refines v.current (caller w save s) run (transfer v j (caller w save s)) refl
            (λ p. k.differ (sym p)) (ground arith) (leave-Refines v j s r k) in
        rw (← ctx) (leave-Switched v' v.current u r' (rw now back)).running
