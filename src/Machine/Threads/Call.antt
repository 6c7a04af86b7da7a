-- ===== src/Machine/Threads/Call.antt =====
-- A cothread's call of Switch: what the backends' switchTo() puts into registers and on the stack.
use libcommunism.Base.{ℕ, suc, ◌+◌, ◌*◌, ◌≤◌, ◌<◌, ◌≡◌, ◌≢◌, refl, sym, ◌∙◌, List, arith, length}
use mathlib.Core.Logic.{if_pos, if_neg}
use libcommunism.Memory.{write_ne}
use libcommunism.Machine.{Word, State, sub_word, set_reg, step}
use libcommunism.Machine.Stack.{sub_word_lem}
use libcommunism.Machine.Switch.{calling}
use libcommunism.Machine.Threads.{Layout, IsLayout, CanLeave, Works}

module _ {R : Type 0} (same : Discrete R) (w : Word) (0-lt : 0 < w.bytes) (off : ℕ) (save : List R)
    (l : Layout) (ok : IsLayout w off l) (from to : R) (apart : from ≢ to) (i j : ℕ)
    (known : i < l.count) (other : j < l.count) (differ : j ≢ i) (entry next : ℕ) (s : State R)
    (room : l.lo i + suc (length save) * w.bytes ≤ s.sp) (high : s.sp ≤ l.hi i) where
  called : State R
  called = calling same w from to entry next (l.obj j) (l.obj i) s

  down : sub_word w s.sp w.bytes + w.bytes ≡ s.sp
  down = omega (
    arith,
    sub_word_lem w s.sp w.bytes (omega (arith, room)) (omega (arith, high, ok.fits i known)),
    room,
  )

  kept : (q : ℕ) → q ≢ sub_word w s.sp w.bytes → called.mem q ≡ s.mem q
  unfolding called step
  kept q ne = write_ne s.mem (sub_word w s.sp w.bytes) next q (λ e. ne (sym e))

  pub called-Works :
      Works w off save l i s (calling same w from to entry next (l.obj j) (l.obj i) s)
  unfolding called step
  called-Works = record {
    low = omega (arith, down, room);
    high = omega (arith, down, high);
    stacks = λ k lt ne q lo hi.
        kept q (λ e. omega (arith, e, down, room, high, lo, hi, ok.disjoint k i lt known ne));
    fields = λ k lt. kept _ (λ e. omega (arith, e, down, room, high, ok.apart k i lt known));
  }

  pub called-CanLeave :
      CanLeave w off save l from to i j (calling same w from to entry next (l.obj j) (l.obj i) s)
  unfolding step set_reg
  called-CanLeave = record {
    from_arg = if_neg (same to from) (λ e. apart (sym e)) _ _ ∙ if_pos (same from from) refl _ _;
    to_arg = if_pos (same to to) refl _ _;
    room = omega (arith, down, room);
    top = omega (arith, down, high);
    other = other;
    differ = differ;
  }
