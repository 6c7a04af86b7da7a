-- ===== src/Machine/Switch/Run.antt =====
-- What the code of `switch_shape` does, from the pushes to the return.
use mathlib.Core.Path.{subst}
use mathlib.Core.List.{reverse, reverse_aux}
use libcommunism.Base.{
  ℕ, suc, ◌+◌, ◌-◌, ◌*◌, ◌≤◌, ◌<◌, ◌≡◌, ◌≢◌, inl, inr, refl, sym, ap, ◌∙◌, List, [], ◌∷◌, ◌++◌,
  arith, map, length,
}
use libcommunism.Memory.{Apart, write, write_self, write_ne, Holds, SameOn, Holds-same, Holds-drop}
use libcommunism.Machine.{Word, push, pop, store_sp, load_sp, ret, State, add_word, step, exec}
use libcommunism.Machine.Stack.{
  add_word_lem, exec-append, Pushed, exec-push, assign, Distinct, assign_other, map-assign,
  exec-pop, length-reverse_aux, length-map, reverse_aux-append,
}
use libcommunism.Machine.Switch.{
  Context, switch_shape, caller, IsSuspended, IsSuspended-same, CanSwitch, Switched,
}

module _ {R : Type 0} (same : Discrete R) (w : Word) (0-lt : 0 < w.bytes) where
  -- The second half: with the frame of `c` on top of the stack, the processor goes on in `c`.
  pub exec-resume :
      (rs : List R) (s : State R) (c : Context)
      → length c.words ≡ length rs
      → s.sp + suc (length rs) * w.bytes < w.modulus
      → Holds w.bytes s.mem s.sp (c.words ++ c.ip ∷ [])
      → exec same w (map pop rs ++ ret ∷ []) s ≡ record s {
        regs = assign same rs c.words s.regs;
        sp = s.sp + suc (length rs) * w.bytes;
        ip = c.ip;
      }
  unfolding exec step
  exec-resume rs s c e lt h =
      exec-append same w (map pop rs) (ret ∷ []) s
      ∙ ap (step same w ret) (exec-pop same w 0-lt rs c.words (c.ip ∷ []) s e (omega arith) h)
      ∙ λ i. record s { regs = assign same rs c.words s.regs; sp = top i; ip = target i }
    where
      top : add_word w (s.sp + length rs * w.bytes) w.bytes ≡ s.sp + suc (length rs) * w.bytes
      top = omega (arith, add_word_lem w (s.sp + length rs * w.bytes) w.bytes (omega arith))

      at : s.sp + length c.words * w.bytes ≡ s.sp + length rs * w.bytes
      at = ap (λ n. s.sp + n * w.bytes) e

      target : s.mem (s.sp + length rs * w.bytes) ≡ c.ip
      target = rw (← at) (Holds-drop w.bytes s.mem s.sp c.words (c.ip ∷ []) h).0

  module _ (save : List R) (from to : R) (off : ℕ) (s : State R) where
    -- The state after the pushes, and after the stack pointers have been exchanged.
    unfoldable pub pushed : State R
    pushed = exec same w (map push save) s

    unfoldable pub exchanged : State R
    unfolding pushed
    exchanged = step same w (load_sp to off) (step same w (store_sp from off) pushed)

    pub exec-switch_shape :
        exec same w (switch_shape save from to off) s
        ≡ exec same w (map pop (reverse save) ++ ret ∷ []) exchanged
    unfolding switch_shape exchanged exec
    exec-switch_shape = exec-append same w (map push save) _ s

    pub pushed-Pushed :
        length save * w.bytes ≤ s.sp
        → s.sp < w.modulus
        → Pushed same w save (s.mem s.sp ∷ []) s pushed
    unfolding pushed
    pushed-Pushed room lt = exec-push same w 0-lt save (s.mem s.sp ∷ []) s room lt (refl, tt)

    record Exchanged : Type 0 where
      regs : exchanged.regs ≡ s.regs
      mem : exchanged.mem ≡ write pushed.mem (s.regs from + off) pushed.sp
      sp : exchanged.sp ≡ write pushed.mem (s.regs from + off) pushed.sp (s.regs to + off)

    exchanged-Exchanged :
        Pushed same w save (s.mem s.sp ∷ []) s pushed
        → s.regs from + off < w.modulus
        → s.regs to + off < w.modulus
        → Exchanged
    unfolding exchanged step
    exchanged-Exchanged p f t = record {
      regs = p.regs;
      mem = rw (p.regs, add_word_lem w (s.regs from) off f);
      sp = rw (p.regs, add_word_lem w (s.regs from) off f, add_word_lem w (s.regs to) off t);
    }

    module _ (c : Context)
        (k : CanSwitch w off (length save) (s.regs from) (s.regs to) s.sp s.mem c) where
      p : Pushed same w save (s.mem s.sp ∷ []) s pushed
      p = pushed-Pushed k.room (omega (arith, k.top))

      e : Exchanged
      e = exchanged-Exchanged p k.from_fits k.to_fits

      spare : (q : ℕ) → q ≢ s.regs from + off → exchanged.mem q ≡ pushed.mem q
      spare q ne = rw e.mem (write_ne pushed.mem _ pushed.sp q (omega arith))

      kept :
          (q : ℕ)
          → Apart (s.sp - length save * w.bytes) s.sp q
          → q ≢ s.regs from + off
          → exchanged.mem q ≡ s.mem q
      kept q (inl lo) ne = spare q ne ∙ p.below q (omega (arith, p.sp))
      kept q (inr hi) ne = spare q ne ∙ p.above q hi

      cell : exchanged.mem (s.regs from + off) ≡ pushed.sp
      cell = rw e.mem (write_self pushed.mem _ pushed.sp)

      to_kept : exchanged.mem (s.regs to + off) ≡ s.mem (s.regs to + off)
      to_kept = kept (s.regs to + off) (omega (arith, k.to_apart)) (omega (arith, k.differ))

      pub top : exchanged.sp ≡ s.mem (s.regs to + off)
      top = e.sp ∙ sym (λ i. e.mem i (s.regs to + off)) ∙ to_kept

      frame_kept : SameOn (s.mem (s.regs to + off)) c.sp s.mem exchanged.mem
      frame_kept q lo hi = kept q (omega (arith, k.frame_apart)) (omega (arith, k.frame_spared))

      frame : IsSuspended w off exchanged.mem (s.regs to) c
      frame = IsSuspended-same s.mem exchanged.mem 0-lt to_kept frame_kept k.suspended

      count : (vs : List ℕ) → length (reverse_aux (map s.regs save) vs) ≡ length save + length vs
      count vs = omega (arith, length-reverse_aux (map s.regs save) vs, length-map s.regs save)

      stack_kept :
          SameOn pushed.sp
            (pushed.sp + length (reverse_aux (map s.regs save) (s.mem s.sp ∷ [])) * w.bytes)
            pushed.mem
            exchanged.mem
      stack_kept =
          rw (count (s.mem s.sp ∷ [])) λ q lo hi. spare q (omega (arith, p.sp, k.from_apart))

      saved : IsSuspended w off exchanged.mem (s.regs from) (caller w save s)
      saved = record {
        frame =
            rw (cell, ← reverse_aux-append (map s.regs save) [] (s.mem s.sp ∷ []))
              (Holds-same w.bytes 0-lt pushed.mem exchanged.mem pushed.sp _ stack_kept p.stack);
        sp = rw (cell, count []) (omega (arith, p.sp));
      }

      enough : length c.words ≡ length (reverse save)
      enough = omega (arith, k.count, length-reverse_aux save [])

      fits : exchanged.sp + suc (length (reverse save)) * w.bytes ≡ c.sp
      fits = rw (top, ← enough) k.suspended.sp

      resumed : State R
      resumed = record exchanged {
        regs = assign same (reverse save) c.words exchanged.regs;
        sp = exchanged.sp + suc (length (reverse save)) * w.bytes;
        ip = c.ip;
      }

      resumes : exec same w (switch_shape save from to off) s ≡ resumed
      unfolding resumed
      resumes =
          exec-switch_shape
          ∙ exec-resume (reverse save) exchanged c enough (omega (arith, fits, k.resumes))
              (rw (top, ← to_kept) frame.frame)

      resumed-Switched : Distinct (reverse save) → Switched w off save (s.regs from) c s resumed
      unfolding resumed
      resumed-Switched d = record {
        saved = saved;
        running = record {
          words = map-assign same (reverse save) c.words exchanged.regs d enough;
          ip = refl;
          sp = fits;
        };
        regs = λ r o. assign_other same (reverse save) c.words exchanged.regs r o ∙ λ i. e.regs i r;
        mem = kept;
      }

      -- The whole switch.
      pub exec-Switched :
          Distinct (reverse save)
          → Switched w off save (s.regs from) c s (exec same w (switch_shape save from to off) s)
      exec-Switched d =
          subst (Switched w off save (s.regs from) c s) (sym resumes) (resumed-Switched d)
