-- ===== src/Machine/Spill.antt =====
-- Switches that store part of the registers below the stack pointer and then lower it, as
-- src/arch/amd64/Windows.asm does with the SSE registers. They do what pushes and pops do.
use mathlib.Core.List.{reverse, reverse_aux}
use libcommunism.Base.{
  ℕ, suc, ◌+◌, ◌-◌, ◌*◌, ◌≤◌, ◌<◌, ◌≡◌, refl, sym, ap, ◌∙◌, List, [], ◌∷◌, ◌++◌, arith, map, length,
  length-append,
}
use libcommunism.Memory.{write}
use libcommunism.Machine.{
  Word, Instr, push, pop, store_sp, load_sp, store_below, load_below, add_sp, sub_sp, ret, State,
  add_word, sub_word, set_reg, step, exec,
}
use libcommunism.Machine.Stack.{
  add_word_lem, sub_word_lem, exec-append, Pushed, exec-push, Distinct, length-reverse_aux,
  reverse_aux-append,
}
use libcommunism.Machine.Switch.{Context, CanSwitch, Switches, switch_shape}
use libcommunism.Machine.Switch.Run.{pushed, exchanged, top, exec-switch_shape, exec-Switched}

module _ {R : Type 0} (w : Word) where
  -- Stores of `rs` one below the other, under `n` words; loads of `rs` from there upwards.
  abbrev pub spill : ℕ → List R → List (Instr R)
  spill n [] = []
  spill n (r ∷ rs) = store_below (suc n * w.bytes) r ∷ spill (suc n) rs

  abbrev pub fill : List R → List (Instr R)
  fill [] = []
  fill (r ∷ rs) = load_below (suc (length rs) * w.bytes) r ∷ fill rs

  abbrev pub spill_shape : (ints sse : List R) → R → R → ℕ → List (Instr R)
  spill_shape ints sse from to off =
      map push ints
      ++ (spill 0 sse
          ++ (sub_sp (length sse * w.bytes)
              ∷ store_sp from off
              ∷ load_sp to off
              ∷ add_sp (length sse * w.bytes)
              ∷ (fill (reverse sse) ++ (map pop (reverse ints) ++ ret ∷ []))))

  lower : ℕ → State R → State R
  lower n s = record s { sp = s.sp - n * w.bytes }

  raise : ℕ → State R → State R
  raise n s = record s { sp = s.sp + n * w.bytes }

module _ {R : Type 0} (same : Discrete R) (w : Word) where
  spill-push :
      (rs : List R) (n : ℕ) (s : State R)
      → (n + length rs) * w.bytes ≤ s.sp
      → s.sp < w.modulus
      → lower w (n + length rs) (exec same w (spill w n rs) s)
        ≡ exec same w (map push rs) (lower w n s)
  unfolding exec step lower
  spill-push [] n s room lt = λ i. record s { sp = s.sp - none i * w.bytes }
    where
      none : n + 0 ≡ n
      none = omega arith
  spill-push (r ∷ rs) n s room lt =
      (λ i.
        lower w (count i)
          (exec same w (spill w (suc n) rs) (step same w (store_below (suc n * w.bytes) r) s)))
      ∙ spill-push rs (suc n) (step same w (store_below (suc n * w.bytes) r) s) (omega arith) lt
      ∙ λ i.
          exec same w (map push rs) (record s { sp = below i; mem = write s.mem (at i) (s.regs r) })
    where
      count : n + suc (length rs) ≡ suc n + length rs
      count = omega arith

      below : s.sp - suc n * w.bytes ≡ sub_word w (s.sp - n * w.bytes) w.bytes
      below = omega (arith, sub_word_lem w (s.sp - n * w.bytes) w.bytes (omega arith) (omega arith))

      at : sub_word w s.sp (suc n * w.bytes) ≡ sub_word w (s.sp - n * w.bytes) w.bytes
      at = sub_word_lem w s.sp (suc n * w.bytes) (omega arith) lt ∙ below

  fill-pop :
      (rs : List R) (s : State R)
      → s.sp + length rs * w.bytes < w.modulus
      → exec same w (fill w rs) (raise w (length rs) s) ≡ exec same w (map pop rs) s
  unfolding exec step raise
  fill-pop [] s lt = λ i. record s { sp = none i }
    where
      none : s.sp + 0 * w.bytes ≡ s.sp
      none = omega arith
  fill-pop (r ∷ rs) s lt =
      (λ i.
        exec same w (fill w rs)
          (record s { regs = set_reg same r (s.mem (at i)) s.regs; sp = above i }))
      ∙ fill-pop rs (step same w (pop r) s) (omega (arith, above))
    where
      at : sub_word w (s.sp + suc (length rs) * w.bytes) (suc (length rs) * w.bytes) ≡ s.sp
      at = sub_word_lem w _ _ (omega arith) lt ∙ omega arith

      above : s.sp + suc (length rs) * w.bytes ≡ add_word w s.sp w.bytes + length rs * w.bytes
      above = omega (arith, add_word_lem w s.sp w.bytes (omega arith))

  spill-sp : (rs : List R) (n : ℕ) (s : State R) → (exec same w (spill w n rs) s).sp ≡ s.sp
  unfolding exec step
  spill-sp [] n s = refl
  spill-sp (r ∷ rs) n s = spill-sp rs (suc n) (step same w (store_below (suc n * w.bytes) r) s)

  exec-map_append :
      (f : R → Instr R) (xs ys : List R) (zs : List (Instr R)) (s : State R)
      → exec same w (map f (xs ++ ys) ++ zs) s
        ≡ exec same w (map f ys ++ zs) (exec same w (map f xs) s)
  unfolding exec
  exec-map_append f [] ys zs s = refl
  exec-map_append f (x ∷ xs) ys zs s = exec-map_append f xs ys zs (step same w (f x) s)

  exec-map :
      (f : R → Instr R) (xs ys : List R) (s : State R)
      → exec same w (map f (xs ++ ys)) s ≡ exec same w (map f ys) (exec same w (map f xs) s)
  unfolding exec
  exec-map f [] ys s = refl
  exec-map f (x ∷ xs) ys s = exec-map f xs ys (step same w (f x) s)

module _ {R : Type 0} where
  reverse_aux-append_left :
      (xs ys zs : List R) → reverse_aux (xs ++ ys) zs ≡ reverse_aux ys (reverse_aux xs zs)
  reverse_aux-append_left [] ys zs = refl
  reverse_aux-append_left (x ∷ xs) ys zs = reverse_aux-append_left xs ys (x ∷ zs)

  reverse-append : (xs ys : List R) → reverse (xs ++ ys) ≡ reverse ys ++ reverse xs
  reverse-append xs ys = reverse_aux-append_left xs ys [] ∙ reverse_aux-append ys [] (reverse xs)

module _ {R : Type 0} (same : Discrete R) (w : Word) (0-lt : 0 < w.bytes) (ints sse : List R)
    (from to : R) (off : ℕ) where
  abbrev save : List R
  save = ints ++ sse

  abbrev end : List (Instr R)
  end = map pop (reverse ints) ++ ret ∷ []

  -- The stores below the stack pointer and its lowering are pushes.
  spilled :
      (s : State R)
      → length save * w.bytes ≤ s.sp
      → s.sp < w.modulus
      → step same w
          (sub_sp (length sse * w.bytes))
          (exec same w (spill w 0 sse) (exec same w (map push ints) s))
        ≡ pushed same w 0-lt save from to off s
  unfolding pushed step lower
  spilled s room lt =
      (λ i. record v { sp = lowered i })
      ∙ spill-push same w sse 0 u (omega (arith, size, p.sp)) (omega (arith, p.sp))
      ∙ (λ i. exec same w (map push sse) (record u { sp = zero i }))
      ∙ sym (exec-map same w push ints sse s)
    where
      u : State R
      u = exec same w (map push ints) s

      v : State R
      v = exec same w (spill w 0 sse) u

      size : length save * w.bytes ≡ length ints * w.bytes + length sse * w.bytes
      size = ap (λ n. n * w.bytes) (length-append ints sse) ∙ omega arith

      p : Pushed same w ints [] s u
      p = exec-push same w 0-lt ints [] s (omega (arith, size)) lt tt

      lowered : sub_word w v.sp (length sse * w.bytes) ≡ v.sp - (0 + length sse) * w.bytes
      lowered =
          sub_word_lem w v.sp _ (omega (arith, size, p.sp, spill-sp same w sse 0 u))
            (omega (arith, p.sp, spill-sp same w sse 0 u))
          ∙ omega arith

      zero : u.sp - 0 * w.bytes ≡ u.sp
      zero = omega arith

  -- The raising of the stack pointer and the loads below it are pops.
  filled :
      (t : State R)
      → t.sp + length sse * w.bytes < w.modulus
      → exec same w (fill w (reverse sse) ++ end) (step same w (add_sp (length sse * w.bytes)) t)
        ≡ exec same w (map pop (reverse save) ++ ret ∷ []) t
  unfolding step raise
  filled t lt =
      exec-append same w (fill w (reverse sse)) end _
      ∙ (λ i. exec same w end (exec same w (fill w (reverse sse)) (record t { sp = raised i })))
      ∙ ap (exec same w end) (fill-pop same w (reverse sse) t (omega (arith, lt, count)))
      ∙ sym (exec-map_append same w pop (reverse sse) (reverse ints) (ret ∷ []) t)
      ∙ ap (λ rs. exec same w (map pop rs ++ ret ∷ []) t) (sym (reverse-append ints sse))
    where
      count : length (reverse sse) * w.bytes ≡ length sse * w.bytes
      count = ap (λ n. n * w.bytes) (omega (arith, length-reverse_aux sse []))

      raised : add_word w t.sp (length sse * w.bytes) ≡ t.sp + length (reverse sse) * w.bytes
      raised = add_word_lem w t.sp _ lt ∙ omega (arith, count)

  module _ (distinct : Distinct (reverse save)) where
    -- On a stack with room, in a state where the target is suspended, the two codes do the same.
    pub exec-spill_shape :
        (s : State R) (c : Context)
        → CanSwitch w off (length save) (s.regs from) (s.regs to) s.sp s.mem c
        → exec same w (spill_shape w ints sse from to off) s
          ≡ exec same w (switch_shape save from to off) s
    unfolding exec exchanged
    exec-spill_shape s c k =
        exec-append same w (map push ints) _ s
        ∙ exec-append same w (spill w 0 sse) _ (exec same w (map push ints) s)
        ∙ (λ i. exec same w (fill w (reverse sse) ++ end) (
            step same w (add_sp (length sse * w.bytes)) (
              step same w (load_sp to off)
                (step same w (store_sp from off) (spilled s k.room (omega (arith, k.top)) i)))))
        ∙ filled (exchanged same w 0-lt save from to off s) (
            omega (
              arith,
              top same w 0-lt save from to off s c k,
              size,
              count,
              k.suspended.sp,
              k.resumes,
            ))
        ∙ sym (exec-switch_shape same w 0-lt save from to off s)
      where
        size : length save * w.bytes ≡ length ints * w.bytes + length sse * w.bytes
        size = ap (λ n. n * w.bytes) (length-append ints sse) ∙ omega arith

        count : length c.words * w.bytes ≡ length save * w.bytes
        count = ap (λ n. n * w.bytes) k.count

    -- Such code switches as the code with pushes and pops does.
    pub spill_shape-Switches : Switches same w off save from to (spill_shape w ints sse from to off)
    spill_shape-Switches s c k =
        rw (exec-spill_shape s c k) (exec-Switched same w 0-lt save from to off s c k distinct)
