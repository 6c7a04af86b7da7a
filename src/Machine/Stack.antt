-- ===== src/Machine/Stack.antt =====
-- Rows of pushes and pops: what they leave in memory and in the registers.
use libcommunism.Base.{
  ℕ, suc, ◌+◌, ◌-◌, ◌*◌, ◌≤◌, ◌<◌, ◌≡◌, ◌≢◌, refl, sym, ap, ◌∙◌, List, [], ◌∷◌, ◌++◌, arith, map,
  length,
}
use mathlib.Core.Logic.{if_pos, if_neg}
use mathlib.Core.Path.{ap₂, fun_ext}
use mathlib.Core.List.{reverse_aux}
use native.Mathlib.Nat.{mod-eq_of_lt}
use libcommunism.Memory.{write_self, write_ne, Holds, Holds-write_below}
use libcommunism.Machine.{Word, Instr, push, pop, State, add_word, sub_word, set_reg, step, exec}

-- Within the address space no address wraps.
pub add_word_lem : (w : Word) (a n : ℕ) → a + n < w.modulus → add_word w a n ≡ a + n
unfolding add_word
add_word_lem w a n h = mod-eq_of_lt h

pub sub_word_lem : (w : Word) (a n : ℕ) → n ≤ a → a < w.modulus → sub_word w a n ≡ a - n
unfolding sub_word
sub_word_lem w a n h lt = grind arith

module _ {R : Type 0} (same : Discrete R) (w : Word) where
  pub exec-append :
      (is js : List (Instr R)) (s : State R)
      → exec same w (is ++ js) s ≡ exec same w js (exec same w is s)
  unfolding exec
  exec-append [] js s = refl
  exec-append (i ∷ is) js s = exec-append is js (step same w i s)

  -- What pushing `rs` makes of state `s`, with the words `vs` on top of the stack before.
  pub record Pushed (rs : List R) (vs : List ℕ) (s t : State R) : Type 0 where
    pub regs : t.regs ≡ s.regs
    pub ip : t.ip ≡ s.ip
    pub sp : t.sp + length rs * w.bytes ≡ s.sp
    pub stack : Holds w.bytes t.mem t.sp (reverse_aux (map s.regs rs) vs)
    pub above : (q : ℕ) → s.sp ≤ q → t.mem q ≡ s.mem q
    pub below : (q : ℕ) → q < t.sp → t.mem q ≡ s.mem q

  module _ (0-lt : 0 < w.bytes) (r : R) (rs : List R) (vs : List ℕ) (s : State R) where
    -- One push, seen from below and from above.
    low : w.bytes ≤ s.sp → s.sp < w.modulus → (step same w (push r) s).sp + w.bytes ≡ s.sp
    unfolding step
    low room lt = omega (arith, sub_word_lem w s.sp w.bytes room lt)

    first :
        w.bytes ≤ s.sp
        → s.sp < w.modulus
        → Holds w.bytes s.mem s.sp vs
        → Holds w.bytes (step same w (push r) s).mem (step same w (push r) s).sp (s.regs r ∷ vs)
    unfolding step
    first room lt h = (
      write_self s.mem _ (s.regs r),
      rw (low room lt) (
          Holds-write_below w.bytes 0-lt s.mem s.sp _ (s.regs r) vs (omega (arith, low room lt)) h),
    )

    push-Pushed :
        (t : State R)
        → w.bytes ≤ s.sp
        → s.sp < w.modulus
        → Pushed rs (s.regs r ∷ vs) (step same w (push r) s) t
        → Pushed (r ∷ rs) vs s t
    unfolding step
    push-Pushed t room lt rest = record {
      regs = rest.regs;
      ip = rest.ip;
      sp = omega (arith, rest.sp, low room lt);
      stack = rest.stack;
      above = λ q l.
          rest.above q (omega (arith, low room lt))
          ∙ write_ne s.mem _ (s.regs r) q (omega (arith, low room lt));
      below = λ q l.
          rest.below q (omega (arith, rest.sp))
          ∙ write_ne s.mem _ (s.regs r) q (omega (arith, rest.sp));
    }

  module _ (0-lt : 0 < w.bytes) where
    pub exec-push :
        (rs : List R) (vs : List ℕ) (s : State R)
        → length rs * w.bytes ≤ s.sp
        → s.sp < w.modulus
        → Holds w.bytes s.mem s.sp vs
        → Pushed rs vs s (exec same w (map push rs) s)
    unfolding exec
    exec-push [] vs s room lt h = record {
      regs = refl;
      ip = refl;
      sp = omega arith;
      stack = h;
      above = λ q l. refl;
      below = λ q l. refl;
    }
    exec-push (r ∷ rs) vs s room lt h =
        let one : w.bytes ≤ s.sp = omega arith in
        let down = low 0-lt r rs vs s one lt in
        push-Pushed 0-lt r rs vs s _ one lt (
          exec-push rs (s.regs r ∷ vs) (step same w (push r) s) (omega (arith, down))
            (omega (arith, down)) (first 0-lt r rs vs s one lt h))

module _ {R : Type 0} where
  -- `r` is none of `rs`; no two of `rs` are the same.
  abbrev pub Outside : R → List R → Type 0
  Outside r [] = Unit {0}
  Outside r (q ∷ rs) = (q ≢ r) × Outside r rs

  abbrev pub Distinct : List R → Type 0
  Distinct [] = Unit {0}
  Distinct (r ∷ rs) = Outside r rs × Distinct rs

-- The registers after the words `vs` have been popped into `rs`.
module _ {R : Type 0} (same : Discrete R) where
  unfoldable pub assign : List R → List ℕ → (R → ℕ) → R → ℕ
  assign [] vs regs = regs
  assign (r ∷ rs) [] regs = regs
  assign (r ∷ rs) (v ∷ vs) regs = assign rs vs (set_reg same r v regs)

  module _ (w : Word) (0-lt : 0 < w.bytes) where
    pub exec-pop :
        (rs : List R) (vs rest : List ℕ) (s : State R)
        → length vs ≡ length rs
        → s.sp + length rs * w.bytes < w.modulus
        → Holds w.bytes s.mem s.sp (vs ++ rest)
        → exec same w (map pop rs) s
          ≡ record s { regs = assign rs vs s.regs; sp = s.sp + length rs * w.bytes }
    unfolding exec step assign
    exec-pop [] vs rest s e lt h =
        let at : s.sp ≡ s.sp + 0 * w.bytes = omega arith in λ i. record s { sp = at i }
    exec-pop (r ∷ rs) [] rest s e lt h = absurd (omega arith)
    exec-pop (r ∷ rs) (v ∷ vs) rest s e lt h =
        let next = add_word_lem w s.sp w.bytes (grind arith) in
        let sum : add_word w s.sp w.bytes + length rs * w.bytes ≡ s.sp + suc (length rs) * w.bytes =
          omega (arith, next) in
        exec-pop rs vs rest (step same w (pop r) s) (omega arith) (omega (arith, sum)) (rw next h.1)
        ∙ λ i. record s { regs = assign rs vs (set_reg same r (h.0 i) s.regs); sp = sum i }

  pub assign_other :
      (rs : List R) (vs : List ℕ) (g : R → ℕ) (q : R) → Outside q rs → assign rs vs g q ≡ g q
  unfolding assign set_reg
  assign_other [] vs g q o = refl
  assign_other (r ∷ rs) [] g q o = refl
  assign_other (r ∷ rs) (v ∷ vs) g q o =
      assign_other rs vs (set_reg same r v g) q o.1 ∙ if_neg (same r q) o.0 _ _

  pub map-assign :
      (rs : List R) (vs : List ℕ) (g : R → ℕ)
      → Distinct rs
      → length vs ≡ length rs
      → map (assign rs vs g) rs ≡ vs
  unfolding assign set_reg
  map-assign [] [] g d e = refl
  map-assign [] (v ∷ vs) g d e = absurd (omega arith)
  map-assign (r ∷ rs) [] g d e = absurd (omega arith)
  map-assign (r ∷ rs) (v ∷ vs) g d e =
      ap₂ ◌∷◌ head (map-assign rs vs (set_reg same r v g) d.1 (omega arith))
    where
      head : assign rs vs (set_reg same r v g) r ≡ v
      head = assign_other rs vs (set_reg same r v g) r d.0 ∙ if_pos (same r r) refl _ _

  pub map-set_reg :
      (r : R) (v : ℕ) (g : R → ℕ) (rs : List R)
      → Outside r rs
      → map (set_reg same r v g) rs ≡ map g rs
  unfolding set_reg
  map-set_reg r v g [] out = refl
  map-set_reg r v g (q ∷ rs) out =
      ap₂ ◌∷◌ (if_neg (same r q) (λ e. out.0 (sym e)) _ _) (map-set_reg r v g rs out.1)

  set_reg_same : (r : R) (g : R → ℕ) → set_reg same r (g r) g ≡ g
  unfolding set_reg
  set_reg_same r g = fun_ext λ q. elim (same r q) [
    | yes p ↦ if_pos (same r q) p _ _ ∙ ap g p
    | no n ↦ if_neg (same r q) n _ _
  ]

  -- Popping what the registers hold already changes none of them.
  pub assign-map : (rs : List R) (g : R → ℕ) → assign rs (map g rs) g ≡ g
  unfolding assign
  assign-map [] g = refl
  assign-map (r ∷ rs) g = rw (set_reg_same r g) (assign-map rs g)

module _ {ℓ} {A : Type ℓ} where
  pub length-reverse_aux : (xs ys : List A) → length (reverse_aux xs ys) ≡ length xs + length ys
  length-reverse_aux [] ys = omega arith
  length-reverse_aux (x ∷ xs) ys = omega (arith, length-reverse_aux xs (x ∷ ys))

  pub reverse_aux-append : (xs ys zs : List A) → reverse_aux xs (ys ++ zs) ≡ reverse_aux xs ys ++ zs
  reverse_aux-append [] ys zs = refl
  reverse_aux-append (x ∷ xs) ys zs = reverse_aux-append xs (x ∷ ys) zs

  module _ {κ} {B : Type κ} (f : A → B) where
    pub length-map : (xs : List A) → length (map f xs) ≡ length xs
    length-map [] = refl
    length-map (x ∷ xs) = ap suc (length-map xs)

    pub map-reverse_aux :
        (xs ys : List A) → map f (reverse_aux xs ys) ≡ reverse_aux (map f xs) (map f ys)
    map-reverse_aux [] ys = refl
    map-reverse_aux (x ∷ xs) ys = map-reverse_aux xs (x ∷ ys)
