-- ===== src/Machine/Switch.antt =====
-- Context switches of the shape that the three x86 assembly files share: push the callee-saved
-- registers, store the stack pointer in one object, load it from another, pop the registers in
-- the reverse order, and return.
pub mod Run
use mathlib.Core.Path.{subst}
use mathlib.Core.List.{reverse, reverse_aux}
use libcommunism.Base.{
  ℕ, suc, ◌+◌, ◌-◌, ◌*◌, ◌≤◌, ◌<◌, ◌≡◌, ◌≢◌, ◌⊎◌, inl, inr, refl, sym, ap, ◌∙◌, List, [], ◌∷◌, ◌++◌,
  arith, map, length, length-append,
}
use libcommunism.Memory.{
  Apart, Memory, write, write_self, write_ne, Holds, SameOn, Holds-same, Holds-drop,
}
use libcommunism.Machine.{
  Word, Instr, push, pop, store_sp, load_sp, ret, call, State, add_word, set_reg, step, exec,
}
use libcommunism.Machine.Stack.{
  add_word_lem, exec-append, Pushed, exec-push, assign, Outside, Distinct, assign_other, map-assign,
  exec-pop, length-reverse_aux, length-map, reverse_aux-append,
}

-- What a suspended thread of control resumes with: the callee-saved registers, the lowest
-- address first, the place it goes on at, and the stack pointer it finds there.
pub record Context : Type 0 where
  pub words : List ℕ
  pub ip : ℕ
  pub sp : ℕ

module _ {R : Type 0} where
  unfoldable pub switch_shape : List R → R → R → ℕ → List (Instr R)
  switch_shape save from to off =
      map push save ++ (store_sp from off ∷ load_sp to off ∷ (map pop (reverse save) ++ ret ∷ []))

  -- The context of the caller, on entry to the code, its return address on top of the stack.
  abbrev pub caller : Word → List R → State R → Context
  caller w save s = record {
    words = reverse_aux (map s.regs save) [];
    ip = s.mem s.sp;
    sp = s.sp + w.bytes;
  }

  -- The processor runs in context `c`.
  pub record IsRunning (save : List R) (c : Context) (t : State R) : Type 0 where
    pub words : map t.regs (reverse save) ≡ c.words
    pub ip : t.ip ≡ c.ip
    pub sp : t.sp ≡ c.sp

-- Memory keeps context `c` for the object at address `obj`: its field at `off` points to the words
-- of the registers, with the return address above them.
pub record IsSuspended (w : Word) (off : ℕ) (m : Memory) (obj : ℕ) (c : Context) : Type 0 where
  pub frame : Holds w.bytes m (m (obj + off)) (c.words ++ c.ip ∷ [])
  pub sp : m (obj + off) + suc (length c.words) * w.bytes ≡ c.sp

pub IsSuspended-same :
    {w : Word} {off : ℕ} (m n : Memory) {obj : ℕ} {c : Context}
    → 0 < w.bytes
    → n (obj + off) ≡ m (obj + off)
    → SameOn (m (obj + off)) c.sp m n
    → IsSuspended w off m obj c
    → IsSuspended w off n obj c
IsSuspended-same {w} {off} m n {obj} {c} 0-lt cell same h = record {
  frame = rw cell (
      Holds-same w.bytes 0-lt m n (m (obj + off)) (c.words ++ c.ip ∷ [])
        (λ q lo hi. same q lo (omega (arith, h.sp, size))) h.frame);
  sp = rw cell h.sp;
}
  where
    size : length (c.words ++ c.ip ∷ []) * w.bytes ≡ suc (length c.words) * w.bytes
    size = ap (λ n. n * w.bytes) (omega (arith, length-append c.words (c.ip ∷ [])))

-- What a switch from the object at `from` to that at `to` needs: room on the stack, fields within
-- the address space and off the written part of the stack, and a suspended context `c` whose
-- frame overlaps neither that part nor the field that is written.
pub record CanSwitch (w : Word) (off size from to sp : ℕ) (m : Memory) (c : Context) : Type 0 where
  pub room : size * w.bytes ≤ sp
  pub top : sp + w.bytes < w.modulus
  pub from_fits : from + off < w.modulus
  pub to_fits : to + off < w.modulus
  pub from_apart : Apart (sp - size * w.bytes) (sp + w.bytes) (from + off)
  pub to_apart : Apart (sp - size * w.bytes) (sp + w.bytes) (to + off)
  pub differ : from + off ≢ to + off
  pub count : length c.words ≡ size
  pub resumes : c.sp < w.modulus
  pub suspended : IsSuspended w off m to c
  pub frame_apart : (c.sp ≤ sp - size * w.bytes) ⊎ (sp ≤ m (to + off))
  pub frame_spared : Apart (m (to + off)) c.sp (from + off)

-- A switch: the caller is suspended under its own object, the processor goes on in `c`, and
-- neither other registers nor other memory change.
pub record Switched {R : Type 0} (w : Word) (off : ℕ) (save : List R) (from : ℕ) (c : Context)
    (s t : State R) : Type 0 where
  pub saved : IsSuspended w off t.mem from (caller w save s)
  pub running : IsRunning save c t
  pub regs : (r : R) → Outside r (reverse save) → t.regs r ≡ s.regs r
  pub mem :
      (q : ℕ) → Apart (s.sp - length save * w.bytes) s.sp q → q ≢ from + off → t.mem q ≡ s.mem q

-- `code` switches from the object behind `from` to that behind `to`, wherever it can.
abbrev pub Switches :
    {R : Type 0} → Discrete R → Word → ℕ → List R → R → R → List (Instr R) → Type 0
Switches {R} same w off save from to code =
    (s : State R) (c : Context)
    → CanSwitch w off (length save) (s.regs from) (s.regs to) s.sp s.mem c
    → Switched w off save (s.regs from) c s (exec same w code s)

-- A call of such code, as the backends' switchTo() makes it: the two objects in their registers, and
-- the address `next` behind the call on the stack.
module _ {R : Type 0} (same : Discrete R) (w : Word) (from to : R) where
  abbrev pub calling : (entry next this other : ℕ) → State R → State R
  calling entry next this other s =
      step same w (call entry next)
        (record s { regs = set_reg same to this (set_reg same from other s.regs) })

  unfoldable pub call_switch : List (Instr R) → (entry next this other : ℕ) → State R → State R
  call_switch code entry next this other s = exec same w code (calling entry next this other s)
