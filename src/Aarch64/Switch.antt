-- ===== src/Aarch64/Switch.antt =====
-- What the code of Switch in src/arch/aarch64/AAPCS.S comes to.
use libcommunism.Base.{
  ℕ, ◌+◌, ◌^◌, ◌≤◌, ◌<◌, ◌≡◌, ◌≢◌, ◌⊎◌, refl, sym, ◌∙◌, List, [], ◌∷◌, ◌++◌, arith,
}
use libcommunism.Aarch64.Machine.{
  Reg, x0, x1, lr, x19, x20, x21, x22, x23, x24, x25, x26, x27, x28, x29, d8, d9, d10, d11, d12,
  d13, d14, d15, Reg-discrete, Instr, ldr, br, State, step, exec, switch_code,
}
use package.libcommunism.Machine.{set_reg}
use libcommunism.Aarch64.Context.{Slots, Each, Each-zip, Disjoint, Fits, Swapped, Swapped-append}
use libcommunism.Aarch64.Rows.{
  fits_lem, exec-append, Pairs, pairs, slots, IsRow, first, first_slots, single, Ready, clear,
  still_Ready, first-Swapped, single-Swapped, pairs-Swapped, set_other,
}

abbrev low : Pairs
low =
    (x19, x20, 0x10)
    ∷ (x21, x22, 0x20)
    ∷ (x23, x24, 0x30)
    ∷ (x25, x26, 0x40)
    ∷ (x27, x28, 0x50)
    ∷ []

abbrev high : Pairs
high = (d8, d9, 0x70) ∷ (d10, d11, 0x80) ∷ (d12, d13, 0x90) ∷ (d14, d15, 0xA0) ∷ []

low-IsRow : IsRow low
low-IsRow = grind arith

high-IsRow : IsRow high
high-IsRow = grind arith

-- The registers of a context, with their offsets.
abbrev pub context : Slots
context = first_slots ++ (slots low ++ (((x29, 0x60) ∷ []) ++ slots high))

pub context_room : Each (λ r o. o < 0xB0) context
context_room = grind arith

-- The two contexts are those of the objects behind X0 and X1, lie within the address space and do
-- not overlap.
pub record CanSwitch (here there : ℕ) (s : State) : Type 0 where
  pub from : s.mem (s.regs x0 + 0x20) ≡ here
  pub to : s.mem (s.regs x1 + 0x20) ≡ there
  pub from_fits : s.regs x0 + 0x20 < 2 ^ 64
  pub to_fits : s.regs x1 + 0x20 < 2 ^ 64
  pub here_fits : here + 0xB0 < 2 ^ 64
  pub there_fits : there + 0xB0 < 2 ^ 64
  pub apart : (here + 0xB0 ≤ there) ⊎ (there + 0xB0 ≤ here)

-- The registers of a context are saved at `here` and loaded from `there`, the processor goes on at
-- the link register that was loaded, and no other memory changes.
pub record Switched (here there : ℕ) (s t : State) : Type 0 where
  pub saved : Each (λ r o. t.mem (here + o) ≡ s.regs r) context
  pub loaded : Each (λ r o. t.regs r ≡ s.mem (there + o)) context
  pub pc : t.pc ≡ s.mem (there + 8)
  pub mem : (a : ℕ) → Each (λ r o. here + o ≢ a) context → t.mem a ≡ s.mem a

module _ (here there : ℕ) (s : State) (k : CanSwitch here there s) where
  ready : State
  ready = step (ldr x1 x1 0x20) (step (ldr x0 x0 0x20) s)

  ready-Ready : Ready here there k.here_fits k.there_fits k.apart ready
  unfolding ready step set_reg Reg-discrete
  ready-Ready =
      rw (fits_lem (s.regs x0) 0x20 k.from_fits, fits_lem (s.regs x1) 0x20 k.to_fits) (k.from, k.to)

  ready_other : (z : Reg) → z ≢ x0 → z ≢ x1 → ready.regs z ≡ s.regs z
  unfolding ready step
  ready_other z n0 n1 =
      set_other x1 z _ _ (λ e. n1 (sym e)) ∙ set_other x0 z _ s.regs (λ e. n0 (sym e))

  abbrev body : List Instr
  body = first ++ (pairs low ++ (single x29 0x60 ++ pairs high))

  switch_code-body : exec switch_code s ≡ step (br lr) (exec body ready)
  unfolding switch_code exec ready
  switch_code-body = refl

  state1 : State
  state1 = exec first ready

  state2 : State
  state2 = exec (pairs low) state1

  state3 : State
  state3 = exec (single x29 0x60) state2

  state4 : State
  state4 = exec (pairs high) state3

  body-state4 : exec body ready ≡ state4
  unfolding state1 state2 state3 state4
  body-state4 =
      exec-append first (pairs low ++ (single x29 0x60 ++ pairs high)) ready
      ∙ exec-append (pairs low) (single x29 0x60 ++ pairs high) state1
      ∙ exec-append (single x29 0x60) (pairs high) state2

  step1 : Swapped here there first_slots ready state1
  unfolding state1
  step1 = first-Swapped here there k.here_fits k.there_fits k.apart ready ready-Ready

  ready1 : Ready here there k.here_fits k.there_fits k.apart state1
  ready1 =
      still_Ready here there k.here_fits k.there_fits k.apart first_slots ready state1 step1
        (grind arith) (grind arith) ready-Ready

  step2 : Swapped here there (slots low) state1 state2
  unfolding state2
  step2 = pairs-Swapped here there k.here_fits k.there_fits k.apart low state1 low-IsRow ready1

  ready2 : Ready here there k.here_fits k.there_fits k.apart state2
  ready2 =
      still_Ready here there k.here_fits k.there_fits k.apart (slots low) state1 state2 step2
        (grind arith) (grind arith) ready1

  step3 : Swapped here there ((x29, 0x60) ∷ []) state2 state3
  unfolding state3
  step3 =
      single-Swapped here there k.here_fits k.there_fits k.apart x29 0x60 state2 ready2
        (omega arith)

  ready3 : Ready here there k.here_fits k.there_fits k.apart state3
  ready3 =
      still_Ready here there k.here_fits k.there_fits k.apart ((x29, 0x60) ∷ []) state2 state3 step3
        (grind arith) (grind arith) ready2

  step4 : Swapped here there (slots high) state3 state4
  unfolding state4
  step4 = pairs-Swapped here there k.here_fits k.there_fits k.apart high state3 high-IsRow ready3

  join :
      (xs ys : Slots) (u v w : State)
      → Fits 0xB0 xs
      → Fits 0xB0 ys
      → Disjoint xs ys
      → Swapped here there xs u v
      → Swapped here there ys v w
      → Swapped here there (xs ++ ys) u w
  join = Swapped-append here there 0xB0 (clear here there k.here_fits k.there_fits k.apart)

  body-Swapped : Swapped here there context ready state4
  body-Swapped =
      join first_slots (slots low ++ (((x29, 0x60) ∷ []) ++ slots high)) ready state1 state4
        (grind arith) (grind arith) (grind arith) step1
        (join (slots low) (((x29, 0x60) ∷ []) ++ slots high) state1 state2 state4 (grind arith)
          (grind arith) (grind arith) step2
          (join ((x29, 0x60) ∷ []) (slots high) state2 state3 state4 (grind arith) (grind arith)
            (grind arith) step3 step4))

  ready_mem : ready.mem ≡ s.mem
  unfolding ready step
  ready_mem = refl

  -- Switch(from, to), where the contexts of the two objects lie within the address space and do not
  -- overlap, saves the stack pointer, the link register, X19 to X29 and D8 to D15 in the context
  -- of `from`, loads them from that of `to`, goes on at the link register that was loaded, and
  -- writes nothing else.
  pub switch_code-Switched_arm : Switched here there s (exec switch_code s)
  unfolding step ready
  switch_code-Switched_arm =
      rw (switch_code-body, body-state4)
        record {
          saved =
              Each-zip (λ r o. state4.mem (here + o) ≡ ready.regs r) (λ r o. (r ≢ x0) × (r ≢ x1))
                (λ r o. state4.mem (here + o) ≡ s.regs r) context
                (λ r o e n. e ∙ ready_other r n.0 n.1) body-Swapped.saved (grind arith);
          loaded = body-Swapped.loaded;
          pc = body-Swapped.loaded.1.0;
          mem = body-Swapped.mem;
        }
