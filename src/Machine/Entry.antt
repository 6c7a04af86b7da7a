-- ===== src/Machine/Entry.antt =====
-- The way from the first switch to a cothread into its entry point, which the three x86 assembly
-- files share: Switch() returns to JumpToEntry, which pops the address of a function and its
-- argument and jumps there.
use mathlib.Core.List.{reverse}
use libcommunism.Base.{
  ℕ, ◌+◌, ◌-◌, ◌*◌, ◌%◌, ◌≤◌, ◌<◌, ◌≡◌, ◌≢◌, ◌⊎◌, refl, ap, ◌∙◌, List, [], ◌∷◌, arith, map, length,
}
use mathlib.Core.Logic.{if_pos, if_neg}
use libcommunism.Memory.{Holds-same, Apart, Memory, Holds}
use libcommunism.Span.{Span, clear_low}
use libcommunism.Machine.{Word, Instr, pop, jmp, State, exec, step, set_reg, add_word}
use libcommunism.Machine.Cursor.{replicate, length-replicate}
use libcommunism.Machine.Stack.{add_word_lem, Outside, map-set_reg}
use libcommunism.Machine.Switch.{Context, CanSwitch, Switched, Switches}
use libcommunism.Machine.Frame.{frame_start, HasRoom, Prepared, frame_start_lem, clear_low_le}

-- Where the cothread of the object at `this` may first be switched to: `s` runs on another stack,
-- apart from the stack of that cothread and from both objects' fields.
pub record CanStart {R : Type 0} (w : Word) (off : ℕ) (save : List R) (from target : R) (this : ℕ)
    (stack : Span) (s : State R) : Type 0 where
  pub room : length save * w.bytes ≤ s.sp
  pub top : s.sp + w.bytes < w.modulus
  pub from_fits : s.regs from + off < w.modulus
  pub to : s.regs target ≡ this
  pub to_fits : this + off < w.modulus
  pub differ : s.regs from ≢ this
  pub from_apart : Apart (s.sp - length save * w.bytes) (s.sp + w.bytes) (s.regs from + off)
  pub to_apart : Apart (s.sp - length save * w.bytes) (s.sp + w.bytes) (this + off)
  pub stack_apart :
      (stack.addr + stack.size * w.bytes ≤ s.sp - length save * w.bytes)
      ⊎ (s.sp + w.bytes ≤ stack.addr)
  pub field_apart : Apart stack.addr (stack.addr + stack.size * w.bytes) (s.regs from + off)

-- The processor is at the call of `function` with the argument `info` in register `param`, with the
-- stack as after a call whose return address is `back`, and above that the room that Prepare()
-- leaves, four words and one for each saved register.
pub record IsEntered {R : Type 0} (w : Word) (save : List R) (param : R) (function info back : ℕ)
    (stack : Span) (u : State R) : Type 0 where
  pub ip : u.ip ≡ function
  pub arg : u.regs param ≡ info
  pub returns_to : u.mem u.sp ≡ back
  pub zeroed : map u.regs (reverse save) ≡ replicate (length save) 0
  pub inside :
      (stack.addr ≤ u.sp) × (u.sp + w.bytes * (5 + length save) ≤ stack.addr + stack.size * w.bytes)
  pub aligned : (u.sp + w.bytes) % 16 ≡ stack.addr % 16

module _ {R : Type 0} (same : Discrete R) (w : Word) (0-lt : 0 < w.bytes) (off : ℕ) (save : List R)
    (from to : R) (code : List (Instr R)) (switches : Switches same w off save from to code)
    (back info function jump this : ℕ) (stack : Span) (m : Memory) (s : State R)
    (room : HasRoom w off (length save) this stack)
    (prepared : Prepared w off (length save) back info function jump this stack m s.mem)
    (k : CanStart w off save from to this stack s) where
  abbrev n : ℕ
  n = length save

  abbrev start : Context
  start = record { words = replicate n 0; ip = jump; sp = frame_start w stack n - 3 * w.bytes }

  frame :
      frame_start w stack n + w.bytes * (4 + n) ≡ stack.addr + clear_low (stack.size * w.bytes) 4
  frame = frame_start_lem w 0-lt off n stack room.fits (omega (arith, room.room))

  top : ℕ
  top = s.mem (this + off)

  count : length start.words * w.bytes ≡ n * w.bytes
  count = ap (λ k. k * w.bytes) (length-replicate {A = ℕ} n 0)

  bounds :
      (stack.addr ≤ top)
      × (start.sp + 3 * w.bytes ≡ frame_start w stack n)
      × (start.sp + 3 * w.bytes + w.bytes * (4 + n) ≤ stack.addr + stack.size * w.bytes)
      × (top + (1 + n) * w.bytes ≡ start.sp)
  unfolding top
  bounds = (
    omega (arith, frame, prepared.start.sp, room.room, count),
    omega (arith, frame, prepared.start.sp, room.room, count),
    omega (arith, frame, prepared.start.sp, room.room, clear_low_le (stack.size * w.bytes), count),
    omega (arith, prepared.start.sp, count),
  )

  start-CanSwitch : CanSwitch w off n (s.regs from) (s.regs to) s.sp s.mem start
  unfolding top
  start-CanSwitch = rw k.to record {
    room = k.room;
    top = k.top;
    from_fits = k.from_fits;
    to_fits = k.to_fits;
    from_apart = k.from_apart;
    to_apart = k.to_apart;
    differ = omega (arith, k.differ);
    count = length-replicate {A = ℕ} n 0;
    resumes = omega (arith, bounds, room.fits);
    suspended = prepared.start;
    frame_apart = omega (arith, k.stack_apart, bounds);
    frame_spared = omega (arith, k.field_apart, bounds);
  }

  switched : State R
  switched = exec same w code s

  switched-Switched : Switched w off save (s.regs from) start s switched
  unfolding switched
  switched-Switched = switches s start start-CanSwitch

  args : Holds w.bytes switched.mem switched.sp (function ∷ info ∷ back ∷ [])
  args = rw switched-Switched.running.sp (
      Holds-same w.bytes 0-lt s.mem switched.mem start.sp (function ∷ info ∷ back ∷ [])
        (λ q lo hi.
          switched-Switched.mem q (omega (arith, lo, hi, bounds, k.stack_apart))
            (omega (arith, lo, hi, bounds, k.field_apart)))
        prepared.args)

  sp_next : add_word w switched.sp w.bytes ≡ start.sp + w.bytes
  sp_next =
      rw switched-Switched.running.sp
        (add_word_lem w start.sp w.bytes (omega (arith, bounds, room.fits)))

  sp_last : add_word w (add_word w switched.sp w.bytes) w.bytes ≡ start.sp + w.bytes + w.bytes
  sp_last =
      rw sp_next (add_word_lem w (start.sp + w.bytes) w.bytes (omega (arith, bounds, room.fits)))

  sixteen : (w.bytes * (4 + n)) % 16 ≡ 0 → frame_start w stack n % 16 ≡ stack.addr % 16
  unfolding clear_low
  sixteen whole = omega (arith, frame, whole)

  module _ (a b : R) (apart : b ≢ a) (out_a : Outside a (reverse save))
      (out_b : Outside b (reverse save)) (whole : (w.bytes * (4 + n)) % 16 ≡ 0) where
    jump_zeroed :
        (u v : ℕ)
        → map (set_reg same b v (set_reg same a u switched.regs)) (reverse save) ≡ replicate n 0
    jump_zeroed u v =
        map-set_reg same b v (set_reg same a u switched.regs) (reverse save) out_b
        ∙ map-set_reg same a u switched.regs (reverse save) out_a
        ∙ switched-Switched.running.words

    -- On a stack with room for the frame, from a state that can start the cothread, and with two
    -- registers outside those that are saved, the switch and the jump enter the function.
    pub jump-IsEntered :
        IsEntered w save b function info back stack
          (exec same w (pop a ∷ pop b ∷ jmp a ∷ []) (exec same w code s))
    unfolding exec step switched set_reg
    jump-IsEntered = record {
      ip = if_neg (same b a) apart _ _ ∙ if_pos (same a a) refl _ _ ∙ args.0;
      arg = if_pos (same b b) refl _ _ ∙ rw (sp_next, ← switched-Switched.running.sp) args.1.0;
      returns_to = rw (sp_last, ← switched-Switched.running.sp) args.1.1.0;
      zeroed = jump_zeroed _ _;
      inside = rw sp_last (omega (arith, bounds), omega (arith, bounds));
      aligned = rw sp_last (omega (arith, sixteen whole, bounds));
    }
