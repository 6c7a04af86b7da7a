-- ===== src/Machine/Kept.antt =====
-- A prepared cothread stays prepared while its stack and its object's field stay as they are.
use libcommunism.Base.{ℕ, ◌+◌, ◌*◌, ◌≤◌, ◌<◌, ◌≡◌, refl, ap, [], ◌∷◌, arith, length}
use libcommunism.Memory.{Memory, SameOn, Holds-same}
use libcommunism.Span.{Span, clear_low}
use libcommunism.Machine.{Word}
use libcommunism.Machine.Cursor.{replicate, length-replicate}
use libcommunism.Machine.Switch.{IsSuspended-same}
use libcommunism.Machine.Frame.{frame_start, HasRoom, Prepared, frame_start_lem, clear_low_le}

module _ (w : Word) (0-lt : 0 < w.bytes) (off n a b c d this : ℕ) (stack : Span) (m m' : Memory)
    (room : HasRoom w off n this stack) (p : Prepared w off n a b c d this stack m m') where
  frame :
      frame_start w stack n + w.bytes * (4 + n) ≡ stack.addr + clear_low (stack.size * w.bytes) 4
  frame = frame_start_lem w 0-lt off n stack room.fits (omega (arith, room.room))

  count : length (replicate {A = ℕ} n 0) * w.bytes ≡ n * w.bytes
  count = ap (λ k. k * w.bytes) (length-replicate {A = ℕ} n 0)

  bounds :
      (stack.addr ≤ m' (this + off))
      × (frame_start w stack n ≤ stack.addr + stack.size * w.bytes)
      × (3 * w.bytes ≤ frame_start w stack n)
  bounds = (
    omega (arith, frame, p.start.sp, room.room, count),
    omega (arith, frame, room.room, clear_low_le (stack.size * w.bytes)),
    omega (arith, frame, p.start.sp, room.room, count),
  )

  pub Prepared-same :
      (m'' : Memory)
      → m'' (this + off) ≡ m' (this + off)
      → SameOn stack.addr (stack.addr + stack.size * w.bytes) m' m''
      → Prepared w off n a b c d this stack m'' m''
  Prepared-same m'' cell same = record {
    start =
        IsSuspended-same m' m'' 0-lt cell
          (λ q lo hi. same q (omega (arith, lo, bounds)) (omega (arith, hi, bounds))) p.start;
    args =
        Holds-same w.bytes 0-lt m' m'' _ (c ∷ b ∷ a ∷ [])
          (λ q lo hi. same q (omega (arith, lo, bounds, p.start.sp)) (omega (arith, hi, bounds)))
          p.args;
    elsewhere = λ q out ne. refl;
  }
