-- ===== src/Machine/Frame.antt =====
-- The first frame of a cothread, in the shape that the three Prepare() methods of the x86 family
-- share: four words above the zeroed registers, and the stack pointer stored in the object.
use mathlib.Core.List.{reverse_aux}
use libcommunism.Base.{
  ℕ, zero, suc, ◌+◌, ◌-◌, ◌*◌, ◌%◌, ◌≤◌, ◌<◌, ◌≡◌, ◌≢◌, refl, sym, ap, ◌∙◌, List, [], ◌∷◌, ◌++◌,
  arith, length, length-append,
}
use native.Mathlib.Nat.{mod-eq_of_lt}
use mathlib.Core.List.{append_assoc}
use libcommunism.Memory.{
  Holds-take, Apart, Memory, write, write_self, write_ne, Holds, SameOn, Holds-same, Holds-drop,
}
use libcommunism.Span.{Span, clear_low}
use libcommunism.Machine.{Word, add_word, sub_word}
use libcommunism.Machine.Stack.{add_word_lem, sub_word_lem, length-reverse_aux}
use libcommunism.Machine.Switch.{IsSuspended}
use libcommunism.Machine.Cursor.{
  Cursor, push_word, push_words, replicate, length-replicate, reverse_aux-replicate, Stacked,
  push_words-Stacked,
}

module _ (w : Word) where
  -- for(size_t i = 0; i < n; i++) { *--stack = 0; }
  unfoldable pub push_zeros : ℕ → Cursor → Cursor
  push_zeros zero c = c
  push_zeros (suc n) c = push_zeros n (push_word w 0 c)

  -- reinterpret_cast<std::byte *>(data) + ((size * sizeof(uintptr_t)) & ~(0x10 - 1))
  --     - sizeof(uintptr_t) * (4 + n)
  unfoldable pub frame_start : Span → ℕ → ℕ
  frame_start stack n =
      add_word w stack.addr
        (sub_word w (clear_low (stack.size * w.bytes % w.modulus) 4) (w.bytes * (4 + n)))

  pub push_zeros-words :
      (n : ℕ) (vs : List ℕ) (c : Cursor)
      → push_zeros n (push_words w vs c) ≡ push_words w (vs ++ replicate n 0) c
  unfolding push_zeros push_words
  push_zeros-words n (v ∷ vs) c = push_zeros-words n vs (push_word w v c)
  push_zeros-words zero [] c = refl
  push_zeros-words (suc n) [] c = push_zeros-words n [] (push_word w 0 c)

  module _ (off n : ℕ) where
    -- The words of `first` are pushed in order, then `n` zeros; the object at `this` points there.
    unfoldable pub prepare_shape : List ℕ → (this : ℕ) → Span → Memory → Memory
    prepare_shape first this stack m =
        let c = push_zeros n (push_words w first (record { at = frame_start stack n; mem = m })) in
        write c.mem (this + off) c.at

-- The stack has room for the frame, and the object is not part of it.
pub record HasRoom (w : Word) (off n : ℕ) (this : ℕ) (stack : Span) : Type 0 where
  pub fits : stack.addr + stack.size * w.bytes < w.modulus
  pub room : w.bytes * (4 + n) + (4 + n) * w.bytes ≤ clear_low (stack.size * w.bytes) 4
  pub apart : Apart stack.addr (stack.addr + stack.size * w.bytes) (this + off)

pub clear_low_le : (x : ℕ) → clear_low x 4 ≤ x
unfolding clear_low
clear_low_le x = omega arith

-- What the preparation of a cothread leaves: it is suspended before its first instruction, at
-- `d`, with zeroed registers; its stack holds `c`, `b` and `a`; nothing else has changed.
pub record Prepared (w : Word) (off n : ℕ) (a b c d this : ℕ) (stack : Span) (m m' : Memory)
    : Type 0 where
  pub start :
      IsSuspended w off m' this
        (record { words = replicate n 0; ip = d; sp = frame_start w stack n - 3 * w.bytes })
  pub args : Holds w.bytes m' (frame_start w stack n - 3 * w.bytes) (c ∷ b ∷ a ∷ [])
  pub elsewhere :
      (q : ℕ) → Apart stack.addr (stack.addr + stack.size * w.bytes) q → q ≢ this + off → m' q ≡ m q

module _ (w : Word) (0-lt : 0 < w.bytes) (off n : ℕ) where
  pub frame_start_lem :
      (stack : Span)
      → stack.addr + stack.size * w.bytes < w.modulus
      → w.bytes * (4 + n) ≤ clear_low (stack.size * w.bytes) 4
      → frame_start w stack n + w.bytes * (4 + n) ≡ stack.addr + clear_low (stack.size * w.bytes) 4
  unfolding frame_start
  frame_start_lem stack fits room = rw (mod-eq_of_lt bytes_lt, sub, add) (omega arith)
    where
      bytes_lt : stack.size * w.bytes < w.modulus
      bytes_lt = omega (arith, fits)

      sub :
          sub_word w (clear_low (stack.size * w.bytes) 4) (w.bytes * (4 + n))
          ≡ clear_low (stack.size * w.bytes) 4 - w.bytes * (4 + n)
      sub = sub_word_lem w _ _ room (omega (arith, clear_low_le (stack.size * w.bytes)))

      add :
          add_word w stack.addr (clear_low (stack.size * w.bytes) 4 - w.bytes * (4 + n))
          ≡ stack.addr + (clear_low (stack.size * w.bytes) 4 - w.bytes * (4 + n))
      add = add_word_lem w _ _ (omega (arith, clear_low_le (stack.size * w.bytes)))

  module _ (a b c d this : ℕ) (stack : Span) (m : Memory) (h : HasRoom w off n this stack) where
    abbrev words : List ℕ
    words = (a ∷ b ∷ c ∷ d ∷ []) ++ replicate n 0

    from : Cursor
    from = record { at = frame_start w stack n; mem = m }

    start :
        frame_start w stack n + w.bytes * (4 + n) ≡ stack.addr + clear_low (stack.size * w.bytes) 4
    start = frame_start_lem stack h.fits (omega (arith, h.room))

    count : length words * w.bytes ≡ (4 + n) * w.bytes
    count = ap (λ k. k * w.bytes) (omega (arith, length-replicate {A = ℕ} n 0))

    stacked : Stacked w words [] from (push_words w words from)
    unfolding from
    stacked =
        push_words-Stacked w 0-lt words [] from (omega (arith, start, count, h.room))
          (omega (arith, start, h.fits, clear_low_le (stack.size * w.bytes))) tt

    end : Cursor
    unfolding from
    end = push_words w words from

    low : end.at + (4 + n) * w.bytes ≡ frame_start w stack n
    unfolding end from
    low = omega (arith, stacked.at, count)

    within : (q : ℕ) → Apart stack.addr (stack.addr + stack.size * w.bytes) q → end.mem q ≡ m q
    unfolding end from
    within q out =
        stacked.outside q
          (omega (arith, out, low, start, h.room, clear_low_le (stack.size * w.bytes)))

    made : Memory
    unfolding end
    made = write end.mem (this + off) end.at

    kept : SameOn end.at (frame_start w stack n) end.mem made
    unfolding made
    kept q lo hi =
        write_ne end.mem (this + off) end.at q
          (omega (arith, lo, hi, h.apart, low, start, h.room, clear_low_le (stack.size * w.bytes)))

    prepare_shape-made : prepare_shape w off n (a ∷ b ∷ c ∷ d ∷ []) this stack m ≡ made
    unfolding prepare_shape made end from
    prepare_shape-made = rw (push_zeros-words w n (a ∷ b ∷ c ∷ d ∷ []) from)

    abbrev entry : List ℕ
    entry = replicate n 0 ++ d ∷ []

    layout : reverse_aux words [] ≡ entry ++ (c ∷ b ∷ a ∷ [])
    layout =
        reverse_aux-replicate n 0 (d ∷ c ∷ b ∷ a ∷ [])
        ∙ sym (append_assoc (replicate n 0) (d ∷ []) (c ∷ b ∷ a ∷ []))

    total : length (reverse_aux words []) * w.bytes ≡ (4 + n) * w.bytes
    total =
        ap (λ k. k * w.bytes)
          (omega (arith, length-reverse_aux words [], length-replicate {A = ℕ} n 0))

    frame : Holds w.bytes made end.at (entry ++ (c ∷ b ∷ a ∷ []))
    unfolding end
    frame = rw (← layout) (
        Holds-same w.bytes 0-lt end.mem made end.at _
          (λ q lo hi. kept q lo (omega (arith, hi, low, total))) stacked.stack)

    size : length entry * w.bytes ≡ (1 + n) * w.bytes
    size =
        ap (λ k. k * w.bytes)
          (omega
            (arith, length-append (replicate {A = ℕ} n 0) (d ∷ []), length-replicate {A = ℕ} n 0))

    args_at : end.at + length entry * w.bytes ≡ frame_start w stack n - 3 * w.bytes
    args_at = omega (arith, low, size)

    cell : made (this + off) ≡ end.at
    unfolding made
    cell = write_self end.mem (this + off) end.at

    made-Prepared : Prepared w off n a b c d this stack m made
    made-Prepared = record {
      start = record {
        frame = rw cell (Holds-take w.bytes made end.at entry (c ∷ b ∷ a ∷ []) frame);
        sp = rw (cell, length-replicate {A = ℕ} n 0) (omega (arith, low));
      };
      args = rw (← args_at) (Holds-drop w.bytes made end.at entry (c ∷ b ∷ a ∷ []) frame);
      elsewhere = λ q out ne. spared q ne ∙ within q out;
    }
      where
        spared : (q : ℕ) → q ≢ this + off → made q ≡ end.mem q
        spared q ne = unfold made in write_ne end.mem (this + off) end.at q (omega arith)

    pub prepare_shape-Prepared :
        Prepared w off n a b c d this stack m
          (prepare_shape w off n (a ∷ b ∷ c ∷ d ∷ []) this stack m)
    prepare_shape-Prepared = rw prepare_shape-made made-Prepared
