-- ===== src/Machine/Cursor.antt =====
-- Building a first stack frame by hand: `*--stack = v`, as the Prepare() methods of
-- src/arch/amd64/SysV.cpp, src/arch/amd64/Windows.cpp and src/arch/x86/Common.cpp write it.
use mathlib.Core.List.{reverse_aux}
use libcommunism.Base.{
  ℕ, zero, suc, ◌+◌, ◌*◌, ◌≤◌, ◌<◌, ◌≡◌, refl, ap, ◌∙◌, List, [], ◌∷◌, ◌++◌, arith, length,
}
use libcommunism.Memory.{Memory, write, write_self, write_ne, Holds, Holds-write_below, Apart}
use libcommunism.Machine.{Word, sub_word}
use libcommunism.Machine.Stack.{sub_word_lem}

-- A pointer into memory, and the memory.
pub record Cursor : Type 0 where
  pub at : ℕ
  pub mem : Memory

abbrev pub replicate {ℓ} : {A : Type ℓ} → ℕ → A → List A
replicate zero a = []
replicate (suc n) a = a ∷ replicate n a

pub length-replicate {ℓ} : {A : Type ℓ} (n : ℕ) (a : A) → length (replicate n a) ≡ n
length-replicate zero a = refl
length-replicate (suc n) a = ap suc (length-replicate n a)

replicate_middle {ℓ} :
    {A : Type ℓ} (n : ℕ) (a : A) (ys : List A) → replicate n a ++ (a ∷ ys) ≡ a ∷ replicate n a ++ ys
replicate_middle zero a ys = refl
replicate_middle (suc n) a ys = ap (◌∷◌ a) (replicate_middle n a ys)

pub reverse_aux-replicate {ℓ} :
    {A : Type ℓ} (n : ℕ) (a : A) (ys : List A)
    → reverse_aux (replicate n a) ys ≡ replicate n a ++ ys
reverse_aux-replicate zero a ys = refl
reverse_aux-replicate (suc n) a ys = reverse_aux-replicate n a (a ∷ ys) ∙ replicate_middle n a ys

module _ (w : Word) where
  -- *--stack = v
  unfoldable pub push_word : ℕ → Cursor → Cursor
  push_word v c = let top = sub_word w c.at w.bytes in record { at = top; mem = write c.mem top v }

  unfoldable pub push_words : List ℕ → Cursor → Cursor
  push_words [] c = c
  push_words (v ∷ vs) c = push_words vs (push_word v c)

  -- What the words `vs`, pushed one after another, make of cursor `c` above which `us` stand.
  pub record Stacked (vs us : List ℕ) (c d : Cursor) : Type 0 where
    pub at : d.at + length vs * w.bytes ≡ c.at
    pub stack : Holds w.bytes d.mem d.at (reverse_aux vs us)
    pub outside : (q : ℕ) → Apart d.at c.at q → d.mem q ≡ c.mem q

  module _ (0-lt : 0 < w.bytes) where
    push_word_at :
        (v : ℕ) (c : Cursor)
        → w.bytes ≤ c.at
        → c.at < w.modulus
        → (push_word v c).at + w.bytes ≡ c.at
    unfolding push_word
    push_word_at v c room lt = omega (arith, sub_word_lem w c.at w.bytes room lt)

    push_word-Holds :
        (v : ℕ) (us : List ℕ) (c : Cursor)
        → w.bytes ≤ c.at
        → c.at < w.modulus
        → Holds w.bytes c.mem c.at us
        → Holds w.bytes (push_word v c).mem (push_word v c).at (v ∷ us)
    unfolding push_word
    push_word-Holds v us c room lt h =
        let down = push_word_at v c room lt in
        (
          write_self c.mem _ v,
          rw down (Holds-write_below w.bytes 0-lt c.mem c.at _ v us (omega (arith, down)) h),
        )

    push_word-Stacked :
        (v : ℕ) (vs us : List ℕ) (c d : Cursor)
        → w.bytes ≤ c.at
        → c.at < w.modulus
        → Stacked vs (v ∷ us) (push_word v c) d
        → Stacked (v ∷ vs) us c d
    unfolding push_word
    push_word-Stacked v vs us c d room lt rest = record {
      at = omega (arith, rest.at, sub_word_lem w c.at w.bytes room lt);
      stack = rest.stack;
      outside = λ q apart.
          rest.outside q (omega (arith, apart, rest.at, sub_word_lem w c.at w.bytes room lt))
          ∙ write_ne c.mem _ v q
              (omega (arith, apart, rest.at, sub_word_lem w c.at w.bytes room lt));
    }

    pub push_words-Stacked :
        (vs us : List ℕ) (c : Cursor)
        → length vs * w.bytes ≤ c.at
        → c.at < w.modulus
        → Holds w.bytes c.mem c.at us
        → Stacked vs us c (push_words vs c)
    unfolding push_words
    push_words-Stacked [] us c room lt h = record {
      at = omega arith;
      stack = h;
      outside = λ q a. refl;
    }
    push_words-Stacked (v ∷ vs) us c room lt h =
        let one : w.bytes ≤ c.at = omega arith in
        let down : (push_word v c).at + w.bytes ≡ c.at = push_word_at v c one lt in
        push_word-Stacked v vs us c _ one lt (
          push_words-Stacked vs (v ∷ us) (push_word v c) (omega (arith, down)) (omega (arith, down))
            (push_word-Holds v us c one lt h))
