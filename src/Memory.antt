-- ===== src/Memory.antt =====
-- The memory of the process, as the machine words at their byte addresses. Every access of the
-- modelled code is to a whole word at a multiple of the word size, so a write at an address
-- changes the word read there and no other.
use libcommunism.Base.{
  ◌⊎◌, ℕ, ◌+◌, ◌*◌, ◌≤◌, ◌<◌, suc, ◌≡◌, ◌≢◌, List, [], ◌∷◌, ◌++◌, arith, ◌==◌, if◌then◌else◌,
  length,
}

abbrev pub Memory : Type 0
Memory = ℕ → ℕ

unfoldable pub write : Memory → ℕ → ℕ → Memory
write m p v q = if p == q then v else m q

pub write_self : (m : Memory) (p v : ℕ) → write m p v p ≡ v
unfolding write
write_self m p v = ground arith

pub write_ne : (m : Memory) (p v q : ℕ) → p ≢ q → write m p v q ≡ m q
unfolding write
write_ne m p v q h = ground arith

-- The words `vs` stand one after another from address `p` upwards, `w` bytes apart.
abbrev pub Holds : ℕ → Memory → ℕ → List ℕ → Type 0
Holds w m p [] = Unit {0}
Holds w m p (v ∷ vs) = (m p ≡ v) × Holds w m (p + w) vs

-- An address off the range from `lo` up to `hi`.
abbrev pub Apart : ℕ → ℕ → ℕ → Type 0
Apart lo hi q = (q < lo) ⊎ (hi ≤ q)

-- Two memories agree on the addresses from `lo` up to `hi`.
abbrev pub SameOn : ℕ → ℕ → Memory → Memory → Type 0
SameOn lo hi m n = (q : ℕ) → lo ≤ q → q < hi → n q ≡ m q

module _ (w : ℕ) (0-lt : 0 < w) where
  pub Holds-same :
      (m n : Memory) (p : ℕ) (vs : List ℕ)
      → SameOn p (p + length vs * w) m n
      → Holds w m p vs
      → Holds w n p vs
  Holds-same m n p [] same h = tt
  Holds-same m n p (v ∷ vs) same h = (
    ground (arith, same p),
    Holds-same m n (p + w) vs (λ q lo hi. same q (omega arith) (grind arith)) h.1,
  )

  pub Holds-write_below :
      (m : Memory) (p q v : ℕ) (vs : List ℕ) → q < p → Holds w m p vs → Holds w (write m q v) p vs
  Holds-write_below m p q v [] lt h = tt
  Holds-write_below m p q v (u ∷ vs) lt h =
      (ground (arith, write_ne m q v p), Holds-write_below m (p + w) q v vs (omega arith) h.1)

pub Holds-drop :
    (w : ℕ) (m : Memory) (p : ℕ) (us vs : List ℕ)
    → Holds w m p (us ++ vs)
    → Holds w m (p + length us * w) vs
Holds-drop w m p [] vs h = rw (← e) h
  where
    e : p ≡ p + 0 * w
    e = omega arith
Holds-drop w m p (u ∷ us) vs h = rw (← e) (Holds-drop w m (p + w) us vs h.1)
  where
    e : p + w + length us * w ≡ p + suc (length us) * w
    e = omega arith

pub Holds-take :
    (w : ℕ) (m : Memory) (p : ℕ) (us vs : List ℕ) → Holds w m p (us ++ vs) → Holds w m p us
Holds-take w m p [] vs h = tt
Holds-take w m p (u ∷ us) vs h = (h.0, Holds-take w m (p + w) us vs h.1)
