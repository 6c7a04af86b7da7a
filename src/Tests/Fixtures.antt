-- ===== src/Tests/Fixtures.antt =====
-- An allocator that hands out one block of each alignment, at the address of that number.
use libcommunism.Base.{
  ℕ, ◌+◌, ◌%◌, ◌^◌, ◌≤◌, ◌≡◌, refl, Bool, true, false, Option, none, some, arith, leb, ◌==◌, ◌&&◌,
  not, if◌then◌else◌, Bool-cases, inl, inr,
}
use libcommunism.Heap.{Allocator, IsAllocator, Allocates}

-- The blocks, and the object at address 7.
abbrev pub Blocks : Type 0
Blocks = (ℕ → Bool) × (ℕ → Option ℕ)

abbrev pub is_free : (alignment bytes : ℕ) → Blocks → Bool
is_free alignment bytes h =
    not (alignment == 0)
    && (alignment % alignment == 0)
    && not (h.0 alignment)
    && leb (alignment + bytes + 1) (2 ^ 32)

abbrev pub set_live : ℕ → Bool → Blocks → Blocks
set_live p l h = (λ q. if p == q then l else h.0 q, h.1)

abbrev pub set_info : ℕ → Option ℕ → Blocks → Blocks
set_info p i h = (h.0, λ q. if p == q then i else h.1 q)

abbrev pub blocks : Allocator ℕ
blocks = record {
  Heap = Blocks;
  posix_memalign = λ alignment bytes h.
      if is_free alignment bytes h then (set_live alignment true h, 0, alignment) else (h, 12, 0);
  aligned_malloc = λ bytes alignment h.
      if is_free alignment bytes h then (set_live alignment true h, alignment) else (h, 0);
  free = λ p h. set_live p false h;
  aligned_free = λ p h. set_live p false h;
  new_info = λ e h. (set_info 7 (some e) h, 7);
  delete_info = λ p h. set_info p none h;
  is_live = λ h. h.0;
  info = λ h. h.1;
}

allocates :
    (modulus : ℕ)
    → 2 ^ 32 ≤ modulus
    → (alignment bytes : ℕ) (h : Blocks) → is_free alignment bytes h ≡ true
    → Allocates blocks alignment bytes modulus alignment h (set_live alignment true h)
allocates modulus wide alignment bytes h e = record {
  not_null = ground arith;
  aligned = ground arith;
  fits = ground arith;
  fresh = ground arith;
  live = λ q. refl;
}

of_modulus : (modulus : ℕ) → 2 ^ 32 ≤ modulus → IsAllocator modulus blocks
of_modulus modulus wide = record {
  memalign = λ alignment bytes h e. elim (Bool-cases (is_free alignment bytes h)) [
    | inl free ↦ rw free (allocates modulus wide alignment bytes h free)
    | inr full ↦ absurd (ground (arith, e, full))
  ];
  malloc = λ alignment bytes h e. elim (Bool-cases (is_free alignment bytes h)) [
    | inl free ↦ rw free (allocates modulus wide alignment bytes h free)
    | inr full ↦ absurd (ground (arith, e, full))
  ];
  free_live = λ p h q. refl;
  free_info = λ p h q. refl;
  aligned_free_live = λ p h q. refl;
  aligned_free_info = λ p h q. refl;
  new_not_null = λ e h. ground arith;
  new_live = λ e h q. refl;
  new_stores = λ e h. refl;
  delete_info_live = λ p h q. refl;
  delete_info_lem = λ p h. ground arith;
}

pub blocks-IsAllocator : IsAllocator (2 ^ 64) blocks
blocks-IsAllocator = of_modulus (2 ^ 64) (omega arith)

pub blocks-IsAllocator_32 : IsAllocator (2 ^ 32) blocks
blocks-IsAllocator_32 = of_modulus (2 ^ 32) (omega arith)
