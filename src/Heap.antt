-- ===== src/Heap.antt =====
-- The C and C++ allocators that the backends call: a parameter of the model, with the behaviour
-- that their documentation states.
use libcommunism.Base.{
  ℕ, ◌+◌, ◌%◌, ◌<◌, ◌≡◌, ◌≢◌, Bool, true, false, Option, none, some, ◌==◌, if◌then◌else◌, arith,
}

-- `E` is the type of the entry points that `new CallInfo{entry}` and `new EntryContext(...)` store.
pub record Allocator (E : Type 0) : Type 1 where
  pub Heap : Type 0
  -- the new heap, the error number and the pointer; and the new heap and the pointer
  pub posix_memalign : (alignment bytes : ℕ) → Heap → Heap × ℕ × ℕ
  pub aligned_malloc : (bytes alignment : ℕ) → Heap → Heap × ℕ
  pub free : ℕ → Heap → Heap
  pub aligned_free : ℕ → Heap → Heap
  pub new_info : E → Heap → Heap × ℕ
  pub delete_info : ℕ → Heap → Heap
  -- whether a block of memory begins at an address, and the object at one
  pub is_live : Heap → ℕ → Bool
  pub info : Heap → ℕ → Option E

-- What an allocation of `bytes` bytes at `buf` does to the blocks, and what a release does.
pub record Allocates {E : Type 0} (a : Allocator E) (alignment bytes modulus buf : ℕ)
    (h h' : a.Heap) : Type 0 where
  pub not_null : buf ≢ 0
  pub aligned : buf % alignment ≡ 0
  pub fits : buf + bytes < modulus
  pub fresh : a.is_live h buf ≡ false
  pub live : (q : ℕ) → a.is_live h' q ≡ (if buf == q then true else a.is_live h q)

-- The documented behaviour: an allocation that reports success hands out a new block, a release
-- takes back the block at its address, and `new` stores the object.
pub record IsAllocator {E : Type 0} (modulus : ℕ) (a : Allocator E) : Type 0 where
  pub memalign :
      (alignment bytes : ℕ) (h : a.Heap)
      → (a.posix_memalign alignment bytes h).1 ≡ 0
      → Allocates a alignment bytes modulus
          (a.posix_memalign alignment bytes h).2
          h
          (a.posix_memalign alignment bytes h).0
  pub malloc :
      (alignment bytes : ℕ) (h : a.Heap)
      → (a.aligned_malloc bytes alignment h).1 ≢ 0
      → Allocates a alignment bytes modulus
          (a.aligned_malloc bytes alignment h).1
          h
          (a.aligned_malloc bytes alignment h).0
  pub free_live :
      (p : ℕ) (h : a.Heap) (q : ℕ)
      → a.is_live (a.free p h) q ≡ (if p == q then false else a.is_live h q)
  pub free_info : (p : ℕ) (h : a.Heap) (q : ℕ) → a.info (a.free p h) q ≡ a.info h q
  pub aligned_free_live :
      (p : ℕ) (h : a.Heap) (q : ℕ)
      → a.is_live (a.aligned_free p h) q ≡ (if p == q then false else a.is_live h q)
  pub aligned_free_info : (p : ℕ) (h : a.Heap) (q : ℕ) → a.info (a.aligned_free p h) q ≡ a.info h q
  pub new_not_null : (e : E) (h : a.Heap) → (a.new_info e h).1 ≢ 0
  pub new_live : (e : E) (h : a.Heap) (q : ℕ) → a.is_live (a.new_info e h).0 q ≡ a.is_live h q
  pub new_stores : (e : E) (h : a.Heap) → a.info (a.new_info e h).0 (a.new_info e h).1 ≡ some e
  pub delete_info_live :
      (p : ℕ) (h : a.Heap) (q : ℕ) → a.is_live (a.delete_info p h) q ≡ a.is_live h q
  pub delete_info_lem : (p : ℕ) (h : a.Heap) → a.info (a.delete_info p h) p ≡ none

pub new_not_zero :
    {E : Type 0} {modulus : ℕ} (a : Allocator E)
    → IsAllocator modulus a
    → (e : E) (h : a.Heap) → ((a.new_info e h).1 == 0) ≡ false
new_not_zero a law e h = ground (arith, law.new_not_null e h)

-- Taking back the block that was handed out restores the blocks.
pub freed :
    (buf b : ℕ) (g h : ℕ → Bool)
    → g b ≡ (if buf == b then true else h b)
    → h buf ≡ false
    → (if buf == b then false else g b) ≡ h b
freed buf b g h e fresh = ground arith

-- The memory and the heap of the process.
pub record Process {E : Type 0} (a : Allocator E) : Type 0 where
  pub mem : ℕ → ℕ
  pub heap : a.Heap
