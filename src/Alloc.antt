-- ===== src/Alloc.antt =====
-- src/AllocImpl.h: an implementation object is built in the buffer of the Cothread, if it fits,
-- or on the heap.
use libcommunism.Base.{ℕ, ◌*◌, ◌%◌, Bool, true, false, ◌&&◌, Outcome, ok, ◌>>=◌, leb, if◌then◌else◌}
use libcommunism.Span.{Span}
use libcommunism.Machine.{Word}

-- sizeof(ImplClass) and alignof(ImplClass), which the compiler fixes.
pub record ImplClass : Type 0 where
  pub size_of : ℕ
  pub align_of : ℕ

-- The pointer, the flag `bufferUsed`, and what the constructor has made of the world. `new` is
-- operator new, and `build` runs the constructor at an address.
unfoldable pub alloc_impl_helper {ℓ} :
    {World : Type ℓ} (w : Word) (c : ImplClass) (buffer : Span)
    → (new : World → World × ℕ) → (build : ℕ → World → Outcome World) → World
    → Outcome (ℕ × Bool × World)
alloc_impl_helper w c buffer new build world =
    let bytes = buffer.size * w.bytes % w.modulus in
    if leb c.size_of bytes && leb c.align_of w.bytes
    then (do built ← build buffer.addr world; ok (buffer.addr, true, built))
    else (let (world, mem) = new world in do built ← build mem world; ok (mem, false, built))
