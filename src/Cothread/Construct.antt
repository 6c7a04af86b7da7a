-- ===== src/Cothread/Construct.antt =====
-- The constructors of Cothread in src/Cothread.cpp, which build the implementation by AllocImpl(),
-- and the destructor after them.
use libcommunism.Base.{
  ℕ, ◌*◌, ◌%◌, ◌≡◌, Bool, true, false, Option, none, some, Outcome, ok, ◌>>=◌, [], arith, leb, ◌==◌,
  ◌&&◌,
}
use mathlib.Core.Path.{fun_ext}
use libcommunism.Machine.{Word}
use libcommunism.Alloc.{ImplClass, alloc_impl_helper}
use libcommunism.Cothread.{Backend, Cothread, Runtime, update, destroy}

-- std::array<uintptr_t, 32> implBuffer
abbrev pub impl_buffer_words : ℕ
impl_buffer_words = 32

-- The fields after construction.
abbrev pub with_impl : (impl buffer : ℕ) → (used : Bool) → Cothread
with_impl impl buffer used = record {
  label = [];
  impl = impl;
  impl_buffer = buffer;
  impl_buffer_used = used;
}

-- The implementation fits into the buffer.
abbrev pub fits : Word → ImplClass → Bool
fits w c = leb c.size_of (impl_buffer_words * w.bytes % w.modulus) && leb c.align_of w.bytes

same_self : (p : ℕ) → (p == p) ≡ true
same_self p = ground arith

update-update :
    (f : ℕ → Option Cothread) (p : ℕ) (c d : Option Cothread)
    → update (update f p c) p d ≡ update f p d
update-update f p c d = fun_ext λ q. ground arith

module _ {H : Type 0} (b : Backend) (w : Word) (c : ImplClass) (new : b.World → b.World × ℕ)
    (build : ℕ → b.World → Outcome b.World) where
  -- The Cothread at `this`, its buffer at `buffer`.
  unfoldable pub construct : (this buffer : ℕ) → Runtime H b → Outcome (Runtime H b)
  construct this buffer r = do
    (impl, used, world) ←
        alloc_impl_helper w c (record { addr = buffer; size = impl_buffer_words }) new build r.world
    ok (record r {
      threads = update r.threads this (some (with_impl impl buffer used));
      world = world;
    })

  -- An implementation that fits the buffer, and whose constructor returns, is built in the buffer,
  -- and the destruction of the Cothread runs its destructor there and deletes nothing.
  pub destroy-construct_in_place :
      (this buffer : ℕ) (r : Runtime H b) {world : b.World}
      → fits w c ≡ true
      → build buffer r.world ≡ ok world
      → (construct this buffer r >>= destroy b this)
        ≡ ok
            (record r { threads = update r.threads this none; world = b.destroy_impl buffer world })
  unfolding construct alloc_impl_helper destroy
  destroy-construct_in_place this buffer r {world} small built =
      rw (small, built, same_self this)
        λ i. ok (record r {
          threads = update-update r.threads this (some (with_impl buffer buffer true)) none i;
          world = b.destroy_impl buffer world;
        })

  -- An implementation that does not fit the buffer, and whose constructor returns, is built at the
  -- address that operator new gives, and the destruction of the Cothread deletes it there.
  pub destroy-construct_on_heap :
      (this buffer : ℕ) (r : Runtime H b) {world : b.World}
      → fits w c ≡ false
      → build (new r.world).1 (new r.world).0 ≡ ok world
      → (construct this buffer r >>= destroy b this)
        ≡ ok (record r {
          threads = update r.threads this none;
          world = b.delete_impl (new r.world).1 world;
        })
  unfolding construct alloc_impl_helper destroy
  destroy-construct_on_heap this buffer r {world} large built =
      rw (large, built, same_self this)
        λ i. ok (record r {
          threads =
              update-update r.threads this (some (with_impl (new r.world).1 buffer false)) none i;
          world = b.delete_impl (new r.world).1 world;
        })
