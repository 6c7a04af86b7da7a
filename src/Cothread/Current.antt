-- ===== src/Cothread/Current.antt =====
-- Current(): allocated once, and what switchTo() sets it to.
use libcommunism.Base.{ℕ, ◌≡◌, ◌≢◌, ok, arith}
use libcommunism.Cothread.{Backend, Runtime, current, switch_to}

-- operator new never returns a null pointer.
abbrev pub NewNotNull : Backend → Type 0
NewNotNull b = (w : b.World) → (b.new_cothread w).1 ≢ 0

module _ {H : Type 0} (b : Backend) where
  -- Where operator new returns no null pointer and Current() returns, a second call gives the same
  -- cothread, which is not null, and changes nothing.
  pub current-current :
      (r : Runtime H b) {c : ℕ} {s : Runtime H b}
      → NewNotNull b
      → current b r ≡ ok (c, s)
      → (current b s ≡ ok (c, s)) × (s.current ≡ c) × (c ≢ 0)
  unfolding current
  current-current r {c} {s} fresh e =
      ground (arith, fresh (b.alloc_kernel_thread_wrapper r.world).0)

  -- Where operator new returns no null pointer and Current() returns, a call of it just before
  -- switchTo() makes no difference.
  pub switch_to-after_current :
      (this : ℕ) (r : Runtime H b) {c : ℕ} {s : Runtime H b}
      → NewNotNull b
      → current b r ≡ ok (c, s)
      → switch_to b this s ≡ switch_to b this r
  unfolding switch_to
  switch_to-after_current this r {c} {s} fresh e = rw (e, (current-current r fresh e).0)

  -- After switchTo() of a cothread that is not at address 0, Current() gives that cothread.
  pub current-switch_to :
      (this : ℕ) (r : Runtime H b) {s : Runtime H b}
      → this ≢ 0
      → switch_to b this r ≡ ok s
      → current b s ≡ ok (this, s)
  unfolding switch_to current
  current-switch_to this r {s} ne e = ground arith
