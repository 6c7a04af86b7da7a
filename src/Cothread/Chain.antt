-- ===== src/Cothread/Chain.antt =====
-- A program's calls of switchTo(), and the backend's switches that they come to.
use libcommunism.Base.{ℕ, ◌≡◌, ◌≢◌, refl, some, ok, List, [], ◌∷◌, arith}
use libcommunism.Cothread.{Backend, Cothread, Runtime, current, switch_to, run}

-- Each switch is from the thread that the one before went to.
unfoldable pub switches : (b : Backend) → (ℕ → Cothread) → (from : ℕ) → List ℕ → b.World → b.World
switches b at from [] w = w
switches b at from (t ∷ ts) w = switches b at t ts (b.switch_to (at t).impl (at from).impl w)

unfoldable pub last : ℕ → List ℕ → ℕ
last from [] = from
last from (t ∷ ts) = last t ts

module _ {H : Type 0} (b : Backend) (at : ℕ → Cothread) where
  -- The thread lives at this address.
  abbrev pub IsThread : Runtime H b → ℕ → Type 0
  IsThread r t = (t ≢ 0) × (r.threads t ≡ some (at t))

  abbrev pub AreThreads : Runtime H b → List ℕ → Type 0
  AreThreads r [] = Unit {0}
  AreThreads r (t ∷ ts) = IsThread r t × AreThreads r ts

  pub AreThreads-moved :
      (r : Runtime H b) (c : ℕ) (w : b.World) (ts : List ℕ)
      → AreThreads r ts
      → AreThreads (record r { current = c; world = w }) ts
  AreThreads-moved r c w [] h = tt
  AreThreads-moved r c w (t ∷ ts) h = (h.0, AreThreads-moved r c w ts h.1)

  pub switch_to-ok :
      (r : Runtime H b) (t : ℕ)
      → IsThread r r.current
      → IsThread r t
      → switch_to b t r
        ≡ ok (record r { current = t; world = b.switch_to (at t).impl (at r.current).impl r.world })
  unfolding switch_to current
  switch_to-ok r t h k = ground arith

  -- Where the current cothread and those that a program switches to live at their addresses, every
  -- call of switchTo() returns, the last one is current, the Cothread objects stay, and the
  -- backend has switched along the chain, each time from the cothread that was current.
  pub run-switches :
      (ts : List ℕ) (r : Runtime H b)
      → IsThread r r.current
      → AreThreads r ts
      → run b ts r
        ≡ ok (record r { current = last r.current ts; world = switches b at r.current ts r.world })
  unfolding run switches last
  run-switches [] r h k = refl
  run-switches (t ∷ ts) r h k = rw (switch_to-ok r t h k.0) (
      run-switches ts
        (record r { current = t; world = b.switch_to (at t).impl (at r.current).impl r.world }) k.0
        (AreThreads-moved r t (b.switch_to (at t).impl (at r.current).impl r.world) ts k.1))
