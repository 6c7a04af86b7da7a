-- ===== src/Programs/Rounds.antt =====
-- A stretch of a program that ends in a call of Cothread::switchTo().
use libcommunism.Base.{ℕ, suc, ◌≡◌, refl, some, ok}
use libcommunism.Saved.{SwitchTo}
use libcommunism.Cothread.{Cothread}
use libcommunism.Cothread.Processor.{Calls}
use libcommunism.Cothread.Places.{World, Program, Alive, called, call-called}
use libcommunism.Programs.{switches, stops, Spot, Code, handled, round, run, stopped}

module _ {T E K P B H S : Type 0} (switch_to : SwitchTo T K P B) (objects : ℕ → T)
    (calls : Calls (World K P B)) (spot : P → Spot E K) (code : Code H E K S)
    (threads : ℕ → Cothread) where
  abbrev pub At : Program H switch_to objects calls → ℕ → Type 0
  At = Alive H switch_to objects calls threads

  abbrev pub next : ℕ → K → Program H switch_to objects calls → Program H switch_to objects calls
  next = called H switch_to objects calls threads

  pub run-switches :
      (n : ℕ) (p q : P) (s u : S) (to : ℕ) (k : K) (r : Program H switch_to objects calls)
      → handled switch_to objects calls spot code (code.from (spot p) s) r ≡ ok (switches to k u)
      → At r r.current
      → At r to
      → (next to k r).world.goes ≡ some q
      → run switch_to objects calls spot code (suc n) p s r
        ≡ run switch_to objects calls spot code n q u (next to k r)
  unfolding run round
  run-switches n p q s u to k r stretch here there goes =
      rw (stretch, call-called H switch_to objects calls threads to k r here there, goes) refl

  pub run-stops :
      (n : ℕ) (p : P) (s u : S) (r : Program H switch_to objects calls)
      → handled switch_to objects calls spot code (code.from (spot p) s) r ≡ ok (stops u)
      → run switch_to objects calls spot code (suc n) p s r ≡ ok (stopped u r)
  unfolding run round
  run-stops n p s u r stretch = rw stretch refl
