-- ===== src/Saved.antt =====
-- What a program sees of switchTo() in src/arch/setjmp and src/arch/ucontext, where the C library
-- saves the place at which a cothread leaves and takes up the place at which another left. `T` is
-- the type of the objects, `K` that of the places in a program that calls switchTo(), and `P` that
-- of all places at which a cothread may go on.
use libcommunism.Base.{
  ℕ, ◌≡◌, ◌≢◌, refl, sym, ◌∙◌, Bool-cases, inl, inr, Option, some, List, [], ◌∷◌, arith, ◌==◌,
  ==_iff, if◌then◌else◌,
}
use mathlib.Core.Path.{fun_ext, ap₂}

-- The place at which each cothread that does not run goes on, by the address of its buffer.
abbrev pub Places : Type 0 → Type 0
Places P = ℕ → Option P

abbrev pub put : {P : Type 0} → Places P → ℕ → P → Places P
put t at p q = if at == q then some p else t q

-- What the C library keeps after a call of switchTo(), and where the program goes on now.
abbrev pub SwitchTo : (T K P B : Type 0) → Type 0
SwitchTo T K P B = (this from : T) → K → B → B × Option P

module _ {T K P : Type 0} where
  -- Where a program's switches should go on: each is to a cothread, from a place in the one that
  -- runs, and goes on where that cothread left last, or where `t` has it if it has not yet left.
  unfoldable pub plan : (T → ℕ) → (K → P) → List (T × K) → (from : T) → Places P → List (Option P)
  plan buffer place [] from t = []
  plan buffer place ((to, k) ∷ ts) from t =
      let next = put t (buffer from) (place k) in next (buffer to) ∷ plan buffer place ts to next

module _ {T K P B : Type 0} (switch_to : SwitchTo T K P B) where
  -- Where they do go on, and the state that they leave.
  unfoldable pub goes_on : List (T × K) → (from : T) → B → List (Option P)
  goes_on [] from b = []
  goes_on ((to, k) ∷ ts) from b = let (c, at) = switch_to to from k b in at ∷ goes_on ts to c

  unfoldable pub after : List (T × K) → (from : T) → B → T × B
  after [] from b = (from, b)
  after ((to, k) ∷ ts) from b = after ts to (switch_to to from k b).0

module _ {T K : Type 0} where
  -- No switch goes to the object at `i`.
  abbrev pub Avoids : (T → ℕ) → T → List (T × K) → Type 0
  Avoids buffer i [] = Unit
  Avoids buffer i ((to, k) ∷ ts) = (buffer to ≢ buffer i) × Avoids buffer i ts

-- The switch saves the place of its caller, changes no other, and goes on at the place saved for
-- its target.
pub record Saves {T K P B : Type 0} (buffer : T → ℕ) (place : K → P) (saved : ℕ → B → Option P)
    (switch_to : SwitchTo T K P B) : Type 0 where
  pub saves :
      (this from : T) (k : K) (b : B)
      → saved (buffer from) (switch_to this from k b).0 ≡ some (place k)
  pub others :
      (this from : T) (k : K) (b : B) (q : ℕ)
      → q ≢ buffer from
      → saved q (switch_to this from k b).0 ≡ saved q b
  pub resumes :
      (this from : T) (k : K) (b : B)
      → (switch_to this from k b).1 ≡ saved (buffer this) (switch_to this from k b).0

module _ {T K P B : Type 0} (buffer : T → ℕ) (place : K → P) (saved : ℕ → B → Option P)
    (switch_to : SwitchTo T K P B) (law : Saves buffer place saved switch_to) where
  abbrev places : B → Places P
  places b q = saved q b

  switch_to-put :
      (to from : T) (k : K) (b : B)
      → places (switch_to to from k b).0 ≡ put (places b) (buffer from) (place k)
  switch_to-put to from k b = fun_ext λ q. elim (Bool-cases (buffer from == q)) [
    | inl e ↦ rw (e, ← (==_iff (buffer from) q).0 e) (law.saves to from k b)
    | inr e ↦ rw e (law.others to from k b q (λ same. ground arith))
  ]

  -- Any row of switches goes on where the plan says.
  pub goes_on-plan :
      (ts : List (T × K)) (from : T) (b : B)
      → goes_on switch_to ts from b ≡ plan buffer place ts from (λ q. saved q b)
  unfolding goes_on plan
  goes_on-plan [] from b = refl
  goes_on-plan ((to, k) ∷ ts) from b =
      ap₂ ◌∷◌ (law.resumes to from k b ∙ (λ i. switch_to-put to from k b i (buffer to))) (
        goes_on-plan ts to (switch_to to from k b).0
        ∙ (λ i. plan buffer place ts to (switch_to-put to from k b i)))

  after_keeps :
      (ts : List (T × K)) (i from : T) (b : B)
      → buffer from ≢ buffer i
      → Avoids buffer i ts
      → (saved (buffer i) (after switch_to ts from b).1 ≡ saved (buffer i) b)
        × (buffer (after switch_to ts from b).0 ≢ buffer i)
  unfolding after
  after_keeps [] i from b ne out = (refl, ne)
  after_keeps ((to, k) ∷ ts) i from b ne out =
      let (same, last) = after_keeps ts i to (switch_to to from k b).0 out.0 out.1 in
      (same ∙ law.others to from k b (buffer i) (λ e. ne (sym e)), last)

  -- A cothread goes on where it left, whatever switches among the others there were in between.
  pub switch_to-after :
      (ts : List (T × K)) (i j : T) (k l : K) (b : B)
      → buffer j ≢ buffer i
      → Avoids buffer i ts
      → (let (last, c) = after switch_to ts j (switch_to j i k b).0 in (switch_to i last l c).1)
        ≡ some (place k)
  switch_to-after ts i j k l b ne out =
      let (same, last) = after_keeps ts i j (switch_to j i k b).0 ne out in
      law.resumes i _ l _
      ∙ law.others i _ l _ (buffer i) (λ e. last (sym e))
      ∙ same
      ∙ law.saves j i k b
