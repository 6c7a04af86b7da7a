-- ===== src/UContext/Ids.antt =====
-- The map from ids to entry points of src/arch/ucontext/UContext.cpp.
use libcommunism.Base.{
  ℕ, ◌-◌, zero, suc, ◌+◌, ◌%◌, ◌^◌, ◌≤◌, ◌<◌, ◌≡◌, ◌≢◌, refl, ◌∙◌, Option, none, some, List, [],
  ◌∷◌, arith, length, ◌==◌, if◌then◌else◌,
}
use mathlib.Core.Path.{fun_ext}
use libcommunism.UContext.{Contexts, next_id_loop, emplace, register, take}

-- Two rounds are enough for every counter whose increment does not overflow, be it negative (a bit
-- pattern from 2 ^ 31 on) or not, and an id is never 0.
pub next_id_loop_total :
    (counter : ℕ)
    → counter ≢ 2 ^ 31 - 1
    → (id : ℕ) × (next_id_loop 2 counter ≡ some id) × (id ≢ 0) × (id < 2 ^ 32)
unfolding next_id_loop
next_id_loop_total counter defined = (
  if (counter + 1) % 2 ^ 32 == 0 then 1 else (counter + 1) % 2 ^ 32,
  ground arith,
  ground arith,
  ground arith,
)

abbrev pub get_elem? {ℓ} : {A : Type ℓ} → List A → ℕ → Option A
get_elem? [] i = none
get_elem? (x ∷ xs) zero = some x
get_elem? (x ∷ xs) (suc i) = get_elem? xs i

module _ {E : Type 0} where
  -- No entry point is registered under an id above the counter.
  abbrev pub IsBelow : Contexts E → Type 0
  IsBelow c = (id : ℕ) → c.next_id < id → c.info id ≡ none

  abbrev added : E → Contexts E → Contexts E
  added e c = record {
    next_id = c.next_id + 1;
    info = λ q. if c.next_id + 1 == q then some e else c.info q;
  }

  register-added :
      (e : E) (c : Contexts E)
      → IsBelow c
      → c.next_id + 1 < 2 ^ 31
      → register e c ≡ some (c.next_id + 1, added e c)
  unfolding register emplace next_id_loop
  register-added e c below room =
      let id : next_id_loop 2 c.next_id ≡ some (c.next_id + 1) = ground arith in
      let map : emplace (c.next_id + 1) e c.info ≡ (added e c).info =
        fun_ext λ q. ground (arith, below q) in
      rw (id, register)
        (λ i. some (c.next_id + 1, record { next_id = c.next_id + 1; info = map i }))

  pub register_total :
      (e : E) (c : Contexts E)
      → c.next_id ≢ 2 ^ 31 - 1
      → (id : ℕ) × (d : Contexts E) × (register e c ≡ some (id, d))
  unfolding register
  register_total e c room =
      let id = next_id_loop_total c.next_id room in
      (id.0, record { next_id = id.0; info = emplace id.0 e c.info }, rw (id.1, register))

  added-IsBelow : (e : E) (c : Contexts E) → IsBelow c → IsBelow (added e c)
  added-IsBelow e c below id lt = ground (arith, below id)

  -- The registrations of several Prepare() calls.
  pub register_all : List E → Contexts E → Option (Contexts E)
  register_all [] c = some c
  register_all (e ∷ es) c = elim (register e c) [ none ↦ none | some (id, d) ↦ register_all es d ]

  -- What a row of registrations leaves: the entry points under consecutive ids, and the others.
  pub record Registered (es : List E) (c d : Contexts E) : Type 0 where
    pub counter : d.next_id ≡ c.next_id + length es
    pub below : IsBelow d
    pub new : (i : ℕ) → i < length es → d.info (c.next_id + 1 + i) ≡ get_elem? es i
    pub old : (q : ℕ) → q ≤ c.next_id → d.info q ≡ c.info q

  Registered-cons :
      (e : E) (es : List E) (c d : Contexts E)
      → Registered es (added e c) d
      → Registered (e ∷ es) c d
  Registered-cons e es c d r = record {
    counter = omega (arith, r.counter);
    below = r.below;
    new = new;
    old = λ q le. r.old q (omega arith) ∙ ground arith;
  }
    where
      new : (i : ℕ) → i < length (e ∷ es) → d.info (c.next_id + 1 + i) ≡ get_elem? (e ∷ es) i
      new zero lt = ground (arith, r.old (c.next_id + 1 + 0))
      new (suc i) lt =
          let at : c.next_id + 1 + 1 + i ≡ c.next_id + 1 + suc i = omega arith in
          rw (← at) (r.new i (omega arith))

  pub register_all-Registered :
      (es : List E) (c : Contexts E)
      → IsBelow c
      → c.next_id + length es < 2 ^ 31
      → (d : Contexts E) × (register_all es c ≡ some d) × Registered es c d
  unfolding register_all
  register_all-Registered [] c below room = (
    c,
    refl,
    record {
      counter = omega arith;
      below = below;
      new = λ i lt. absurd (omega arith);
      old = λ q le. refl;
    },
  )
  register_all-Registered (e ∷ es) c below room =
      let (d, run, r) =
        register_all-Registered es (added e c) (added-IsBelow e c below) (omega arith) in
      (d, rw (register-added e c below (omega arith), register_all) run, Registered-cons e es c d r)

  -- Where no entry point is registered above the counter, and the counter does not overflow, a row
  -- of registrations succeeds, and of its cothreads each finds its own entry point under its id,
  -- and none there after that.
  pub take-register_all :
      (es : List E) (c : Contexts E) (i : ℕ) {e : E}
      → IsBelow c
      → c.next_id + length es < 2 ^ 31
      → i < length es
      → get_elem? es i ≡ some e
      → (d : Contexts E) × (d' : Contexts E) × (register_all es c ≡ some d)
        × (take (c.next_id + 1 + i) d ≡ some (e, d'))
        × (take (c.next_id + 1 + i) d' ≡ none)
  unfolding take
  take-register_all es c i {e} below room lt at =
      let (d, run, r) = register_all-Registered es c below room in
      let found : d.info (c.next_id + 1 + i) ≡ some e = r.new i lt ∙ at in
      (
        d,
        record d { info = λ q. if c.next_id + 1 + i == q then none else d.info q },
        run,
        rw (found, take),
        ground arith,
      )
