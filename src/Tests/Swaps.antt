-- ===== src/Tests/Swaps.antt =====
-- Switches by swapcontext(): a library that keeps one place for each context, three cothreads with
-- contexts at 4096, 8192 and 12288, and the map from ids to entry points.
use libcommunism.Base.{
  ℕ, ◌+◌, ◌≡◌, refl, false, Option, none, some, List, [], ◌∷◌, arith, ◌==◌, if◌then◌else◌,
}
use libcommunism.Saved.{put}
use libcommunism.UContext.{UContext, Contexts, next_id_loop, register, take, emplace}
use libcommunism.UContext.Switch.{Place, in_entry_stub, ContextLibrary, swapped}
use libcommunism.UContext.Interleaved.{registers, takes, here, next, take-register}

abbrev contexts : ContextLibrary (Place ℕ)
contexts = record {
  Contexts = ℕ → Option (Place ℕ);
  swapcontext = λ oucp ucp at c. (put c oucp at, swapped (put c oucp at ucp));
  context = λ p c. c p;
}

abbrev thread : ℕ → UContext
thread addr = record { stack = record { addr = addr; size = 128 }; owns_stack = false }

abbrev started : ℕ → Option (Place ℕ)
started q = some (in_entry_stub (record { ss_sp = q + 960; ss_size = 64; id = 1 }))

-- From the first cothread to the second, to the third, and back to the first.
abbrev tour : List (UContext × ℕ)
tour = (thread 8192, 1) ∷ (thread 12288, 2) ∷ (thread 4096, 3) ∷ []

-- Entry points 10 and 11 have the ids 1 and 2; the stub of 1 has run.
abbrev pub one : Contexts ℕ
one = record { next_id = 1; info = emplace 1 10 (λ q. none) }

abbrev pub two : Contexts ℕ
two = record { next_id = 2; info = emplace 2 11 (λ q. emplace 1 10 (λ q. none) q) }

abbrev pub later : Contexts ℕ
later = record two { info = λ q. if 1 == q then none else two.info q }

take-register_example :
    (one.info 2 ≡ none) × (f : Contexts ℕ) × (take 2 later ≡ some (11, f)) × (take 2 f ≡ none)
unfolding register next_id_loop emplace take
take-register_example =
    take-register 11 one two later 2 (next (registers 10 (omega arith) refl) here) (omega arith)
      refl (next (takes {id = 1} (λ e. omega (arith, e)) refl) here)
