-- ===== src/Aarch64/Rows.antt =====
-- The stores and loads of Switch in src/arch/aarch64/AAPCS.S: each row of them exchanges contexts.
use libcommunism.Base.{
  ℕ, ◌+◌, ◌^◌, ◌≤◌, ◌<◌, ◌≡◌, ◌≢◌, ◌⊎◌, refl, sym, ◌∙◌, List, [], ◌∷◌, ◌++◌, arith,
}
use mathlib.Core.Logic.{if_pos, if_neg}
use libcommunism.Memory.{Memory, write, write_self, write_ne}
use libcommunism.Impl.{word64}
use package.libcommunism.Machine.{add_word, set_reg}
use libcommunism.Aarch64.Machine.{
  Reg, x0, x1, x16, lr, sp, Reg-discrete, Instr, ldr, str, ldp, stp, mov, State, step, exec,
}
use libcommunism.Aarch64.Context.{Slots, Each, Disjoint, Fits, Swapped, Swapped-append}

pub fits_lem : (a n : ℕ) → a + n < 2 ^ 64 → add_word word64 a n ≡ a + n
unfolding add_word
fits_lem a n h = omega arith

next_lem : (a n m : ℕ) → a + n + m < 2 ^ 64 → add_word word64 (a + n) m ≡ a + (n + m)
unfolding add_word
next_lem a n m h = omega arith

pub set_other : (r z : Reg) (v : ℕ) (f : Reg → ℕ) → r ≢ z → set_reg Reg-discrete r v f z ≡ f z
unfolding set_reg
set_other r z v f ne = if_neg (Reg-discrete r z) ne _ _

pub set_self : (r : Reg) (v : ℕ) (f : Reg → ℕ) → set_reg Reg-discrete r v f r ≡ v
unfolding set_reg
set_self r v f = if_pos (Reg-discrete r r) refl _ _

pub exec-append : (is js : List Instr) (s : State) → exec (is ++ js) s ≡ exec js (exec is s)
unfolding exec
exec-append [] js s = refl
exec-append (i ∷ is) js s = exec-append is js (step i s)

-- Store to the context behind X0, then load from that behind X1.
abbrev pub pair : Reg → Reg → ℕ → List Instr
pair r q off = stp r q x0 off ∷ ldp r q x1 off ∷ []

abbrev pub single : Reg → ℕ → List Instr
single r off = str r x0 off ∷ ldr r x1 off ∷ []

-- The stack pointer goes by the way of X16.
abbrev pub first : List Instr
first = mov x16 sp ∷ stp x16 lr x0 0 ∷ ldp x16 lr x1 0 ∷ mov sp x16 ∷ []

abbrev pub pair_slots : Reg → Reg → ℕ → Slots
pair_slots r q off = (r, off) ∷ (q, off + 8) ∷ []

abbrev pub Pairs : Type 0
Pairs = List (Reg × Reg × ℕ)

abbrev pub pairs : Pairs → List Instr
pairs [] = []
pairs ((r, q, off) ∷ ps) = pair r q off ++ pairs ps

abbrev pub slots : Pairs → Slots
slots [] = []
slots ((r, q, off) ∷ ps) = pair_slots r q off ++ slots ps

-- The pairs of a row fit and have no slot in common.
abbrev pub IsRow : Pairs → Type 0
IsRow [] = Unit {0}
IsRow ((r, q, off) ∷ ps) =
    ((off + 16 ≤ 0xB0)
      × (r ≢ q)
      × Fits 0xB0 (pair_slots r q off)
      × Fits 0xB0 (slots ps)
      × Disjoint (pair_slots r q off) (slots ps)
      × Each (λ z o. (z ≢ x0) × (z ≢ x1)) (pair_slots r q off))
    × IsRow ps

abbrev pub first_slots : Slots
first_slots = (sp, 0) ∷ (lr, 8) ∷ []

first_other :
    (z : Reg) (a b c d : ℕ) (f : Reg → ℕ)
    → z ≢ x16
    → Each (λ r o. r ≢ z) first_slots
    → set_reg Reg-discrete sp a
        (set_reg Reg-discrete lr b (set_reg Reg-discrete x16 c (set_reg Reg-discrete x16 d f)))
        z
      ≡ f z
first_other z a b c d f sc out =
    set_other sp z a _ out.0
    ∙ set_other lr z b (set_reg Reg-discrete x16 c (set_reg Reg-discrete x16 d f)) out.1.0
    ∙ set_other x16 z c (set_reg Reg-discrete x16 d f) (λ e. sc (sym e))
    ∙ set_other x16 z d f (λ e. sc (sym e))

module _ (here there : ℕ) (here_fits : here + 0xB0 < 2 ^ 64) (there_fits : there + 0xB0 < 2 ^ 64)
    (apart : (here + 0xB0 ≤ there) ⊎ (there + 0xB0 ≤ here)) where
  abbrev pub Ready : State → Type 0
  Ready s = (s.regs x0 ≡ here) × (s.regs x1 ≡ there)

  -- Two neighbouring words of the context at `here` are written.
  module _ (m : Memory) (off v w : ℕ) where
    spared :
        (a : ℕ)
        → here + off ≢ a
        → here + (off + 8) ≢ a
        → write (write m (here + off) v) (here + (off + 8)) w a ≡ m a
    spared a n k = write_ne _ _ w a k ∙ write_ne m _ v a n

    spared_there :
        (o : ℕ)
        → off + 16 ≤ 0xB0
        → o < 0xB0
        → write (write m (here + off) v) (here + (off + 8)) w (there + o) ≡ m (there + o)
    spared_there o room lt =
        spared (there + o) (omega (arith, apart, room, lt)) (omega (arith, apart, room, lt))

    lower : write (write m (here + off) v) (here + (off + 8)) w (here + off) ≡ v
    lower = write_ne (write m (here + off) v) _ w _ (omega arith) ∙ write_self m _ v

  pub pair-Swapped :
      (r q : Reg) (off : ℕ) (u : State)
      → Ready u
      → off + 16 ≤ 0xB0
      → r ≢ q
      → Swapped here there (pair_slots r q off) u (exec (pair r q off) u)
  unfolding exec step
  pair-Swapped r q off u ready room ne =
      rw
        (
          ready.0,
          ready.1,
          fits_lem here off (omega (arith, here_fits, room)),
          next_lem here off 8 (omega (arith, here_fits, room)),
          fits_lem there off (omega (arith, there_fits, room)),
          next_lem there off 8 (omega (arith, there_fits, room)),
        )
        record {
          saved = (lower u.mem off (u.regs r) (u.regs q), (write_self _ _ _, tt));
          loaded = (
            set_other q r _ _ (λ e. ne (sym e))
                ∙ set_self r _ _
                ∙ spared_there u.mem off (u.regs r) (u.regs q) off room (omega arith),
            (
              set_self q _ _
                  ∙ spared_there u.mem off (u.regs r) (u.regs q) (off + 8) room (omega arith),
              tt,
            ),
          );
          regs = λ z sc out. set_other q z _ _ out.1.0 ∙ set_other r z _ u.regs out.0;
          mem = λ a out. spared u.mem off (u.regs r) (u.regs q) a out.0 out.1.0;
        }

  pub single-Swapped :
      (r : Reg) (off : ℕ) (u : State)
      → Ready u
      → off + 16 ≤ 0xB0
      → Swapped here there ((r, off) ∷ []) u (exec (single r off) u)
  unfolding exec step
  single-Swapped r off u ready room =
      rw
        (
          ready.0,
          ready.1,
          fits_lem here off (omega (arith, here_fits, room)),
          fits_lem there off (omega (arith, there_fits, room)),
        )
        record {
          saved = (write_self u.mem _ _, tt);
          loaded = (
            set_self r _ _
                ∙ write_ne u.mem (here + off) (u.regs r) (there + off) (omega (arith, apart, room)),
            tt,
          );
          regs = λ z sc out. set_other r z _ u.regs out.0;
          mem = λ a out. write_ne u.mem _ _ a out.0;
        }

  pub first-Swapped : (u : State) → Ready u → Swapped here there first_slots u (exec first u)
  unfolding exec step set_reg Reg-discrete
  first-Swapped u ready =
      rw
        (
          ready.0,
          ready.1,
          fits_lem here 0 (omega (arith, here_fits)),
          fits_lem there 0 (omega (arith, there_fits)),
          next_lem here 0 8 (omega (arith, here_fits)),
          next_lem there 0 8 (omega (arith, there_fits)),
        )
        record {
          saved = (lower u.mem 0 (u.regs sp) (u.regs lr), (write_self _ _ _, tt));
          loaded = (
            spared_there u.mem 0 (u.regs sp) (u.regs lr) 0 (omega arith) (omega arith),
            (spared_there u.mem 0 (u.regs sp) (u.regs lr) 8 (omega arith) (omega arith), tt),
          );
          regs = λ z sc out. first_other z _ _ _ _ u.regs sc out;
          mem = λ a out. spared u.mem 0 (u.regs sp) (u.regs lr) a out.0 out.1.0;
        }

  pub clear : (o p : ℕ) → o < 0xB0 → p < 0xB0 → here + o ≢ there + p
  clear o p lo lp e = omega (arith, apart, lo, lp, e)

  pub still_Ready :
      (xs : Slots) (u v : State)
      → Swapped here there xs u v
      → Each (λ z o. z ≢ x0) xs
      → Each (λ z o. z ≢ x1) xs
      → Ready u
      → Ready v
  still_Ready xs u v w n0 n1 ready =
      (w.regs x0 (λ e. grind arith) n0 ∙ ready.0, w.regs x1 (λ e. grind arith) n1 ∙ ready.1)

  pub pairs-Swapped :
      (ps : Pairs) (u : State)
      → IsRow ps
      → Ready u
      → Swapped here there (slots ps) u (exec (pairs ps) u)
  unfolding exec
  pairs-Swapped [] u row ready = record {
    saved = tt;
    loaded = tt;
    regs = λ z sc out. refl;
    mem = λ a out. refl;
  }
  pairs-Swapped ((r, q, off) ∷ ps) u row ready =
      let v = exec (pair r q off) u in
      let one = pair-Swapped r q off u ready row.0.0 row.0.1 in
      let n = row.0.5 in
      Swapped-append here there 0xB0 clear (pair_slots r q off) (slots ps) u v (exec (pairs ps) v)
        row.0.2 row.0.3 row.0.4 one
        (pairs-Swapped ps v row.1 (
          still_Ready (pair_slots r q off) u v one (n.0.0, (n.1.0.0, tt)) (n.0.1, (n.1.0.1, tt))
            ready))
