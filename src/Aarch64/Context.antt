-- ===== src/Aarch64/Context.antt =====
-- Contexts of src/arch/aarch64/AAPCS.S: rows of registers, each with its offset, that one context
-- receives and another gives.
use libcommunism.Base.{ℕ, ◌+◌, ◌<◌, ◌≡◌, ◌≢◌, sym, ◌∙◌, List, [], ◌∷◌, ◌++◌, arith}
use libcommunism.Aarch64.Machine.{Reg, State, x16}

abbrev pub Slots : Type 0
Slots = List (Reg × ℕ)

-- Every register of a row, with its offset, satisfies `P`.
abbrev pub Each {ℓ} : (Reg → ℕ → Type ℓ) → Slots → Type ℓ
Each P [] = Unit
Each P ((r, o) ∷ xs) = P r o × Each P xs

module _ {ℓ} (P : Reg → ℕ → Type ℓ) where
  pub Each-append : (xs ys : Slots) → Each P xs → Each P ys → Each P (xs ++ ys)
  Each-append [] ys h k = k
  Each-append ((r, o) ∷ xs) ys h k = (h.0, Each-append xs ys h.1 k)

  pub Each-left : (xs ys : Slots) → Each P (xs ++ ys) → Each P xs
  Each-left [] ys h = tt
  Each-left ((r, o) ∷ xs) ys h = (h.0, Each-left xs ys h.1)

  pub Each-right : (xs ys : Slots) → Each P (xs ++ ys) → Each P ys
  Each-right [] ys h = h
  Each-right ((r, o) ∷ xs) ys h = Each-right xs ys h.1

pub Each-map {ℓ κ} :
    (P : Reg → ℕ → Type ℓ) (Q : Reg → ℕ → Type κ) (xs : Slots)
    → ((r : Reg) (o : ℕ) → P r o → Q r o)
    → Each P xs
    → Each Q xs
Each-map P Q [] f h = tt
Each-map P Q ((r, o) ∷ xs) f h = (f r o h.0, Each-map P Q xs f h.1)

pub Each-zip {ℓ κ μ} :
    (P : Reg → ℕ → Type ℓ) (Q : Reg → ℕ → Type κ) (S : Reg → ℕ → Type μ) (xs : Slots)
    → ((r : Reg) (o : ℕ) → P r o → Q r o → S r o)
    → Each P xs
    → Each Q xs
    → Each S xs
Each-zip P Q S [] f h k = tt
Each-zip P Q S ((r, o) ∷ xs) f h k = (f r o h.0 k.0, Each-zip P Q S xs f h.1 k.1)

-- Two slots share neither the register nor the offset; `xs` and `ys` have no slot in common.
abbrev pub Differ : Reg → ℕ → Reg → ℕ → Type 0
Differ r o q p = (r ≢ q) × (o ≢ p)

abbrev pub Disjoint : Slots → Slots → Type 0
Disjoint xs ys = Each (λ r o. Each (Differ r o) ys) xs

nothing : (ys : Slots) → Each (λ q p. Each (λ r o. Differ r o q p) []) ys
nothing [] = tt
nothing ((q, p) ∷ ys) = (tt, nothing ys)

pub Disjoint-flip :
    (xs ys : Slots) → Disjoint xs ys → Each (λ q p. Each (λ r o. Differ r o q p) xs) ys
Disjoint-flip [] ys h = nothing ys
Disjoint-flip ((r, o) ∷ xs) ys h =
    Each-zip (Differ r o) (λ q p. Each (λ r' o'. Differ r' o' q p) xs)
      (λ q p. Each (λ r' o'. Differ r' o' q p) ((r, o) ∷ xs)) ys (λ q p d e. (d, e)) h.0
      (Disjoint-flip xs ys h.1)

-- The registers of `xs` have gone to the context at `here` and come from that at `there`; no other
-- register but the scratch register X16, and no other memory, has changed.
pub record Swapped (here there : ℕ) (xs : Slots) (s t : State) : Type 0 where
  pub saved : Each (λ r o. t.mem (here + o) ≡ s.regs r) xs
  pub loaded : Each (λ r o. t.regs r ≡ s.mem (there + o)) xs
  pub regs : (z : Reg) → z ≢ x16 → Each (λ r o. r ≢ z) xs → t.regs z ≡ s.regs z
  pub mem : (a : ℕ) → Each (λ r o. here + o ≢ a) xs → t.mem a ≡ s.mem a

-- Room for the row in a context, and no scratch register in it.
abbrev pub Fits : ℕ → Slots → Type 0
Fits size xs = Each (λ r o. (o < size) × (r ≢ x16)) xs

module _ (here there size : ℕ) (apart : (o p : ℕ) → o < size → p < size → here + o ≢ there + p)
    (xs ys : Slots) (s t u : State) (fx : Fits size xs) (fy : Fits size ys) (d : Disjoint xs ys)
    (a : Swapped here there xs s t) (b : Swapped here there ys t u) where
  back : Each (λ q p. Each (λ r o. Differ r o q p) xs) ys
  back = Disjoint-flip xs ys d

  saved_left : Each (λ r o. u.mem (here + o) ≡ s.regs r) xs
  saved_left =
      Each-zip (λ r o. t.mem (here + o) ≡ s.regs r) (λ r o. Each (Differ r o) ys)
        (λ r o. u.mem (here + o) ≡ s.regs r) xs
        (λ r o e f.
          b.mem (here + o) (
            Each-map (Differ r o) (λ q p. here + p ≢ here + o) ys (λ q p g e'. g.1 (omega arith)) f)
          ∙ e)
        a.saved d

  saved_right : Each (λ q p. u.mem (here + p) ≡ s.regs q) ys
  saved_right =
      Each-zip (λ q p. u.mem (here + p) ≡ t.regs q)
        (λ q p. ((p < size) × (q ≢ x16)) × Each (λ r o. Differ r o q p) xs)
        (λ q p. u.mem (here + p) ≡ s.regs q) ys
        (λ q p e f.
          e
          ∙ a.regs q f.0.1 (Each-map (λ r o. Differ r o q p) (λ r o. r ≢ q) xs (λ r o g. g.0) f.1))
        b.saved both
    where
      both : Each (λ q p. ((p < size) × (q ≢ x16)) × Each (λ r o. Differ r o q p) xs) ys
      both =
          Each-zip (λ q p. (p < size) × (q ≢ x16)) (λ q p. Each (λ r o. Differ r o q p) xs)
            (λ q p. ((p < size) × (q ≢ x16)) × Each (λ r o. Differ r o q p) xs) ys
            (λ q p e f. (e, f)) fy back

  loaded_left : Each (λ r o. u.regs r ≡ s.mem (there + o)) xs
  loaded_left =
      Each-zip (λ r o. t.regs r ≡ s.mem (there + o))
        (λ r o. ((o < size) × (r ≢ x16)) × Each (Differ r o) ys)
        (λ r o. u.regs r ≡ s.mem (there + o)) xs
        (λ r o e f.
          b.regs r f.0.1 (Each-map (Differ r o) (λ q p. q ≢ r) ys (λ q p g e'. g.0 (sym e')) f.1)
          ∙ e)
        a.loaded both
    where
      both : Each (λ r o. ((o < size) × (r ≢ x16)) × Each (Differ r o) ys) xs
      both =
          Each-zip (λ r o. (o < size) × (r ≢ x16)) (λ r o. Each (Differ r o) ys)
            (λ r o. ((o < size) × (r ≢ x16)) × Each (Differ r o) ys) xs (λ r o e f. (e, f)) fx d

  loaded_right : Each (λ q p. u.regs q ≡ s.mem (there + p)) ys
  loaded_right =
      Each-zip (λ q p. u.regs q ≡ t.mem (there + p)) (λ q p. (p < size) × (q ≢ x16))
        (λ q p. u.regs q ≡ s.mem (there + p)) ys
        (λ q p e f.
          e
          ∙ a.mem (there + p) (
              Each-map (λ r o. (o < size) × (r ≢ x16)) (λ r o. here + o ≢ there + p) xs
                (λ r o g. apart o p g.0 f.0) fx))
        b.loaded fy

  -- One row after another is the row of both.
  pub Swapped-append : Swapped here there (xs ++ ys) s u
  Swapped-append = record {
    saved = Each-append (λ r o. u.mem (here + o) ≡ s.regs r) xs ys saved_left saved_right;
    loaded = Each-append (λ r o. u.regs r ≡ s.mem (there + o)) xs ys loaded_left loaded_right;
    regs = λ z ne out.
        b.regs z ne (Each-right (λ r o. r ≢ z) xs ys out)
        ∙ a.regs z ne (Each-left (λ r o. r ≢ z) xs ys out);
    mem = λ q out.
        b.mem q (Each-right (λ r o. here + o ≢ q) xs ys out)
        ∙ a.mem q (Each-left (λ r o. here + o ≢ q) xs ys out);
  }
