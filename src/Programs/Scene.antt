-- ===== src/Programs/Scene.antt =====
-- How the programs of src/test begin: `main` is current, and `t1` has been constructed and has not run.
use libcommunism.Base.{ℕ, ◌≡◌, ◌≢◌, refl, sym, ap, ◌∙◌, Option, some, ok, suc}
use libcommunism.Saved.{SwitchTo, Saves}
use libcommunism.Cothread.{Cothread}
use libcommunism.Cothread.Processor.{Calls}
use libcommunism.Cothread.Places.{World, Program, Alive, object, called}
use libcommunism.Programs.{Spot, Code, handled, run, switches}
use libcommunism.Programs.Rounds.{run-switches}

module _ {T E K P B : Type 0} (H : Type 0) (switch_to : SwitchTo T K P B) (objects : ℕ → T)
    (calls : Calls (World K P B)) (spot : P → Spot E K) (threads : ℕ → Cothread) (buffer : T → ℕ)
    (saved : ℕ → B → Option P) (main t1 : ℕ) where
  -- The two live at their addresses, with different buffers, `main` is current, and the buffer of
  -- `t1` leads to `p`.
  pub record IsScene (p : P) (r : Program H switch_to objects calls) : Type 0 where
    pub current : r.current ≡ main
    pub main_alive : Alive H switch_to objects calls threads r main
    pub t1_alive : Alive H switch_to objects calls threads r t1
    pub differ : buffer (object objects threads t1) ≢ buffer (object objects threads main)
    pub leads : saved (buffer (object objects threads t1)) r.world.buffers ≡ some p

  -- `main` switches to `t1` at `k`, which switches back at `l`.
  module _ (place : K → P) (law : Saves buffer place saved switch_to) (p : P) (k l : K)
      (r : Program H switch_to objects calls) (scene : IsScene p r) where
    abbrev pub over : Program H switch_to objects calls
    over = called H switch_to objects calls threads t1 k r

    abbrev pub back : Program H switch_to objects calls
    back = called H switch_to objects calls threads main l over

    pub over_goes : over.world.goes ≡ some p
    over_goes =
        law.resumes _ _ k _
        ∙ law.others _ _ k _ (buffer (object objects threads t1)) (rw scene.current scene.differ)
        ∙ scene.leads

    pub back_goes : back.world.goes ≡ some (place k)
    back_goes =
        law.resumes _ _ l _
        ∙ law.others _ _ l _ (buffer (object objects threads main)) (λ e. scene.differ (sym e))
        ∙ sym (ap (λ c. saved (buffer (object objects threads c)) over.world.buffers) scene.current)
        ∙ law.saves _ _ k _

    pub back-IsScene : IsScene (place l) back
    back-IsScene = record {
      current = refl;
      main_alive = scene.main_alive;
      t1_alive = scene.t1_alive;
      differ = scene.differ;
      leads = law.saves _ _ l _;
    }

    -- The two stretches and the two calls.
    pub run-back :
        {S : Type 0} (code : Code H E K S) (n : ℕ) (q : P) (s u v : S)
        → handled switch_to objects calls spot code (code.from (spot q) s) r ≡ ok (switches t1 k u)
        → handled switch_to objects calls spot code (code.from (spot p) u) over
          ≡ ok (switches main l v)
        → run switch_to objects calls spot code (suc (suc n)) q s r
          ≡ run switch_to objects calls spot code n (place k) v back
    run-back code n q s u v leave return =
        run-switches switch_to objects calls spot code threads (suc n) q p s u t1 k r leave
          (rw scene.current scene.main_alive) scene.t1_alive over_goes
        ∙ run-switches switch_to objects calls spot code threads n p (place k) u v main l over
            return scene.t1_alive scene.main_alive back_goes
