-- ===== src/Service/Panel/Lift.antt =====
-- What it takes for a step of a service to keep a property of the rows of the database.
use dst_go_backend.Base.{ℕ, ◌≡◌, Bool, false, Option, List}
use dst_go_backend.Apperr.{Error, Result, ok, err}
use dst_go_backend.Act.{Act, pure, throw, ◌>>=◌, ◌>>◌, throw_if, recode, need, attempt}
use dst_go_backend.Act.Runs.{
  Post, Runs, Runs-bind, Runs-attempt, Runs-recode, Runs-throw_if, Runs-need,
}
use dst_go_backend.AgentManager.Hub.{Hub, Event}
use dst_go_backend.Service.World.{Env, World, on_db, on_hub, drawing}
use dst_go_backend.Service.Panel.Closed.{RowsProperty}
use dst_go_backend.Service.Panel.Kept.{Holds}

module _ (e : Env) {A : Type 0} (P : e.Db → Type 0) (Q : A → e.Db → Type 0)
    (E : e.Db → Type 0) where
  lifted :
      (r : Result A) (t : e.Db) (w : World e)
      → Post Q E r t
      → Post (λ a (v : World e). Q a v.db) (λ v. E v.db) r (record w { db = t })
  lifted (ok a) t w h = h
  lifted (err x) t w h = h

  pub on_db-Runs :
      (m : Act e.Db A)
      → Runs P m Q E
      → Runs (λ (w : World e). P w.db) (on_db e m) (λ a w. Q a w.db) (λ w. E w.db)
  on_db-Runs m h w p = lifted (m w.db).0 (m w.db).1 w (h w.db p)

module _ (e : Env) (J : RowsProperty) where
  -- The property of the rows in a world.
  abbrev pub HoldsIn : World e → Type 0
  HoldsIn w = Holds e.database J w.db

  unfoldable pub Keeps : {A : Type 0} → Act (World e) A → Type 0
  Keeps {A} m = Runs HoldsIn m (λ (a : A). HoldsIn) HoldsIn

  pub thrown : (A : Type 0) (x : Error) → Keeps {A = A} (throw x)
  unfolding Keeps
  thrown A x w h = h

  pub returned : {A : Type 0} (a : A) → Keeps {A = A} (pure a)
  unfolding Keeps
  returned a w h = h

  pub on_db-Keeps :
      {A : Type 0} (m : Act e.Db A)
      → Runs (Holds e.database J) m (λ (a : A). Holds e.database J) (Holds e.database J)
      → Keeps (on_db e m)
  unfolding Keeps
  on_db-Keeps m h =
      on_db-Runs e (Holds e.database J) (λ a. Holds e.database J) (Holds e.database J) m h

  -- A statement that reads the instant.
  pub on_db-at :
      {A : Type 0} (m : ℕ → Act e.Db A)
      → ((now : ℕ)
          → Runs (Holds e.database J) (m now) (λ (a : A). Holds e.database J) (Holds e.database J))
      → Keeps (λ w. on_db e (m w.now) w)
  unfolding Keeps
  on_db-at {A} m h w =
      on_db-Runs e (Holds e.database J) (λ (a : A). Holds e.database J) (Holds e.database J)
        (m w.now) (h w.now) w

  pub drawing-Keeps : {A : Type 0} (f : ℕ → Result A) → Keeps (drawing e f)
  unfolding Keeps
  drawing-Keeps {A} f w h = either (f w.drawn)
    where
      either : (r : Result A) → Post (λ (a : A). HoldsIn) HoldsIn r (drawing e f w).1
      either (ok a) = h
      either (err x) = h

  pub on_hub-Keeps : (f : Hub → Hub × List Event) → Keeps (on_hub e f)
  unfolding Keeps
  on_hub-Keeps f w h = h

  pub bind-Keeps :
      {A B : Type 0} (m : Act (World e) A) (f : A → Act (World e) B)
      → Keeps m
      → ((a : A) → Keeps (f a))
      → Keeps (m >>= f)
  unfolding Keeps
  bind-Keeps {A} {B} m f h k =
      Runs-bind HoldsIn (λ (a : A). HoldsIn) (λ (b : B). HoldsIn) HoldsIn m f h k

  pub attempt-Keeps :
      {A B : Type 0} (m : Act (World e) A) (bad : Error → Act (World e) B)
      (good : A → Act (World e) B)
      → Keeps m
      → ((x : Error) → Keeps (bad x))
      → ((a : A) → Keeps (good a))
      → Keeps (attempt m bad good)
  unfolding Keeps
  attempt-Keeps {A} {B} m bad good h j k =
      Runs-attempt HoldsIn (λ (a : A). HoldsIn) (λ (b : B). HoldsIn) HoldsIn m bad good h j k

  pub recode-Keeps : {A : Type 0} (x : Error) (m : Act (World e) A) → Keeps m → Keeps (recode x m)
  unfolding Keeps
  recode-Keeps {A} x m h = Runs-recode HoldsIn (λ (a : A). HoldsIn) HoldsIn x m h

  -- A guard that stops keeps the property; behind it, its test is false.
  pub guard-Keeps :
      {A : Type 0} (b : Bool) (x : Error) (m : Act (World e) A)
      → (b ≡ false → Keeps m)
      → Keeps (throw_if b x >> m)
  unfolding Keeps
  guard-Keeps {A} b x m go = Runs-throw_if HoldsIn (λ (a : A). HoldsIn) HoldsIn b x m (λ s h. h) go

  pub need-Keeps :
      {A B : Type 0} (o : Option A) (x : Error) (f : A → Act (World e) B)
      → ((a : A) → Keeps (f a))
      → Keeps (need o x >>= f)
  unfolding Keeps
  need-Keeps {A} {B} o x f go =
      Runs-need HoldsIn (λ (b : B). HoldsIn) HoldsIn o x f (λ s h. h) (λ a is. go a)

  -- Whether it returned or failed, the step has kept the property.
  pub kept-Holds :
      {A : Type 0} (m : Act (World e) A) → Keeps m → (w : World e) → HoldsIn w → HoldsIn (m w).1
  unfolding Keeps
  kept-Holds {A} m k w h = either (m w).0 (m w).1 (k w h)
    where
      either : (r : Result A) (v : World e) → Post (λ (a : A). HoldsIn) HoldsIn r v → HoldsIn v
      either (ok a) v h = h
      either (err x) v h = h
