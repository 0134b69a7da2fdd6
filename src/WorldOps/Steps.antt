-- ===== src/WorldOps/Steps.antt =====
-- Steps of a write of core/src/world_ops.rs: functions of the engine's state that return early with
-- an error, and the guards that undo a reservation then.
use audite_db.Prelude.{Result, ok, err}
use audite_db.WorldOps.{WriteError, Core}

abbrev pub Step {ℓ} : Type ℓ → Type ℓ
Step A = Core → Result WriteError A × Core

abbrev pub continue {ℓ κ} :
    {A : Type ℓ} {B : Type κ}
    → (A → Step B)
    → Result WriteError A
    → Core
    → Result WriteError B × Core
continue f (ok a) core = f a core
continue f (err e) core = (err e, core)

infixl 5 ◌>>=◌ ◌>>◌
abbrev pub ◌>>=◌ {ℓ κ} : {A : Type ℓ} {B : Type κ} → Step A → (A → Step B) → Step B
(m >>= f) core = let (r, after) = m core in continue f r after

abbrev pub ◌>>◌ {ℓ κ} : {A : Type ℓ} {B : Type κ} → Step A → Step B → Step B
m >> k = m >>= λ _. k

abbrev pub pure {ℓ} : {A : Type ℓ} → A → Step A
pure a core = (ok a, core)

-- A result that leaves the state as it is.
abbrev pub lift {ℓ} : {A : Type ℓ} → Result WriteError A → Step A
lift r core = (r, core)

abbrev pub get : Step Core
get core = (ok core, core)

abbrev pub modify : (Core → Core) → Step (Unit {0})
modify f core = (ok tt, f core)

abbrev pub undone {ℓ} :
    {A : Type ℓ} → (Core → Core) → Result WriteError A → Core → Result WriteError A × Core
undone undo (ok a) core = (ok a, core)
undone undo (err e) core = (err e, undo core)

-- A guard that is dropped armed if the step returns early.
abbrev pub on_error {ℓ} : {A : Type ℓ} → (Core → Core) → Step A → Step A
on_error undo m core = let (r, after) = m core in undone undo r after
