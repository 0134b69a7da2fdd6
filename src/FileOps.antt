-- ===== src/FileOps.antt =====
-- `FileOpGate` of core/src/state.rs: file operations are admitted until shutdown, which waits for
-- those that run.
pub mod Draining
use audite_db.Prelude.{ℕ, suc, ◌+◌, ◌-◌, ◌≡◌, ◌≤◌, Bool, true, false, if◌then◌else◌, min}
use audite_db.Prelude.Parse.{usize_max}

-- Who holds the mutex over `active`: nobody, a `begin` that has still to look at the flag again, or
-- one that has seen it clear.
pub data Holder : Type 0 where
  free locked passed : Holder

-- `shutdown_and_wait`: not called, past its store of the flag, or returned.
pub data Shutdown : Type 0 where
  not_called waiting returned : Shutdown

pub record FileOpGate : Type 0 where
  pub shutting_down : Bool
  pub active : ℕ
  pub holder : Holder
  pub shutdown : Shutdown
  pub permits : ℕ

abbrev pub new_gate : FileOpGate
new_gate = record {
  shutting_down = false;
  active = 0;
  holder = free;
  shutdown = not_called;
  permits = 0;
}

-- `*active = active.saturating_add(1)`
abbrev pub admit_one : ℕ → ℕ
admit_one active = min (active + 1) usize_max

-- The threads, each step what one of them does without another in between. The first look of `begin`
-- at the flag only leads to `begin_lock` or to a refusal, which changes nothing.
pub data Step : FileOpGate → FileOpGate → Type 0 where
  begin_lock :
      (flag : Bool) (active : ℕ) (sd : Shutdown) (permits : ℕ)
      → Step
          (record {
            shutting_down = flag;
            active = active;
            holder = free;
            shutdown = sd;
            permits = permits;
          })
          (record {
            shutting_down = flag;
            active = active;
            holder = locked;
            shutdown = sd;
            permits = permits;
          })
  begin_refused :
      (active : ℕ) (sd : Shutdown) (permits : ℕ)
      → Step
          (record {
            shutting_down = true;
            active = active;
            holder = locked;
            shutdown = sd;
            permits = permits;
          })
          (record {
            shutting_down = true;
            active = active;
            holder = free;
            shutdown = sd;
            permits = permits;
          })
  begin_passed :
      (active : ℕ) (sd : Shutdown) (permits : ℕ)
      → Step
          (record {
            shutting_down = false;
            active = active;
            holder = locked;
            shutdown = sd;
            permits = permits;
          })
          (record {
            shutting_down = false;
            active = active;
            holder = passed;
            shutdown = sd;
            permits = permits;
          })
  begin_admitted :
      (flag : Bool) (active : ℕ) (sd : Shutdown) (permits : ℕ)
      → permits + 1 ≤ usize_max
      → Step
          (record {
            shutting_down = flag;
            active = active;
            holder = passed;
            shutdown = sd;
            permits = permits;
          })
          (record {
            shutting_down = flag;
            active = admit_one active;
            holder = free;
            shutdown = sd;
            permits = permits + 1;
          })
  permit_dropped :
      (flag : Bool) (active : ℕ) (sd : Shutdown) (permits : ℕ)
      → Step
          (record {
            shutting_down = flag;
            active = active;
            holder = free;
            shutdown = sd;
            permits = suc permits;
          })
          (record {
            shutting_down = flag;
            active = active - 1;
            holder = free;
            shutdown = sd;
            permits = permits;
          })
  shutdown_stored :
      (flag : Bool) (active : ℕ) (holder : Holder) (permits : ℕ)
      → Step
          (record {
            shutting_down = flag;
            active = active;
            holder = holder;
            shutdown = not_called;
            permits = permits;
          })
          (record {
            shutting_down = true;
            active = active;
            holder = holder;
            shutdown = waiting;
            permits = permits;
          })
  shutdown_returned :
      (flag : Bool) (permits : ℕ)
      → Step
          (record {
            shutting_down = flag;
            active = 0;
            holder = free;
            shutdown = waiting;
            permits = permits;
          })
          (record {
            shutting_down = flag;
            active = 0;
            holder = free;
            shutdown = returned;
            permits = permits;
          })

pub data Steps : FileOpGate → FileOpGate → Type 0 where
  done : (s : FileOpGate) → Steps s s
  next : (s t u : FileOpGate) → Step s t → Steps t u → Steps s u
