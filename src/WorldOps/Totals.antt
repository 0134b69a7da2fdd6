-- ===== src/WorldOps/Totals.antt =====
-- The totals over the files of a data directory, which the gauges of core/src/state.rs keep.
use audite_db.Prelude.{
  ℕ, ◌+◌, ◌≡◌, refl, sym, ap, subst, ◌≤◌, true, false, none, some, List, [], ◌∷◌, All, length, inl,
  inr, arith, Bool-cases, if◌then◌else◌,
}
use audite_db.Prelude.Assoc.{lookup, insert}
use audite_db.Prelude.Text.{Bytes, eq_bytes}
use audite_db.Audit.Retention.{WorldDb}
use audite_db.Audit.Append.Entries.{WellFormed}
use audite_db.Cas.{total_len}
use audite_db.WorldStore.{WorldFile}
use audite_db.WorldStore.Usage.{body_len}
use audite_db.WorldOps.{Core}
use audite_db.WorldOps.Durable.{new_world}

unfoldable pub total : (WorldDb → ℕ) → List (Bytes × WorldFile) → ℕ
total g [] = 0
total g ((world, f) ∷ files) = g f.db + total g files

abbrev pub Well : List (Bytes × WorldFile) → Type 0
Well files = All (λ e. WellFormed e.1.db) files

module _ (g : WorldDb → ℕ) (world : Bytes) where
  pub total-insert :
      (f f' : WorldFile) (files : List (Bytes × WorldFile))
      → lookup world files ≡ some f
      → total g (insert world f' files) + g f.db ≡ total g files + g f'.db
  unfolding total lookup insert
  total-insert f f' [] h = absurd (cc)
  total-insert f f' ((k, x) ∷ files) h = ground (arith, total-insert f f' files)

  pub total-insert_new :
      (f' : WorldFile) (files : List (Bytes × WorldFile))
      → lookup world files ≡ none
      → total g (insert world f' files) ≡ total g files + g f'.db
  unfolding total lookup insert
  total-insert_new f' [] h = ground arith
  total-insert_new f' ((k, x) ∷ files) h = ground (arith, total-insert_new f' files)

  pub total-member :
      (f : WorldFile) (files : List (Bytes × WorldFile))
      → lookup world files ≡ some f
      → g f.db ≤ total g files
  unfolding total lookup
  total-member f [] h = absurd (cc)
  total-member f ((k, x) ∷ files) h = ground (arith, total-member f files)

pub Well-insert :
    (world : Bytes) (f : WorldFile) (files : List (Bytes × WorldFile))
    → Well files
    → WellFormed f.db
    → Well (insert world f files)
unfolding insert
Well-insert world f [] w h = (h, tt)
Well-insert world f ((k, x) ∷ files) w h =
    elim (eq_bytes world k)
      as (λ b. Well (if b then (world, f) ∷ files else (k, x) ∷ insert world f files)) [
        | true ↦ (h, w.1)
        | false ↦ (w.0, Well-insert world f files w.1 h)
      ]

pub Well-lookup :
    (world : Bytes) (f : WorldFile) (files : List (Bytes × WorldFile))
    → Well files
    → lookup world files ≡ some f
    → WellFormed f.db
unfolding lookup
Well-lookup world f [] w h = absurd (cc)
Well-lookup world f ((k, x) ∷ files) w h = elim (Bool-cases (eq_bytes world k)) [
  | inl e ↦
      let same : some x ≡ some f = rw_if e h in subst (λ y. WellFormed y.db) (some-inj same) w.0
  | inr e ↦ Well-lookup world f files w.1 (ground arith)
]
  where
    rw_if :
        eq_bytes world k ≡ true
        → (if eq_bytes world k then some x else lookup world files) ≡ some f
        → some x ≡ some f
    rw_if e h = ground arith

    some-inj : some x ≡ some f → x ≡ f
    some-inj e = cc

abbrev pub cas_len : WorldDb → ℕ
cas_len db = total_len db.cas_bodies

abbrev pub event_count : WorldDb → ℕ
event_count db = length db.events

-- The gauges are the totals over the files, whose tables are well formed.
pub record Accounted (core : Core) : Type 0 where
  pub bytes : core.gauges.storage_body_bytes ≡ total body_len core.files + total cas_len core.files
  pub current : core.gauges.storage_current_body_bytes ≡ total body_len core.files
  pub retained : core.gauges.storage_retained_cas_body_bytes ≡ total cas_len core.files
  pub events : core.gauges.storage_audit_chain_events ≡ total event_count core.files
  pub well : Well core.files

-- The same files, or those with a new world.
pub data SameFiles (world : Bytes) (before after : List (Bytes × WorldFile)) : Type 0 where
  same_files : after ≡ before → SameFiles world before after
  new_file :
      (generation : Bytes)
      → lookup world before ≡ none
      → after ≡ insert world (new_world generation) before
      → SameFiles world before after

-- A new world adds nothing that is counted.
pub SameFiles-total :
    (g : WorldDb → ℕ) (world : Bytes) (before after : List (Bytes × WorldFile))
    → ((generation : Bytes) → g (new_world generation).db ≡ 0)
    → SameFiles world before after
    → total g after ≡ total g before
SameFiles-total g world before after z (same_files e) = ap (total g) e
SameFiles-total g world before after z (new_file generation h e) =
    omega (
      arith,
      ap (total g) e,
      total-insert_new g world (new_world generation) before h,
      z generation,
    )

pub SameFiles-Well :
    (world : Bytes) (before after : List (Bytes × WorldFile))
    → SameFiles world before after
    → Well before
    → Well after
unfolding new_world
SameFiles-Well world before after (same_files e) w = subst Well (sym e) w
SameFiles-Well world before after (new_file generation h e) w = subst Well (sym e) (
    Well-insert world (new_world generation) before w
      (record { ascending = tt; numbered = tt; owned = tt }))

new_world-body : (generation : Bytes) → body_len (new_world generation).db ≡ 0
unfolding new_world
new_world-body generation = refl

new_world-cas : (generation : Bytes) → cas_len (new_world generation).db ≡ 0
unfolding new_world total_len
new_world-cas generation = refl

new_world-events : (generation : Bytes) → event_count (new_world generation).db ≡ 0
unfolding new_world
new_world-events generation = refl

-- What a step that changes no gauge and counts no file differently keeps.
pub SameFiles-Accounted :
    (world : Bytes) (core after : Core)
    → SameFiles world core.files after.files
    → after.gauges ≡ core.gauges
    → Accounted core
    → Accounted after
SameFiles-Accounted world core after same e a =
    let b = SameFiles-total body_len world core.files after.files new_world-body same in
    let k = SameFiles-total cas_len world core.files after.files new_world-cas same in
    let n = SameFiles-total event_count world core.files after.files new_world-events same in
    record {
      bytes = omega (arith, ap (λ x. x.storage_body_bytes) e, a.bytes, b, k);
      current = omega (arith, ap (λ x. x.storage_current_body_bytes) e, a.current, b);
      retained = omega (arith, ap (λ x. x.storage_retained_cas_body_bytes) e, a.retained, k);
      events = omega (arith, ap (λ x. x.storage_audit_chain_events) e, a.events, n);
      well = SameFiles-Well world core.files after.files same a.well;
    }
