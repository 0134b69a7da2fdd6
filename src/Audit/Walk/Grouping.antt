-- ===== src/Audit/Walk/Grouping.antt =====
-- The loop of `verify_statement_capture` in core/src/audit/verifier.rs, which groups the joined rows
-- by event, against the chain event by event.
use audite_db.Prelude.{
  ◌≡◌, refl, sym, ap, ◌∙◌, subst, true, false, Option, none, some, List, [], ◌∷◌, ◌++◌, map,
  append_assoc, append-nil, ◌>>=◌, >>=-ok, arith,
}
use mathlib.Core.Path.{fun_ext}
use audite_db.Prelude.Int.{ℤ, eq_ℤ, ltb_ℤ, eq_ℤ_iff}
use audite_db.Timeline.{Crypto}
use audite_db.Audit.Events.{EventRow, Header, Entry}
use audite_db.Audit.Retention.{CasRetentionState, WorldDb}
use audite_db.Audit.Bodies.{VerifyAccumulator}
use audite_db.Audit.Verify.{Chain}
use audite_db.Audit.Walk.{
  joined, join_all, entries, sorted_headers, audit_select, verify_entry, walk, verify_all,
}

-- The ids of the rows rise, as they do in the order of the primary key.
abbrev pub Ascending : List EventRow → Type 0
Ascending [] = Unit
Ascending (x ∷ []) = Unit
Ascending (x ∷ y ∷ rows) = (ltb_ℤ x.id y.id ≡ true) × Ascending (y ∷ rows)

eq_ℤ-refl : (a : ℤ) → eq_ℤ a a ≡ true
eq_ℤ-refl a = (eq_ℤ_iff a a).1 refl

ltb_ℤ-ne : (a b : ℤ) → ltb_ℤ a b ≡ true → eq_ℤ a b ≡ false
ltb_ℤ-ne a b h = ground arith

module _ (c : Crypto) (chain : Chain) (r : CasRetentionState) where
  -- The headers of the current event are collected.
  walk-same :
      (row : EventRow) (ks hs : List Header) (rest : List (EventRow × Option Header))
      (st : VerifyAccumulator)
      → walk c chain r (map (λ k. (row, some k)) ks ++ rest) (some row) hs st
        ≡ walk c chain r rest (some row) (hs ++ ks) st
  unfolding walk
  walk-same row [] hs rest st =
      ap (λ gs. walk c chain r rest (some row) gs st) (sym (append-nil hs))
  walk-same row (k ∷ ks) hs rest st = rw (eq_ℤ-refl row.id) (
      walk-same row ks (hs ++ k ∷ []) rest st
      ∙ ap (λ gs. walk c chain r rest (some row) gs st) (append_assoc hs (k ∷ []) ks))

  walk-start :
      (row : EventRow) (hs : List Header) (rest : List (EventRow × Option Header))
      (st : VerifyAccumulator)
      → walk c chain r (joined (row, hs) ++ rest) none [] st ≡ walk c chain r rest (some row) hs st
  unfolding walk joined
  walk-start row [] rest st = refl
  walk-start row (h ∷ hs) rest st = walk-same row hs (h ∷ []) rest st

  -- The next event closes the current one.
  walk-next :
      (event row : EventRow) (gs hs : List Header) (rest : List (EventRow × Option Header))
      (st : VerifyAccumulator)
      → eq_ℤ event.id row.id ≡ false
      → walk c chain r (joined (row, hs) ++ rest) (some event) gs st
        ≡ (verify_entry c chain r (event, gs) st >>= walk c chain r rest (some row) hs)
  unfolding walk joined
  walk-next event row gs [] rest st h = simp (h)
  walk-next event row gs (k ∷ ks) rest st h = rw (h) (
      ap (λ f. verify_entry c chain r (event, gs) st >>= f)
        (fun_ext (λ s. walk-same row ks (k ∷ []) rest s)))

  walk-rest :
      (row : EventRow) (hs : List Header) (es : List Entry) (st : VerifyAccumulator)
      → Ascending (row ∷ map (λ e. e.0) es)
      → walk c chain r (join_all es) (some row) hs st
        ≡ (verify_entry c chain r (row, hs) st >>= verify_all c chain r es)
  unfolding join_all walk verify_all
  walk-rest row hs [] st up = sym (>>=-ok (verify_entry c chain r (row, hs) st))
  walk-rest row hs ((next, ks) ∷ es) st up =
      walk-next row next hs ks (join_all es) st (ltb_ℤ-ne row.id next.id up.0)
      ∙ ap (λ f. verify_entry c chain r (row, hs) st >>= f)
          (fun_ext (λ s. walk-rest next ks es s up.1))

  -- Whatever the chain, the walk over the joined rows accepts or breaks exactly as the walk event by
  -- event, each with its headers in order, if the ids rise.
  walk-join_all :
      (es : List Entry) (st : VerifyAccumulator)
      → Ascending (map (λ e. e.0) es)
      → walk c chain r (join_all es) none [] st ≡ verify_all c chain r es st
  unfolding join_all walk verify_all
  walk-join_all [] st up = refl
  walk-join_all ((row, hs) ∷ es) st up =
      walk-start row hs (join_all es) st ∙ walk-rest row hs es st up

map-entries :
    (db : WorldDb) (rows : List EventRow)
    → map {A = Entry} (λ e. e.0) (map (λ row. (row, sorted_headers db row)) rows) ≡ rows
map-entries db [] = refl
map-entries db (row ∷ rows) = ap (λ l. row ∷ l) (map-entries db rows)

-- The walk over the joined rows of a world whose event ids rise gives, accepted or broken, what the
-- events give one by one, each with its own headers in the order of the query.
pub walk-audit_select :
    (c : Crypto) (chain : Chain) (r : CasRetentionState) (db : WorldDb) (st : VerifyAccumulator)
    → Ascending db.events
    → walk c chain r (audit_select db) none [] st ≡ verify_all c chain r (entries db) st
walk-audit_select c chain r db st up =
    walk-join_all c chain r (entries db) st (subst Ascending (sym (map-entries db db.events)) up)
