-- ===== src/EventLog.antt =====
-- The log of recent changes in core/src/state.rs, which a subscription replays, and the cache of the
-- connections that write.
pub mod Bounds
use audite_db.Prelude.{
  ℕ, zero, suc, ◌+◌, ◌%◌, ◌^◌, ◌≡◌, Bool, true, false, not, Option, none, some, List, [], ◌∷◌, ◌++◌,
  length, ltb, if◌then◌else◌,
}
use audite_db.Prelude.Text.{Bytes, eq_bytes}
use audite_db.Prelude.Assoc.{remove}
use audite_db.Audit.Append.{AppendedAuditRow}

-- `ChangeVerb` of core/src/engine_types.rs
pub data ChangeVerb : Type 0 where
  replace_verb append_verb delete_verb format_verb : ChangeVerb

-- `ChangeTarget` of core/src/subscription_event_id.rs
pub data ChangeTarget : Type 0 where
  chain_target : AppendedAuditRow → ChangeTarget
  ephemeral : Bytes → ChangeTarget

-- `ChangeEvent` of core/src/event.rs, of one process
pub record ChangeEvent : Type 0 where
  pub id : ℕ
  pub verb : ChangeVerb
  pub target : ChangeTarget
  pub etag : Bytes

-- The counter of ids, the log, and what has been sent to the live subscriptions, the newest last.
pub record EventLog : Type 0 where
  pub last_event_id : ℕ
  pub log : List ChangeEvent
  pub sent : List ChangeEvent

-- The loop of `notify_with_aux`: the oldest are popped while the log is too long.
unfoldable pub pop_while_long : ℕ → List ChangeEvent → List ChangeEvent
pop_while_long max [] = []
pop_while_long max (e ∷ log) =
    let rest = pop_while_long max log in if ltb max (length (e ∷ log)) then rest else e ∷ log

-- `next_event_id`, of a `u64` counter that wraps
unfoldable pub next_event_id : ℕ → ℕ
next_event_id counter = (counter + 1) % 2 ^ 64

-- The first part of `notify_with_aux`: a change takes the next id.
unfoldable pub mint_change : ChangeVerb → ChangeTarget → Bytes → EventLog → ChangeEvent × EventLog
unfolding next_event_id
mint_change verb target etag s =
    let id = next_event_id s.last_event_id in
    (
      record { id = id; verb = verb; target = target; etag = etag },
      record { last_event_id = id; log = s.log; sent = s.sent },
    )

-- The second part, under the mutex of the log.
unfoldable pub record_change : ℕ → ChangeEvent → EventLog → EventLog
unfolding pop_while_long
record_change listen_replay_max change s = record {
  last_event_id = s.last_event_id;
  log = pop_while_long listen_replay_max (s.log ++ change ∷ []);
  sent = s.sent;
}

-- The third part, `events.send`
unfoldable pub send_change : ChangeEvent → EventLog → EventLog
send_change change s = record {
  last_event_id = s.last_event_id;
  log = s.log;
  sent = s.sent ++ change ∷ [];
}

-- `notify_with_aux`, as one thread alone runs it; other threads may come between its parts.
unfoldable pub notify : ℕ → ChangeVerb → ChangeTarget → Bytes → EventLog → EventLog
unfolding mint_change record_change send_change
notify listen_replay_max verb target etag s =
    let (change, minted) = mint_change verb target etag s in
    send_change change (record_change listen_replay_max change minted)

abbrev pub write_conn_cache_max_entries : ℕ
write_conn_cache_max_entries = 64

-- `find`, of the first entry under another key
unfoldable pub find_victim {ℓ} : {A : Type ℓ} → Bytes → List (Bytes × A) → Option Bytes
find_victim protected [] = none
find_victim protected ((key, a) ∷ conns) =
    let rest = find_victim protected conns in if eq_bytes key protected then rest else some key

-- `evict_cached_write_conn_if_needed`; none if the fuel gives out.
unfoldable pub evict_if_needed {ℓ} :
    {A : Type ℓ} → ℕ → Bytes → List (Bytes × A) → Option (List (Bytes × A))
unfolding find_victim
evict_if_needed zero protected conns =
    if ltb write_conn_cache_max_entries (length conns) then none else some conns
evict_if_needed (suc fuel) protected conns =
    if ltb write_conn_cache_max_entries (length conns)
    then (elim (find_victim protected conns) [
      | none ↦ some conns
      | some victim ↦ evict_if_needed fuel protected (remove victim conns)
    ])
    else some conns
