-- ===== src/EventLog/Bounds.antt =====
-- The log of core/src/state.rs is the newest of what was sent, and the eviction of its connections
-- ends.
use audite_db.Prelude.{
  ℕ, zero, suc, ◌+◌, ◌-◌, ◌≡◌, refl, sym, ap, ◌∙◌, ◌≤◌, false, inl, inr, Bool-cases, Option-cases,
  none, some, List, [], ◌∷◌, ◌++◌, append-nil, append_assoc, true, subst, length, if◌then◌else◌,
  length-append, last_n, drop, ltb, ltb→lt, arith,
}
use audite_db.Prelude.Text.{Bytes, eq_bytes, eq_bytes_iff}
use audite_db.Prelude.Assoc.{lookup, remove, lookup-remove_other}
use audite_db.EventLog.{
  ChangeVerb, ChangeTarget, ChangeEvent, EventLog, pop_while_long, mint_change, record_change,
  send_change, write_conn_cache_max_entries, find_victim, evict_if_needed,
}

-- The loop keeps the newest.
pop_while_long-last_n : (max : ℕ) (log : List ChangeEvent) → pop_while_long max log ≡ last_n max log
unfolding pop_while_long
pop_while_long-last_n max [] = let z : 0 - max ≡ 0 = omega arith in ap (λ k. drop k []) (sym z)
pop_while_long-last_n max (e ∷ log) = elim (Bool-cases (ltb max (length (e ∷ log)))) [
  | inl long ↦
      let k : suc (length log) - max ≡ suc (length log - max) =
        omega (arith, ltb→lt max (suc (length log)) long) in
      rw long (pop_while_long-last_n max log ∙ ap (λ j. drop j (e ∷ log)) (sym k))
  | inr short ↦
      let k : suc (length log) - max ≡ 0 = ground arith in
      rw short (ap (λ j. drop j (e ∷ log)) (sym k))
]

drop-nil {ℓ} : {A : Type ℓ} (i : ℕ) → drop {A = A} i [] ≡ []
drop-nil zero = refl
drop-nil (suc i) = refl

drop-drop {ℓ} : {A : Type ℓ} (i j : ℕ) (xs : List A) → drop i (drop j xs) ≡ drop (j + i) xs
drop-drop i zero xs = let k : i ≡ 0 + i = omega arith in ap (λ j. drop j xs) k
drop-drop i (suc j) [] = drop-nil i ∙ sym (drop-nil (suc j + i))
drop-drop i (suc j) (x ∷ xs) =
    let k : suc (j + i) ≡ suc j + i = omega arith in drop-drop i j xs ∙ ap (λ n. drop n (x ∷ xs)) k

drop-append_one {ℓ} :
    {A : Type ℓ} (k : ℕ) (xs : List A) (y : A)
    → k ≤ length xs
    → drop k xs ++ y ∷ [] ≡ drop k (xs ++ y ∷ [])
drop-append_one zero xs y h = refl
drop-append_one (suc k) [] y h = absurd (omega arith)
drop-append_one (suc k) (x ∷ xs) y h = drop-append_one k xs y (omega arith)

length-drop {ℓ} : {A : Type ℓ} (k : ℕ) (xs : List A) → length (drop k xs) ≡ length xs - k
length-drop zero xs = omega arith
length-drop (suc k) [] = omega arith
length-drop (suc k) (x ∷ xs) = omega (arith, length-drop k xs)

-- The newest of the newest and one more are the newest.
last_n-again {ℓ} :
    {A : Type ℓ} (n : ℕ) (xs : List A) (y : A)
    → last_n n (last_n n xs ++ y ∷ []) ≡ last_n n (xs ++ y ∷ [])
last_n-again n xs y =
    let k = length xs - n in
    let all = drop-append_one k xs y (omega arith) in
    ap (last_n n) all
    ∙ drop-drop (length (drop k (xs ++ y ∷ [])) - n) k (xs ++ y ∷ [])
    ∙ ap (λ j. drop j (xs ++ y ∷ []))
        (omega (arith, length-drop k (xs ++ y ∷ []), length-append xs (y ∷ [])))

-- The log between the threads that notify, with the changes that have their id and are not yet in
-- the log, and those that are in the log and not yet sent.
pub record Notifying : Type 0 where
  pub shared : EventLog
  pub minted : List ChangeEvent
  pub unsent : List ChangeEvent

-- Threads that notify, in any order of their parts; the list is of the changes in the order in which
-- they enter the log.
pub data NotifySteps (max : ℕ) : Notifying → List ChangeEvent → Notifying → Type 0 where
  rest : (s : Notifying) → NotifySteps max s [] s
  mint :
      (s t : Notifying) (verb : ChangeVerb) (target : ChangeTarget) (etag : Bytes)
      (changes : List ChangeEvent)
      → NotifySteps max
          (record {
            shared = (mint_change verb target etag s.shared).1;
            minted = (mint_change verb target etag s.shared).0 ∷ s.minted;
            unsent = s.unsent;
          })
          changes
          t
      → NotifySteps max s changes t
  enter :
      (s t : Notifying) (before : List ChangeEvent) (change : ChangeEvent)
      (after changes : List ChangeEvent)
      → s.minted ≡ before ++ change ∷ after
      → NotifySteps max
          (record {
            shared = record_change max change s.shared;
            minted = before ++ after;
            unsent = change ∷ s.unsent;
          })
          changes
          t
      → NotifySteps max s (change ∷ changes) t
  send :
      (s t : Notifying) (before : List ChangeEvent) (change : ChangeEvent)
      (after changes : List ChangeEvent)
      → s.unsent ≡ before ++ change ∷ after
      → NotifySteps max
          (record {
            shared = send_change change s.shared;
            minted = s.minted;
            unsent = before ++ after;
          })
          changes
          t
      → NotifySteps max s changes t

NotifySteps-last_n :
    (max : ℕ) (s t : Notifying) (before changes : List ChangeEvent)
    → s.shared.log ≡ last_n max before
    → NotifySteps max s changes t
    → t.shared.log ≡ last_n max (before ++ changes)
unfolding mint_change record_change send_change
NotifySteps-last_n max _ _ before _ h (rest s) = h ∙ ap (last_n max) (sym (append-nil before))
NotifySteps-last_n max _ _ before _ h (mint s t verb target etag changes steps) =
    NotifySteps-last_n max _ t before changes h steps
NotifySteps-last_n max _ _ before _ h (enter s t xs change ys changes is steps) =
    NotifySteps-last_n max _ t (before ++ change ∷ []) changes
      (pop_while_long-last_n max (s.shared.log ++ change ∷ [])
        ∙ ap (λ l. last_n max (l ++ change ∷ [])) h
        ∙ last_n-again max before change)
      steps
    ∙ ap (last_n max) (append_assoc before (change ∷ []) changes)
NotifySteps-last_n max _ _ before _ h (send s t xs change ys changes is steps) =
    NotifySteps-last_n max _ t before changes h steps

-- Threads that notify, with their parts in any order, leave in an empty log the newest of the changes
-- that have entered it, in that order and at most so many as a replay may have.
pub NotifySteps-newest :
    (max : ℕ) (s t : Notifying) (changes : List ChangeEvent)
    → s.shared.log ≡ []
    → NotifySteps max s changes t
    → t.shared.log ≡ last_n max changes
NotifySteps-newest max s t changes h steps =
    NotifySteps-last_n max s t [] changes (h ∙ sym (drop-nil (0 - max))) steps

remove-length {ℓ} :
    {A : Type ℓ} (key : Bytes) (m : List (Bytes × A)) → length (remove key m) ≤ length m
unfolding remove
remove-length key [] = omega arith
remove-length key ((k, a) ∷ m) = ground (arith, remove-length key m)

remove-shorter {ℓ} :
    {A : Type ℓ} (key protected : Bytes) (m : List (Bytes × A))
    → find_victim protected m ≡ some key
    → length (remove key m) + 1 ≤ length m
unfolding remove find_victim
remove-shorter key protected [] h = absurd (cc)
remove-shorter key protected ((k, a) ∷ m) h = ground (
  arith,
  remove-shorter key protected m,
  remove-length key m,
  eq_bytes_iff key k,
  eq_bytes_iff k protected,
)

find_victim-other {ℓ} :
    {A : Type ℓ} (key protected : Bytes) (m : List (Bytes × A))
    → find_victim protected m ≡ some key
    → eq_bytes protected key ≡ false
unfolding find_victim
find_victim-other key protected [] h = absurd (cc)
find_victim-other key protected ((k, a) ∷ m) h =
    ground (
      arith,
      find_victim-other key protected m,
      eq_bytes_iff k protected,
      eq_bytes_iff protected key,
    )

-- No two entries under one key.
abbrev pub Distinct {ℓ} : {A : Type ℓ} → List (Bytes × A) → Type ℓ
Distinct [] = Unit {ℓ}
Distinct ((key, a) ∷ m) = (lookup key m ≡ none) × Distinct m

remove-Distinct {ℓ} :
    {A : Type ℓ} (victim : Bytes) (m : List (Bytes × A)) → Distinct m → Distinct (remove victim m)
unfolding remove
remove-Distinct victim [] h = tt
remove-Distinct victim ((key, a) ∷ m) h =
    let left = remove-Distinct victim m h.1 in
    elim (eq_bytes victim key)
        as (λ b.
          eq_bytes victim key ≡ b
          → Distinct (if b then remove victim m else (key, a) ∷ remove victim m)) [
            | true ↦ λ e. left
            | false ↦ λ e. (lookup-remove_other key victim m (other e) ∙ h.0, left)
          ]
      refl
  where
    other : eq_bytes victim key ≡ false → eq_bytes key victim ≡ false
    other e = ground (arith, eq_bytes_iff victim key, eq_bytes_iff key victim)

nothing_left {ℓ} :
    {A : Type ℓ} (protected : Bytes) (m : List (Bytes × A))
    → find_victim protected m ≡ none
    → lookup protected m ≡ none
    → length m ≡ 0
unfolding find_victim lookup
nothing_left protected [] h k = refl
nothing_left protected ((key, a) ∷ m) h k =
    absurd (ground (arith, eq_bytes_iff key protected, eq_bytes_iff protected key))

find_victim-none {ℓ} :
    {A : Type ℓ} (protected : Bytes) (m : List (Bytes × A))
    → Distinct m
    → find_victim protected m ≡ none
    → length m ≤ 1
unfolding find_victim
find_victim-none protected [] d h = omega arith
find_victim-none protected ((key, a) ∷ m) d h =
    let own : key ≡ protected = ground (arith, eq_bytes_iff key protected) in
    let later : find_victim protected m ≡ none = ground arith in
    let none_more = nothing_left protected m later (subst (λ k. lookup k m ≡ none) own d.0) in
    omega (arith, none_more)

-- The eviction ends within the limit: with as much fuel as there are connections above it, a cache
-- with no two connections under one key is left with no more than the limit, and with the protected
-- connection as it was.
pub evict_if_needed-ends {ℓ} :
    {A : Type ℓ} (fuel : ℕ) (protected : Bytes) (conns : List (Bytes × A))
    → Distinct conns
    → length conns ≤ fuel + write_conn_cache_max_entries
    → (left : List (Bytes × A)) × (evict_if_needed fuel protected conns ≡ some left)
      × (length left ≤ write_conn_cache_max_entries)
      × (lookup protected left ≡ lookup protected conns)
unfolding evict_if_needed
evict_if_needed-ends zero protected conns d h = (conns, ground arith, omega arith, refl)
evict_if_needed-ends (suc fuel) protected conns d h =
    elim (Bool-cases (ltb write_conn_cache_max_entries (length conns))) [
      | inr short ↦ (conns, ground arith, ground arith, refl)
      | inl long ↦ elim (Option-cases (find_victim protected conns)) [
        | inl none_left ↦
            (conns, ground arith, omega (arith, find_victim-none protected conns d none_left), refl)
        | inr (victim, e) ↦
            let shorter = remove-shorter victim protected conns e in
            let (left, ends, small, same) =
              evict_if_needed-ends fuel protected (remove victim conns)
                (remove-Distinct victim conns d) (omega arith) in
            (
              left,
              ground (arith, ends),
              small,
              same
                  ∙ lookup-remove_other protected victim conns
                      (find_victim-other victim protected conns e),
            )
      ]
    ]
