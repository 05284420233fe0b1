-- ===== src/Discovery/Refresh/Current.antt =====
-- The flag and the goroutines of pkg/controllers/schema/schemas.go: whether the schemas are those
-- of the cluster's present APIs.
use brent.Base.{
  ℕ, suc, ◌≡◌, refl, Bool, true, false, Option, none, some, ◌⊎◌, inl, inr, arith, ◌<◌, ◌≤◌, ap, ◌∙◌,
}

-- The APIs of the cluster by a number that each change raises, the number that the schemas were
-- made from, `toSync`, the goroutines of `queueRefresh` that still sleep, the refresh that holds
-- the lock with the number it discovered, and how many refreshes failed.
pub record Sync : Type 0 where
  pub version : ℕ
  pub installed : ℕ
  pub to_sync : Bool
  pub sleeping : ℕ
  pub running : Option ℕ
  pub failures : ℕ

abbrev pub start : Sync
start = record {
  version = 0;
  installed = 0;
  to_sync = false;
  sleeping = 0;
  running = none;
  failures = 0;
}

-- `queueRefresh`, on a change of the cluster's APIs
abbrev pub queue_refresh : Sync → Sync
queue_refresh s = record s { version = suc s.version; to_sync = true; sleeping = suc s.sleeping }

abbrev pub if_set : Bool → ℕ → Option ℕ
if_set true v = some v
if_set false v = none

-- `needToSync`, by a goroutine that wakes and takes the lock: it goes on if the flag was set
abbrev pub wake : ℕ → Sync → Sync
wake n s = record s { to_sync = false; sleeping = n; running = if_set s.to_sync s.version }

-- the discovery of the refresh that runs
abbrev pub discover : Sync → Sync
discover s = record s { running = some s.version }

-- the end of a refresh, and `toSync` set again after one that failed
abbrev pub install : ℕ → Sync → Sync
install v s = record s { installed = v; running = none }

abbrev pub give_up : Sync → Sync
give_up s = record s { to_sync = true; running = none; failures = suc s.failures }

pub data Step : Sync → Sync → Type 0 where
  changes : (s : Sync) → Step s (queue_refresh s)
  wakes : (s : Sync) (n : ℕ) → s.sleeping ≡ suc n → s.running ≡ none → Step s (wake n s)
  discovers : (s : Sync) (v : ℕ) → s.running ≡ some v → Step s (discover s)
  installs : (s : Sync) (v : ℕ) → s.running ≡ some v → Step s (install v s)
  fails : (s : Sync) (v : ℕ) → s.running ≡ some v → Step s (give_up s)

pub data Reach : Sync → Type 0 where
  begin : Reach start
  next : {s t : Sync} → Reach s → Step s t → Reach t

-- The number that the running refresh found, or else the installed one, is the present one, or the
-- flag is set; and while the flag is set a goroutine sleeps, or a refresh failed.
abbrev pub latest : Option ℕ → ℕ → ℕ
latest none old = old
latest (some v) old = v

pub record IsCurrent (s : Sync) : Type 0 where
  pub found : (latest s.running s.installed ≡ s.version) ⊎ (s.to_sync ≡ true)
  pub woken : (s.to_sync ≡ false) ⊎ ((0 < s.sleeping) ⊎ (0 < s.failures))

latest-if_set : (b : Bool) (v i : ℕ) → (i ≡ v) ⊎ (b ≡ true) → latest (if_set b v) i ≡ v
latest-if_set true v i h = refl
latest-if_set false v i (inl same) = same
latest-if_set false v i (inr set) = cc

Step-IsCurrent : {s t : Sync} → Step s t → IsCurrent s → IsCurrent t
Step-IsCurrent (changes s) h = record { found = inr refl; woken = inr (inl (omega arith)) }
Step-IsCurrent (wakes s n sleeps idle) h = record {
  found = inl (latest-if_set s.to_sync s.version s.installed (rw idle at h.found));
  woken = inl refl;
}
Step-IsCurrent (discovers s v runs) h = record { found = inl refl; woken = h.woken }
Step-IsCurrent (installs s v runs) h = record { found = rw runs at h.found; woken = h.woken }
Step-IsCurrent (fails s v runs) h = record { found = inr refl; woken = inr (inr (omega arith)) }

pub Reach-IsCurrent : {s : Sync} → Reach s → IsCurrent s
Reach-IsCurrent begin = record { found = inl refl; woken = inl refl }
Reach-IsCurrent (next r st) = Step-IsCurrent st (Reach-IsCurrent r)

-- In every state that is reached, whatever the order of changes, of goroutines that wake and of
-- refreshes that end: when no goroutine sleeps, no refresh runs and none has failed, the schemas
-- are those of the present APIs.
pub installed-Reach :
    (s : Sync) (r : Reach s)
    → s.sleeping ≡ 0
    → s.running ≡ none
    → s.failures ≡ 0
    → s.installed ≡ s.version
installed-Reach s r asleep idle fine = let h = Reach-IsCurrent r in go h.found h.woken
  where
    go :
        (latest s.running s.installed ≡ s.version) ⊎ (s.to_sync ≡ true)
        → (s.to_sync ≡ false) ⊎ ((0 < s.sleeping) ⊎ (0 < s.failures))
        → s.installed ≡ s.version
    go (inl same) w = rw idle at same
    go (inr set) (inl clear) = cc
    go (inr set) (inr (inl sleeps)) = omega arith
    go (inr set) (inr (inr failing)) = omega arith

-- the states that follow one
pub data Follows (s : Sync) : Sync → Type 0 where
  same : Follows s s
  then_step : {t u : Sync} → Follows s t → Step t u → Follows s u

Step-version : {t u : Sync} → Step t u → t.version ≤ u.version
Step-version (changes t) = omega arith
Step-version (wakes t n sleeps idle) = omega arith
Step-version (discovers t v runs) = omega arith
Step-version (installs t v runs) = omega arith
Step-version (fails t v runs) = omega arith

Follows-version : {s t : Sync} → Follows s t → s.version ≤ t.version
Follows-version same = omega arith
Follows-version (then_step f st) = omega (arith, Follows-version f, Step-version st)

-- a step from a state in which nobody sleeps and nothing runs is a change
idle_Step-version :
    {t u : Sync} → Step t u → t.sleeping ≡ 0 → t.running ≡ none → t.version < u.version
idle_Step-version (changes t) asleep idle = omega arith
idle_Step-version (wakes t n sleeps _) asleep idle = ground (arith, sleeps, asleep)
idle_Step-version (discovers t v runs) asleep idle = cc
idle_Step-version (installs t v runs) asleep idle = cc
idle_Step-version (fails t v runs) asleep idle = cc

stuck :
    (s : Sync) {t : Sync}
    → Follows s t
    → s.sleeping ≡ 0
    → s.running ≡ none
    → t.version ≡ s.version
    → t ≡ s
stuck s same asleep idle unchanged = refl
stuck s (then_step {t = t} {u = u} f st) asleep idle unchanged =
    let before : t.version ≡ s.version =
      omega (arith, Follows-version f, Step-version st, unchanged) in
    let here : t ≡ s = stuck s f asleep idle before in
    let later : t.version < u.version =
      idle_Step-version st (ap (λ r. r.sleeping) here ∙ asleep) (ap (λ r. r.running) here ∙ idle) in
    absurd (omega (arith, later, before, unchanged))

-- When a refresh fails while no goroutine sleeps, then, however many steps follow, as long as the APIs
-- do not change: the flag stays set, the schemas stay those from before, and no refresh runs.
pub after_failure-stays :
    (s t : Sync) (v : ℕ)
    → s.running ≡ some v
    → s.sleeping ≡ 0
    → Step s (give_up s)
    → Follows (give_up s) t
    → t.version ≡ s.version
    → (t.to_sync ≡ true)
      × (t.installed ≡ s.installed)
      × (t.running ≡ none)
      × (t.failures ≡ suc s.failures)
after_failure-stays s t v runs asleep failing f unchanged =
    let here : t ≡ give_up s = stuck (give_up s) f asleep refl unchanged in
    (
      ap (λ r. r.to_sync) here,
      ap (λ r. r.installed) here,
      ap (λ r. r.running) here,
      ap (λ r. r.failures) here,
    )
