-- ===== src/Subscriptions/Registered.antt =====
-- The steps of a session, and what holds between any two of them.
use brent.Base.{
  ℕ, String, ◌≡◌, refl, ap, Bool, true, false, ◌⊎◌, inl, inr, none, some, List, [], ◌∷◌, Dict,
  lookup, lookup-insert, lookup-remove, ◌==◌, string_eq, eq_iff, any, eqb, arith, sym, ◌∙◌, remove,
  Bool-cases, Option-cases,
}
use brent.Subscriptions.{
  Subscribe, sub_key, Session, new_session, stop_key, add_key, receive, finish, is_run, drop_run,
}

abbrev pub is_running : ℕ → String → Session → Bool
is_running i key s = any (is_run i key) s.running

abbrev pub is_cancelled : ℕ → Session → Bool
is_cancelled i s = any (λ j. eqb j i) s.cancelled

-- One step of a session: a message, or the end of a goroutine that runs.
pub data Step : Session → Session → Type 0 where
  receives : (sub : Subscribe) (s : Session) → Step s (receive sub s)
  ends : (i : ℕ) (key : String) (s : Session) → is_running i key s ≡ true → Step s (finish i key s)

pub data Reachable : Session → Type 0 where
  opened : Reachable new_session
  after : {s t : Session} → Reachable s → Step s t → Reachable t

-- every registered watch runs, under its own key
abbrev pub IsRegistered : Session → Type 0
IsRegistered s = (k : String) (i : ℕ) → lookup k s.watchers ≡ some i → is_running i k s ≡ true

-- every watch that runs is registered under its key or was cancelled
abbrev pub IsAccounted : Session → Type 0
IsAccounted s =
    (i : ℕ) (k : String)
    → is_running i k s ≡ true
    → (lookup k s.watchers ≡ some i) ⊎ (is_cancelled i s ≡ true)

abbrev pub IsSound : Session → Type 0
IsSound s = IsRegistered s × IsAccounted s

eqb_refl : (n : ℕ) → eqb n n ≡ true
eqb_refl n = ground arith

eqb-eq : (m n : ℕ) → eqb m n ≡ true → m ≡ n
eqb-eq m n h = ground (arith, h)

add_key-IsSound :
    (key : String) (s : Session)
    → lookup key s.watchers ≡ none
    → IsSound s
    → IsSound (add_key key s)
unfolding add_key
add_key-IsSound key s absent (registered, accounted) = (
  λ k i found. elim (Bool-cases (key == k)) [
    | inl same ↦ ground (arith, found, lookup-insert key k s.next s.watchers, same)
    | inr other ↦
        let old : lookup k s.watchers ≡ some i =
          ground (arith, found, lookup-insert key k s.next s.watchers, other) in
        ground (arith, registered k i old)
  ],
  λ i k runs. elim (Bool-cases (is_run i k (s.next, key))) [
    | inl new ↦ inl (ground (arith, lookup-insert key k s.next s.watchers, new))
    | inr old ↦ elim (accounted i k (ground (arith, runs, old))) [
      | inl held ↦
          inl (ground (arith, lookup-insert key k s.next s.watchers, held, absent, eq_iff key k))
      | inr gone ↦ inr gone
    ]
  ],
)

not_removed :
    (key k : String) (i : ℕ) (w : Dict String ℕ)
    → lookup k (remove key w) ≡ some i
    → ((key == k) ≡ false) × (lookup k w ≡ some i)
not_removed key k i w found = elim (Bool-cases (key == k)) [
  | inl same ↦ absurd (ground (arith, found, lookup-remove key k w, same))
  | inr other ↦ (other, ground (arith, found, lookup-remove key k w, other))
]

stop_key-running : (key : String) (s : Session) → (stop_key key s).running ≡ s.running
unfolding stop_key
stop_key-running key s = elim (Option-cases (lookup key s.watchers)) [
  | inl absent ↦ rw absent refl
  | inr (i, held) ↦ rw held refl
]

stop_key-watchers : (key : String) (s : Session) → (stop_key key s).watchers ≡ remove key s.watchers
unfolding stop_key
stop_key-watchers key s = elim (Option-cases (lookup key s.watchers)) [
  | inl absent ↦ rw absent refl
  | inr (i, held) ↦ rw held refl
]

-- what is cancelled after a stop: what was, and what was registered under the key
stop_key-cancelled :
    (key : String) (s : Session) (i : ℕ)
    → ((lookup key s.watchers ≡ some i) ⊎ (is_cancelled i s ≡ true))
    → is_cancelled i (stop_key key s) ≡ true
unfolding stop_key
stop_key-cancelled key s i (inl held) = rw held (ground (arith, eqb_refl i))
stop_key-cancelled key s i (inr gone) = elim (Option-cases (lookup key s.watchers)) [
  | inl absent ↦ rw absent gone
  | inr (j, held) ↦ rw held (ground (arith, gone))
]

stop_key-IsAccounted :
    (key : String) (s : Session)
    → IsAccounted s
    → (i : ℕ) (k : String) → is_running i k s ≡ true
    → (lookup k (stop_key key s).watchers ≡ some i) ⊎ (is_cancelled i (stop_key key s) ≡ true)
stop_key-IsAccounted key s accounted i k runs = elim (accounted i k runs) [
  | inr gone ↦ inr (stop_key-cancelled key s i (inr gone))
  | inl held ↦ elim (Bool-cases (key == k)) [
    | inl same ↦ inr (
        stop_key-cancelled key s i
          (inl (ap (λ x. lookup x s.watchers) ((eq_iff key k).0 same) ∙ held)))
    | inr other ↦ inl (
        ap (λ w. lookup k w) (stop_key-watchers key s)
        ∙ ground (arith, lookup-remove key k s.watchers, other, held))
  ]
]

stop_key-IsSound : (key : String) (s : Session) → IsSound s → IsSound (stop_key key s)
stop_key-IsSound key s (registered, accounted) = (
  λ k i found.
      ap (λ r. any (is_run i k) r) (stop_key-running key s)
      ∙ registered k i
          (not_removed key k i s.watchers
            (ap (λ w. lookup k w) (sym (stop_key-watchers key s)) ∙ found)).1,
  λ i k runs.
      stop_key-IsAccounted key s accounted i k
        (ap (λ r. any (is_run i k) r) (sym (stop_key-running key s)) ∙ runs),
)

ran_before :
    (i j : ℕ) (k key : String) (l : List (ℕ × String))
    → any (is_run i k) (drop_run j key l) ≡ true
    → any (is_run i k) l ≡ true
ran_before i j k key [] h = h
ran_before i j k key (r ∷ l) h = elim (Bool-cases (is_run j key r)) [
  | inl dropped ↦ ground (arith, ran_before i j k key l (ground (arith, h, dropped)))
  | inr kept ↦ elim (Bool-cases (is_run i k r)) [
    | inl here ↦ ground (arith, here)
    | inr later ↦ ground (arith, ran_before i j k key l (ground (arith, h, kept, later)))
  ]
]

runs_after :
    (i j : ℕ) (k key : String) (l : List (ℕ × String))
    → (key == k) ≡ false
    → any (is_run i k) l ≡ true
    → any (is_run i k) (drop_run j key l) ≡ true
runs_after i j k key [] other h = h
runs_after i j k key ((m, n) ∷ l) other h = elim (Bool-cases (is_run i k (m, n))) [
  | inl here ↦ ground (arith, here, other, eq_iff n k, eq_iff n key, eq_iff key k)
  | inr later ↦ ground (arith, runs_after i j k key l other (ground (arith, h, later)))
]

finish-IsSound : (j : ℕ) (key : String) (s : Session) → IsSound s → IsSound (finish j key s)
unfolding finish
finish-IsSound j key s (registered, accounted) = (
  λ k i found.
      let (other, held) =
        not_removed key k i s.watchers
          (ap (λ w. lookup k w) (sym (stop_key-watchers key s)) ∙ found) in
      ap (λ r. any (is_run i k) (drop_run j key r)) (stop_key-running key s)
      ∙ runs_after i j k key s.running other (registered k i held),
  λ i k runs. stop_key-IsAccounted key s accounted i k (
      ran_before i j k key s.running
        (ap (λ r. any (is_run i k) (drop_run j key r)) (sym (stop_key-running key s)) ∙ runs)),
)

receive-IsSound : (sub : Subscribe) (s : Session) → IsSound s → IsSound (receive sub s)
unfolding receive sub_key
receive-IsSound sub s h = elim (Bool-cases sub.stop) [
  | inl stops ↦ rw stops (stop_key-IsSound (sub_key sub) s h)
  | inr starts ↦ elim (Option-cases (lookup (sub_key sub) s.watchers)) [
    | inl absent ↦ rw (starts, absent) (add_key-IsSound (sub_key sub) s absent h)
    | inr (i, held) ↦ rw (starts, held) h
  ]
]

-- In every state that a session reaches, whatever the order of messages and of the ends of
-- goroutines: each registered watch runs under its own key, and each watch that runs is registered
-- under its key or was cancelled.
pub Reachable-IsSound : (s : Session) → Reachable s → IsSound s
Reachable-IsSound s opened = (λ k i found. cc, λ i k runs. cc)
Reachable-IsSound t (after r (receives sub s)) = receive-IsSound sub s (Reachable-IsSound s r)
Reachable-IsSound t (after r (ends i key s runs)) = finish-IsSound i key s (Reachable-IsSound s r)
