-- ===== src/Stores/Lister/Each.antt =====
-- What holds of the objects of every page holds of every object that a list sends.
use brent.Base.{
  ℕ, zero, suc, String, Option, none, some, ◌≡◌, refl, Bool, true, not, ◌&&◌, ◌||◌, List, [], ◌∷◌,
  ◌++◌, ◌==◌, string_eq, ltb, length, all, is_some, arith, Bool-cases, Option-cases, inl, inr, both,
}
use brent.Api.Errors.{Error, Result, ok, err, panic}
use brent.Api.Objects.{ApiObject, ApiObjectList}
use brent.Stores.Lister.{
  take, drop, PartitionLister, ListState, Run, skip_offset, continue_of, next_state, with_revision,
  send_all, cut_state, take_objects, on_page, list_pages, feed, start_run, limit_of,
  list_partitions, run_in_turn, settle, first_error, from_name, or_all, partitions_from,
}

abbrev pub Each {ℓ} : {P : Type 0} → (P → Type ℓ) → List P → Type ℓ
Each Holds [] = Unit
Each Holds (p ∷ ps) = Holds p × Each Holds ps

pub Each-weaken {ℓ κ} :
    {P : Type 0} (A : P → Type ℓ) (B : P → Type κ)
    → ((p : P) → A p → B p)
    → (ps : List P) → Each A ps
    → Each B ps
Each-weaken A B f [] h = tt
Each-weaken A B f (p ∷ ps) h = (f p h.0, Each-weaken A B f ps h.1)

module _ (passes : ApiObject → Bool) where
  all-append :
      (xs ys : List ApiObject)
      → all passes xs ≡ true
      → all passes ys ≡ true
      → all passes (xs ++ ys) ≡ true
  all-append [] ys h k = k
  all-append (x ∷ xs) ys h k = both (ground (arith, h)) (all-append xs ys (ground (arith, h)) k)

  all-take : (n : ℕ) (l : List ApiObject) → all passes l ≡ true → all passes (take n l) ≡ true
  all-take zero l h = refl
  all-take (suc n) [] h = refl
  all-take (suc n) (x ∷ l) h = both (ground (arith, h)) (all-take n l (ground (arith, h)))

  all-drop : (n : ℕ) (l : List ApiObject) → all passes l ≡ true → all passes (drop n l) ≡ true
  all-drop zero l h = h
  all-drop (suc n) [] h = refl
  all-drop (suc n) (x ∷ l) h = all-drop n l (ground (arith, h))

  all-skip_offset :
      (st : ListState) (name : String) (l : List ApiObject)
      → all passes l ≡ true
      → all passes (skip_offset st name l) ≡ true
  all-skip_offset st name l h =
      elim (Bool-cases
        (st.partition_name == name && (ltb 0 st.offset && ltb st.offset (length l)))) [
          | inl skips ↦ rw skips (all-drop st.offset l h)
          | inr whole ↦ rw whole h
        ]

  all-take_objects :
      (objects : List ApiObject) (cut : ListState) (page : ApiObjectList) (run more : Run)
      → all passes run.sent ≡ true
      → all passes objects ≡ true
      → (all passes (run.sent ++ objects) ≡ true → all passes more.sent ≡ true)
      → all passes (take_objects objects cut page run more).sent ≡ true
  all-take_objects objects cut page run more h k next = elim (Option-cases run.saved) [
    | inr (s, saved) ↦ rw saved h
    | inl unsaved ↦ elim (Bool-cases (ltb run.capacity (length objects))) [
      | inl over ↦
          rw (unsaved, over)
            (all-append run.sent (take run.capacity objects) h (all-take run.capacity objects k))
      | inr within ↦ elim (Bool-cases (page.continue == "")) [
        | inl last ↦ rw (unsaved, within, last) (all-append run.sent objects h k)
        | inr further ↦ rw (unsaved, within, further) (next (all-append run.sent objects h k))
      ]
    ]
  ]

  all-on_page :
      (r : Result ApiObjectList) (run : Run) (rest : ApiObjectList → Run)
      → all passes run.sent ≡ true
      → ((page : ApiObjectList) → r ≡ ok page → all passes (rest page).sent ≡ true)
      → all passes (on_page r run rest).sent ≡ true
  all-on_page (ok page) run rest h k = k page refl
  all-on_page (err e) run rest h k = h
  all-on_page panic run rest h k = h

  module _ {P : Type 0} (name_of : P → String) (lister : PartitionLister P) (limit : ℕ) where
    -- every page of the partition passes
    abbrev pub Passing : P → Type 0
    Passing p =
        (c r : String) (page : ApiObjectList)
        → lister p c r limit ≡ ok page
        → all passes page.objects ≡ true

    all-list_pages :
        (n : ℕ) (st : ListState) (p : P) (run : Run)
        → Passing p
        → all passes run.sent ≡ true
        → all passes (list_pages name_of lister limit n st p run).sent ≡ true
    unfolding list_pages
    all-list_pages zero st p run good h = h
    all-list_pages (suc n) st p run good h =
        all-on_page (lister p (continue_of st (name_of p)) st.revision limit) run _ h λ page read.
          all-take_objects (skip_offset st (name_of p) page.objects)
            (cut_state limit st (name_of p) page run) page run _ h
            (all-skip_offset st (name_of p) page.objects
              (good (continue_of st (name_of p)) st.revision page read))
            (all-list_pages n (next_state st (name_of p) page) p
              (send_all (skip_offset st (name_of p) page.objects) (with_revision page run)) good)

    all-feed :
        (n : ℕ) (st : ListState) (late : List Bool) (ps : List P) (run : Run)
        → Each Passing ps
        → all passes run.sent ≡ true
        → all passes (feed name_of lister limit n st late ps run).sent ≡ true
    unfolding feed
    all-feed n st late [] run good h = h
    all-feed n st [] (p ∷ ps) run good h =
        all-feed n st [] ps (list_pages name_of lister limit n st p run) good.1
          (all-list_pages n st p run good.0 h)
    all-feed n st (l ∷ late) (p ∷ ps) run good h =
        elim (Bool-cases (l && (not (ltb 0 run.capacity) || is_some run.failed))) [
          | inl stops ↦ rw stops h
          | inr goes ↦ rw goes (
              all-feed n st late ps (list_pages name_of lister limit n st p run) good.1
                (all-list_pages n st p run good.0 h))
        ]

Each-or_all {ℓ} :
    {P : Type 0} (Holds : P → Type ℓ) (name_of : P → String) (ps : List P) (name : String)
    (qs : List P)
    → Each Holds ps
    → Each Holds qs
    → Each Holds (or_all name_of ps (from_name name_of name qs))
Each-or_all Holds name_of ps name [] all_hold h = all_hold
Each-or_all Holds name_of ps name (q ∷ qs) all_hold h = elim (Bool-cases (name_of q == name)) [
  | inl here ↦ rw here h
  | inr later ↦ rw later (Each-or_all Holds name_of ps name qs all_hold h.1)
]

Each-partitions_from {ℓ} :
    {P : Type 0} (Holds : P → Type ℓ) (name_of : P → String) (name : String) (ps : List P)
    → Each Holds ps
    → Each Holds (partitions_from name_of name ps)
Each-partitions_from Holds name_of name ps h = elim (Bool-cases (name == "")) [
  | inl start ↦ rw start h
  | inr later ↦ rw later (Each-or_all Holds name_of ps name ps h h)
]

first_error-fails {ℓ} : {A : Type ℓ} → (e : Error) (o : Option Error) → first_error e o ≡ none → A
first_error-fails e none h = cc
first_error-fails e (some old) h = cc

-- A run that settles without an error is the one in which every goroutine had its turn.
pub settle-unfailed {ℓ} :
    (Holds : Run → Type ℓ) (race : Run → Run) (failed : Option Error) (run : Run)
    → Holds run
    → (settle race failed run).failed ≡ none
    → Holds (settle race failed run)
settle-unfailed Holds race none run h fine = h
settle-unfailed Holds race (some e) run h fine = first_error-fails e (race run).failed fine

-- A run without an error settles as it is.
pub settle-fine {ℓ} :
    (Holds : Run → Type ℓ) (race : Run → Run) (failed : Option Error) (run : Run)
    → failed ≡ none
    → Holds run
    → Holds (settle race failed run)
settle-fine Holds race none run fine h = h
settle-fine Holds race (some e) run fine h = cc

-- Whatever the fuel, the state and the tests of the capacity, of a list without an error.
pub all-list_partitions :
    (passes : ApiObject → Bool) {P : Type 0} (name_of : P → String) (lister : PartitionLister P)
    (fuel : ℕ) (late : List Bool) (race : Run → Run) (ps : List P) (limit : ℕ) (st : ListState)
    → Each (Passing passes name_of lister (limit_of st limit)) ps
    → (list_partitions name_of lister fuel late race ps limit st).failed ≡ none
    → all passes (list_partitions name_of lister fuel late race ps limit st).sent ≡ true
unfolding list_partitions
all-list_partitions passes name_of lister fuel late race ps limit st good fine =
    let run = run_in_turn name_of lister fuel late ps limit st in
    settle-unfailed (λ r. all passes r.sent ≡ true) race run.failed run
      (all-feed passes name_of lister (limit_of st limit) fuel st late
        (partitions_from name_of st.partition_name ps) (start_run (limit_of st limit))
        (Each-partitions_from (Passing passes name_of lister (limit_of st limit)) name_of
          st.partition_name ps good)
        refl)
      fine
