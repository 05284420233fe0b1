-- ===== src/Stores/Lister/Bound.antt =====
-- How many objects a list sends.
use brent.Base.{
  ℕ, zero, suc, none, ◌+◌, ◌≤◌, String, ◌≡◌, Bool, List, [], ◌∷◌, ◌++◌, ◌==◌, string_eq, ltb,
  length, not, is_some, ◌&&◌, ◌||◌, arith, Bool-cases, Option-cases, inl, inr,
}
use brent.Api.Errors.{Result, ok, err, panic}
use brent.Api.Objects.{ApiObject, ApiObjectList}
use brent.Stores.Lister.Each.{settle-unfailed}
use brent.Stores.Lister.{
  take, PartitionLister, ListState, Run, skip_offset, continue_of, next_state, with_revision,
  send_all, send_part, cut_state, take_objects, on_page, list_pages, feed, start_run, limit_of,
  list_partitions, run_in_turn, partitions_from,
}

length-append : (xs ys : List ApiObject) → length (xs ++ ys) ≡ length xs + length ys
length-append [] ys = omega arith
length-append (x ∷ xs) ys = omega (arith, length-append xs ys)

length-take : (n : ℕ) (l : List ApiObject) → length (take n l) ≤ n
length-take zero l = omega arith
length-take (suc n) [] = omega arith
length-take (suc n) (x ∷ l) = omega (arith, length-take n l)

-- what was sent and what may still be sent stay within the limit
abbrev IsBounded : ℕ → Run → Type 0
IsBounded limit run = length run.sent + run.capacity ≤ limit

on_page-IsBounded :
    (limit : ℕ) (r : Result ApiObjectList) (run : Run) (rest : ApiObjectList → Run)
    → IsBounded limit run
    → ((page : ApiObjectList) → IsBounded limit (rest page))
    → IsBounded limit (on_page r run rest)
on_page-IsBounded limit (ok page) run rest h k = k page
on_page-IsBounded limit (err e) run rest h k = h
on_page-IsBounded limit panic run rest h k = h

send_all-IsBounded :
    (limit : ℕ) (objects : List ApiObject) (page : ApiObjectList) (run : Run)
    → IsBounded limit run
    → length objects ≤ run.capacity
    → IsBounded limit (send_all objects (with_revision page run))
send_all-IsBounded limit objects page run h fits =
    rw (length-append run.sent objects) (omega (arith, h, fits))

send_part-IsBounded :
    (limit : ℕ) (cut : ListState) (objects : List ApiObject) (page : ApiObjectList) (run : Run)
    → IsBounded limit run
    → IsBounded limit (send_part cut objects (with_revision page run))
send_part-IsBounded limit cut objects page run h =
    rw (length-append run.sent (take run.capacity objects))
      (omega (arith, h, length-take run.capacity objects))

take_objects-IsBounded :
    (limit : ℕ) (objects : List ApiObject) (cut : ListState) (page : ApiObjectList) (run more : Run)
    → IsBounded limit run
    → (length objects ≤ run.capacity → IsBounded limit more)
    → IsBounded limit (take_objects objects cut page run more)
take_objects-IsBounded limit objects cut page run more h k = elim (Option-cases run.saved) [
  | inr (s, saved) ↦ rw saved h
  | inl unsaved ↦ elim (Bool-cases (ltb run.capacity (length objects))) [
    | inl over ↦ rw (unsaved, over) (send_part-IsBounded limit cut objects page run h)
    | inr within ↦
        let fits : length objects ≤ run.capacity = ground (arith, within) in
        elim (Bool-cases (page.continue == "")) [
          | inl last ↦ rw (unsaved, within, last) (send_all-IsBounded limit objects page run h fits)
          | inr further ↦ rw (unsaved, within, further) (k fits)
        ]
  ]
]

module _ {P : Type 0} (name_of : P → String) (lister : PartitionLister P) (limit : ℕ) where
  list_pages-IsBounded :
      (n : ℕ) (st : ListState) (p : P) (run : Run)
      → IsBounded limit run
      → IsBounded limit (list_pages name_of lister limit n st p run)
  unfolding list_pages
  list_pages-IsBounded zero st p run h = h
  list_pages-IsBounded (suc n) st p run h =
      on_page-IsBounded limit (lister p (continue_of st (name_of p)) st.revision limit) run _ h
        λ page.
          take_objects-IsBounded limit (skip_offset st (name_of p) page.objects)
            (cut_state limit st (name_of p) page run) page run _ h
            λ fits.
              list_pages-IsBounded n (next_state st (name_of p) page) p _
                (send_all-IsBounded limit (skip_offset st (name_of p) page.objects) page run h fits)

  feed-IsBounded :
      (n : ℕ) (st : ListState) (late : List Bool) (ps : List P) (run : Run)
      → IsBounded limit run
      → IsBounded limit (feed name_of lister limit n st late ps run)
  unfolding feed
  feed-IsBounded n st late [] run h = h
  feed-IsBounded n st [] (p ∷ ps) run h =
      feed-IsBounded n st [] ps (list_pages name_of lister limit n st p run)
        (list_pages-IsBounded n st p run h)
  feed-IsBounded n st (l ∷ late) (p ∷ ps) run h =
      elim (Bool-cases (l && (not (ltb 0 run.capacity) || is_some run.failed))) [
        | inl stops ↦ rw stops h
        | inr goes ↦ rw goes (
            feed-IsBounded n st late ps (list_pages name_of lister limit n st p run)
              (list_pages-IsBounded n st p run h))
      ]

-- With whatever lister, fuel, state and tests of the capacity: a list that ends without an error sent
-- at most as many objects as the limit, which is the one of the state if it has one.
pub length-list_partitions :
    {P : Type 0} (name_of : P → String) (lister : PartitionLister P) (fuel : ℕ) (late : List Bool)
    (race : Run → Run) (ps : List P) (limit : ℕ) (st : ListState)
    → (list_partitions name_of lister fuel late race ps limit st).failed ≡ none
    → length (list_partitions name_of lister fuel late race ps limit st).sent ≤ limit_of st limit
unfolding list_partitions
length-list_partitions name_of lister fuel late race ps limit st fine =
    let run = run_in_turn name_of lister fuel late ps limit st in
    settle-unfailed (λ r. length r.sent ≤ limit_of st limit) race run.failed run
      (omega (
        arith,
        feed-IsBounded name_of lister (limit_of st limit) fuel st late
            (partitions_from name_of st.partition_name ps) (start_run (limit_of st limit))
            (omega arith),
      ))
      fine
