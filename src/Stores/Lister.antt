-- ===== src/Stores/Lister.antt =====
-- pkg/stores/partition/parallel.go: a list over partitions with a limit and a resume state. A
-- partition's objects are taken in the partitions' order, whichever lister returns first: each
-- goroutine waits for the one before it, as long as no lister fails. A failure ends the context that
-- all share: the wait for the turn is then over at once, and what the goroutines still running make
-- of the run is left open. The context of the request is one that is not ended from outside.
pub mod Bound
pub mod Conservation
pub mod Complete
pub mod Each
use brent.Base.{
  ℕ, zero, suc, ◌-◌, String, Bool, true, false, ◌&&◌, ◌||◌, not, Option, none, some, List, [], ◌∷◌,
  ◌++◌, ◌==◌, string_eq, if◌then◌else◌, is_some, ltb, length,
}
use brent.Api.Errors.{Error, Result, ok, err, panic, other}
use brent.Api.Objects.{ApiObject, ApiObjectList}

-- `l[:n]` and `l[n:]`
abbrev pub take {ℓ} : {A : Type ℓ} → ℕ → List A → List A
take zero l = []
take (suc n) [] = []
take (suc n) (x ∷ l) = x ∷ take n l

abbrev pub drop {ℓ} : {A : Type ℓ} → ℕ → List A → List A
drop zero l = l
drop (suc n) [] = []
drop (suc n) (x ∷ l) = drop n l

-- `listState`
pub record ListState : Type 0 where
  pub revision : String
  pub partition_name : String
  pub continue : String
  pub offset : ℕ
  pub limit : ℕ

abbrev pub fresh_state : ListState
fresh_state = record { revision = ""; partition_name = ""; continue = ""; offset = 0; limit = 0 }

-- what the goroutines share: the objects sent so far, the capacity left, the saved state, the
-- revision of the list, and the first error
pub record Run : Type 0 where
  pub sent : List ApiObject
  pub capacity : ℕ
  pub saved : Option ListState
  pub revision : String
  pub failed : Option Error

abbrev pub first_error : Error → Option Error → Option Error
first_error e none = some e
first_error e (some old) = some old

abbrev pub fail : Error → Run → Run
fail e run = record run { failed = first_error e run.failed }

abbrev pub or_text : String → String → String
or_text s t = if s == "" then t else s

-- what is not yet sent of a page: the page of the resume state is continued at its offset
abbrev pub skip_offset : ListState → String → List ApiObject → List ApiObject
skip_offset st name objects =
    if st.partition_name == name && (ltb 0 st.offset && ltb st.offset (length objects))
    then drop st.offset objects
    else objects

abbrev pub continue_of : ListState → String → String
continue_of st name = if name == st.partition_name then st.continue else ""

-- the state of a goroutine after a page that is sent whole
abbrev pub next_state : ListState → String → ApiObjectList → ListState
next_state st name page = record st {
  revision = or_text st.revision page.revision;
  continue = page.continue;
  partition_name = name;
  offset = 0;
}

abbrev pub with_revision : ApiObjectList → Run → Run
with_revision page run = record run { revision = or_text run.revision page.revision }

abbrev pub send_all : List ApiObject → Run → Run
send_all objects run = record run {
  sent = run.sent ++ objects;
  capacity = run.capacity - length objects;
}

-- the page is cut: the state is saved to read it again
abbrev pub send_part : ListState → List ApiObject → Run → Run
send_part st objects run = record run {
  sent = run.sent ++ take run.capacity objects;
  saved = some st;
  capacity = 0;
}

-- `if err != nil { return err }` after the call of the lister
abbrev pub on_page : Result ApiObjectList → Run → (ApiObjectList → Run) → Run
on_page (ok page) run rest = rest page
on_page (err e) run rest = fail e run
on_page panic run rest = fail (other "panic") run

abbrev pub cut_state : ℕ → ListState → String → ApiObjectList → Run → ListState
cut_state limit st name page run = record {
  revision = page.revision;
  partition_name = name;
  continue = continue_of st name;
  offset = run.capacity;
  limit = limit;
}

-- one page: sent in part, or whole and then either the last or followed by `more`
abbrev pub take_objects : List ApiObject → ListState → ApiObjectList → Run → Run → Run
take_objects objects cut page run more =
    if is_some run.saved
    then run
    else if ltb run.capacity (length objects)
    then send_part cut objects (with_revision page run)
    else if page.continue == ""
    then send_all objects (with_revision page run)
    else more

-- `PartitionLister`
abbrev pub PartitionLister : Type 0 → Type 0
PartitionLister P = P → String → String → ℕ → Result ApiObjectList

-- partitions of any type with a name, as the interface `Partition` has them
module _ {P : Type 0} (name_of : P → String) (lister : PartitionLister P) (limit : ℕ) where
  -- the loop of one goroutine, for one partition, in its turn; the fuel bounds its pages
  unfoldable pub list_pages : ℕ → ListState → P → Run → Run
  list_pages zero st p run = fail (other "fuel") run
  list_pages (suc n) st p run =
      on_page (lister p (continue_of st (name_of p)) st.revision limit) run λ page.
        let objects = skip_offset st (name_of p) page.objects in
        let more =
          list_pages n (next_state st (name_of p) page) p
            (send_all objects (with_revision page run)) in
        take_objects objects (cut_state limit st (name_of p) page run) page run more

  -- `feeder`, from the first partition on, with the goroutines in their turns: what it gives is final
  -- if it has no error, since the turns are kept until one is returned. Before each partition the feeder tests the capacity and
  -- the context, which the goroutines that still run may change after it: `late` says for each test
  -- whether it sees what the partitions before it left; a test without an entry does not.
  unfoldable pub feed : ℕ → ListState → List Bool → List P → Run → Run
  unfolding list_pages
  feed n st late [] run = run
  feed n st [] (p ∷ ps) run = feed n st [] ps (list_pages n st p run)
  feed n st (l ∷ late) (p ∷ ps) run =
      let rest = feed n st late ps (list_pages n st p run) in
      if l && (not (ltb 0 run.capacity) || is_some run.failed) then run else rest

abbrev pub start_run : ℕ → Run
start_run limit = record { sent = []; capacity = limit; saved = none; revision = ""; failed = none }

abbrev pub limit_of : ListState → ℕ → ℕ
limit_of st limit = if ltb 0 st.limit then st.limit else limit

-- the end of a run: `waitForTurn` also returns when an error has ended the context, and from then on
-- `race` is what the goroutines do, in any order and whatever the capacity; the error stays
abbrev pub settle : (Run → Run) → Option Error → Run → Run
settle race none run = run
settle race (some e) run = fail e (race run)

module _ {P : Type 0} (name_of : P → String) where
  -- `indexOrZero`, as the partitions from that index on
  abbrev pub from_name : String → List P → Option (List P)
  from_name name [] = none
  from_name name (p ∷ ps) =
      let rest = from_name name ps in if name_of p == name then some (p ∷ ps) else rest

  abbrev pub or_all : List P → Option (List P) → List P
  or_all ps none = ps
  or_all ps (some rest) = rest

  abbrev pub partitions_from : String → List P → List P
  partitions_from name ps = if name == "" then ps else or_all ps (from_name name ps)

  -- the run of `List` in which every goroutine has its turn
  abbrev pub run_in_turn : PartitionLister P → ℕ → List Bool → List P → ℕ → ListState → Run
  run_in_turn lister fuel late ps limit st =
      feed name_of lister (limit_of st limit) fuel st late (partitions_from st.partition_name ps)
        (start_run (limit_of st limit))

  -- `List`, for the partitions, a limit and the state of the resume token
  unfoldable pub list_partitions :
      PartitionLister P → ℕ → List Bool → (Run → Run) → List P → ℕ → ListState → Run
  list_partitions lister fuel late race ps limit st =
      let run = run_in_turn lister fuel late ps limit st in settle race run.failed run
