-- ===== src/Tests/ListerTests.antt =====
-- A list over two partitions at concrete pages.
use brent.Base.{String, ◌≡◌, ◌≤◌, refl, inr, true, false, some, none, [], ◌∷◌, ◌++◌, length, arith}
use brent.Api.Errors.{ok}
use brent.Api.Objects.{ApiObject, ApiObjectList, no_object}
use brent.Stores.Lister.{
  PartitionLister, ListState, Run, drop, continue_of, fresh_state, limit_of, list_partitions, feed,
  list_pages,
}
use brent.Stores.Lister.Bound.{length-list_partitions}
use brent.Stores.Lister.Conservation.{pages_from}
use brent.Stores.Lister.Complete.{Whole, all_pages, list_partitions-Whole}

abbrev object_of : String → ApiObject
object_of id = record no_object { id = id }

abbrev two_objects : String → String → ApiObjectList
two_objects name c = record {
  revision = "9";
  continue = "";
  objects = object_of name ∷ object_of "z" ∷ [];
}

abbrev as_named : String → String
as_named name = name

-- goroutines that drop the capacity once an error ended their turns
abbrev wild : Run → Run
wild run = record run { sent = []; capacity = 9 }

abbrev two_lister : PartitionLister String
two_lister name c r limit = ok (two_objects name c)

-- a list of three that was cut in its second partition, after one object
abbrev cut_in_b : ListState
cut_in_b = record { revision = "9"; partition_name = "b"; continue = ""; offset = 1; limit = 3 }

three_sent :
    (list_partitions as_named two_lister 1 [] wild ("a" ∷ "b" ∷ []) 3 fresh_state).saved
    ≡ some cut_in_b
unfolding list_partitions feed list_pages
three_sent = refl

-- the feeder sees that the capacity is used up exactly: the second partition is left out, and no
-- state is saved for it
two_sent :
    (list_partitions as_named two_lister 1
      (false ∷ true ∷ [])
      wild
      ("a" ∷ "b" ∷ [])
      2
      fresh_state).saved
    ≡ none
unfolding list_partitions feed list_pages
two_sent = refl

length-list_partitions_example :
    length (list_partitions as_named two_lister 1 [] wild ("a" ∷ "b" ∷ []) 3 cut_in_b).sent
    ≤ limit_of cut_in_b 3
unfolding list_partitions feed list_pages
length-list_partitions_example =
    length-list_partitions as_named two_lister 1 [] wild ("a" ∷ "b" ∷ []) 3 cut_in_b refl

list_partitions-Whole_example :
    Whole as_named two_objects 1
      ("b" ∷ [])
      []
      (drop 1 (pages_from two_objects 1 "b" (continue_of cut_in_b "b"))
        ++ all_pages two_objects 1 [])
      (list_partitions as_named two_lister 1 [] wild ("a" ∷ "b" ∷ []) 3 cut_in_b)
list_partitions-Whole_example =
    list_partitions-Whole as_named two_objects two_lister 3 0 cut_in_b wild ("a" ∷ "b" ∷ []) [] "b"
      (λ p c r. refl) refl refl refl refl (inr (refl, refl, omega arith))
