-- ===== src/Tests/SummaryTests.antt =====
-- The messages of a summary at concrete texts.
use brent.Base.{
  String, ◌≡◌, true, not, ◌&&◌, [], ◌∷◌, ◌==◌, string_eq, contains, any, trim_space, distinct,
}
use brent.Summaries.{dedup_message}
use brent.Summaries.Messages.{contains-dedup_message}

contains-dedup_message_example :
    (distinct (dedup_message ("down " ∷ "" ∷ "down" ∷ [])) ≡ true)
    × ((k : String)
        → contains (dedup_message ("down " ∷ "" ∷ "down" ∷ [])) k
          ≡ any (λ x. not (trim_space x == "") && trim_space x == k) ("down " ∷ "" ∷ "down" ∷ []))
contains-dedup_message_example = contains-dedup_message "down " "" ("down" ∷ [])
