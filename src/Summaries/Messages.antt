-- ===== src/Summaries/Messages.antt =====
-- Which messages are left of several.
use brent.Base.{
  distinct, String, ◌≡◌, refl, ◌∙◌, true, false, not, ◌&&◌, ◌||◌, List, [], ◌∷◌, ◌++◌, ◌==◌,
  string_eq, eq_iff, contains, any, trim_space, arith,
}
use brent.Summaries.{add_message, dedup_all, dedup_message}

contains-append :
    (l : List String) (m k : String) → contains (l ++ m ∷ []) k ≡ (contains l k || m == k)
contains-append [] m k = ground arith
contains-append (x ∷ l) m k = ground (arith, contains-append l m k)

distinct-append :
    (l : List String) (m : String)
    → distinct l ≡ true
    → contains l m ≡ false
    → distinct (l ++ m ∷ []) ≡ true
distinct-append [] m h k = refl
distinct-append (x ∷ l) m h k =
    ground (arith, h, k, distinct-append l m, contains-append l m x, eq_iff m x, eq_iff x m)

contains-add_message :
    (m k : String) (l : List String)
    → contains (add_message m l) k ≡ (contains l k || (not (m == "") && m == k))
contains-add_message m k l = ground (arith, contains-append l m k, eq_iff m k)

distinct-add_message :
    (m : String) (l : List String) → distinct l ≡ true → distinct (add_message m l) ≡ true
distinct-add_message m l h = ground (arith, h, distinct-append l m h)

contains-dedup_all :
    (ms : List String) (k : String) (l : List String)
    → contains (dedup_all ms l) k
      ≡ (contains l k || any (λ m. not (trim_space m == "") && trim_space m == k) ms)
contains-dedup_all [] k l = ground arith
contains-dedup_all (m ∷ ms) k l =
    contains-dedup_all ms k (add_message (trim_space m) l)
    ∙ ground (arith, contains-add_message (trim_space m) k l)

distinct-dedup_all : (ms l : List String) → distinct l ≡ true → distinct (dedup_all ms l) ≡ true
distinct-dedup_all [] l h = h
distinct-dedup_all (m ∷ ms) l h =
    distinct-dedup_all ms (add_message (trim_space m) l) (distinct-add_message (trim_space m) l h)

-- Of two or more messages, dedupMessage leaves a text exactly when some message is this text, not
-- empty, once its space is trimmed; and each text once.
pub contains-dedup_message :
    (m n : String) (ms : List String)
    → (distinct (dedup_message (m ∷ n ∷ ms)) ≡ true)
      × ((k : String)
          → contains (dedup_message (m ∷ n ∷ ms)) k
            ≡ any (λ x. not (trim_space x == "") && trim_space x == k) (m ∷ n ∷ ms))
unfolding dedup_message
contains-dedup_message m n ms =
    (distinct-dedup_all (m ∷ n ∷ ms) [] refl, λ k. contains-dedup_all (m ∷ n ∷ ms) k [])
