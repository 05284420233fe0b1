-- ===== src/Stores/Lister/Complete.antt =====
-- A list over several partitions: nothing is lost and nothing is sent twice.
use mathlib.Core.Path.{subst}
use mathlib.Core.List.{append-nil, append_assoc}
use brent.Base.{
  ℕ, zero, suc, String, ◌≡◌, refl, sym, ap, ◌∙◌, Bool, true, false, Option, none, some, List, [],
  ◌∷◌, ◌++◌, ◌==◌, string_eq, ltb, length, arith, Option-cases, inl, inr, ◌⊎◌, ◌&&◌, any, ◌≤◌,
  eq_iff,
}
use brent.Api.Errors.{ok}
use brent.Api.Objects.{ApiObject, ApiObjectList}
use brent.Stores.Lister.Each.{settle-fine}
use brent.Stores.Lister.{
  drop, partitions_from, PartitionLister, ListState, Run, continue_of, list_pages, feed, start_run,
  limit_of, list_partitions,
}
use brent.Stores.Lister.Conservation.{
  pages_from, ends, Left, Kept, list_pages-Kept, list_pages-Kept_resumed,
}

module _ {P : Type 0} (page : P → String → ApiObjectList) where
  -- the objects of whole partitions, and whether `n` pages are enough for each
  abbrev pub all_pages : ℕ → List P → List ApiObject
  all_pages n [] = []
  all_pages n (part ∷ parts) = pages_from page n part "" ++ all_pages n parts

  abbrev pub all_end : ℕ → List P → Bool
  all_end n [] = true
  all_end n (part ∷ parts) = ends page n part "" && all_end n parts

module _ {P : Type 0} (name_of : P → String) (page : P → String → ApiObjectList) where
  -- What a saved state stands for among these partitions: the rest of its own from its page and
  -- offset on, and the partitions after it.
  abbrev pub LeftOver : ℕ → List P → Option ListState → List ApiObject → Type 0
  LeftOver n parts none left = left ≡ []
  LeftOver n parts (some s) left =
      (before : List P) × (part : P) × (after : List P) × (m : ℕ) × (parts ≡ before ++ part ∷ after)
      × (s.partition_name ≡ name_of part)
      × (ends page m part s.continue ≡ true)
      × (left ≡ drop s.offset (pages_from page m part s.continue) ++ all_pages page n after)

  abbrev pub Whole : ℕ → List P → List ApiObject → List ApiObject → Run → Type 0
  Whole n parts before whole run =
      (left : List ApiObject) × LeftOver n parts run.saved left
      × (run.sent ++ left ≡ before ++ whole)
      × (run.failed ≡ none)

  module _ (lister : PartitionLister P) (limit : ℕ)
      (stable : (p : P) (c r : String) → lister p c r limit ≡ ok (page p c)) where
    list_pages-saved :
        (n : ℕ) (st s : ListState) (part : P) (run : Run)
        → run.saved ≡ some s
        → list_pages name_of lister limit (suc n) st part run ≡ run
    unfolding list_pages
    list_pages-saved n st s part run saved =
        rw (stable part (continue_of st (name_of part)) st.revision, saved) refl

    feed-saved :
        (n : ℕ) (st s : ListState) (parts : List P) (run : Run)
        → run.saved ≡ some s
        → feed name_of lister limit (suc n) st [] parts run ≡ run
    unfolding feed
    feed-saved n st s [] run saved = refl
    feed-saved n st s (part ∷ parts) run saved =
        rw (list_pages-saved n st s part run saved) (feed-saved n st s parts run saved)

    regroup :
        (sent left rest before whole : List ApiObject)
        → sent ++ left ≡ before ++ whole
        → sent ++ (left ++ rest) ≡ before ++ (whole ++ rest)
    regroup sent left rest before whole same =
        sym (append_assoc sent left rest)
        ∙ ap (λ k. k ++ rest) same
        ∙ append_assoc before whole rest

    -- a partition that was cut: what is left of it, then the partitions after it
    LeftOver-cut :
        (n : ℕ) (s : ListState) (part : P) (parts : List P) (left : List ApiObject)
        → Left name_of page part (some s) left
        → LeftOver n (part ∷ parts) (some s) (left ++ all_pages page n parts)
    LeftOver-cut n s part parts left (m, finite, here, same) =
        ([], part, parts, m, refl, here, finite, ap (λ k. k ++ all_pages page n parts) same)

    saved-Whole :
        (n : ℕ) (s : ListState) (part : P) (parts : List P) (before whole : List ApiObject)
        (run : Run)
        → run.saved ≡ some s
        → Kept name_of page part before whole run
        → Whole n (part ∷ parts) before (whole ++ all_pages page n parts) run
    saved-Whole n s part parts before whole run saved (left, stands, same, fine) = (
      left ++ all_pages page n parts,
      subst (λ o. LeftOver n (part ∷ parts) o (left ++ all_pages page n parts)) (sym saved)
          (LeftOver-cut n s part parts left
            (subst (λ o. Left name_of page part o left) saved stands)),
      regroup run.sent left (all_pages page n parts) before whole same,
      fine,
    )

    -- a partition that was sent whole
    unsaved-sent :
        (part : P) (before whole : List ApiObject) (run : Run)
        → run.saved ≡ none
        → Kept name_of page part before whole run
        → run.sent ≡ before ++ whole
    unsaved-sent part before whole run unsaved (left, stands, same, fine) =
        let nothing : left ≡ [] = subst (λ o. Left name_of page part o left) unsaved stands in
        sym (append-nil run.sent) ∙ ap (λ k. run.sent ++ k) (sym nothing) ∙ same

    LeftOver-next :
        (n : ℕ) (part : P) (parts : List P) (o : Option ListState) (left : List ApiObject)
        → LeftOver n parts o left
        → LeftOver n (part ∷ parts) o left
    LeftOver-next n part parts none left h = h
    LeftOver-next n part parts (some s) left (before, cut, after, m, split, here, finite, same) =
        (part ∷ before, cut, after, m, ap (λ k. part ∷ k) split, here, finite, same)

    next-Whole :
        (n : ℕ) (part : P) (parts : List P) (before whole rest : List ApiObject)
        (sent : List ApiObject) (run : Run)
        → sent ≡ before ++ whole
        → Whole n parts sent rest run
        → Whole n (part ∷ parts) before (whole ++ rest) run
    next-Whole n part parts before whole rest sent run was (left, stands, same, fine) = (
      left,
      LeftOver-next n part parts run.saved left stands,
      same ∙ ap (λ k. k ++ rest) was ∙ append_assoc before whole rest,
      fine,
    )

    -- from a run that has finished a partition, the feeder goes on with the next ones
    feed-Whole :
        (n : ℕ) (st : ListState) (part : P) (parts : List P) (before whole : List ApiObject)
        (run : Run)
        → any (λ k. st.partition_name == name_of k) parts ≡ false
        → all_end page (suc n) parts ≡ true
        → Kept name_of page part before whole run
        → Whole
            (suc n)
            (part ∷ parts)
            before
            (whole ++ all_pages page (suc n) parts)
            (feed name_of lister limit (suc n) st [] parts run)
    unfolding feed
    feed-Whole n st part [] before whole run others enough kept = elim (Option-cases run.saved) [
      | inr (s, saved) ↦ saved-Whole (suc n) s part [] before whole run saved kept
      | inl unsaved ↦ (
        [],
        subst (λ o. LeftOver (suc n) (part ∷ []) o []) (sym unsaved) refl,
        append-nil run.sent
            ∙ unsaved-sent part before whole run unsaved kept
            ∙ ap (λ k. before ++ k) (sym (append-nil whole)),
        kept.3,
      )
    ]
    feed-Whole n st part (next ∷ parts) before whole run others enough kept =
        elim (Option-cases run.saved) [
          | inr (s, saved) ↦
              subst
                (Whole (suc n) (part ∷ next ∷ parts) before
                  (whole ++ all_pages page (suc n) (next ∷ parts)))
                (sym (feed-saved n st s (next ∷ parts) run saved))
                (saved-Whole (suc n) s part (next ∷ parts) before whole run saved kept)
          | inl unsaved ↦
              let fresh : continue_of st (name_of next) ≡ "" = ground (
                arith,
                others,
                eq_iff (name_of next) st.partition_name,
                eq_iff st.partition_name (name_of next),
              ) in
              next-Whole (suc n) part (next ∷ parts) before whole
                (all_pages page (suc n) (next ∷ parts)) run.sent
                (feed name_of lister limit (suc n) st [] parts
                  (list_pages name_of lister limit (suc n) st next run))
                (unsaved-sent part before whole run unsaved kept)
                (feed-Whole n st next parts run.sent (pages_from page (suc n) next "")
                  (list_pages name_of lister limit (suc n) st next run) (ground (arith, others))
                  (ground (arith, enough))
                  (subst
                    (λ k.
                      Kept name_of page next run.sent (pages_from page (suc n) next k)
                        (list_pages name_of lister limit (suc n) st next run))
                    fresh
                    (list_pages-Kept name_of page lister limit stable next (suc n) st run
                      (ap (ends page (suc n) next) fresh ∙ ground (arith, enough))
                      (inr (ground (arith, others))) unsaved kept.3)))
        ]

length-drop : (n : ℕ) (l : List ApiObject) → length (drop n l) ≤ length l
length-drop zero l = omega arith
length-drop (suc n) [] = omega arith
length-drop (suc n) (x ∷ l) = omega (arith, length-drop n l)

-- A list from a state's partition on, whose lister answers by pages and ends within the fuel: there
-- is no error, and what is sent, followed by what the saved state stands for, is all that was left
-- to list, each object once. The state is at the start of a page, or in a page that its offset lies
-- in and that holds no more objects than the limit.
pub list_partitions-Whole :
    {P : Type 0} (name_of : P → String) (page : P → String → ApiObjectList)
    (lister : PartitionLister P) (limit n : ℕ) (st : ListState) (race : Run → Run)
    (parts after : List P) (part : P)
    → ((p : P) (c r : String) → lister p c r (limit_of st limit) ≡ ok (page p c))
    → partitions_from name_of st.partition_name parts ≡ part ∷ after
    → any (λ k. st.partition_name == name_of k) after ≡ false
    → all_end page (suc n) after ≡ true
    → ends page (suc n) part (continue_of st (name_of part)) ≡ true
    → (st.offset ≡ 0)
      ⊎ ((st.partition_name ≡ name_of part)
          × (ltb st.offset (length (page part st.continue).objects) ≡ true)
          × (length (page part st.continue).objects ≤ limit_of st limit))
    → Whole name_of page
        (suc n)
        (part ∷ after)
        []
        (drop st.offset (pages_from page (suc n) part (continue_of st (name_of part)))
          ++ all_pages page (suc n) after)
        (list_partitions name_of lister (suc n) [] race parts limit st)
unfolding list_partitions feed
list_partitions-Whole name_of page lister limit n st race parts after part stable found others
      enough ending start =
    let l = limit_of st limit in
    let run = start_run l in
    let whole = drop st.offset (pages_from page (suc n) part (continue_of st (name_of part))) in
    let kept : Kept name_of page part [] whole (list_pages name_of lister l (suc n) st part run) =
      elim start [
        | inl zero_offset ↦
            subst
              (λ o.
                Kept name_of page part []
                  (drop o (pages_from page (suc n) part (continue_of st (name_of part))))
                  (list_pages name_of lister l (suc n) st part run))
              (sym zero_offset)
              (list_pages-Kept name_of page lister l stable part (suc n) st run ending
                (inl zero_offset) refl refl)
        | inr (here, inside, fits) ↦
            let at : continue_of st (name_of part) ≡ st.continue =
              ground (arith, here, eq_iff (name_of part) st.partition_name) in
            subst
              (λ c.
                Kept name_of page part [] (drop st.offset (pages_from page (suc n) part c))
                  (list_pages name_of lister l (suc n) st part run))
              (sym at)
              (list_pages-Kept_resumed name_of page lister l stable part n st run
                (ap (ends page (suc n) part) (sym at) ∙ ending) here inside
                (ground (arith, length-drop st.offset (page part st.continue).objects, fits)) refl
                refl)
      ] in
    let in_turn : Whole name_of page (suc n) (part ∷ after) []
        (whole ++ all_pages page (suc n) after)
        (feed name_of lister l (suc n) st [] (part ∷ after) run) =
      feed-Whole name_of page lister l stable n st part after [] whole
        (list_pages name_of lister l (suc n) st part run) others enough kept in
    let (left, stands, same, fine) = in_turn in
    rw found (
      settle-fine
        (Whole name_of page (suc n) (part ∷ after) [] (whole ++ all_pages page (suc n) after)) race
        (feed name_of lister l (suc n) st [] (part ∷ after) run).failed
        (feed name_of lister l (suc n) st [] (part ∷ after) run) fine in_turn)
