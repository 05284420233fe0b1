-- ===== src/Stores/Lister/Conservation.antt =====
-- What a list sends and what its saved state stands for are all objects, each once.
use mathlib.Core.Path.{subst}
use mathlib.Core.List.{append-nil, append_assoc}
use brent.Base.{
  ℕ, zero, suc, String, ◌≡◌, refl, sym, ap, ◌∙◌, Bool, true, false, Option, none, some, List, [],
  ◌∷◌, ◌++◌, ◌==◌, string_eq, eq_iff, if◌then◌else◌, ltb, length, arith, Bool-cases, inl, inr, ◌⊎◌,
  ◌&&◌, ◌||◌,
}
use brent.Api.Errors.{ok}
use brent.Api.Objects.{ApiObject, ApiObjectList}
use brent.Stores.Lister.{
  take, drop, ListState, Run, skip_offset, continue_of, next_state, with_revision, send_all,
  cut_state, take_objects, PartitionLister, list_pages,
}

take-drop-append :
    (n : ℕ) (l rest : List ApiObject)
    → ltb n (length l) ≡ true
    → take n l ++ (drop n (l ++ rest)) ≡ l ++ rest
take-drop-append zero l rest h = refl
take-drop-append (suc n) [] rest h = ground (arith, h)
take-drop-append (suc n) (x ∷ l) rest h =
    ap (λ k. x ∷ k) (take-drop-append n l rest (ground (arith, h)))

drop-append :
    (n : ℕ) (l rest : List ApiObject)
    → ltb n (length l) ≡ true
    → drop n (l ++ rest) ≡ drop n l ++ rest
drop-append zero l rest h = refl
drop-append (suc n) [] rest h = ground (arith, h)
drop-append (suc n) (x ∷ l) rest h = drop-append n l rest (ground (arith, h))

module _ {P : Type 0} (page : P → String → ApiObjectList) where
  -- the objects of the pages from one on, and whether the last page is among the first `n`
  abbrev pub pages_from : ℕ → P → String → List ApiObject
  pages_from zero part c = []
  pages_from (suc n) part c =
      let rest = pages_from n part (page part c).continue in
      (page part c).objects ++ (if (page part c).continue == "" then [] else rest)

  abbrev pub ends : ℕ → P → String → Bool
  ends zero part c = false
  ends (suc n) part c =
      let rest = ends n part (page part c).continue in (page part c).continue == "" || rest

module _ {P : Type 0} (name_of : P → String) (page : P → String → ApiObjectList) where
  -- what a saved state stands for in its partition: its page from the offset on, and the pages
  -- after it
  abbrev pub Left : P → Option ListState → List ApiObject → Type 0
  Left part none left = left ≡ []
  Left part (some s) left =
      (n : ℕ) × (ends page n part s.continue ≡ true)
      × (s.partition_name ≡ name_of part)
      × (left ≡ drop s.offset (pages_from page n part s.continue))

  -- a run that sent and left over all of `whole` beyond what was sent before, without an error
  abbrev pub Kept : P → List ApiObject → List ApiObject → Run → Type 0
  Kept part before whole run =
      (left : List ApiObject) × Left part run.saved left
      × (run.sent ++ left ≡ before ++ whole)
      × (run.failed ≡ none)

  take_objects-Kept :
      (part : P) (objects rest : List ApiObject) (cut : ListState) (p : ApiObjectList)
      (run more : Run)
      → run.saved ≡ none
      → run.failed ≡ none
      → (ltb run.capacity (length objects) ≡ true
          → Left part (some cut) (drop run.capacity (objects ++ rest)))
      → ((p.continue == "") ≡ true → rest ≡ [])
      → ((p.continue == "") ≡ false → Kept part (run.sent ++ objects) rest more)
      → Kept part run.sent (objects ++ rest) (take_objects objects cut p run more)
  take_objects-Kept part objects rest cut p run more unsaved unfailed cut_left last further =
      elim (Bool-cases (ltb run.capacity (length objects))) [
        | inl over ↦
            rw (unsaved, over)
              (
                drop run.capacity (objects ++ rest),
                cut_left over,
                append_assoc run.sent (take run.capacity objects)
                      (drop run.capacity (objects ++ rest))
                    ∙ ap (λ k. run.sent ++ k) (take-drop-append run.capacity objects rest over),
                unfailed,
              )
        | inr within ↦ elim (Bool-cases (p.continue == "")) [
          | inl ended ↦
              rw (unsaved, within, ended)
                (
                  [],
                  refl,
                  append-nil (run.sent ++ objects)
                      ∙ ap (λ k. run.sent ++ k)
                          (sym (append-nil objects) ∙ ap (λ k. objects ++ k) (sym (last ended))),
                  unfailed,
                )
          | inr goes_on ↦
              rw (unsaved, within, goes_on)
                (let (left, stands, same, fine) = further goes_on in
                  (left, stands, same ∙ append_assoc run.sent objects rest, fine))
        ]
      ]

  module _ (lister : PartitionLister P) (limit : ℕ)
      (stable : (p : P) (c r : String) → lister p c r limit ≡ ok (page p c)) (part : P) where
    same_page :
        (st : ListState)
        → (st.offset ≡ 0) ⊎ ((st.partition_name == name_of part) ≡ false)
        → (objects : List ApiObject) → skip_offset st (name_of part) objects ≡ objects
    same_page st (inl start) objects = ground (arith, start)
    same_page st (inr elsewhere) objects = ground (arith, elsewhere)

    continue_of-next_state :
        (st : ListState) (p : ApiObjectList)
        → continue_of (next_state st (name_of part) p) (name_of part) ≡ p.continue
    continue_of-next_state st p = ground (arith, eq_iff (name_of part) (name_of part))

    -- one partition from the start of its page, with enough fuel for its pages
    pub list_pages-Kept :
        (n : ℕ) (st : ListState) (run : Run)
        → ends page n part (continue_of st (name_of part)) ≡ true
        → (st.offset ≡ 0) ⊎ ((st.partition_name == name_of part) ≡ false)
        → run.saved ≡ none
        → run.failed ≡ none
        → Kept part run.sent
            (pages_from page n part (continue_of st (name_of part)))
            (list_pages name_of lister limit n st part run)
    unfolding list_pages
    list_pages-Kept zero st run enough start unsaved unfailed = ground (arith, enough)
    list_pages-Kept (suc n) st run enough start unsaved unfailed =
        let c = continue_of st (name_of part) in
        let p = page part c in
        let rest : List ApiObject =
          if p.continue == "" then [] else pages_from page n part p.continue in
        let run' = send_all p.objects (with_revision p run) in
        rw (stable part c st.revision, same_page st start p.objects)
          (take_objects-Kept part p.objects rest (cut_state limit st (name_of part) p run) p run
            (list_pages name_of lister limit n (next_state st (name_of part) p) part run') unsaved
            unfailed (λ over. (suc n, enough, refl, refl)) (λ ended. rw ended refl)
            (λ further. rw further (
              subst
                (λ k.
                  Kept part run'.sent (pages_from page n part k)
                    (list_pages name_of lister limit n (next_state st (name_of part) p) part run'))
                (continue_of-next_state st p)
                (list_pages-Kept n (next_state st (name_of part) p) run'
                  (ap (ends page n part) (continue_of-next_state st p)
                    ∙ ground (arith, enough, further))
                  (inl refl) unsaved unfailed))))

    skip-drop :
        (o : ℕ) (same : Bool) (objects : List ApiObject)
        → same ≡ true
        → ltb o (length objects) ≡ true
        → (if same && (ltb 0 o && ltb o (length objects)) then drop o objects else objects)
          ≡ drop o objects
    skip-drop zero same objects h inside = ground (arith, h)
    skip-drop (suc o) same objects h inside = ground (arith, h, inside)

    -- the partition of a resume state, whose page is continued at its offset
    pub list_pages-Kept_resumed :
        (n : ℕ) (st : ListState) (run : Run)
        → ends page (suc n) part st.continue ≡ true
        → st.partition_name ≡ name_of part
        → ltb st.offset (length (page part st.continue).objects) ≡ true
        → ltb run.capacity (length (drop st.offset (page part st.continue).objects)) ≡ false
        → run.saved ≡ none
        → run.failed ≡ none
        → Kept part run.sent
            (drop st.offset (pages_from page (suc n) part st.continue))
            (list_pages name_of lister limit (suc n) st part run)
    unfolding list_pages
    list_pages-Kept_resumed n st run enough here inside fits unsaved unfailed =
        let c = st.continue in
        let p = page part c in
        let objects = drop st.offset p.objects in
        let rest : List ApiObject =
          if p.continue == "" then [] else pages_from page n part p.continue in
        let run' = send_all objects (with_revision p run) in
        let at : continue_of st (name_of part) ≡ c =
          ground (arith, here, eq_iff (name_of part) st.partition_name) in
        let skipped : skip_offset st (name_of part) p.objects ≡ objects =
          skip-drop st.offset (st.partition_name == name_of part) p.objects
            ((eq_iff st.partition_name (name_of part)).1 here) inside in
        let cut : ListState = record {
          revision = p.revision;
          partition_name = name_of part;
          continue = c;
          offset = run.capacity;
          limit = limit;
        } in
        rw (at, stable part c st.revision, skipped, drop-append st.offset p.objects rest inside)
          (take_objects-Kept part objects rest cut p run
            (list_pages name_of lister limit n (next_state st (name_of part) p) part run') unsaved
            unfailed (λ over. ground (arith, over, fits)) (λ ended. rw ended refl)
            (λ further. rw further (
              subst
                (λ k.
                  Kept part run'.sent (pages_from page n part k)
                    (list_pages name_of lister limit n (next_state st (name_of part) p) part run'))
                (continue_of-next_state st p)
                (list_pages-Kept n (next_state st (name_of part) p) run'
                  (ap (ends page n part) (continue_of-next_state st p)
                    ∙ ground (arith, enough, further))
                  (inl refl) unsaved unfailed))))
