-- ===== src/Stores/Watches/Shared.antt =====
-- In which namespaces the watches of partitions are opened.
use mathlib.Core.List.{append-nil, append_assoc}
use brent.Base.{
  String, ◌≡◌, refl, sym, ap, ◌∙◌, Bool, true, false, not, List, [], ◌∷◌, ◌++◌, map, all, arith,
  if◌then◌else◌, Bool-cases, inl, inr,
}
use brent.Stores.Rbac.{Partition}
use brent.Stores.Watches.{
  SharedRequest, Action, enter, open_watch, act, run_watches, one_by_one, all_enter, all_open,
}

abbrev pub split : Partition → Bool
split p = not p.passthrough

run_watches-append :
    (k l : List Action) (r : SharedRequest)
    → run_watches (k ++ l) r ≡ run_watches l (run_watches k r)
unfolding run_watches
run_watches-append [] l r = refl
run_watches-append (a ∷ k) l r = run_watches-append k l (act a r)

act-enter :
    (p : Partition) (r : SharedRequest)
    → p.passthrough ≡ false
    → act (enter p) r ≡ record r { namespace = p.namespace }
unfolding act
act-enter p r h = ap (λ b. if b then r else record r { namespace = p.namespace }) h

opened-enter : (p : Partition) (r : SharedRequest) → (act (enter p) r).opened ≡ r.opened
unfolding act
opened-enter p r = elim (Bool-cases p.passthrough) [
  | inl through ↦ ap (λ b. (if b then r else record r { namespace = p.namespace }).opened) through
  | inr goes ↦ ap (λ b. (if b then r else record r { namespace = p.namespace }).opened) goes
]

-- one after the other, each partition's watch is opened in its own namespace
abbrev pub own_namespace : Partition → Partition × String
own_namespace p = (p, p.namespace)

-- all in the namespace that was set last
abbrev pub at_namespace : String → Partition → Partition × String
at_namespace ns p = (p, ns)

-- A schedule that does not interrupt a goroutine between its two steps opens each partition's watch
-- in the partition's own namespace.
pub opened-one_by_one :
    (ps : List Partition) (r : SharedRequest)
    → all split ps ≡ true
    → (run_watches (one_by_one ps) r).opened ≡ r.opened ++ map own_namespace ps
unfolding run_watches
opened-one_by_one [] r h = sym (append-nil r.opened)
opened-one_by_one (p ∷ ps) r h =
    opened-one_by_one ps (act (open_watch p) (act (enter p) r)) (ground (arith, h))
    ∙ ap (λ t. (act (open_watch p) t).opened ++ map own_namespace ps)
        (act-enter p r (ground (arith, h)))
    ∙ append_assoc r.opened (own_namespace p ∷ []) (map own_namespace ps)

all_enter-last :
    (ps : List Partition) (last : Partition) (r : SharedRequest)
    → last.passthrough ≡ false
    → run_watches (all_enter (ps ++ last ∷ [])) r ≡ record r { namespace = last.namespace }
unfolding run_watches
all_enter-last [] last r h = act-enter last r h
all_enter-last (p ∷ ps) last r h =
    all_enter-last ps last (act (enter p) r) h
    ∙ ap (λ o. record { namespace = last.namespace; opened = o }) (opened-enter p r)

opened-all_open :
    (ps : List Partition) (r : SharedRequest)
    → (run_watches (all_open ps) r).opened ≡ r.opened ++ map (at_namespace r.namespace) ps
unfolding run_watches act
opened-all_open [] r = sym (append-nil r.opened)
opened-all_open (p ∷ ps) r =
    opened-all_open ps (act (open_watch p) r)
    ∙ append_assoc r.opened (at_namespace r.namespace p ∷ []) (map (at_namespace r.namespace) ps)

-- The schedule in which all goroutines set the namespace before any opens its watch opens the watch
-- of every partition in the namespace of the last one.
pub opened-all_enter :
    (ps : List Partition) (last : Partition) (r : SharedRequest)
    → last.passthrough ≡ false
    → (run_watches (all_enter (ps ++ last ∷ []) ++ all_open (ps ++ last ∷ [])) r).opened
      ≡ r.opened ++ map (at_namespace last.namespace) (ps ++ last ∷ [])
opened-all_enter ps last r h =
    ap (λ t. t.opened)
      (run_watches-append (all_enter (ps ++ last ∷ [])) (all_open (ps ++ last ∷ [])) r
        ∙ ap (run_watches (all_open (ps ++ last ∷ []))) (all_enter-last ps last r h))
    ∙ opened-all_open (ps ++ last ∷ []) (record r { namespace = last.namespace })
