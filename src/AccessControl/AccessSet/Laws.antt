-- ===== src/AccessControl/AccessSet/Laws.antt =====
-- What `Add` and `Merge` do to the grants under each key.
use brent.Base.{
  String, ◌≡◌, refl, inl, inr, Bool, true, ◌&&◌, ◌||◌, none, [], ◌∷◌, arith, Bool-cases, ◌==◌, any,
  for_each, Dict, keys, lookup, insert, lookup-insert, any-keys-insert, string_eq,
}
use brent.AccessControl.Access.{Access, GroupResource, Key, key_eq, access_eq, key_beq_iff}
use brent.AccessControl.AccessSet.{
  AccessSet, ResourceAccessSet, accesses, or_empty, add, merge, merge_key, copy_entry,
}

-- The keys of a Go map are distinct.
abbrev pub NodupKeys : Dict Key ResourceAccessSet → Type 0
NodupKeys [] = Unit
NodupKeys ((k, v) ∷ m) = (lookup k m ≡ none) × NodupKeys m

pub any-accesses-add :
    (p : Access → Bool) (verb : String) (gr : GroupResource) (access : Access) (a : AccessSet)
    (k : Key)
    → any p (accesses (add verb gr access a) k)
      ≡ (((record { verb = verb; gr = gr }) == k && p access) || any p (accesses a k))
unfolding add
any-accesses-add p verb gr access a k =
    let k' : Key = record { verb = verb; gr = gr } in
    ground (
      arith,
      lookup-insert k' k (insert access true (or_empty (lookup k' a.set))) a.set,
      any-keys-insert p access true (or_empty (lookup k' a.set)),
      key_beq_iff k' k,
    )

any-keys-copy :
    (p : Access → Bool) (l m : ResourceAccessSet)
    → any p (keys (for_each l copy_entry m)) ≡ (any p (keys l) || any p (keys m))
any-keys-copy p [] m = refl
any-keys-copy p ((k, v) ∷ l) m =
    ground (arith, any-keys-copy p l (insert k v m), any-keys-insert p k v m)

any-accesses-merge_key :
    (p : Access → Bool) (j : Key) (m : ResourceAccessSet) (a : AccessSet) (k : Key)
    → any p (accesses (merge_key (j, m) a) k) ≡ ((j == k && any p (keys m)) || any p (accesses a k))
any-accesses-merge_key p j m a k = ground (
  arith,
  lookup-insert j k (for_each m copy_entry (or_empty (lookup j a.set))) a.set,
  any-keys-copy p m (or_empty (lookup j a.set)),
  key_beq_iff j k,
)

any-accesses-entries :
    (p : Access → Bool) (right : Dict Key ResourceAccessSet) (a : AccessSet) (k : Key)
    → NodupKeys right
    → any p (accesses (for_each right merge_key a) k)
      ≡ (any p (keys (or_empty (lookup k right))) || any p (accesses a k))
any-accesses-entries p [] a k h = refl
any-accesses-entries p ((j, m) ∷ right) a k h = ground (
  arith,
  any-accesses-entries p right (merge_key (j, m) a) k h.1,
  any-accesses-merge_key p j m a k,
  key_beq_iff j k,
  h.0,
)

pub any-accesses-merge :
    (p : Access → Bool) (a right : AccessSet) (k : Key)
    → NodupKeys right.set
    → any p (accesses (merge a right) k) ≡ (any p (accesses right k) || any p (accesses a k))
unfolding merge
any-accesses-merge p a right k h = any-accesses-entries p right.set a k h

insert-NodupKeys :
    (k : Key) (v : ResourceAccessSet) (m : Dict Key ResourceAccessSet)
    → NodupKeys m
    → NodupKeys (insert k v m)
insert-NodupKeys k v [] h = (refl, tt)
insert-NodupKeys k v ((j, w) ∷ m) h = elim (Bool-cases (j == k)) [
  | inl same ↦ rw same h
  | inr other ↦ rw other (
    ground (arith, lookup-insert k j v m, key_beq_iff k j, key_beq_iff j k, h.0, other),
    insert-NodupKeys k v m h.1,
  )
]

pub add-NodupKeys :
    (verb : String) (gr : GroupResource) (access : Access) (a : AccessSet)
    → NodupKeys a.set
    → NodupKeys (add verb gr access a).set
unfolding add
add-NodupKeys verb gr access a h = insert-NodupKeys _ _ a.set h

merge_entries-NodupKeys :
    (right : Dict Key ResourceAccessSet) (a : AccessSet)
    → NodupKeys a.set
    → NodupKeys (for_each right merge_key a).set
merge_entries-NodupKeys [] a h = h
merge_entries-NodupKeys ((j, m) ∷ right) a h =
    merge_entries-NodupKeys right (merge_key (j, m) a) (insert-NodupKeys j _ a.set h)

pub merge-NodupKeys : (a right : AccessSet) → NodupKeys a.set → NodupKeys (merge a right).set
unfolding merge
merge-NodupKeys a right h = merge_entries-NodupKeys right.set a h
