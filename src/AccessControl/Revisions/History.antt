-- ===== src/AccessControl/Revisions/History.antt =====
-- The index after any history of role events.
use brent.Base.{
  String, ◌≡◌, refl, Bool, Option, none, some, List, [], ◌∷◌, arith, ◌==◌, ◌∙◌, ap, lookup,
  lookup-insert, lookup-remove, if◌then◌else◌, Option-cases, inl, inr, cut,
}
use brent.AccessControl.Revisions.{
  RoleKey, role_key_eq, RoleRevisions, Request, or_blank, role_revision, store_or_delete,
  on_cluster_role_changed, on_role_changed,
}

-- What the controllers report, in order.
pub data Event : Type 0 where
  cluster_role role : Request → Event

pub handle : Event → RoleRevisions → RoleRevisions
handle (cluster_role req) r = on_cluster_role_changed req r
handle (role req) r = on_role_changed req r

-- the last event is at the end
pub replay : List Event → RoleRevisions → RoleRevisions
replay [] r = r
replay (ev ∷ evs) r = replay evs (handle ev r)

abbrev named : String × String × Bool → RoleKey
named (namespace, name, _) = record { namespace = namespace; name = name }

-- the role that an event speaks of
pub subject_of : Event → RoleKey
subject_of (cluster_role req) = record { namespace = ""; name = req.key }
subject_of (role req) = elim req.object [
  | none ↦ named (cut b'/' req.key)
  | some _ ↦ record { namespace = req.namespace; name = req.name }
]

pub version_of : Event → String
version_of (cluster_role req) = or_blank req.object
version_of (role req) = or_blank req.object

-- the version of the last event that speaks of the role
pub last_version : List Event → RoleKey → String → String
last_version [] k before = before
last_version (ev ∷ evs) k before =
    last_version evs k (if subject_of ev == k then version_of ev else before)

abbrev revision_at : RoleRevisions → RoleKey → String
revision_at r k = or_blank (lookup k r)

store_or_delete_lem :
    (gone here k : RoleKey) (o : Option String) (r : RoleRevisions)
    → revision_at (store_or_delete gone here o r) k
      ≡ (if (elim o [ none ↦ gone | some _ ↦ here ]) == k then or_blank o else revision_at r k)
store_or_delete_lem gone here k none r = ground (arith, lookup-remove gone k r)
store_or_delete_lem gone here k (some v) r = ground (arith, lookup-insert here k v r)

revision-handle :
    (ev : Event) (k : RoleKey) (r : RoleRevisions)
    → revision_at (handle ev r) k ≡ (if subject_of ev == k then version_of ev else revision_at r k)
unfolding handle subject_of version_of on_cluster_role_changed on_role_changed
revision-handle (cluster_role req) k r =
    let key : RoleKey = record { namespace = ""; name = req.key } in
    ground (arith, store_or_delete_lem key key k req.object r)
revision-handle (role req) k r =
    let gone : RoleKey = named (cut b'/' req.key) in
    let here : RoleKey = record { namespace = req.namespace; name = req.name } in
    elim (Option-cases req.object) [
      | inl removed ↦ rw removed (rw removed at (store_or_delete_lem gone here k req.object r))
      | inr (v, present) ↦ rw present (rw present at (store_or_delete_lem gone here k req.object r))
    ]

revision-replay :
    (evs : List Event) (k : RoleKey) (r : RoleRevisions)
    → revision_at (replay evs r) k ≡ last_version evs k (revision_at r k)
unfolding replay last_version
revision-replay [] k r = refl
revision-replay (ev ∷ evs) k r =
    revision-replay evs k (handle ev r) ∙ ap (last_version evs k) (revision-handle ev k r)

-- After any events, the revision of a role is the version that the last event about it carried
-- (empty if that event removed it), and the revision from before if none was about it.
pub role_revision-replay :
    (evs : List Event) (namespace name : String) (r : RoleRevisions)
    → role_revision (replay evs r) namespace name
      ≡ last_version evs
          (record { namespace = namespace; name = name })
          (role_revision r namespace name)
unfolding role_revision
role_revision-replay evs namespace name r = revision-replay evs _ r
