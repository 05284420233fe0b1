-- ===== src/Api/Attributes/RoundTrip.antt =====
-- Setting and reading attributes.
use brent.Base.{
  String, ◌≡◌, some, ◌==◌, string_eq, lookup-insert, if◌then◌else◌, lookup-insert, if◌then◌else◌,
  lookup-insert, if◌then◌else◌, lookup-insert, if◌then◌else◌,
}
use brent.Api.Types.{ApiSchema, Value}
use brent.Api.Attributes.{
  Convert, str, GroupVersionKind, ApiResource, attribute, set_val, gvk, gvr, verbs, namespaced,
  group, version, resource, kind, set_gvk, set_api_resource,
}

pub attribute-set_val :
    (k j : String) (v : Value) (s : ApiSchema)
    → attribute (set_val k v s) j ≡ (if k == j then some v else attribute s j)
unfolding attribute set_val
attribute-set_val k j v s = lookup-insert k j v s.schema.attributes

module _ ⦃conv : Convert⦄ (s : ApiSchema) where
  -- What discovery stores on a schema is read back: the kind with its group and version, and the
  -- resource's name, verbs and scope; the group and version of the resource are the kind's.
  pub set_gvk-set_api_resource :
      (g : GroupVersionKind) (r : ApiResource)
      → let t = set_api_resource r (set_gvk g s) in
        (gvk t ≡ g)
        × (gvr t ≡ record { group = g.group; version = g.version; resource = r.name })
        × (verbs t ≡ r.verbs)
        × (namespaced (some t) ≡ r.namespaced)
  unfolding gvk gvr group version kind resource verbs namespaced set_gvk set_api_resource
  set_gvk-set_api_resource g r =
      let t : ApiSchema = set_api_resource r (set_gvk g s) in
      let p : group t ≡ g.group =
        simp (attribute-set_val, conv.to_string-text, group, str, set_gvk, set_api_resource) in
      let q : version t ≡ g.version =
        simp (attribute-set_val, conv.to_string-text, version, str, set_gvk, set_api_resource) in
      let k : kind t ≡ g.kind =
        simp (attribute-set_val, conv.to_string-text, kind, str, set_gvk, set_api_resource) in
      let n : resource t ≡ r.name =
        simp (attribute-set_val, conv.to_string-text, resource, str, set_api_resource) in
      (
        λ i. record { group = p i; version = q i; kind = k i },
        λ i. record { group = p i; version = q i; resource = n i },
        simp (attribute-set_val, conv.to_string_slice-texts, verbs, set_api_resource),
        simp (attribute-set_val, conv.to_bool-flag, namespaced, set_api_resource),
      )
