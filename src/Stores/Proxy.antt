-- ===== src/Stores/Proxy.antt =====
-- pkg/stores/proxy/proxy_store.go: the operations of the store that calls the cluster. The clients
-- of the Kubernetes library, the decoding of parameters and of bodies are parameters; so is the
-- state of the cluster, which the operations that write hand on.
pub mod Written
use Prim.Native.String
use brent.Base.{
  String, Bool, true, false, not, ◌&&◌, Option, none, some, List, [], ◌∷◌, Dict, lookup, insert,
  ◌==◌, string_eq, if◌then◌else◌, ◌<>◌, keep, contains,
}
use brent.Api.Errors.{Error, Result, ok, err, panic, other, bare_code, made, ◌>>=◌}
use brent.Api.Types.{ApiSchema, Value, text, method_patch}
use brent.Api.Objects.{ApiObject, ApiObjectList, no_object}
use brent.Api.Attributes.{Convert, GroupVersionKind, gvk}
use brent.Api.Schemas.{Schemer}
use brent.Requests.Http.{HttpRequest, get_text}
use brent.Requests.Parse.{ApiRequest, or_root}
use brent.Stores.Reserved.{reserved_fields, move_from_underscore}
use brent.Stores.Tables.{
  ObjectLib, Content, ContentList, row_to_object, to_api_object, to_api_list, object_name,
}

-- the option types of the Kubernetes API that `decodeParams` fills
pub data OptionKind : Type 0 where
  get_options list_options create_options patch_options update_options delete_options : OptionKind

pub data PatchType : Type 0 where
  json_patch strategic_merge_patch : PatchType

-- `dynamic.ResourceInterface`, for a state of the cluster `C`. Options stand as the parameters
-- that they were decoded from.
pub record ResourceClient (C : Type 0) : Type 0 where
  pub get : String → Dict String String → C → Result Content
  pub list : Dict String String → C → Result ContentList
  pub create : Content → Dict String String → C → Result Content × C
  pub update : Content → Dict String String → C → Result Content × C
  pub patch : String → PatchType → String → Dict String String → C → Result Content × C
  pub delete : String → Dict String String → C → Option Error × C

-- the rest of an operation after an error is returned, with the state reached so far
abbrev pub or_return {κ} :
    {A B : Type 0} {C : Type κ} → Result A × C → (A → C → Result B × C) → Result B × C
or_return (panic, c) rest = (panic, c)
or_return (err e, c) rest = (err e, c)
or_return (ok a, c) rest = rest a c

abbrev pub unless_error {κ} : {A : Type κ} → Option Error → A → (Error → A) → A
unless_error none rest failed = rest
unless_error (some e) rest failed = failed e

abbrev pub empty_list : ApiObjectList
empty_list = record { revision = ""; continue = ""; objects = [] }

-- `params.Data()`, and `data.Object{}` for a nil map
abbrev pub content_of : ApiObject → Content
content_of o = elim o.object [ none ↦ [] | some m ↦ m ]

-- `schema.ID[0:1]`, which panics on an empty identifier
abbrev pub first_letter : String → Result String
first_letter String.[] = panic
first_letter (String.◌∷◌ c s) = ok (String.◌∷◌ c "")

module _ (objects : ObjectLib) (C : Type 0) where
  -- `ClientGetter`, what the request's parameters and body decode to, and what is written as an
  -- object's API version and kind
  pub record Outside : Type 0 where
    pub table_client : ApiSchema → String → Result (ResourceClient C)
    pub table_admin_client : ApiSchema → String → Result (ResourceClient C)
    pub decode_params : OptionKind → Dict String String → Option Error
    pub read_bytes : HttpRequest → Result String
    pub unmarshal : String → Result Content
    pub marshal : Content → Result String
    pub api_version_and_kind : GroupVersionKind → String × String

  module _ ⦃conv : Convert⦄ (outside : Outside) where
    -- `types2.Name` and `types2.Namespace`, and `String` of the schemer library
    abbrev pub text_at : List String → Content → String
    text_at path m = conv.to_string (objects.get_value path m)

    abbrev pub only_named : List String → ApiObjectList → ApiObjectList
    only_named names l = record l {
      objects = keep (λ o. contains names (object_name objects o)) l.objects;
    }

    abbrev pub generated_name : ApiSchema → Content → Result Content
    generated_name s m =
        if not (
          text_at ("metadata" ∷ "name" ∷ []) m == ""
          && text_at ("metadata" ∷ "generateName" ∷ []) m == "")
        then ok m
        else do
          letter ← first_letter s.id
          ok (objects.put_value (text (letter <> "-")) ("metadata" ∷ "generatedName" ∷ []) m)

    abbrev pub with_kind : String × String → Content → Content
    with_kind (version, kind) m = insert "kind" (text kind) (insert "apiVersion" (text version) m)

    -- an object that the cluster returned for a write
    abbrev pub answered : ApiSchema → Result Content × C → Result ApiObject × C
    answered s r = or_return r (λ m c. (ok (to_api_object objects s (row_to_object objects m)), c))

    -- the bytes of a merge patch have their reserved fields put back
    abbrev pub patch_bytes : PatchType → String → Result String
    patch_bytes json_patch bytes = ok bytes
    patch_bytes strategic_merge_patch bytes = do
      m ← outside.unmarshal bytes
      outside.marshal (move_from_underscore reserved_fields m)

    abbrev pub version_required : Error
    version_required = other "metadata.resourceVersion is required for update"

    abbrev pub no_content : Error
    no_content = bare_code (made 204 "")

    -- what is left of an object that was deleted: it is looked up again
    abbrev pub after_delete : ApiSchema → Result Content → Result ApiObject
    after_delete s (ok m) = ok (to_api_object objects s m)
    after_delete s (err e) = err no_content
    after_delete s panic = panic

    module _ {schemer : Schemer} where
      abbrev pub params_of : ApiRequest schemer → Dict String String
      params_of op = (or_root op.request).query

      abbrev pub decoded_or : {A : Type 0} → OptionKind → ApiRequest schemer → A → (Error → A) → A
      decoded_or kind op rest failed =
          unless_error (outside.decode_params kind (params_of op)) rest failed

      -- `byID`
      unfoldable pub get_by_id :
          ApiRequest schemer → ApiSchema → String → String → C → Result Content
      unfolding row_to_object
      get_by_id op s namespace id c = do
        client ← outside.table_client s namespace
        found ← decoded_or get_options op (client.get id (params_of op) c) err
        ok (row_to_object objects found)

      -- `ByID`
      unfoldable pub by_id : ApiRequest schemer → ApiSchema → String → C → Result ApiObject
      unfolding get_by_id
      by_id op s id c = do
        found ← get_by_id op s op.namespace id c
        ok (to_api_object objects s found)

      abbrev pub listed :
          ApiRequest schemer → ApiSchema → ResourceClient C → C → Result ApiObjectList
      listed op s client c = do
        found ← client.list (params_of op) c
        ok (to_api_list objects s found)

      -- `list`: parameters that do not decode give an empty list and no error
      unfoldable pub list_with :
          ApiRequest schemer → ApiSchema → ResourceClient C → C → Result ApiObjectList
      list_with op s client c =
          decoded_or list_options op (listed op s client c) (λ e. ok empty_list)

      -- `List`
      unfoldable pub list_objects : ApiRequest schemer → ApiSchema → C → Result ApiObjectList
      unfolding list_with
      list_objects op s c = do client ← outside.table_client s op.namespace; list_with op s client c

      -- `ByNames`
      unfoldable pub by_names :
          ApiRequest schemer → ApiSchema → List String → C → Result ApiObjectList
      unfolding list_with
      by_names op s names c = if op.namespace == "*" then ok empty_list else do
        client ← outside.table_admin_client s op.namespace
        found ← list_with op s client c
        ok (only_named names found)

      -- the namespace of an object that is created, and the object with it
      abbrev pub create_namespace : ApiRequest schemer → String → Content → String × Content
      create_namespace op ns m =
          if ns == "" && not (op.namespace == "")
          then (
            op.namespace,
            objects.put_value (text op.namespace) ("metadata" ∷ "namespace" ∷ []) m,
          )
          else (ns, m)

      abbrev pub create_input :
          ApiRequest schemer → ApiSchema → ApiObject → Result (String × Content)
      create_input op s o = do
        named ← generated_name s (content_of o)
        let placed =
            create_namespace op (text_at ("metadata" ∷ "namespace" ∷ []) (content_of o)) named
        ok (placed.0, with_kind (outside.api_version_and_kind (gvk s)) placed.1)

      -- `Create`
      unfoldable pub create_object :
          ApiRequest schemer → ApiSchema → ApiObject → C → Result ApiObject × C
      create_object op s o c =
          or_return (create_input op s o, c)
            λ input c'.
              or_return (outside.table_client s input.0, c')
                λ client c''.
                  decoded_or create_options op
                    (answered s (
                      client.create (move_from_underscore reserved_fields input.1) (params_of op)
                        c''))
                    (λ e. (err e, c''))

      abbrev pub patch_type : ApiRequest schemer → PatchType
      patch_type op =
          if get_text "content-type" (or_root op.request).header == "application/json-patch+json"
          then json_patch
          else strategic_merge_patch

      abbrev pub patch_object :
          ApiRequest schemer → ApiSchema → String → ResourceClient C → C → Result ApiObject × C
      patch_object op s id client c =
          or_return (outside.read_bytes (or_root op.request), c)
            λ bytes c'.
              decoded_or patch_options op
                (or_return (patch_bytes (patch_type op) bytes, c')
                  λ patch c''.
                    or_return (client.patch id (patch_type op) patch (params_of op) c'')
                      λ m d. (ok (to_api_object objects s m), d))
                (λ e. (err e, c'))

      abbrev pub put_object :
          ApiRequest schemer → ApiSchema → Content → ResourceClient C → C → Result ApiObject × C
      put_object op s m client c =
          if text_at ("metadata" ∷ "resourceVersion" ∷ []) m == ""
          then (err version_required, c)
          else decoded_or update_options op
              (answered s (client.update (move_from_underscore reserved_fields m) [] c))
              (λ e. (err e, c))

      -- `Update`
      unfoldable pub update_object :
          ApiRequest schemer → ApiSchema → ApiObject → String → C → Result ApiObject × C
      update_object op s o id c =
          or_return
            (outside.table_client s (text_at ("metadata" ∷ "namespace" ∷ []) (content_of o)), c)
            λ client c'.
              if op.method == method_patch
              then patch_object op s id client c'
              else put_object op s (content_of o) client c'

      abbrev pub deleted :
          ApiRequest schemer → ApiSchema → String → Option Error × C → Result ApiObject × C
      deleted op s id (some e, c) = (err e, c)
      deleted op s id (none, c) = (after_delete s (get_by_id op s op.namespace id c), c)

      -- `Delete`: parameters that do not decode give an empty object and no error
      unfoldable pub delete_object :
          ApiRequest schemer → ApiSchema → String → C → Result ApiObject × C
      unfolding get_by_id
      delete_object op s id c =
          decoded_or delete_options op
            (or_return (outside.table_client s op.namespace, c)
              λ client c'. deleted op s id (client.delete id (params_of op) c'))
            (λ e. (ok no_object, c))
