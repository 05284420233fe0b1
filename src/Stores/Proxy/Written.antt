-- ===== src/Stores/Proxy/Written.antt =====
-- What the proxy store sends to the cluster for an object that is created.
use brent.Base.{
  String, Bool, true, Option, is_some, ◌||◌, sym, ◌⊎◌, eq_iff, if◌then◌else◌, ◌≡◌, refl, ap, ◌∙◌,
  false, not, ◌&&◌, none, some, List, [], ◌∷◌, lookup, insert, lookup-insert, ◌==◌, string_eq,
  Bool-cases, inl, inr, ◌<>◌, contains,
}
use mathlib.Core.Path.{subst}
use brent.Api.Errors.{Error, Result, ok, err, panic, Gives, Gives->>=, Gives-ok, ◌>>=◌}
use brent.Api.Types.{ApiSchema, text}
use brent.Api.Objects.{ApiObject}
use brent.Api.Attributes.{Convert, gvk}
use brent.Api.Schemas.{Schemer}
use brent.Requests.Parse.{ApiRequest}
use brent.Stores.Reserved.{reserved_fields, move_from_underscore}
use brent.Stores.Reserved.RoundTrip.{move_from_underscore-other, hides}
use brent.Stores.Tables.{ObjectLib, Content, holds_fields}
use brent.Stores.Proxy.{
  Outside, ResourceClient, text_at, content_of, generated_name, create_namespace, with_kind,
  create_input, create_object, answered, or_return, unless_error, params_of, create_options,
  first_letter,
}

abbrev name_path : List String
name_path = "metadata" ∷ "namespace" ∷ []

abbrev pub succeeds {κ} : {A : Type κ} → Result A → Bool
succeeds (ok a) = true
succeeds _ = false

succeeds-then {κ ι} :
    {A : Type κ} {B : Type ι} (r : Result A) (f : A → B)
    → succeeds (r >>= λ a. ok (f a)) ≡ succeeds r
succeeds-then (ok a) f = refl
succeeds-then (err e) f = refl
succeeds-then panic f = refl

succeeds-first_letter : (id : String) → succeeds (first_letter id) ≡ not (id == "")
succeeds-first_letter String.[] = refl
succeeds-first_letter (String.◌∷◌ c s) = elim (Bool-cases (String.◌∷◌ c s == "")) [
  | inr more ↦ rw more refl
  | inl empty ↦
      ap (λ id. succeeds (first_letter id)) ((eq_iff (String.◌∷◌ c s) "").0 empty)
      ∙ sym (ap not empty)
]

module _ ⦃conv : Convert⦄ (objects : ObjectLib) (C : Type 0) (outside : Outside objects C) where
  abbrev namespace_in : Content → String
  namespace_in m = text_at objects C outside name_path m

  -- the namespace is read and kept, and where there is a map it can be written
  abbrev Readable : Content → Content → Type 0
  Readable m n = (namespace_in n ≡ namespace_in m) × (holds_fields (lookup "metadata" n) ≡ true)

  generated_name-Readable :
      (s : ApiSchema) (m : Content)
      → holds_fields (lookup "metadata" m) ≡ true
      → Gives (Readable m) (generated_name objects C outside s m)
  generated_name-Readable s m filled =
      elim (Bool-cases (
        not (
          text_at objects C outside ("metadata" ∷ "name" ∷ []) m == ""
          && text_at objects C outside ("metadata" ∷ "generateName" ∷ []) m == ""))) [
            | inl named ↦ rw named (refl, filled)
            | inr unnamed ↦ rw unnamed (
                Gives->>= (Readable m) (first_letter s.id) _ λ letter read. (
                  ap conv.to_string (
                      objects.get-put_other (text (letter <> "-")) "metadata" "generatedName"
                        "namespace" [] m refl),
                  objects.holds_fields-put (text (letter <> "-")) "metadata" "generatedName" m
                      filled,
                ))
          ]

  -- the object has a name, or one can be made of the schema's identifier
  abbrev pub can_name : ApiSchema → Content → Bool
  can_name s m =
      not (
        text_at objects C outside ("metadata" ∷ "name" ∷ []) m == ""
        && text_at objects C outside ("metadata" ∷ "generateName" ∷ []) m == "")
      || not (s.id == "")

  succeeds-generated_name :
      (s : ApiSchema) (m : Content) → succeeds (generated_name objects C outside s m) ≡ can_name s m
  succeeds-generated_name s m =
      elim (Bool-cases (
        not (
          text_at objects C outside ("metadata" ∷ "name" ∷ []) m == ""
          && text_at objects C outside ("metadata" ∷ "generateName" ∷ []) m == ""))) [
            | inl named ↦ rw named refl
            | inr unnamed ↦ rw unnamed (
                succeeds-then (first_letter s.id) (λ letter.
                  objects.put_value (text (letter <> "-")) ("metadata" ∷ "generatedName" ∷ []) m)
                ∙ succeeds-first_letter s.id)
          ]

  -- the content that is sent, after the reserved fields are put back
  abbrev pub sent_content : Content → Content
  sent_content m = move_from_underscore reserved_fields m

  sent-lookup :
      (k : String) (m : Content)
      → contains reserved_fields k ≡ false
      → hides reserved_fields k ≡ false
      → lookup k (sent_content m) ≡ lookup k m
  sent-lookup k m plain new = move_from_underscore-other reserved_fields k m refl plain new

  -- the content of an object of the schema's kind, in a namespace
  abbrev pub Placed : ApiSchema → String × Content → Type 0
  Placed s (ns, m) =
      (lookup "apiVersion" (sent_content m) ≡ some (text (outside.api_version_and_kind (gvk s)).0))
      × (lookup "kind" (sent_content m) ≡ some (text (outside.api_version_and_kind (gvk s)).1))
      × (namespace_in (sent_content m) ≡ ns)

  with_kind-Placed :
      (s : ApiSchema) (ns : String) (m : Content)
      → namespace_in m ≡ ns
      → Placed s (ns, with_kind objects C outside (outside.api_version_and_kind (gvk s)) m)
  with_kind-Placed s ns m h =
      let v = (outside.api_version_and_kind (gvk s)).0 in
      let k = (outside.api_version_and_kind (gvk s)).1 in
      let n = with_kind objects C outside (outside.api_version_and_kind (gvk s)) m in
      (
        sent-lookup "apiVersion" n refl refl
            ∙ lookup-insert "kind" "apiVersion" (text k) (insert "apiVersion" (text v) m)
            ∙ lookup-insert "apiVersion" "apiVersion" (text v) m,
        sent-lookup "kind" n refl refl
            ∙ lookup-insert "kind" "kind" (text k) (insert "apiVersion" (text v) m),
        ap conv.to_string (
              objects.get_value-lookup "metadata" ("namespace" ∷ []) (sent_content n) m (
                sent-lookup "metadata" n refl refl
                ∙ lookup-insert "kind" "metadata" (text k) (insert "apiVersion" (text v) m)
                ∙ lookup-insert "apiVersion" "metadata" (text v) m))
            ∙ h,
      )

  -- nothing is sent: the answer is no success, and the cluster is as it was
  abbrev pub IsRefused : C → Result ApiObject × C → Type 0
  IsRefused c (r, c') = (succeeds r ≡ false) × (c' ≡ c)

  module _ {schemer : Schemer} where
    -- an object's own namespace, else that of the request
    abbrev pub namespace_for : ApiRequest schemer → ApiObject → String
    namespace_for op o =
        if namespace_in (content_of o) == "" then op.namespace else namespace_in (content_of o)

    create_namespace-placed :
        (op : ApiRequest schemer) (ns : String) (m : Content)
        → namespace_in m ≡ ns
        → holds_fields (lookup "metadata" m) ≡ true
        → namespace_in (create_namespace objects C outside op ns m).1
          ≡ (create_namespace objects C outside op ns m).0
    create_namespace-placed op ns m h filled =
        elim (Bool-cases (ns == "" && not (op.namespace == ""))) [
          | inr own ↦ rw own h
          | inl given ↦ rw given (
              ap conv.to_string
                (objects.get-put (text op.namespace) "metadata" "namespace" m filled)
              ∙ conv.to_string-text op.namespace)
        ]

    create_namespace-for :
        (op : ApiRequest schemer) (ns : String) (m : Content)
        → (create_namespace objects C outside op ns m).0 ≡ (if ns == "" then op.namespace else ns)
    create_namespace-for op ns m = elim (Bool-cases (ns == "")) [
      | inr own ↦ rw own refl
      | inl missing ↦ elim (Bool-cases (op.namespace == "")) [
        | inr given ↦ rw (missing, given) refl
        | inl neither ↦
            rw (missing, neither)
              ((eq_iff ns "").0 missing ∙ sym ((eq_iff op.namespace "").0 neither))
      ]
    ]

    -- a namespace and a content that may be sent for an object
    abbrev pub Wanted : ApiRequest schemer → ApiSchema → ApiObject → String × Content → Type 0
    Wanted op s o (ns, m) = Placed s (ns, m) × (ns ≡ namespace_for op o)

    create_input-Wanted :
        (op : ApiRequest schemer) (s : ApiSchema) (o : ApiObject)
        → holds_fields (lookup "metadata" (content_of o)) ≡ true
        → Gives (Wanted op s o) (create_input objects C outside op s o)
    create_input-Wanted op s o filled =
        Gives->>= (Wanted op s o) (generated_name objects C outside s (content_of o)) _
          λ named read.
            let ns = namespace_in (content_of o) in
            let placed = create_namespace objects C outside op ns named in
            let (same, still) =
              Gives-ok (Readable (content_of o)) (generated_name objects C outside s (content_of o))
                named (generated_name-Readable s (content_of o) filled) read in
            (
              with_kind-Placed s placed.0 placed.1 (create_namespace-placed op ns named same still),
              create_namespace-for op ns named,
            )

    -- one content is sent through the client of its namespace, and the answer is made of its answer
    abbrev pub IsSent :
        ApiRequest schemer → ApiSchema → ApiObject → C → Result ApiObject × C → Type 0
    IsSent op s o c r =
        (m : Content) × (client : ResourceClient C) × Placed s (namespace_for op o, m)
        × (outside.table_client s (namespace_for op o) ≡ ok client)
        × (r
            ≡ answered objects C outside s
                (client.create (sent_content m) (params_of objects C outside op) c))

    -- a name is there or can be made, a client is given, and the parameters of the request decode
    abbrev pub may_send : ApiRequest schemer → ApiSchema → ApiObject → Bool
    may_send op s o =
        can_name s (content_of o)
        && (succeeds (outside.table_client s (namespace_for op o))
            && not
                (is_some (outside.decode_params create_options (params_of objects C outside op))))

    abbrev pub Outcome :
        ApiRequest schemer → ApiSchema → ApiObject → C → Bool → Result ApiObject × C → Type 0
    Outcome op s o c may r = ((may ≡ false) × IsRefused c r) ⊎ ((may ≡ true) × IsSent op s o c r)

    abbrev finish :
        ApiRequest schemer
        → ApiSchema
        → Content
        → ResourceClient C
        → C
        → Option Error
        → Result ApiObject × C
    finish op s m client c decoded =
        unless_error decoded
          (answered objects C outside s
            (client.create (sent_content m) (params_of objects C outside op) c))
          (λ e. (err e, c))

    finish-Sent :
        (op : ApiRequest schemer) (s : ApiSchema) (o : ApiObject) (c : C) (m : Content)
        (client : ResourceClient C) (decoded : Option Error)
        → Placed s (namespace_for op o, m)
        → outside.table_client s (namespace_for op o) ≡ ok client
        → Outcome op s o c (not (is_some decoded)) (finish op s m client c decoded)
    finish-Sent op s o c m client (some e) placed got = inl (refl, (refl, refl))
    finish-Sent op s o c m client none placed got = inr (refl, (m, client, placed, got, refl))

    through_client-Sent :
        (op : ApiRequest schemer) (s : ApiSchema) (o : ApiObject) (c : C) (m : Content)
        (found : Result (ResourceClient C)) (decoded : Option Error)
        → Placed s (namespace_for op o, m)
        → outside.table_client s (namespace_for op o) ≡ found
        → Outcome op s o c
            (succeeds found && not (is_some decoded))
            (or_return (found, c) λ client c'. finish op s m client c' decoded)
    through_client-Sent op s o c m panic decoded placed got = inl (refl, (refl, refl))
    through_client-Sent op s o c m (err e) decoded placed got = inl (refl, (refl, refl))
    through_client-Sent op s o c m (ok client) decoded placed got =
        finish-Sent op s o c m client decoded placed got

    abbrev send_input : ApiRequest schemer → ApiSchema → C → String × Content → Result ApiObject × C
    send_input op s c (ns, m) =
        or_return (outside.table_client s ns, c)
          λ client c'.
            finish op s m client c'
              (outside.decode_params create_options (params_of objects C outside op))

    send_input-Sent :
        (op : ApiRequest schemer) (s : ApiSchema) (o : ApiObject) (c : C)
        (input : Result (String × Content))
        → Gives (Wanted op s o) input
        → Outcome op s o c
            (succeeds input
              && (succeeds (outside.table_client s (namespace_for op o))
                  && not (
                      is_some
                        (outside.decode_params create_options (params_of objects C outside op)))))
            (or_return (input, c) λ i c'. send_input op s c' i)
    send_input-Sent op s o c panic h = inl (refl, (refl, refl))
    send_input-Sent op s o c (err e) h = inl (refl, (refl, refl))
    send_input-Sent op s o c (ok (ns, m)) (placed, own) =
        let decoded = outside.decode_params create_options (params_of objects C outside op) in
        let found = outside.table_client s (namespace_for op o) in
        subst
          (λ n.
            Outcome op s o c (succeeds found && not (is_some decoded)) (send_input op s c (n, m)))
          (sym own)
          (through_client-Sent op s o c m found decoded (subst (λ n. Placed s (n, m)) own placed)
            refl)

    succeeds-create_input :
        (op : ApiRequest schemer) (s : ApiSchema) (o : ApiObject)
        → succeeds (create_input objects C outside op s o) ≡ can_name s (content_of o)
    succeeds-create_input op s o =
        succeeds-then (generated_name objects C outside s (content_of o)) _
        ∙ succeeds-generated_name s (content_of o)

    -- For an object whose `metadata` is a map, or is missing. Where it has a name or the schema has an
    -- identifier to make one of, there is a client for its namespace and the parameters of the request
    -- decode: the cluster is sent one content through this client, and the answer is what the cluster
    -- made of it. The namespace is the object's own, or else that of the request; what is sent has it,
    -- and the API version and the kind of the schema, after its reserved fields were put back. Else
    -- nothing is sent: the answer is no success, and the cluster is as it was.
    pub create_object-Placed :
        (op : ApiRequest schemer) (s : ApiSchema) (o : ApiObject) (c : C)
        → holds_fields (lookup "metadata" (content_of o)) ≡ true
        → ((may_send op s o ≡ false) × IsRefused c (create_object objects C outside op s o c))
          ⊎ ((may_send op s o ≡ true) × IsSent op s o c (create_object objects C outside op s o c))
    unfolding create_object
    create_object-Placed op s o c filled =
        subst
          (λ named.
            Outcome op s o c
              (named
                && (succeeds (outside.table_client s (namespace_for op o))
                    && not (
                        is_some
                          (outside.decode_params create_options (params_of objects C outside op)))))
              (create_object objects C outside op s o c))
          (succeeds-create_input op s o)
          (send_input-Sent op s o c (create_input objects C outside op s o)
            (create_input-Wanted op s o filled))
