-- ===== src/Tests/ClusterFixtures.antt =====
-- A small cluster for the proxy store: nested fields by path, and clients over the objects that
-- the cluster holds.
use brent.Base.{
  String, ◌≡◌, refl, sym, not, ap, ◌∙◌, Bool, true, false, ◌||◌, Option, none, some, List, [], ◌∷◌,
  Dict, lookup, insert, lookup-insert, keep, all, ◌==◌, string_eq, eq_iff, arith, if◌then◌else◌,
  Bool-cases, inl, inr, both,
}
use mathlib.Core.Path.{subst}
use brent.Api.Errors.{Result, ok, err, other, ok-injective}
use brent.Api.Types.{Value, text, nested, entries_of, to_entries, no_entries, entry}
use brent.Stores.Tables.{ObjectLib, Content, ContentList, holds_fields}
use brent.Stores.Tables.Rows.{OfNamespace}
use brent.Stores.Proxy.{Outside, ResourceClient}
use brent.Stores.Composed.Confined.{RespectsNamespaces}

abbrev as_text : Option Value → String
as_text (some (text s)) = s
as_text _ = ""

abbrev fields_of : Option Value → Content
fields_of (some (nested es)) = entries_of es
fields_of _ = []

abbrev get_in : List String → Option Value → Option Value
get_in [] o = o
get_in (k ∷ path) o = get_in path (lookup k (fields_of o))

abbrev put_in : Value → List String → Option Value → Value
put_in v [] o = v
put_in v (k ∷ path) o =
    nested (to_entries (insert k (put_in v path (lookup k (fields_of o))) (fields_of o)))

abbrev get_path : List String → Content → Option Value
get_path [] m = none
get_path (k ∷ path) m = get_in path (lookup k m)

abbrev put_if : Bool → Content → Content → Content
put_if b new old = if b then new else old

-- a nested field is only written in a map
abbrev put_path : Value → List String → Content → Content
put_path v [] m = m
put_path v (k ∷ []) m = insert k v m
put_path v (k ∷ i ∷ path) m =
    put_if (holds_fields (lookup k m)) (insert k (put_in v (i ∷ path) (lookup k m)) m) m

entries-entries : (m : Content) → entries_of (to_entries m) ≡ m
entries-entries [] = refl
entries-entries ((k, v) ∷ m) = ap (λ r. (k, v) ∷ r) (entries-entries m)

lookup_self : (k : String) (v : Value) (m : Content) → lookup k (insert k v m) ≡ some v
lookup_self k v m = ground (arith, lookup-insert k k v m, eq_iff k k)

get_in-put_in :
    (v : Value) (path : List String) (o : Option Value)
    → get_in path (some (put_in v path o)) ≡ some v
get_in-put_in v [] o = refl
get_in-put_in v (k ∷ path) o =
    let m = insert k (put_in v path (lookup k (fields_of o))) (fields_of o) in
    ap (λ n. get_in path (lookup k n)) (entries-entries m)
    ∙ ap (get_in path) (lookup_self k (put_in v path (lookup k (fields_of o))) (fields_of o))
    ∙ get_in-put_in v path (lookup k (fields_of o))

pub get_path-put_path :
    (v : Value) (k i : String) (m : Content)
    → holds_fields (lookup k m) ≡ true
    → get_path (k ∷ i ∷ []) (put_path v (k ∷ i ∷ []) m) ≡ some v
get_path-put_path v k i m filled = rw filled (
    ap (get_in (i ∷ [])) (lookup_self k (put_in v (i ∷ []) (lookup k m)) m)
    ∙ get_in-put_in v (i ∷ []) (lookup k m))

pub holds_fields-put_path :
    (v : Value) (k i : String) (m : Content)
    → holds_fields (lookup k m) ≡ true
    → holds_fields (lookup k (put_path v (k ∷ i ∷ []) m)) ≡ true
holds_fields-put_path v k i m filled =
    rw filled (ap holds_fields (lookup_self k (put_in v (i ∷ []) (lookup k m)) m))

abbrev meta_text : String → Content → String
meta_text k m = as_text (get_path ("metadata" ∷ k ∷ []) m)

-- another field under the first key is not touched
pub get_path-put_other :
    (v : Value) (k i j : String) (path : List String) (m : Content)
    → (i == j) ≡ false
    → get_path (k ∷ j ∷ []) (put_path v (k ∷ i ∷ path) m) ≡ get_path (k ∷ j ∷ []) m
get_path-put_other v k i j path m other_field = elim (Bool-cases (holds_fields (lookup k m))) [
  | inr closed ↦ rw closed refl
  | inl filled ↦
      let old = fields_of (lookup k m) in
      let new = put_in v path (lookup i old) in
      rw filled (
        ap (λ o. lookup j (fields_of o)) (lookup_self k (put_in v (i ∷ path) (lookup k m)) m)
        ∙ ap (lookup j) (entries-entries (insert i new old))
        ∙ lookup-insert i j new old
        ∙ ap (λ b. if b then some new else lookup j old) other_field)
]

abbrev pub plain_objects : ObjectLib
plain_objects = record {
  get_value = get_path;
  put_value = put_path;
  get_name = meta_text "name";
  get_namespace = meta_text "namespace";
  get_resource_version = meta_text "resourceVersion";
  get_continue = meta_text "continue";
  get-put = λ v k i m filled. get_path-put_path v k i m filled;
  holds_fields-put = λ v k i m filled. holds_fields-put_path v k i m filled;
  put-no_fields =
      λ v k i m closed. ap (λ b. put_if b (insert k (put_in v (i ∷ []) (lookup k m)) m) m) closed;
  get-put_other = λ v k i j path m other_field. get_path-put_other v k i j path m other_field;
  get_value-lookup = λ k path m n same. ap (get_in path) same;
  get_name-metadata = λ m n same. ap (λ o. as_text (get_in ("name" ∷ []) o)) same;
  get_namespace-metadata = λ m n same. ap (λ o. as_text (get_in ("namespace" ∷ []) o)) same;
  get_namespace-put =
      λ v m. ap as_text (get_path-put_other v "metadata" "fields" "namespace" [] m refl);
  get_name-put = λ v m. ap as_text (get_path-put_other v "metadata" "fields" "name" [] m refl);
}

abbrev listed_in : String → Content → Bool
listed_in ns m = ns == "" || meta_text "namespace" m == ns

-- a cluster is the list of its objects
abbrev Objects : Type 0
Objects = List Content

abbrev name_is : String → Content → Bool
name_is id m = meta_text "name" m == id

abbrev first_of : List Content → Result Content
first_of [] = err (other "not found")
first_of (m ∷ l) = ok m

abbrev pub client_in : String → ResourceClient Objects
client_in ns = record {
  get = λ id q c. first_of (keep (name_is id) (keep (listed_in ns) c));
  list = λ q c. ok (record { object = []; items = keep (listed_in ns) c });
  create = λ m q c. (ok m, m ∷ c);
  update = λ m q c. (ok m, m ∷ c);
  patch = λ id kind bytes q c. (err (other "no patch"), c);
  delete = λ id q c. (none, keep (λ m. not (name_is id m)) c);
}

abbrev pub plain_outside : Outside plain_objects Objects
plain_outside = record {
  table_client = λ s ns. ok (client_in ns);
  table_admin_client = λ s ns. ok (client_in ns);
  decode_params = λ kind q. none;
  read_bytes = λ r. ok "";
  unmarshal = λ b. ok [];
  marshal = λ m. ok "";
  api_version_and_kind = λ g. (g.version, g.kind);
}

keep-listed_in :
    (ns : String) (c : List Content)
    → (ns == "") ≡ false
    → all (λ m. meta_text "namespace" m == ns) (keep (listed_in ns) c) ≡ true
keep-listed_in ns [] h = refl
keep-listed_in ns (m ∷ c) h = elim (Bool-cases (listed_in ns m)) [
  | inl inside ↦ rw inside (
      both (ap (λ b. b || meta_text "namespace" m == ns) (ap (λ b. b) (sym h)) ∙ inside)
        (keep-listed_in ns c h))
  | inr outside ↦ rw outside (keep-listed_in ns c h)
]

client_in-OfNamespace :
    (ns : String) (client : ResourceClient Objects) (q : Dict String String) (c : Objects)
    (found : ContentList)
    → (ns == "") ≡ false
    → Result.ok (client_in ns) ≡ ok client
    → client.list q c ≡ ok found
    → OfNamespace plain_objects ns found
client_in-OfNamespace ns client q c found h got read =
    let same : ◌≡◌ {A = Result ContentList}
        (ok (record { object = []; items = keep (listed_in ns) c })) (ok found) =
      ap (λ k. k.list q c) (ok-injective got) ∙ read in
    subst (OfNamespace plain_objects ns) (ok-injective same) (keep-listed_in ns c h, refl)

pub plain-RespectsNamespaces : RespectsNamespaces plain_objects Objects plain_outside
plain-RespectsNamespaces = record {
  by_user =
      λ s ns client q c found h got read. client_in-OfNamespace ns client q c found h got read;
  by_admin =
      λ s ns client q c found h got read. client_in-OfNamespace ns client q c found h got read;
}

abbrev pub object_in : String → String → Content
object_in ns name =
    ("metadata", nested (entry "namespace" (text ns) (entry "name" (text name) no_entries))) ∷ []

-- two objects in two namespaces
abbrev pub two_objects : Objects
two_objects = object_in "dev" "web" ∷ object_in "prod" "web" ∷ []
