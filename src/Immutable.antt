-- ===== src/Immutable.antt =====
-- pkg/util/immutable/immutable.go. What reflect sees of a value is a tree; the name of its type comes
-- with it, and the tags of a struct's fields. Types of one name are the same type.
use Prim.Native.String
use aro_rp.Base.{
  ℕ, suc, String, Bool, true, false, ◌||◌, ◌==◌, eqb, if◌then◌else◌, Option, none, some,
}
use aro_rp.Base.Text.{equal_fold}
use aro_rp.Api.Error.{Error, Result, ok, err, other, new_cloud_error}
use aro_rp.Api.Error as Error

-- A field of a struct: its name, and its tags `json`, up to the comma, and `mutable`
pub record FieldType : Type 0 where
  pub name : String
  pub json : String
  pub mutability : String

-- `number` is a value that == compares, of the kinds Bool to Complex128; `pointer` one of the kinds
-- Interface and Ptr.
mutual
  pub data Value : Type 0 where
    number : String → ℕ → Value
    text : String → String → Value
    nil_slice : String → Value
    slice : String → Items → Value
    array : String → Items → Value
    nil_pointer : String → Value
    pointer : String → Value → Value
    nil_map : String → Value
    mapping : String → Entries → Value
    struct : String → Fields → Value
    unsupported : String → Value

  pub data Items : Type 0 where
    no_items : Items
    item : Value → Items → Items

  pub data Entries : Type 0 where
    no_entries : Entries
    entry : String → Value → Entries → Entries

  pub data Fields : Type 0 where
    no_fields : Fields
    field : FieldType → Value → Fields → Fields

abbrev pub type_of : Value → String
type_of (number t n) = t
type_of (text t s) = t
type_of (nil_slice t) = t
type_of (slice t vs) = t
type_of (array t vs) = t
type_of (nil_pointer t) = t
type_of (pointer t v) = t
type_of (nil_map t) = t
type_of (mapping t es) = t
type_of (struct t fs) = t
type_of (unsupported t) = t

abbrev pub item_count : Items → ℕ
item_count no_items = 0
item_count (item v vs) = suc (item_count vs)

abbrev pub entry_count : Entries → ℕ
entry_count no_entries = 0
entry_count (entry k v es) = suc (entry_count es)

abbrev pub lookup : String → Entries → Option Value
lookup k no_entries = none
lookup k (entry l v es) = if k == l then some v else lookup k es

-- The text of the field Name of a struct, if it has one that is a string.
abbrev pub field_name : Fields → Option String
field_name no_fields = none
field_name (field t (text u s) fs) = if t.name == "Name" then some s else field_name fs
field_name (field t v fs) = if t.name == "Name" then none else field_name fs

-- validationError
unfoldable pub validation_error : String → Error
unfolding new_cloud_error
validation_error path = new_cloud_error 400 "PropertyChangeNotAllowed" path

-- Values of one type are of one kind.
abbrev pub ill_typed : Result (Unit {0})
ill_typed = err (other "values of one type differ in kind")

abbrev pub require_same : Bool → String → Result (Unit {0})
require_same true path = ok tt
require_same false path = err (validation_error path)

abbrev pub json_name : FieldType → String
json_name t = if t.json == "" then t.name else t.json

abbrev pub subpath : String → FieldType → String
subpath path t = String.◌++◌ (if path == "" then "" else String.◌++◌ path ".") (json_name t)

abbrev pub is_mutable : FieldType → Bool
is_mutable t = equal_fold t.mutability "true"

abbrev pub is_case_mutable : FieldType → Bool
is_case_mutable t = equal_fold t.mutability "case"

-- Sprintf with %d and with %q
pub record Printing : Type 0 where
  pub decimal : ℕ → String
  pub quote : String → String

-- validate, on the outcome for the kind: the types are compared first
abbrev pub checked : String → Value → Value → Result (Unit {0}) → Result (Unit {0})
checked path v w same = if type_of v == type_of w then same else err (validation_error path)

module _ (print : Printing) where
  -- the index of an element in the path
  abbrev pub index_of : ℕ → Value → String
  index_of i (struct t fs) = elim (field_name fs) [
    | none ↦ String.◌++◌ "[" (String.◌++◌ (print.decimal i) "]")
    | some s ↦ String.◌++◌ "['" (String.◌++◌ s "']")
  ]
  index_of i v = String.◌++◌ "[" (String.◌++◌ (print.decimal i) "]")

  unfoldable mutual
    unfolding validation_error equal_fold

    -- the switch on the kind
    pub validate_kind : Value → String → Value → Bool → Result (Unit {0})
    validate_kind (number t m) path w ignore_case = elim w [
      | number u n ↦ require_same (eqb m n) path
      | _ ↦ ill_typed
    ]
    validate_kind (text t a) path w ignore_case = elim w [
      | text u b ↦ require_same (if ignore_case then equal_fold a b else a == b) path
      | _ ↦ ill_typed
    ]
    validate_kind (nil_slice t) path w ignore_case = elim w [
      | nil_slice u ↦ ok tt
      | slice u ws ↦ err (validation_error path)
      | _ ↦ ill_typed
    ]
    validate_kind (slice t vs) path w ignore_case = elim w [
      | nil_slice u ↦ err (validation_error path)
      | slice u ws ↦
          let rest = validate_items vs 0 path ws ignore_case in
          if eqb (item_count vs) (item_count ws) then rest else err (validation_error path)
      | _ ↦ ill_typed
    ]
    validate_kind (array t vs) path w ignore_case = elim w [
      | array u ws ↦
          let rest = validate_items vs 0 path ws ignore_case in
          if eqb (item_count vs) (item_count ws) then rest else err (validation_error path)
      | _ ↦ ill_typed
    ]
    validate_kind (nil_pointer t) path w ignore_case = elim w [
      | nil_pointer u ↦ ok tt
      | pointer u y ↦ err (validation_error path)
      | _ ↦ ill_typed
    ]
    validate_kind (pointer t x) path w ignore_case = elim w [
      | nil_pointer u ↦ err (validation_error path)
      | pointer u y ↦ checked path x y (validate_kind x path y ignore_case)
      | _ ↦ ill_typed
    ]
    validate_kind (nil_map t) path w ignore_case = elim w [
      | nil_map u ↦ ok tt
      | mapping u fs ↦ err (validation_error path)
      | _ ↦ ill_typed
    ]
    validate_kind (mapping t es) path w ignore_case = elim w [
      | nil_map u ↦ err (validation_error path)
      | mapping u fs ↦
          let rest = validate_entries es path fs ignore_case in
          if eqb (entry_count es) (entry_count fs) then rest else err (validation_error path)
      | _ ↦ ill_typed
    ]
    validate_kind (struct t vs) path w ignore_case = elim w [
      | struct u ws ↦ validate_fields vs path ws ignore_case
      | _ ↦ ill_typed
    ]
    validate_kind (unsupported t) path w ignore_case = err (other "unimplemented kind")

    -- the loop over the elements, from the i-th on
    pub validate_items : Items → ℕ → String → Items → Bool → Result (Unit {0})
    validate_items no_items i path ws ignore_case = ok tt
    validate_items (item v vs) i path ws ignore_case = elim ws [
      | no_items ↦ ill_typed
      | item w ws' ↦
          let here = String.◌++◌ path (index_of i v) in
          Error.bind (checked here v w (validate_kind v here w ignore_case))
            (λ _. validate_items vs (suc i) path ws' ignore_case)
    ]

    -- The loop over the keys of a map; a key that the other map does not have makes reflect panic.
    pub validate_entries : Entries → String → Entries → Bool → Result (Unit {0})
    validate_entries no_entries path fs ignore_case = ok tt
    validate_entries (entry k v es) path fs ignore_case = elim (lookup k fs) [
      | none ↦ err (other "the zero Value has no type")
      | some w ↦
          let here = String.◌++◌ path (String.◌++◌ "[" (String.◌++◌ (print.quote k) "]")) in
          Error.bind (checked here v w (validate_kind v here w ignore_case))
            (λ _. validate_entries es path fs ignore_case)
    ]

    -- the loop over the fields
    pub validate_fields : Fields → String → Fields → Bool → Result (Unit {0})
    validate_fields no_fields path ws ignore_case = ok tt
    validate_fields (field t v vs) path ws ignore_case = elim ws [
      | no_fields ↦ ill_typed
      | field u w ws' ↦
          let rest = validate_fields vs path ws' ignore_case in
          let below = subpath path t in
          let here = validate_kind v below w (ignore_case || is_case_mutable t) in
          if is_mutable t then rest else Error.bind (checked below v w here) (λ _. rest)
    ]

  -- validate
  unfoldable pub validate : String → Value → Value → Bool → Result (Unit {0})
  unfolding validate_kind
  validate path v w ignore_case = checked path v w (validate_kind v path w ignore_case)

  -- Validate
  unfoldable pub validate_all : String → Value → Value → Result (Unit {0})
  unfolding validate
  validate_all path v w = validate path v w false
