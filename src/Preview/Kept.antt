-- ===== src/Preview/Kept.antt =====
-- What the immutability check says of one field of a struct, by the tags of the field.
use aro_rp.Base.{
  ℕ, String, ◌≡◌, refl, Bool, true, false, Bool-cases, inl, inr, ◌==◌, eqb, eq_iff, arith,
}
use aro_rp.Base.Text.{to_lower, equal_fold}
use aro_rp.Api.Error.{Result, ok, err}
use aro_rp.Api.Error as Error
use aro_rp.Immutable.{
  Value, Fields, number, text, struct, field, Printing, type_of, checked, require_same, subpath,
  validate_kind, validate_fields,
}
use aro_rp.Preview.Static.{plain, in_any_case, mutable}

pub bind_ok : (r s : Result (Unit {0})) → Error.bind r (λ _. s) ≡ ok tt → (r ≡ ok tt) × (s ≡ ok tt)
bind_ok (ok u) s e = (refl, e)
bind_ok (err x) s e = cc e

pub checked_ok :
    (path : String) (v w : Value) (r : Result (Unit {0})) → checked path v w r ≡ ok tt → r ≡ ok tt
checked_ok path v w r e = elim (Bool-cases (type_of v == type_of w)) [
  | inl h ↦ rw h at e
  | inr h ↦ cc (rw h at e)
]

require_same_ok : (b : Bool) (path : String) → require_same b path ≡ ok tt → b ≡ true
require_same_ok true path e = refl
require_same_ok false path e = cc e

module _ (print : Printing) where
  -- A plain text field is as it was.
  pub plain_text :
      (name json t path a b : String) (vs ws : Fields)
      → validate_fields print
          (field (plain name json) (text t a) vs)
          path
          (field (plain name json) (text t b) ws)
          false
        ≡ ok tt
      → (a ≡ b) × (validate_fields print vs path ws false ≡ ok tt)
  unfolding validate_kind equal_fold to_lower
  plain_text name json t path a b vs ws e =
      let below = subpath path (plain name json) in
      let (here, rest) =
        bind_ok (checked below (text t a) (text t b) (require_same (a == b) below))
          (validate_fields print vs path ws false) e in
      (
        (eq_iff a b).0 (
            require_same_ok (a == b) below
              (checked_ok below (text t a) (text t b) (require_same (a == b) below) here)),
        rest,
      )

  pub plain_number :
      (name json t path : String) (m n : ℕ) (vs ws : Fields)
      → validate_fields print
          (field (plain name json) (number t m) vs)
          path
          (field (plain name json) (number t n) ws)
          false
        ≡ ok tt
      → (m ≡ n) × (validate_fields print vs path ws false ≡ ok tt)
  unfolding validate_kind equal_fold to_lower
  plain_number name json t path m n vs ws e =
      let below = subpath path (plain name json) in
      let (here, rest) =
        bind_ok (checked below (number t m) (number t n) (require_same (eqb m n) below))
          (validate_fields print vs path ws false) e in
      let same =
        require_same_ok (eqb m n) below
          (checked_ok below (number t m) (number t n) (require_same (eqb m n) below) here) in
      (ground arith, rest)

  -- A text field of which the case may change
  pub case_text :
      (name json t path a b : String) (vs ws : Fields)
      → validate_fields print
          (field (in_any_case name json) (text t a) vs)
          path
          (field (in_any_case name json) (text t b) ws)
          false
        ≡ ok tt
      → (equal_fold a b ≡ true) × (validate_fields print vs path ws false ≡ ok tt)
  unfolding validate_kind equal_fold to_lower
  case_text name json t path a b vs ws e =
      let below = subpath path (in_any_case name json) in
      let (here, rest) =
        bind_ok (checked below (text t a) (text t b) (require_same (equal_fold a b) below))
          (validate_fields print vs path ws false) e in
      (
        require_same_ok (equal_fold a b) below
            (checked_ok below (text t a) (text t b) (require_same (equal_fold a b) below) here),
        rest,
      )

  pub mutable_field :
      (name json path : String) (v w : Value) (vs ws : Fields)
      → validate_fields print
          (field (mutable name json) v vs)
          path
          (field (mutable name json) w ws)
          false
        ≡ ok tt
      → validate_fields print vs path ws false ≡ ok tt
  unfolding validate_kind equal_fold to_lower
  mutable_field name json path v w vs ws e = e

  -- A plain field that is a struct
  pub plain_struct :
      (name json t path : String) (fs gs vs ws : Fields)
      → validate_fields print
          (field (plain name json) (struct t fs) vs)
          path
          (field (plain name json) (struct t gs) ws)
          false
        ≡ ok tt
      → (validate_fields print fs (subpath path (plain name json)) gs false ≡ ok tt)
        × (validate_fields print vs path ws false ≡ ok tt)
  unfolding validate_kind equal_fold to_lower
  plain_struct name json t path fs gs vs ws e =
      let below = subpath path (plain name json) in
      let inside = validate_fields print fs below gs false in
      let (here, rest) =
        bind_ok (checked below (struct t fs) (struct t gs) inside)
          (validate_fields print vs path ws false) e in
      (checked_ok below (struct t fs) (struct t gs) inside here, rest)

  pub plain_value :
      (name json path : String) (v w : Value) (vs ws : Fields)
      → validate_fields print
          (field (plain name json) v vs)
          path
          (field (plain name json) w ws)
          false
        ≡ ok tt
      → (validate_kind print v (subpath path (plain name json)) w false ≡ ok tt)
        × (validate_fields print vs path ws false ≡ ok tt)
  unfolding validate_kind equal_fold to_lower
  plain_value name json path v w vs ws e =
      let below = subpath path (plain name json) in
      let inside = validate_kind print v below w false in
      let (here, rest) =
        bind_ok (checked below v w inside) (validate_fields print vs path ws false) e in
      (checked_ok below v w inside here, rest)
