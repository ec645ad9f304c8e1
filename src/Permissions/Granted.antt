-- ===== src/Permissions/Granted.antt =====
-- What pkg/util/permissions/permissions.go decides, said without the regular expressions.
use Prim.Native.Char.{Char, code}
use Prim.Native.String.{String, [], ◌∷◌}
use mathlib.Core.Path.{subst}
use aro_rp.Base.{
  and_true, or_true, ℕ, ◌≡◌, ◌≢◌, ◌↔◌, inl, inr, refl, sym, ◌∙◌, Bool, true, false, ◌||◌, not, ◌&&◌,
  List, some, eqb, All, Bool-cases, arith,
}
use aro_rp.Base.Text.{equal_fold}
use aro_rp.Api.Error.{ok}
use aro_rp.Permissions.{Permission, any_then, letter_then, matches, any_matches, can_do_action}

-- A pattern matches a text: a star stands for any characters of one line, and every other character
-- for itself in either case.
pub data Matches : String → String → Type 0 where
  empty : Matches [] []
  letter :
      {p c : Char} {ps s : String}
      → code p ≢ 42
      → equal_fold (p ∷ []) (c ∷ []) ≡ true
      → Matches ps s
      → Matches (p ∷ ps) (c ∷ s)
  stop : {p : Char} {ps s : String} → code p ≡ 42 → Matches ps s → Matches (p ∷ ps) s
  skip :
      {p c : Char} {ps s : String}
      → code p ≡ 42
      → code c ≢ 10
      → Matches (p ∷ ps) s
      → Matches (p ∷ ps) (c ∷ s)

or_right : (a : Bool) → (a || true) ≡ true
or_right true = refl
or_right false = refl

ne_of_eqb : (a b : ℕ) → not (eqb a b) ≡ true → a ≢ b
ne_of_eqb a b h = ground arith

module _ {p : Char} {ps : String} (sound : (s : String) → matches ps s ≡ true → Matches ps s) where
  any_then→Matches :
      (s : String) → code p ≡ 42 → any_then (matches ps) s ≡ true → Matches (p ∷ ps) s
  unfolding any_then
  any_then→Matches [] star h = stop star (sound [] h)
  any_then→Matches (c ∷ s) star h =
      elim (or_true (matches ps (c ∷ s)) (not (eqb (code c) 10) && any_then (matches ps) s) h) [
        | inl now ↦ stop star (sound (c ∷ s) now)
        | inr later ↦
            let (line, rest) = and_true (not (eqb (code c) 10)) (any_then (matches ps) s) later in
            skip star (ne_of_eqb (code c) 10 line) (any_then→Matches s star rest)
      ]

  letter_then→Matches :
      (s : String) → code p ≢ 42 → letter_then (matches ps) p s ≡ true → Matches (p ∷ ps) s
  unfolding letter_then
  letter_then→Matches [] other h = cc
  letter_then→Matches (c ∷ s) other h =
      let (same, rest) = and_true (equal_fold (p ∷ []) (c ∷ [])) (matches ps s) h in
      letter other same (sound s rest)

matches→Matches : (ps s : String) → matches ps s ≡ true → Matches ps s
unfolding matches
matches→Matches [] [] h = empty
matches→Matches [] (c ∷ s) h = cc
matches→Matches (p ∷ ps) s h = elim (Bool-cases (eqb (code p) 42)) [
  | inl star ↦ any_then→Matches (matches→Matches ps) s (ground arith) (rw star at h)
  | inr other ↦ letter_then→Matches (matches→Matches ps) s (ground arith) (rw other at h)
]

any_then_now : (rest : String → Bool) (s : String) → rest s ≡ true → any_then rest s ≡ true
unfolding any_then
any_then_now rest [] h = h
any_then_now rest (c ∷ s) h = rw h

skipped :
    (rest : String → Bool) (c : Char) (s : String)
    → code c ≢ 10
    → any_then rest s ≡ true
    → any_then rest (c ∷ s) ≡ true
unfolding any_then
skipped rest c s line h =
    let other : eqb (code c) 10 ≡ false = ground arith in rw other (rw h (or_right (rest (c ∷ s))))

matches-star :
    (p : Char) (ps s : String) → code p ≡ 42 → matches (p ∷ ps) s ≡ any_then (matches ps) s
unfolding matches
matches-star p ps s h = let e : eqb (code p) 42 ≡ true = ground arith in rw e

matches-letter :
    (p : Char) (ps s : String) → code p ≢ 42 → matches (p ∷ ps) s ≡ letter_then (matches ps) p s
unfolding matches
matches-letter p ps s h = let e : eqb (code p) 42 ≡ false = ground arith in rw e

Matches→matches : {ps s : String} → Matches ps s → matches ps s ≡ true
unfolding any_then letter_then
Matches→matches empty = unfold matches in refl
Matches→matches (letter {p} {c} {ps} {s} other same d) =
    matches-letter p ps (c ∷ s) other ∙ rw same (Matches→matches d)
Matches→matches (stop {p} {ps} {s} star d) =
    matches-star p ps s star ∙ any_then_now (matches ps) s (Matches→matches d)
Matches→matches (skip {p} {c} {ps} {s} star line d) =
    matches-star p ps (c ∷ s) star
    ∙ skipped (matches ps) c s line (sym (matches-star p ps s star) ∙ Matches→matches d)

-- The texts that one of the patterns matches
pub data Listed : List String → String → Type 0 where
  first : {p a : String} {ps : List String} → Matches p a → Listed (List.◌∷◌ p ps) a
  later : {p a : String} {ps : List String} → Listed ps a → Listed (List.◌∷◌ p ps) a

any_matches→Listed : (ps : List String) (a : String) → any_matches ps a ≡ true → Listed ps a
any_matches→Listed List.[] a h = cc
any_matches→Listed (List.◌∷◌ p ps) a h = elim (or_true (matches p a) (any_matches ps a) h) [
  | inl now ↦ first (matches→Matches p a now)
  | inr other ↦ later (any_matches→Listed ps a other)
]

Listed→any_matches : {ps : List String} {a : String} → Listed ps a → any_matches ps a ≡ true
Listed→any_matches (first d) = rw (Matches→matches d)
Listed→any_matches (later {p} {a} l) = rw (Listed→any_matches l) (or_right (matches p a))

-- A permission whose two lists are given grants the actions that the first lists and the second
-- does not.
pub record Grants (p : Permission) (a : String) : Type 0 where
  pub allowed : List String
  pub denied : List String
  pub actions_given : p.actions ≡ some allowed
  pub not_actions_given : p.not_actions ≡ some denied
  pub listed : Listed allowed a
  pub not_denied : ¬ Listed denied a

pub data Granted : List Permission → String → Type 0 where
  by : {p : Permission} {a : String} {ps : List Permission} → Grants p a → Granted (List.◌∷◌ p ps) a
  among :
      {p : Permission} {a : String} {ps : List Permission}
      → Granted ps a
      → Granted (List.◌∷◌ p ps) a

-- Both lists of the permission are given.
abbrev pub HasLists : Permission → Type 0
HasLists p =
    ((xs : List String) × (p.actions ≡ some xs)) × ((ns : List String) × (p.not_actions ≡ some ns))

-- An answer without an error, with what it says of the action
abbrev pub Decided : List Permission → String → Type 0
Decided ps a = (b : Bool) × (can_do_action ps a ≡ ok b) × ((b ≡ true) ↔ Granted ps a)

some-inj : {xs ys : List String} → some xs ≡ some ys → xs ≡ ys
some-inj e = cc

module _ (p : Permission) (ps : List Permission) (a : String) where
  -- A permission that does not grant the action leaves the answer to the others.
  passed_on :
      ¬ Grants p a
      → can_do_action (List.◌∷◌ p ps) a ≡ can_do_action ps a
      → Decided ps a
      → Decided (List.◌∷◌ p ps) a
  passed_on refused same (b, e, (yes_if, only_if)) =
      (b, same ∙ e, (λ t. among (yes_if t), by_others))
    where
      by_others : Granted (List.◌∷◌ p ps) a → b ≡ true
      by_others (by g) = absurd (refused g)
      by_others (among g) = only_if g

  module _ (xs ns : List String) (given : p.actions ≡ some xs)
      (excluded : p.not_actions ≡ some ns) where
    not_listed : any_matches xs a ≡ false → ¬ Grants p a
    not_listed e g =
        let same = some-inj (sym g.actions_given ∙ given) in
        let l : Listed xs a = subst (λ l. Listed l a) same g.listed in
        cc (sym e ∙ Listed→any_matches l)

    denied_by : any_matches ns a ≡ true → ¬ Grants p a
    denied_by e g =
        let same = some-inj (sym excluded ∙ g.not_actions_given) in
        g.not_denied (subst (λ l. Listed l a) same (any_matches→Listed ns a e))

    grants : any_matches xs a ≡ true → any_matches ns a ≡ false → Grants p a
    grants listed free = record {
      allowed = xs;
      denied = ns;
      actions_given = given;
      not_actions_given = excluded;
      listed = any_matches→Listed xs a listed;
      not_denied = λ l. cc (Listed→any_matches l);
    }

    decide : Decided ps a → Decided (List.◌∷◌ p ps) a
    unfolding can_do_action
    decide rest = elim (Bool-cases (any_matches xs a)) [
      | inr unlisted ↦ passed_on (not_listed unlisted) (rw (given, unlisted)) rest
      | inl listed ↦ elim (Bool-cases (any_matches ns a)) [
        | inl denied ↦ passed_on (denied_by denied) (rw (given, listed, excluded, denied)) rest
        | inr free ↦
            (true, rw (given, listed, excluded, free), (λ _. by (grants listed free), λ _. refl))
      ]
    ]

-- When both lists of every permission are given, CanDoAction returns no error, and it returns true
-- exactly if some permission has a pattern that matches the action among its actions and none among
-- its notActions.
pub can_do_action-Decided : (ps : List Permission) (a : String) → All HasLists ps → Decided ps a
unfolding can_do_action
can_do_action-Decided List.[] a h = (false, refl, (λ e. cc, λ g. elim g [ ]))
can_do_action-Decided (List.◌∷◌ p ps) a (((xs, given), (ns, excluded)), h) =
    decide p ps a xs ns given excluded (can_do_action-Decided ps a h)
