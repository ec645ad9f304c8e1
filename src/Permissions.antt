-- ===== src/Permissions.antt =====
-- pkg/util/permissions/permissions.go. The regular expression of an action is its text quoted, with
-- `.*` for each star, without regard to case and for the whole text; texts are ASCII.
pub mod Granted
mod Tests
use Prim.Native.Char.{Char, code}
use Prim.Native.String.{String, [], ◌∷◌}
use mathlib.Core.List as List
use aro_rp.Base.{
  ℕ, Bool, true, false, not, ◌&&◌, ◌||◌, List, Option, none, some, any, eqb, if◌then◌else◌,
}
use aro_rp.Base.Text.{equal_fold}
use aro_rp.Api.Error.{Result, ok, err, bind, other}

-- authorization.Permission: two pointers to slices
pub record Permission : Type 0 where
  pub actions : Option (List String)
  pub not_actions : Option (List String)

-- `.*` and what follows: a dot is any character but a line feed.
unfoldable pub any_then : (String → Bool) → String → Bool
any_then rest [] = rest []
any_then rest (c ∷ s) = rest (c ∷ s) || (not (eqb (code c) 10) && any_then rest s)

-- one character of the pattern that is no star, and what follows
unfoldable pub letter_then : (String → Bool) → Char → String → Bool
letter_then rest p [] = false
letter_then rest p (c ∷ s) = equal_fold (p ∷ []) (c ∷ []) && rest s

-- rx.MatchString, for the expression made of the pattern; 42 is the star.
unfoldable pub matches : String → String → Bool
unfolding any_then letter_then
matches [] [] = true
matches [] (c ∷ s) = false
matches (p ∷ ps) s =
    let rest = matches ps in if eqb (code p) 42 then any_then rest s else letter_then rest p s

-- The range of a pointer to a slice
abbrev pub deref : Option (List String) → Result (List String)
deref none = err (other "nil pointer dereference")
deref (some xs) = ok xs

-- The loops over the patterns, up to the first that matches
abbrev pub any_matches : List String → String → Bool
any_matches ps a = any (λ p. matches p a) ps

-- CanDoAction
unfoldable pub can_do_action : List Permission → String → Result Bool
unfolding matches
can_do_action List.[] a = ok false
can_do_action (List.◌∷◌ p ps) a =
    let rest = can_do_action ps a in
    bind (deref p.actions) λ actions.
      if not (any_matches actions a)
      then rest
      else bind (deref p.not_actions)
          λ not_actions. if any_matches not_actions a then rest else ok true
