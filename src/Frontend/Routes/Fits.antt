-- ===== src/Frontend/Routes/Fits.antt =====
-- Matching of the routes of pkg/frontend/frontend.go, against what a template says.
use mathlib.Core.Path.{subst}
use aro_rp.Base.{
  String, ◌≡◌, ◌≢◌, refl, inl, inr, Bool-cases, Option, none, some, List, [], ◌∷◌, ◌++◌, ◌==◌,
  eq_iff,
}
use aro_rp.Frontend.Middleware.{Vars, Method}
use aro_rp.Frontend.Routes.{
  Handler, Part, lit, var, Query, no_query, any_version, fixed, Route, match_parts, match_query,
  handler_of, Found, found, other_method, nothing, match_route, mismatched, find,
}

-- The parts of a path are those of a template with the variables filled in, none of them empty.
pub data Fills : List Part → List String → Vars → Type 0 where
  filled : Fills [] [] []
  same :
      {t : String} {ps : List Part} {ss : List String} {vars : Vars}
      → Fills ps ss vars
      → Fills (lit t ∷ ps) (t ∷ ss) vars
  value :
      {name s : String} {ps : List Part} {ss : List String} {vars : Vars}
      → s ≢ ""
      → Fills ps ss vars
      → Fills (var name ∷ ps) (s ∷ ss) ((name, s) ∷ vars)

-- The query fits a route, with the variables.
pub data Asks : Query → Option String → Vars → Type 0 where
  any_query : {o : Option String} → Asks no_query o []
  some_version : {v : String} → Asks any_version (some v) (("api-version", v) ∷ [])
  this_version : {v : String} → Asks (fixed v) (some v) []

pub data Member {A : Type 0} (a : A) : List A → Type 0 where
  head : {as' : List A} → Member a (a ∷ as')
  tail : {b : A} {as' : List A} → Member a as' → Member a (b ∷ as')

same_lit :
    (t s : String) {ps : List Part} {ss : List String} {vars : Vars}
    → t ≡ s
    → Fills ps ss vars
    → Fills (lit t ∷ ps) (s ∷ ss) vars
same_lit t s {ps} {ss} {vars} e f = subst (λ x. Fills (lit t ∷ ps) (x ∷ ss) vars) e (same f)

match_parts→Fills :
    (ps : List Part) (ss : List String) (vars : Vars)
    → match_parts ps ss ≡ some vars
    → Fills ps ss vars
unfolding match_parts
match_parts→Fills [] [] vars h = subst (Fills [] []) (cc) filled
match_parts→Fills [] (s ∷ ss) vars h = cc
match_parts→Fills (p ∷ ps) [] vars h = cc
match_parts→Fills (lit t ∷ ps) (s ∷ ss) vars h = elim (Bool-cases (t == s)) [
  | inl e ↦ same_lit t s ((eq_iff t s).0 e) (match_parts→Fills ps ss vars (rw e at h))
  | inr e ↦ cc (rw e at h)
]
match_parts→Fills (var name ∷ ps) (s ∷ ss) vars h = elim (Bool-cases (s == "")) [
  | inl e ↦ cc (rw e at h)
  | inr e ↦
      by_rest (λ z. cc (e, (eq_iff s "").1 z)) (match_parts ps ss) refl (match_parts→Fills ps ss)
        (rw e at h)
]
  where
    by_rest :
        s ≢ ""
        → (r : Option Vars) → match_parts ps ss ≡ r
        → ((vs : Vars) → match_parts ps ss ≡ some vs → Fills ps ss vs)
        → elim r as (λ _. Option Vars) [ none ↦ none | some vs ↦ some ((name, s) ∷ vs) ] ≡ some vars
        → Fills (var name ∷ ps) (s ∷ ss) vars
    by_rest full none e f given = cc
    by_rest full (some vs) e f given =
        let it : ((name, s) ∷ vs) ≡ vars = cc in
        subst (Fills (var name ∷ ps) (s ∷ ss)) it (value full (f vs e))

match_query→Asks :
    (q : Query) (o : Option String) (vars : Vars) → match_query q o ≡ some vars → Asks q o vars
unfolding match_query
match_query→Asks no_query o vars h = subst (Asks no_query o) (cc) any_query
match_query→Asks any_version none vars h = cc
match_query→Asks any_version (some v) vars h = subst (Asks any_version (some v)) (cc) some_version
match_query→Asks (fixed t) none vars h = cc
match_query→Asks (fixed t) (some v) vars h = elim (Bool-cases (t == v)) [
  | inl e ↦
      let same : t ≡ v = (eq_iff t v).0 e in
      let empty : [] ≡ vars = cc (rw e at h) in
      subst (Asks (fixed t) (some v)) empty
        (subst (λ x. Asks (fixed t) (some x) []) same this_version)
  | inr e ↦ cc (rw e at h)
]

-- A route of the list that a request fits
pub record Fits (rs : List Route) (m : Method) (parts : List String) (version : Option String)
    (route : Route) (handler : Handler) (vars : Vars) : Type 0 where
  pub listed : Member route rs
  pub of_path : Vars
  pub of_query : Vars
  pub fills : Fills route.parts parts of_path
  pub asks : Asks route.query version of_query
  pub all : vars ≡ of_path ++ of_query
  pub handles : handler_of m route.methods ≡ some handler

-- the same of what was found
abbrev OfFound : List Route → Method → List String → Option String → Found → Type 0
OfFound rs m parts version (found route handler vars) = Fits rs m parts version route handler vars
OfFound rs m parts version other_method = Unit
OfFound rs m parts version nothing = Unit

-- The match of a route, taken apart
route_parts :
    (r : Route) (parts : List String) (version : Option String) (vars : Vars)
    → match_route r parts version ≡ some vars
    → (p : Vars) × (q : Vars) × Fills r.parts parts p × Asks r.query version q × (vars ≡ p ++ q)
unfolding match_route
route_parts r parts version vars h = by_path (match_parts r.parts parts) refl h
  where
    by_query :
        (p : Vars) (o : Option Vars)
        → match_parts r.parts parts ≡ some p
        → match_query r.query version ≡ o
        → elim o as (λ _. Option Vars) [ none ↦ none | some q ↦ some (p ++ q) ] ≡ some vars
        → (p : Vars) × (q : Vars) × Fills r.parts parts p × Asks r.query version q × (vars ≡ p ++ q)
    by_query p none e f h = cc
    by_query p (some q) e f h =
        (p, q, match_parts→Fills r.parts parts p e, match_query→Asks r.query version q f, cc)

    by_path :
        (o : Option Vars)
        → match_parts r.parts parts ≡ o
        → elim o as (λ _. Option Vars) [
          | none ↦ none
          | some p ↦ elim (match_query r.query version) [ none ↦ none | some q ↦ some (p ++ q) ]
        ]
          ≡ some vars
        → (p : Vars) × (q : Vars) × Fills r.parts parts p × Asks r.query version q × (vars ≡ p ++ q)
    by_path none e h = cc
    by_path (some p) e h = by_query p (match_query r.query version) e refl h

further :
    {b : Route} {rs : List Route} {m : Method} {parts : List String} {version : Option String}
    {route : Route} {handler : Handler} {vars : Vars}
    → Fits rs m parts version route handler vars
    → Fits (b ∷ rs) m parts version route handler vars
further f = record {
  listed = tail f.listed;
  of_path = f.of_path;
  of_query = f.of_query;
  fills = f.fills;
  asks = f.asks;
  all = f.all;
  handles = f.handles;
}

mismatched-found :
    (f : Found) {route : Route} {handler : Handler} {vars : Vars}
    → mismatched f ≡ found route handler vars
    → f ≡ found route handler vars
mismatched-found nothing h = cc
mismatched-found other_method h = cc
mismatched-found (found r k v) h = h

pub find→Fits :
    (rs : List Route) (m : Method) (parts : List String) (version : Option String) {route : Route}
    {handler : Handler} {vars : Vars}
    → find rs m parts version ≡ found route handler vars
    → Fits rs m parts version route handler vars
unfolding find
find→Fits [] m parts version h = cc
find→Fits (r ∷ rs) m parts version {route} {handler} {vars} h =
    by_match (match_route r parts version) refl (find→Fits rs m parts version) h
  where
    by_handler :
        (vs : Vars) (o : Option Handler)
        → match_route r parts version ≡ some vs
        → handler_of m r.methods ≡ o
        → (find rs m parts version ≡ found route handler vars
            → Fits rs m parts version route handler vars)
        → elim o as (λ _. Found) [
          | some k ↦ found r k vs
          | none ↦ mismatched (find rs m parts version)
        ]
          ≡ found route handler vars
        → Fits (r ∷ rs) m parts version route handler vars
    by_handler vs none e f later h = further (later (mismatched-found (find rs m parts version) h))
    by_handler vs (some k) e f later h =
        let here : Fits (r ∷ rs) m parts version r k vs =
          (let (p, q, fills, asks, all) = route_parts r parts version vs e in
            record {
              listed = head;
              of_path = p;
              of_query = q;
              fills = fills;
              asks = asks;
              all = all;
              handles = f;
            }) in
        subst (OfFound (r ∷ rs) m parts version) h here

    by_match :
        (o : Option Vars)
        → match_route r parts version ≡ o
        → (find rs m parts version ≡ found route handler vars
            → Fits rs m parts version route handler vars)
        → elim o as (λ _. Found) [
          | none ↦ find rs m parts version
          | some vs ↦ elim (handler_of m r.methods) [
            | some k ↦ found r k vs
            | none ↦ mismatched (find rs m parts version)
          ]
        ]
          ≡ found route handler vars
        → Fits (r ∷ rs) m parts version route handler vars
    by_match none e later h = further (later h)
    by_match (some vs) e later h = by_handler vs (handler_of m r.methods) e refl later h
