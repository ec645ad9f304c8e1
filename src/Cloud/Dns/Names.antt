-- ===== src/Cloud/Dns/Names.antt =====
-- The names that pkg/util/dns/dns.go manages.
use Prim.Native.Char.{code}
use Prim.Native.String.{String, [], ◌∷◌, ◌++◌}
use text.Mathlib.TextLemmas.{nil-append, cons-append, append_cancel_right}
use aro_rp.Base.{
  or_false, ℕ, sym, inl, inr, Bool-cases, ◌≡◌, refl, ◌∙◌, ap, ◌==◌, eq_iff, eq_refl, false, eqb,
  if◌then◌else◌, arith,
}
use aro_rp.Cloud.{Env}
use aro_rp.Cloud.Dns.{trim_suffix, has_dot, managed_domain}

head_code : String → ℕ
head_code [] = 0
head_code (c ∷ s) = code c

-- A text without a dot has no suffix that begins with one.
trim_suffix-no_dot : (t s : String) → head_code t ≡ 46 → has_dot s ≡ false → trim_suffix t s ≡ s
unfolding trim_suffix has_dot head_code
trim_suffix-no_dot t [] h e = refl
trim_suffix-no_dot t (c ∷ s) h e = elim (Bool-cases ((c ∷ s) == t)) [
  | inl same ↦
      let whole : (c ∷ s) ≡ t = (eq_iff (c ∷ s) t).0 same in
      let dot : code c ≡ 46 = ap head_code whole ∙ h in
      let other : eqb (code c) 46 ≡ false = (or_false (eqb (code c) 46) (has_dot s) e).0 in
      absurd (ground arith)
  | inr longer ↦
      rw longer
        (ap (λ r. c ∷ r) (trim_suffix-no_dot t s h (or_false (eqb (code c) 46) (has_dot s) e).1))
]

-- A suffix that was appended is trimmed.
trim_suffix-append : (t s : String) → head_code t ≡ 46 → trim_suffix t (s ++ t) ≡ s
unfolding trim_suffix head_code
trim_suffix-append [] [] h = refl
trim_suffix-append (c ∷ t) [] h = rw (nil-append (c ∷ t), eq_refl (c ∷ t))
trim_suffix-append t (c ∷ s) h = elim (Bool-cases ((c ∷ (s ++ t)) == t)) [
  | inl same ↦
      let whole : (c ∷ (s ++ t)) ≡ t = (eq_iff (c ∷ (s ++ t)) t).0 same in
      let all_of_it : (c ∷ s) ++ t ≡ [] ++ t = cons-append c s t ∙ (whole ∙ sym (nil-append t)) in
      cc (append_cancel_right (c ∷ s) [] t all_of_it)
  | inr longer ↦ rw (cons-append c s t, longer) (ap (λ r. c ∷ r) (trim_suffix-append t s h))
]

-- The domain that the installation of a cluster takes: a name without a dot is one of the zone.
unfoldable pub install_domain : Env → String → String
install_domain env d = if has_dot d then d else d ++ ("." ++ env.domain)

head_code-dot : (d : String) → head_code ("." ++ d) ≡ 46
unfolding head_code
head_code-dot d = rw (cons-append "." [] d)

-- A domain and the domain that its installation takes have the same records: the name that is
-- managed in the zone does not depend on whether the zone is written out, for every domain.
pub managed_domain-install_domain :
    (env : Env) (d : String) → managed_domain env (install_domain env d) ≡ managed_domain env d
unfolding managed_domain install_domain
managed_domain-install_domain env d = elim (Bool-cases (has_dot d)) [
  | inl dotted ↦ rw dotted
  | inr plain ↦
      let t : String = "." ++ env.domain in
      rw (
        plain,
        trim_suffix-append ("." ++ env.domain) d (head_code-dot env.domain),
        trim_suffix-no_dot ("." ++ env.domain) d (head_code-dot env.domain) plain,
        plain,
      )
]
