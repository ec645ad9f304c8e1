-- ===== src/Authorizer/Latest.antt =====
-- Whom pkg/util/clientauthorizer/arm.go lets in: those in the latest metadata that it accepted.
use mathlib.Core.Path.{subst}
use aro_rp.Base.{
  ℕ, ◌+◌, ◌≤◌, ◌<◌, String, ◌≡◌, ◌↔◌, refl, ◌∙◌, ap, ◌⊎◌, inl, inr, Bool, true, false, not, ◌&&◌,
  ◌||◌, and_true, or_true, Option, none, some, List, [], ◌∷◌, any, ltb, ◌==◌, eq_iff, eqb, arith,
}
use aro_rp.Api.Error.{Result, ok, err, other, bind, bind-ok}
use aro_rp.Authorizer.{
  ClientCertificate, Arm, new_arm, Response, Decoder, check, is_current, is_authorized, media_type,
  received, refresh_once, day, is_ready, refreshed,
}

-- One of a list
pub data One {A : Type 0} (P : A → Type 0) : List A → Type 0 where
  first : {a : A} {as' : List A} → P a → One P (a ∷ as')
  later : {a : A} {as' : List A} → One P as' → One P (a ∷ as')

One-any :
    {A : Type 0} (P : A → Type 0) (p : A → Bool)
    → ((a : A) → p a ≡ true → P a)
    → (xs : List A) → any p xs ≡ true
    → One P xs
One-any P p h [] e = cc
One-any P p h (x ∷ xs) e = elim (or_true (p x) (any p xs) e) [
  | inl now ↦ first (h x now)
  | inr rest ↦ later (One-any P p h xs rest)
]

or_right : (a : Bool) → (a || true) ≡ true
or_right true = refl
or_right false = refl

any-One :
    {A : Type 0} (P : A → Type 0) (p : A → Bool)
    → ((a : A) → P a → p a ≡ true)
    → {xs : List A} → One P xs
    → any p xs ≡ true
any-One P p h (first {a} x) = rw (h a x)
any-One P p h (later {a} l) = rw (any-One P p h l) (or_right (p a))

-- The certificate is valid at the time.
abbrev pub IsCurrent : ℕ → ClientCertificate → Type 0
IsCurrent now c = (c.not_before < now) × (now < c.not_after)

-- An answer that is accepted at a time: a 200 of JSON that lists a certificate valid then
pub record Delivers (decode : Decoder) (now : ℕ) (answer : Option Response)
    (certs : List ClientCertificate) : Type 0 where
  pub response : Response
  pub came : answer ≡ some response
  pub is_ok : response.status_code ≡ 200
  pub is_json : media_type response.content_type ≡ "application/json"
  pub decoded : decode response.body ≡ ok (some certs)
  pub current : One (IsCurrent now) certs

-- The latest answer that was accepted, in a list with the last refresh first
pub data Latest (decode : Decoder) (now : ℕ) (certs : List ClientCertificate)
    : List (ℕ × Option Response) → Type 0 where
  this :
      {answer : Option Response} {before : List (ℕ × Option Response)}
      → Delivers decode now answer certs
      → Latest decode now certs ((now, answer) ∷ before)
  older :
      {time : ℕ} {answer : Option Response} {before : List (ℕ × Option Response)}
      → ((cs : List ClientCertificate) → ¬ Delivers decode time answer cs)
      → Latest decode now certs before
      → Latest decode now certs ((time, answer) ∷ before)

eqb→eq : (a b : ℕ) → eqb a b ≡ true → a ≡ b
eqb→eq a b h = ground arith

current→IsCurrent : (now : ℕ) (c : ClientCertificate) → is_current now c ≡ true → IsCurrent now c
current→IsCurrent now c h = ground arith

IsCurrent→current : (now : ℕ) (c : ClientCertificate) → IsCurrent now c → is_current now c ≡ true
IsCurrent→current now c h = ground arith

module _ (decode : Decoder) where
  check-ok : (b : Bool) (m : String) {u : Unit {0}} → check b m ≡ ok u → b ≡ true
  check-ok true m h = refl
  check-ok false m h = cc

  -- the end of refreshOnce, after decoding
  accepted :
      (now : ℕ) (m : Option (List ClientCertificate)) {certs : List ClientCertificate}
      → elim m as (λ _. Result (List ClientCertificate)) [
        | none ↦ err (other "nil pointer dereference")
        | some cs ↦
            bind
              (check (any (is_current now) cs) "did not receive current certificate")
              (λ _. ok cs)
      ]
        ≡ ok certs
      → (m ≡ some certs) × One (IsCurrent now) certs
  accepted now none h = cc
  accepted now (some cs) {certs} h =
      let (u, current, same) =
        bind-ok (check (any (is_current now) cs) "did not receive current certificate") (λ _. ok cs)
          h in
      let found =
        check-ok (any (is_current now) cs) "did not receive current certificate" current in
      let it : cs ≡ certs = cc in
      (
        ap some it,
        subst (One (IsCurrent now)) it
            (One-any (IsCurrent now) (is_current now) (current→IsCurrent now) cs found),
      )

  received→Delivers :
      (now : ℕ) (answer : Option Response) {certs : List ClientCertificate}
      → received decode now answer ≡ ok certs
      → Delivers decode now answer certs
  unfolding received
  received→Delivers now none h = cc
  received→Delivers now (some r) h =
      let (u, status, h1) = bind-ok (check (eqb r.status_code 200) "unexpected status code") _ h in
      let (v, json, h2) =
        bind-ok (check (media_type r.content_type == "application/json") "unexpected content type")
          _ h1 in
      let (m, decoded, h3) = bind-ok (decode r.body) _ h2 in
      let (there, current) = accepted now m h3 in
      let ok_status = check-ok (eqb r.status_code 200) "unexpected status code" status in
      record {
        response = r;
        came = refl;
        is_ok = eqb→eq r.status_code 200 ok_status;
        is_json = (eq_iff (media_type r.content_type) "application/json").0 (
            check-ok (media_type r.content_type == "application/json") "unexpected content type"
              json);
        decoded = decoded ∙ ap ok there;
        current = current;
      }

  Delivers→received :
      (now : ℕ) (answer : Option Response) {certs : List ClientCertificate}
      → Delivers decode now answer certs
      → received decode now answer ≡ ok certs
  unfolding received
  Delivers→received now answer d =
      let status : eqb d.response.status_code 200 ≡ true = ground (arith, d.is_ok) in
      let json : (media_type d.response.content_type == "application/json") ≡ true =
        (eq_iff (media_type d.response.content_type) "application/json").1 d.is_json in
      let current = any-One (IsCurrent now) (is_current now) (IsCurrent→current now) d.current in
      rw (d.came, status, json, d.decoded, current)

  -- the state after a refresh that received the result
  abbrev next : ℕ → Arm → Result (List ClientCertificate) → Arm
  next t a (err e) = a
  next t a (ok certs) = record { client_certificates = certs; last_successful_refresh = t }

  refreshed-next :
      (t : ℕ) (answer : Option Response) (before : List (ℕ × Option Response))
      → refreshed decode ((t, answer) ∷ before)
        ≡ next t (refreshed decode before) (received decode t answer)
  unfolding refreshed refresh_once
  refreshed-next t answer before = by_result (received decode t answer)
    where
      by_result :
          (r : Result (List ClientCertificate))
          → (elim r as (λ _. Result (Unit {0}) × Arm) [
            | err e ↦ (err e, refreshed decode before)
            | ok certs ↦
                (ok tt, record { client_certificates = certs; last_successful_refresh = t })
          ]).1
            ≡ next t (refreshed decode before) r
      by_result (err e) = refl
      by_result (ok certs) = refl

  Latest→refreshed :
      {now : ℕ} {certs : List ClientCertificate} {es : List (ℕ × Option Response)}
      → Latest decode now certs es
      → refreshed decode es ≡ record { client_certificates = certs; last_successful_refresh = now }
  Latest→refreshed {now} (this {answer} {before} d) =
      refreshed-next now answer before
      ∙ ap (next now (refreshed decode before)) (Delivers→received now answer d)
  Latest→refreshed {now} {certs} (older {time} {answer} {before} refused l) =
      refreshed-next time answer before
      ∙ by_received (received decode time answer) refl (Latest→refreshed l)
    where
      by_received :
          (r : Result (List ClientCertificate))
          → received decode time answer ≡ r
          → refreshed decode before
            ≡ record { client_certificates = certs; last_successful_refresh = now }
          → next time (refreshed decode before) r
            ≡ record { client_certificates = certs; last_successful_refresh = now }
      by_received (err e) failed same = same
      by_received (ok cs) came same = absurd (refused cs (received→Delivers time answer came))

  -- Either nothing was accepted, or the state is that of the latest answer that was.
  abbrev Known : List (ℕ × Option Response) → Type 0
  Known es =
      (refreshed decode es ≡ new_arm)
      ⊎ ((now : ℕ) × (certs : List ClientCertificate) × Latest decode now certs es)

  known : (es : List (ℕ × Option Response)) → Known es
  known [] = unfold refreshed in inl refl
  known ((time, answer) ∷ before) = by_received (received decode time answer) refl (known before)
    where
      by_received :
          (r : Result (List ClientCertificate))
          → received decode time answer ≡ r
          → Known before
          → Known ((time, answer) ∷ before)
      by_received (err e) failed (inl nothing) = inl (
          refreshed-next time answer before
          ∙ (ap (next time (refreshed decode before)) failed ∙ nothing))
      by_received (err e) failed (inr (now, certs, l)) =
          inr (now, certs, older (λ cs d. cc (failed, Delivers→received time answer d)) l)
      by_received (ok certs) came k = inr (time, certs, this (received→Delivers time answer came))

  -- A peer with the certificate may be let in: the latest metadata lists it and it is valid.
  abbrev pub Listed : List (ℕ × Option Response) → ℕ → String → Type 0
  Listed es now raw =
      (t : ℕ) × (certs : List ClientCertificate) × Latest decode t certs es
      × One (λ c. IsCurrent now c × (c.certificate ≡ raw)) certs

  -- The latest metadata is a day old at most and lists a valid certificate.
  abbrev pub Fresh : List (ℕ × Option Response) → ℕ → ℕ → Type 0
  Fresh es now then_ =
      (t : ℕ) × (certs : List ClientCertificate) × Latest decode t certs es
      × (then_ ≤ t + day)
      × One (IsCurrent now) certs

  module _ (es : List (ℕ × Option Response)) (now after : ℕ) (raw : String) where
    listed→admitted : Listed es now raw → is_authorized now (some raw) (refreshed decode es) ≡ true
    unfolding is_authorized
    listed→admitted (t, certs, l, one) = rw (Latest→refreshed l) (
        any-One (λ c. IsCurrent now c × (c.certificate ≡ raw))
          (λ c. is_current now c && c.certificate == raw)
          (λ c h. rw (IsCurrent→current now c h.0, (eq_iff c.certificate raw).1 h.1)) one)

    admitted→listed : is_authorized now (some raw) (refreshed decode es) ≡ true → Listed es now raw
    unfolding is_authorized
    admitted→listed h = elim (known es) [
      | inl nothing ↦ cc (rw nothing at h)
      | inr (t, certs, l) ↦ (
        t,
        certs,
        l,
        One-any (λ c. IsCurrent now c × (c.certificate ≡ raw))
            (λ c. is_current now c && c.certificate == raw)
            (λ c e.
              let (valid, same) = and_true (is_current now c) (c.certificate == raw) e in
              (current→IsCurrent now c valid, (eq_iff c.certificate raw).0 same))
            certs (rw (Latest→refreshed l) at h),
      )
    ]

    fresh→ready : Fresh es now after → is_ready now after (refreshed decode es) ≡ true
    unfolding is_ready
    fresh→ready (t, certs, l, h, one) =
        let recent : not (ltb (t + day) after) ≡ true = ground arith in
        rw (Latest→refreshed l, recent)
          (any-One (IsCurrent now) (is_current now) (IsCurrent→current now) one)

    ready→fresh : is_ready now after (refreshed decode es) ≡ true → Fresh es now after
    unfolding is_ready
    ready→fresh h = elim (known es) [
      | inl nothing ↦ cc ((and_true (not (ltb (0 + day) after)) false (rw nothing at h)).1)
      | inr (t, certs, l) ↦
          let (recent, current) =
            and_true (not (ltb (t + day) after)) (any (is_current now) certs)
              (rw (Latest→refreshed l) at h) in
          (
            t,
            certs,
            l,
            ground arith,
            One-any (IsCurrent now) (is_current now) (current→IsCurrent now) certs current,
          )
    ]

    -- After any sequence of refreshes, at any times and with any answers: a peer is authorized exactly if
    -- the latest metadata that was accepted (a 200 of JSON that listed a certificate valid at that
    -- time) lists its certificate and that is valid now; and the authorizer is ready exactly if that
    -- metadata is a day old at most and lists a certificate that is valid now.
    pub authorizer_iff :
        ((is_authorized now (some raw) (refreshed decode es) ≡ true) ↔ Listed es now raw)
        × ((is_ready now after (refreshed decode es) ≡ true) ↔ Fresh es now after)
    authorizer_iff = ((admitted→listed, listed→admitted), (ready→fresh, fresh→ready))
