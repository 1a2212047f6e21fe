-- ===== src/Limiter/Active.antt =====
-- What `acquire` and `drop` of crates/postgresem/src/mcp_http_rate.rs leave of the active requests.
use mathlib.Core.Path.{subst}
use postgresem.Prelude.{
  ℕ, suc, ◌+◌, ◌-◌, ◌<◌, ◌≡◌, ◌↔◌, refl, sym, ap, ◌∙◌, String, Bool, true, false, Option, none,
  some, List, [], ◌∷◌, ◌++◌, leb, if◌then◌else◌, arith, Bool-cases, inl, inr, str_eq, str_eq_iff,
}
use postgresem.Prelude.Results.{Result, ok, err, ok-injective, err-ok}
use postgresem.Prelude.Ordered.{lookup, lookup-map_insert}
use postgresem.Limiter.{
  Machine, LimitError, unavailable, PrincipalPermit, Bucket, PrincipalLimiter, bucket_of, refilled,
  with_bucket, admit, acquire, release, drop,
}

-- how many of the permits are the authority's
abbrev pub permits_of : String → List PrincipalPermit → ℕ
permits_of authority [] = 0
permits_of authority (p ∷ ps) =
    let rest = permits_of authority ps in if str_eq p.authority_id authority then suc rest else rest

pub permits_of-append :
    (a : String) (ps qs : List PrincipalPermit)
    → permits_of a (ps ++ qs) ≡ permits_of a ps + permits_of a qs
permits_of-append a [] qs = omega arith
permits_of-append a (p ∷ ps) qs = ground (arith, permits_of-append a ps qs)

module _ (m : Machine) where
  abbrev active_in : Option (Bucket m) → ℕ
  active_in none = 0
  active_in (some bucket) = bucket.active

  -- the requests that the limiter counts for an authority
  unfoldable pub active_of : PrincipalLimiter m → String → ℕ
  active_of limiter authority = active_in (lookup authority limiter.buckets)

  active_of-with_bucket :
      (l : PrincipalLimiter m) (a x : String) (b : Bucket m)
      → active_of (with_bucket m l a b) x ≡ (if str_eq a x then b.active else active_of l x)
  unfolding with_bucket active_of
  active_of-with_bucket l a x b =
      ap active_in (lookup-map_insert a x b l.buckets) ∙ choice (str_eq a x)
    where
      choice :
          (same : Bool)
          → active_in (if same then some b else lookup x l.buckets)
            ≡ (if same then b.active else active_in (lookup x l.buckets))
      choice true = refl
      choice false = refl

  refilled-active :
      (l : PrincipalLimiter m) (now : m.Instant) (a : String) (rpm burst : ℕ)
      → (refilled m now rpm burst (bucket_of m l now a burst)).active ≡ active_of l a
  unfolding refilled bucket_of active_of
  refilled-active l now a rpm burst = ground arith

  -- A request of an authority is admitted if and only if the lock is not poisoned, fewer of its requests
  -- are active than it may have at once, and its tokens, as refilled, are not less than one.
  pub acquire_iff :
      (l : PrincipalLimiter m) (now : m.Instant) (a : String) (rpm burst max_concurrent : ℕ)
      → ((p : PrincipalPermit) × ((acquire m l now a rpm burst max_concurrent).1 ≡ ok p)) ↔ (
          (l.poisoned ≡ false)
          × (active_of l a < max_concurrent)
          × (m.less_than
                (refilled m now rpm burst (bucket_of m l now a burst)).tokens
                (m.from_u32 1)
              ≡ false))
  unfolding acquire admit
  acquire_iff l now a rpm burst max_concurrent = (
    λ (p, h). ground (arith, refilled-active l now a rpm burst),
    λ h. (record { authority_id = a }, ground (arith, refilled-active l now a rpm burst)),
  )

  one_more :
      (a x : String) (l : PrincipalLimiter m) (n : ℕ)
      → n ≡ active_of l a
      → (if str_eq a x then n + 1 else active_of l x)
        ≡ active_of l x + permits_of x (record { authority_id = a } ∷ [])
  one_more a x l n same = elim (Bool-cases (str_eq a x)) [
    | inl here ↦ rw here (omega (arith, same, ap (active_of l) ((str_eq_iff a x).0 here)))
    | inr there ↦ rw there (omega arith)
  ]

  same_active :
      (a x : String) (l : PrincipalLimiter m) (n : ℕ)
      → n ≡ active_of l a
      → (if str_eq a x then n else active_of l x) ≡ active_of l x
  same_active a x l n same = elim (Bool-cases (str_eq a x)) [
    | inl here ↦ rw here (same ∙ ap (active_of l) ((str_eq_iff a x).0 here))
    | inr there ↦ rw there refl
  ]

  -- What the rest of `acquire` leaves of the buckets.
  admit-active :
      (l : PrincipalLimiter m) (a x : String) (most_at_once : ℕ) (b : Bucket m)
      → b.active ≡ active_of l a
      → ((p : PrincipalPermit)
          → (admit m l a most_at_once b).1 ≡ ok p
          → (p.authority_id ≡ a)
            × (active_of (admit m l a most_at_once b).0 x ≡ active_of l x + permits_of x (p ∷ [])))
        × ((e : LimitError)
            → (admit m l a most_at_once b).1 ≡ err e
            → active_of (admit m l a most_at_once b).0 x ≡ active_of l x)
  unfolding admit
  admit-active l a x most_at_once b same =
      let kept = active_of-with_bucket l a x b ∙ same_active a x l b.active same in
      let taken = record b { tokens = m.minus b.tokens (m.from_u32 1); active = b.active + 1 } in
      let more = active_of-with_bucket l a x taken ∙ one_more a x l b.active same in
      elim (Bool-cases (leb most_at_once b.active)) [
        | inl full ↦ rw full ((λ p h. absurd (err-ok h)), (λ e h. kept))
        | inr free ↦ elim (Bool-cases (m.less_than b.tokens (m.from_u32 1))) [
          | inl slow ↦ rw (free, slow) ((λ p h. absurd (err-ok h)), (λ e h. kept))
          | inr paid ↦
              rw (free, paid)
                (
                  (λ p h.
                      subst
                        (λ q.
                          (q.authority_id ≡ a)
                          × (active_of (with_bucket m l a taken) x
                              ≡ active_of l x + permits_of x (q ∷ [])))
                        (ok-injective h) (refl, more)),
                  (λ e h. absurd (err-ok (sym h))),
                )
        ]
      ]

  if_false : {A : Type 0} (b : Bool) (x y : A) → b ≡ false → (if b then x else y) ≡ y
  if_false true x y h = cc
  if_false false x y h = refl

  if_true : {A : Type 0} (b : Bool) (x y : A) → b ≡ true → (if b then x else y) ≡ x
  if_true true x y h = refl
  if_true false x y h = cc

  pub acquire-active :
      (l : PrincipalLimiter m) (now : m.Instant) (a x : String) (rpm burst max_concurrent : ℕ)
      (p : PrincipalPermit)
      → (acquire m l now a rpm burst max_concurrent).1 ≡ ok p
      → (p.authority_id ≡ a)
        × (active_of (acquire m l now a rpm burst max_concurrent).0 x
            ≡ active_of l x + permits_of x (p ∷ []))
  unfolding acquire
  acquire-active l now a x rpm burst max_concurrent p h =
      let b = refilled m now rpm burst (bucket_of m l now a burst) in
      let both = admit-active l a x max_concurrent b (refilled-active l now a rpm burst) in
      elim (Bool-cases l.poisoned) [
        | inl broken ↦ absurd (
            err-ok (
              subst (λ (r : PrincipalLimiter m × Result LimitError PrincipalPermit). r.1 ≡ ok p)
                (if_true l.poisoned _ (admit m l a max_concurrent b) broken) h))
        | inr sound ↦
            subst
              (λ (r : PrincipalLimiter m × Result LimitError PrincipalPermit).
                r.1 ≡ ok p
                → (p.authority_id ≡ a) × (active_of r.0 x ≡ active_of l x + permits_of x (p ∷ [])))
              (sym (if_false l.poisoned (l, err unavailable) (admit m l a max_concurrent b) sound))
              (both.0 p) h
      ]

  pub refused-active :
      (l : PrincipalLimiter m) (now : m.Instant) (a x : String) (rpm burst max_concurrent : ℕ)
      (e : LimitError)
      → (acquire m l now a rpm burst max_concurrent).1 ≡ err e
      → active_of (acquire m l now a rpm burst max_concurrent).0 x ≡ active_of l x
  unfolding acquire
  refused-active l now a x rpm burst max_concurrent e h =
      let b = refilled m now rpm burst (bucket_of m l now a burst) in
      let both = admit-active l a x max_concurrent b (refilled-active l now a rpm burst) in
      elim (Bool-cases l.poisoned) [
        | inl broken ↦
            ap (λ (r : PrincipalLimiter m × Result LimitError PrincipalPermit). active_of r.0 x)
              (if_true l.poisoned (l, err unavailable) (admit m l a max_concurrent b) broken)
        | inr sound ↦
            subst
              (λ (r : PrincipalLimiter m × Result LimitError PrincipalPermit).
                r.1 ≡ err e → active_of r.0 x ≡ active_of l x)
              (sym (if_false l.poisoned (l, err unavailable) (admit m l a max_concurrent b) sound))
              (both.1 e) h
      ]

  pub poisoned-acquire :
      (l : PrincipalLimiter m) (now : m.Instant) (a : String) (rpm burst max_concurrent : ℕ)
      → (acquire m l now a rpm burst max_concurrent).0.poisoned ≡ l.poisoned
  unfolding acquire admit with_bucket
  poisoned-acquire l now a rpm burst max_concurrent = ground arith

  release-active :
      (l : PrincipalLimiter m) (a x : String) (found : Option (Bucket m))
      → active_in found ≡ active_of l a
      → active_of (release m l a found) x ≡ active_of l x - (if str_eq a x then 1 else 0)
  release-active l a x none same = elim (Bool-cases (str_eq a x)) [
    | inl here ↦ rw here (omega (arith, same, ap (active_of l) ((str_eq_iff a x).0 here)))
    | inr there ↦ rw there (omega arith)
  ]
  release-active l a x (some b) same =
      active_of-with_bucket l a x (record b { active = b.active - 1 })
      ∙ elim (Bool-cases (str_eq a x)) [
        | inl here ↦ rw here (omega (arith, same, ap (active_of l) ((str_eq_iff a x).0 here)))
        | inr there ↦ rw there (omega arith)
      ]

  pub drop-active :
      (l : PrincipalLimiter m) (p : PrincipalPermit) (x : String)
      → l.poisoned ≡ false
      → active_of (drop m l p) x ≡ active_of l x - permits_of x (p ∷ [])
  unfolding drop active_of
  drop-active l p x h =
      ap (λ r. active_of r x)
        (if_false l.poisoned l (release m l p.authority_id (lookup p.authority_id l.buckets)) h)
      ∙ release-active l p.authority_id x (lookup p.authority_id l.buckets) refl

  pub poisoned-drop :
      (l : PrincipalLimiter m) (p : PrincipalPermit) → (drop m l p).poisoned ≡ l.poisoned
  unfolding drop with_bucket
  poisoned-drop l p = ground arith
