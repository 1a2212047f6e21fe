-- ===== src/Limiter/Steps.antt =====
-- The limiter of crates/postgresem/src/mcp_http_rate.rs over time, with the permits that are held.
use postgresem.Prelude.{
  ℕ, ◌≤◌, ◌≡◌, refl, sym, ap, ◌∙◌, String, true, false, List, [], ◌∷◌, ◌++◌, arith, Bool-cases, inl,
  inr, ◌⊎◌, str_eq, str_eq_iff,
}
use postgresem.Prelude.Results.{ok, err}
use postgresem.Prelude.Ordered.{lookup}
use postgresem.Limiter.{Machine, LimitError, PrincipalPermit, PrincipalLimiter, acquire, drop}
use postgresem.Limiter.Active.{
  permits_of, permits_of-append, active_of, acquire_iff, acquire-active, refused-active,
  poisoned-acquire, drop-active, poisoned-drop,
}

module _ (m : Machine) where
  -- The limiter with the permits that are held. An authority asks for no more requests at once than
  -- `most` says of it; each request comes at any time with any rate, a permit is dropped at any time,
  -- and a thread may panic with the lock.
  pub data Step (most : String → ℕ)
      : PrincipalLimiter m × List PrincipalPermit
        → PrincipalLimiter m × List PrincipalPermit
        → Type 0 where
    admitted :
        (l : PrincipalLimiter m) (held : List PrincipalPermit) (now : m.Instant) (a : String)
        (rpm burst max_concurrent : ℕ) (p : PrincipalPermit)
        → max_concurrent ≤ most a
        → (acquire m l now a rpm burst max_concurrent).1 ≡ ok p
        → Step most (l, held) ((acquire m l now a rpm burst max_concurrent).0, p ∷ held)
    refused :
        (l : PrincipalLimiter m) (held : List PrincipalPermit) (now : m.Instant) (a : String)
        (rpm burst max_concurrent : ℕ) (e : LimitError)
        → (acquire m l now a rpm burst max_concurrent).1 ≡ err e
        → Step most (l, held) ((acquire m l now a rpm burst max_concurrent).0, held)
    dropped :
        (l : PrincipalLimiter m) (before after : List PrincipalPermit) (p : PrincipalPermit)
        → Step most (l, before ++ p ∷ after) (drop m l p, before ++ after)
    panicked :
        (l : PrincipalLimiter m) (held : List PrincipalPermit)
        → Step most (l, held) (record l { poisoned = true }, held)

  pub data Reach (most : String → ℕ) : PrincipalLimiter m × List PrincipalPermit → Type 0 where
    start : Reach most (record { buckets = []; poisoned = false }, [])
    next :
        {s t : PrincipalLimiter m × List PrincipalPermit}
        → Reach most s
        → Step most s t
        → Reach most t

  -- Of each authority at most so many permits are held as it may have at once, and unless the lock is
  -- poisoned, its bucket counts them.
  abbrev IsCounted : (String → ℕ) → PrincipalLimiter m × List PrincipalPermit → Type 0
  IsCounted most (l, held) =
      (a : String)
      → (permits_of a held ≤ most a) × (l.poisoned ≡ false → active_of m l a ≡ permits_of a held)

  Step-IsCounted :
      (most : String → ℕ) {s t : PrincipalLimiter m × List PrincipalPermit}
      → Step most s t
      → IsCounted most s
      → IsCounted most t
  Step-IsCounted most (admitted l held now a rpm burst max_concurrent p few done) counted x =
      let (same, more) = acquire-active m l now a x rpm burst max_concurrent p done in
      let (sound, free, _) = (acquire_iff m l now a rpm burst max_concurrent).0 (p, done) in
      let counts = (counted x).1 sound in
      (
        elim (Bool-cases (str_eq p.authority_id x)) [
          | inl here ↦
              let its = sym same ∙ (str_eq_iff p.authority_id x).0 here in
              rw here (omega (arith, free, few, counts, ap (active_of m l) its, ap most its))
          | inr there ↦ rw there (counted x).0
        ],
        λ _. omega (arith, more, counts, permits_of-append x (p ∷ []) held),
      )
  Step-IsCounted most (refused l held now a rpm burst max_concurrent e failed) counted x =
      let kept = refused-active m l now a x rpm burst max_concurrent e failed in
      (
        (counted x).0,
        λ sound.
            kept
            ∙ (counted x).1 (sym (poisoned-acquire m l now a rpm burst max_concurrent) ∙ sound),
      )
  Step-IsCounted most (dropped l before after p) counted x =
      let split = permits_of-append x before (p ∷ after) in
      let rest = permits_of-append x before after in
      let one = permits_of-append x (p ∷ []) after in
      (
        omega (arith, (counted x).0, split, rest, one),
        λ sound.
            let alive = sym (poisoned-drop m l p) ∙ sound in
            omega (arith, drop-active m l p x alive, (counted x).1 alive, split, rest, one),
      )
  Step-IsCounted most (panicked l held) counted x = ((counted x).0, λ sound. cc)

  all-IsCounted :
      (most : String → ℕ) (s : PrincipalLimiter m × List PrincipalPermit)
      → Reach most s
      → IsCounted most s
  unfolding active_of lookup
  all-IsCounted most _ start = λ x. (omega arith, λ _. refl)
  all-IsCounted most _ (next before step) = Step-IsCounted most step (all-IsCounted most _ before)

  -- Whatever requests come, are admitted or refused, and end, and whether or not a thread panics with
  -- the lock, no authority holds more permits than the most that its requests say it may have at once;
  -- and the lock is poisoned, or the limiter counts as active the permits that are held.
  pub Reach-active_of :
      (most : String → ℕ) (l : PrincipalLimiter m) (held : List PrincipalPermit) (a : String)
      → Reach most (l, held)
      → (permits_of a held ≤ most a) × ((l.poisoned ≡ true) ⊎ (active_of m l a ≡ permits_of a held))
  Reach-active_of most l held a reached =
      let counted = all-IsCounted most (l, held) reached a in
      (
        counted.0,
        elim (Bool-cases l.poisoned) [
          | inl broken ↦ inl broken
          | inr sound ↦ inr (counted.1 sound)
        ],
      )
