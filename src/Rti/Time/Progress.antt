-- ===== src/Rti/Time/Progress.antt =====
-- crates/hla-rti/src/time.rs: a wave keeps the times in order, raises the bound and leaves nothing
-- that it could have granted.
use mathlib.Core.Path.{ap}
use mathlib.Core.Option.{map}
use hla4_rs.Prelude.{
  ℕ, ◌+◌, ◌≤◌, ◌<◌, ◌≡◌, ◌≢◌, refl, ◌∙◌, [], ◌∷◌, true, not, ◌||◌, none, some, arith, if◌then◌else◌,
  length, Bool-cases, Option-cases, inl, inr, ◌⊎◌,
}
use hla4_rs.Prelude.Eq.{nat_eq}
use hla4_rs.Prelude.Map.{get, KeysDistinct}
use hla4_rs.Rti.State.{FederateSession}
use hla4_rs.Rti.F64.{F64, IsIeee}
use hla4_rs.Rti.Time.{Federates, grantable, to_grant, granted, lower, lbts, lbts_from}
use hla4_rs.Rti.Time.Bound.{IsOrdered, time_ahead}
use hla4_rs.Rti.Time.Waves.{after, wave, IsTimed, AllTimed}

module _ (f : F64) where
  abbrev pub one_if_pending : FederateSession f.T → ℕ
  one_if_pending fs = elim fs.time.pending_advance [ none ↦ 0 | some t ↦ 1 ]

  abbrev pub pendings : Federates f → ℕ
  pendings [] = 0
  pendings ((fh, fs) ∷ federates) = one_if_pending fs + pendings federates

  pub pendings-le-length : (federates : Federates f) → pendings federates ≤ length federates
  pendings-le-length [] = omega arith
  pendings-le-length ((fh, fs) ∷ federates) = elim (Option-cases fs.time.pending_advance) [
    | inl e ↦ rw e (omega (arith, pendings-le-length federates))
    | inr (t, e) ↦ rw e (omega (arith, pendings-le-length federates))
  ]

  -- a federate that can be granted is pending, and is not afterwards
  pub grantable_cases :
      (bound : f.T) (fs : FederateSession f.T)
      → ((grantable f bound fs ≡ none) × (after f bound fs ≡ fs))
        ⊎ ((t : f.T) × (grantable f bound fs ≡ some t)
            × (fs.time.pending_advance ≡ some t)
            × (after f bound fs ≡ granted f t fs)
            × ((fs.time.is_constrained ≡ true) → f.le t bound ≡ true))
  unfolding grantable after
  grantable_cases bound fs = elim (Option-cases fs.time.pending_advance) [
    | inl e ↦
        let stays : grantable f bound fs ≡ none = rw (grantable, e) in
        inl (stays, rw (after, stays))
    | inr (t, e) ↦ elim (Bool-cases (not fs.time.is_constrained || f.le t bound)) [
      | inl c ↦
          let moves : grantable f bound fs ≡ some t = rw (grantable, e, c) in
          inr (t, moves, e, rw (after, moves), λ h. ground arith)
      | inr c ↦
          let stays : grantable f bound fs ≡ none = rw (grantable, e, c) in
          inl (stays, rw (after, stays))
    ]
  ]

  one_if_pending-after_le :
      (bound : f.T) (fs : FederateSession f.T)
      → one_if_pending (after f bound fs) ≤ one_if_pending fs
  unfolding granted
  one_if_pending-after_le bound fs = elim (grantable_cases bound fs) [
    | inl (g, a) ↦ rw a (omega arith)
    | inr (t, g, p, a, c) ↦ rw (a, p) (omega arith)
  ]

  one_if_pending-after_lt :
      (bound : f.T) (fs : FederateSession f.T) (t : f.T)
      → grantable f bound fs ≡ some t
      → one_if_pending (after f bound fs) < one_if_pending fs
  unfolding granted
  one_if_pending-after_lt bound fs t h = elim (grantable_cases bound fs) [
    | inl (g, a) ↦ absurd (ground arith)
    | inr (t, g, p, a, c) ↦ rw (a, p) (omega arith)
  ]

  pub pendings-wave_le :
      (bound : f.T) (federates : Federates f)
      → pendings (wave f bound federates) ≤ pendings federates
  unfolding wave
  pendings-wave_le bound [] = omega arith
  pendings-wave_le bound ((fh, fs) ∷ federates) =
      omega (arith, one_if_pending-after_le bound fs, pendings-wave_le bound federates)

  pub pendings-wave_lt :
      (bound : f.T) (federates : Federates f)
      → to_grant f bound federates ≢ []
      → pendings (wave f bound federates) < pendings federates
  unfolding wave to_grant
  pendings-wave_lt bound [] h = absurd (h refl)
  pendings-wave_lt bound ((fh, fs) ∷ federates) h = elim (Option-cases (grantable f bound fs)) [
    | inl e ↦ omega (
      arith,
      one_if_pending-after_le bound fs,
      pendings-wave_lt bound federates (λ n. h (rw (to_grant, e) n)),
    )
    | inr (t, e) ↦
        omega (arith, one_if_pending-after_lt bound fs t e, pendings-wave_le bound federates)
  ]

  pub get-wave :
      (k : ℕ) (bound : f.T) (federates : Federates f)
      → get k (wave f bound federates) ≡ map (after f bound) (get k federates)
  unfolding get wave
  get-wave k bound [] = refl
  get-wave k bound ((fh, fs) ∷ federates) = ground (arith, get-wave k bound federates)

  pub KeysDistinct-wave :
      (bound : f.T) (federates : Federates f)
      → KeysDistinct federates
      → KeysDistinct (wave f bound federates)
  unfolding wave
  KeysDistinct-wave bound [] d = tt
  KeysDistinct-wave bound ((fh, fs) ∷ federates) d = (
    get-wave fh bound federates ∙ ap (map (after f bound)) d.0,
    KeysDistinct-wave bound federates d.1,
  )

module _ (f : F64) (ieee : IsIeee f) where
  after-IsTimed :
      (bound : f.T) (fs : FederateSession f.T) → IsTimed f fs → IsTimed f (after f bound fs)
  unfolding granted
  after-IsTimed bound fs timed = elim (grantable_cases f bound fs) [
    | inl (g, a) ↦ rw a timed
    | inr (t, g, p, a, c) ↦ rw a (record {
      ordered = (ieee.le_ordered fs.time.current_time t (timed.forward t p)).1;
      lookahead_finite = timed.lookahead_finite;
      forward = λ u h. cc;
    })
  ]

  pub wave-AllTimed :
      (bound : f.T) (federates : Federates f)
      → AllTimed f federates
      → AllTimed f (wave f bound federates)
  unfolding wave
  wave-AllTimed bound [] timed = tt
  wave-AllTimed bound ((fh, fs) ∷ federates) timed =
      (after-IsTimed bound fs timed.0, wave-AllTimed bound federates timed.1)

  -- A federate's next message does not come earlier after the wave.
  time_ahead-after :
      (bound : f.T) (fs : FederateSession f.T)
      → IsTimed f fs
      → f.le (time_ahead f fs) (time_ahead f (after f bound fs)) ≡ true
  unfolding granted
  time_ahead-after bound fs timed = elim (grantable_cases f bound fs) [
    | inl (g, a) ↦ rw a (
        ieee.le_add fs.time.current_time fs.time.current_time fs.time.lookahead
          timed.lookahead_finite timed.ordered)
    | inr (t, g, p, a, c) ↦ rw a (
        ieee.le_add fs.time.current_time t fs.time.lookahead timed.lookahead_finite
          (timed.forward t p))
  ]

  is_regulating-after :
      (bound : f.T) (fs : FederateSession f.T)
      → (after f bound fs).time.is_regulating ≡ fs.time.is_regulating
  unfolding granted
  is_regulating-after bound fs = elim (grantable_cases f bound fs) [
    | inl (g, a) ↦ rw a refl
    | inr (t, g, p, a, c) ↦ rw a refl
  ]

  lower_regulating :
      (fs : FederateSession f.T) (bound : f.T)
      → fs.time.is_regulating ≡ true
      → lower f fs bound ≡ f.min bound (time_ahead f fs)
  unfolding lower
  lower_regulating fs bound r = ap (λ c. if c then f.min bound (time_ahead f fs) else bound) r

  lower_mono :
      (b : f.T) (fs : FederateSession f.T) (low high : f.T)
      → IsTimed f fs
      → f.le low high ≡ true
      → f.le (lower f fs low) (lower f (after f b fs) high) ≡ true
  unfolding lower
  lower_mono b fs low high timed h = elim (Bool-cases fs.time.is_regulating) [
    | inr r ↦ rw (lower, is_regulating-after b fs, r) h
    | inl r ↦
        let later = time_ahead-after b fs timed in
        let o = ieee.le_ordered low high h in
        let n = ieee.le_ordered (time_ahead f fs) (time_ahead f (after f b fs)) later in
        let m = f.min low (time_ahead f fs) in
        rw
          (
            lower_regulating fs low r,
            lower_regulating (after f b fs) high (is_regulating-after b fs ∙ r),
          )
          (ieee.le_min high (time_ahead f (after f b fs)) m
            (ieee.le_trans m low high (ieee.min_left low (time_ahead f fs) o.0) h)
            (ieee.le_trans m (time_ahead f fs) (time_ahead f (after f b fs))
              (ieee.min_right low (time_ahead f fs) n.0) later))
  ]

  lbts_from_mono :
      (b : f.T) (federates : Federates f) (low high : f.T)
      → AllTimed f federates
      → f.le low high ≡ true
      → f.le (lbts_from f low federates) (lbts_from f high (wave f b federates)) ≡ true
  unfolding lbts_from wave
  lbts_from_mono b [] low high timed h = h
  lbts_from_mono b ((fh, fs) ∷ federates) low high timed h =
      lbts_from_mono b federates (lower f fs low) (lower f (after f b fs) high) timed.1
        (lower_mono b fs low high timed.0 h)

  -- A wave of grants does not lower the bound.
  pub lbts-wave_le :
      (b : f.T) (federates : Federates f)
      → IsOrdered f f.infinity
      → AllTimed f federates
      → f.le (lbts f federates) (lbts f (wave f b federates)) ≡ true
  unfolding lbts
  lbts-wave_le b federates o timed = lbts_from_mono b federates f.infinity f.infinity timed o

  -- Who cannot be granted cannot under a lower bound either.
  still_waiting :
      (b low : f.T) (fs : FederateSession f.T)
      → f.le low b ≡ true
      → grantable f b fs ≡ none
      → grantable f low fs ≡ none
  unfolding grantable
  still_waiting b low fs h g = elim (Option-cases fs.time.pending_advance) [
    | inl e ↦ rw (grantable, e)
    | inr (t, e) ↦ ground (arith, e, ieee.le_trans t low b)
  ]

  grantable-after :
      (b low : f.T) (fs : FederateSession f.T)
      → f.le low b ≡ true
      → grantable f low (after f b fs) ≡ none
  unfolding grantable granted after
  grantable-after b low fs h = elim (grantable_cases f b fs) [
    | inr (t, g, p, a, c) ↦ rw a refl
    | inl (g, a) ↦ rw a (still_waiting b low fs h g)
  ]

  -- A wave leaves nobody who can be granted under its bound or a lower one.
  pub to_grant-wave :
      (b low : f.T) (federates : Federates f)
      → f.le low b ≡ true
      → to_grant f low (wave f b federates) ≡ []
  unfolding to_grant wave
  to_grant-wave b low [] h = refl
  to_grant-wave b low ((fh, fs) ∷ federates) h =
      rw (to_grant, wave, grantable-after b low fs h, to_grant-wave b low federates h)
