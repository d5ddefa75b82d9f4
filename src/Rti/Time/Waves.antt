-- ===== src/Rti/Time/Waves.antt =====
-- crates/hla-rti/src/time.rs: what a wave of grants does to the federates.
use hla4_rs.Prelude.{
  ℕ, ◌≡◌, refl, List, [], ◌∷◌, true, false, none, some, ◌==◌, ==_self, arith, Bool-cases,
  Option-cases, inl, inr,
}
use hla4_rs.Prelude.Eq.{nat_eq}
use hla4_rs.Prelude.Map.{get, insert, KeysDistinct}
use hla4_rs.Rti.State.{FederateSession}
use hla4_rs.Rti.F64.{F64, IsIeee}
use hla4_rs.Rti.Time.{
  Federates, grantable, to_grant, granted, is_pending, apply_grant, apply_grants,
}

module _ (f : F64) where
  -- The federate after a wave with this bound.
  unfoldable pub after : f.T → FederateSession f.T → FederateSession f.T
  unfolding grantable granted
  after bound fs = elim (grantable f bound fs) [ none ↦ fs | some time ↦ granted f time fs ]

  unfoldable pub wave : f.T → Federates f → Federates f
  unfolding after
  wave bound [] = []
  wave bound ((fh, fs) ∷ federates) = (fh, after bound fs) ∷ wave bound federates

  -- A federate's times are in order: its pending advance does not lead back.
  pub record IsTimed (fs : FederateSession f.T) : Type 0 where
    pub ordered : f.le fs.time.current_time fs.time.current_time ≡ true
    pub lookahead_finite : f.is_finite fs.time.lookahead ≡ true
    pub forward : (t : f.T) → fs.time.pending_advance ≡ some t → f.le fs.time.current_time t ≡ true

  abbrev pub AllTimed : Federates f → Type 0
  AllTimed [] = Unit
  AllTimed ((fh, fs) ∷ federates) = IsTimed fs × AllTimed federates

  abbrev Skips : ℕ → List (ℕ × f.T) → Type 0
  Skips k [] = Unit
  Skips k ((fh, t) ∷ grants) = ((k == fh) ≡ false) × Skips k grants

  to_grant-Skips :
      (k : ℕ) (bound : f.T) (federates : Federates f)
      → get k federates ≡ none
      → Skips k (to_grant f bound federates)
  unfolding get to_grant
  to_grant-Skips k bound [] h = tt
  to_grant-Skips k bound ((fh, fs) ∷ federates) h = elim (Option-cases (grantable f bound fs)) [
    | inl e ↦ rw (to_grant, e) (to_grant-Skips k bound federates (ground arith))
    | inr (t, e) ↦
        rw (to_grant, e) ((ground arith, to_grant-Skips k bound federates (ground arith)))
  ]

  apply_grant_skip :
      (k : ℕ) (fs : FederateSession f.T) (fh : ℕ) (t : f.T) (federates : Federates f)
      → (k == fh) ≡ false
      → apply_grant f fh t ((k, fs) ∷ federates)
        ≡ ((k, fs) ∷ (apply_grant f fh t federates).0, (apply_grant f fh t federates).1)
  unfolding apply_grant get insert
  apply_grant_skip k fs fh t federates h = elim (Option-cases (get fh federates)) [
    | inl e ↦ rw (apply_grant, get, h, e)
    | inr (gs, e) ↦ elim (Bool-cases (is_pending f t gs)) [
      | inl p ↦ rw (apply_grant, get, h, e, p, insert, h)
      | inr p ↦ rw (apply_grant, get, h, e, p)
    ]
  ]

  -- Grants that do not concern the first federate pass it by.
  apply_grants_skip :
      (k : ℕ) (fs : FederateSession f.T) (grants : List (ℕ × f.T)) (federates : Federates f)
      → Skips k grants
      → apply_grants f grants ((k, fs) ∷ federates)
        ≡ ((k, fs) ∷ (apply_grants f grants federates).0, (apply_grants f grants federates).1)
  unfolding apply_grants
  apply_grants_skip k fs [] federates h = refl
  apply_grants_skip k fs ((fh, t) ∷ grants) federates h = rw (
    apply_grant_skip k fs fh t federates h.0,
    apply_grants_skip k fs grants (apply_grant f fh t federates).0 h.1,
  )

module _ (f : F64) (ieee : IsIeee f) where
  grantable-pending :
      (bound : f.T) (fs : FederateSession f.T) (t : f.T)
      → grantable f bound fs ≡ some t
      → IsTimed f fs
      → is_pending f t fs ≡ true
  unfolding grantable is_pending
  grantable-pending bound fs t h timed = elim (Option-cases fs.time.pending_advance) [
    | inl e ↦ absurd (ground arith)
    | inr (u, e) ↦
        let pending : fs.time.pending_advance ≡ some t = ground arith in
        rw (is_pending, pending)
          (ieee.eq_self t (ieee.le_ordered fs.time.current_time t (timed.forward t pending)).1)
  ]

  apply_grant_first :
      (fh : ℕ) (t : f.T) (fs : FederateSession f.T) (federates : Federates f)
      → is_pending f t fs ≡ true
      → apply_grant f fh t ((fh, fs) ∷ federates) ≡ ((fh, granted f t fs) ∷ federates, (fh, t) ∷ [])
  unfolding apply_grant get insert
  apply_grant_first fh t fs federates p = rw (apply_grant, get, ==_self fh, p, insert, ==_self fh)

  -- A wave grants exactly those whom the first pass chose.
  pub apply_grants-wave :
      (bound : f.T) (federates : Federates f)
      → KeysDistinct federates
      → AllTimed f federates
      → apply_grants f (to_grant f bound federates) federates
        ≡ (wave f bound federates, to_grant f bound federates)
  unfolding apply_grants to_grant wave after
  apply_grants-wave bound [] d s = refl
  apply_grants-wave bound ((fh, fs) ∷ federates) d s = elim (Option-cases (grantable f bound fs)) [
    | inl e ↦ rw (
      to_grant,
      wave,
      after,
      e,
      apply_grants_skip f fh fs (to_grant f bound federates) federates
          (to_grant-Skips f fh bound federates d.0),
      apply_grants-wave bound federates d.1 s.1,
    )
    | inr (t, e) ↦ rw (
      to_grant,
      wave,
      after,
      e,
      apply_grants,
      apply_grant_first fh t fs federates (grantable-pending bound fs t e s.0),
      apply_grants_skip f fh (granted f t fs) (to_grant f bound federates) federates
          (to_grant-Skips f fh bound federates d.0),
      apply_grants-wave bound federates d.1 s.1,
    )
  ]
