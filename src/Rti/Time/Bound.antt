-- ===== src/Rti/Time/Bound.antt =====
-- crates/hla-rti/src/time.rs: the bound, against each regulating federate's time and lookahead.
use mathlib.Core.Path.{subst, sym}
use mathlib.Core.Option.{some-injective}
use hla4_rs.Prelude.{ℕ, ◌==◌, ◌≡◌, [], ◌∷◌, true, some, arith, Bool-cases, inl, inr}
use hla4_rs.Prelude.Eq.{nat_eq}
use hla4_rs.Prelude.Map.{get}
use hla4_rs.Rti.State.{FederateSession}
use hla4_rs.Rti.F64.{F64, IsIeee}
use hla4_rs.Rti.Time.{Federates, lower, lbts, lbts_from}

module _ (f : F64) where
  abbrev pub IsOrdered : f.T → Type 0
  IsOrdered a = f.le a a ≡ true

  -- the federate's current time plus its lookahead
  abbrev pub time_ahead : FederateSession f.T → f.T
  time_ahead fs = f.add fs.time.current_time fs.time.lookahead

module _ (f : F64) (ieee : IsIeee f) where
  lower_le :
      (fs : FederateSession f.T) (bound : f.T)
      → IsOrdered f bound
      → f.le (lower f fs bound) bound ≡ true
  unfolding lower
  lower_le fs bound o = elim (Bool-cases fs.time.is_regulating) [
    | inl r ↦ rw (lower, r) (ieee.min_left bound (time_ahead f fs) o)
    | inr r ↦ rw (lower, r) o
  ]

  lower_here :
      (gs fs : FederateSession f.T) (bound : f.T)
      → gs ≡ fs
      → fs.time.is_regulating ≡ true
      → IsOrdered f (time_ahead f fs)
      → f.le (lower f gs bound) (time_ahead f fs) ≡ true
  unfolding lower
  lower_here gs fs bound e r n =
      subst (λ s. f.le (lower f s bound) (time_ahead f fs) ≡ true) (sym e)
        (rw (lower, r) (ieee.min_right bound (time_ahead f fs) n))

  pub lbts_from_le :
      (bound : f.T) (federates : Federates f)
      → IsOrdered f bound
      → f.le (lbts_from f bound federates) bound ≡ true
  unfolding lbts_from
  lbts_from_le bound [] o = o
  lbts_from_le bound ((fh, fs) ∷ federates) o =
      let here = lower_le fs bound o in
      let o' = (ieee.le_ordered (lower f fs bound) bound here).0 in
      ieee.le_trans (lbts_from f (lower f fs bound) federates) (lower f fs bound) bound
        (lbts_from_le (lower f fs bound) federates o') here

  lbts_from_lower :
      (fh : ℕ) (fs : FederateSession f.T) (bound : f.T) (federates : Federates f)
      → IsOrdered f bound
      → get fh federates ≡ some fs
      → fs.time.is_regulating ≡ true
      → IsOrdered f (time_ahead f fs)
      → f.le (lbts_from f bound federates) (time_ahead f fs) ≡ true
  unfolding lbts_from get
  lbts_from_lower fh fs bound [] o h r n = cc
  lbts_from_lower fh fs bound ((gh, gs) ∷ federates) o h r n =
      let o' = (ieee.le_ordered (lower f gs bound) bound (lower_le gs bound o)).0 in
      elim (Bool-cases (gh == fh)) [
        | inl e ↦
            ieee.le_trans (lbts_from f (lower f gs bound) federates) (lower f gs bound)
              (time_ahead f fs) (lbts_from_le (lower f gs bound) federates o')
              (lower_here gs fs bound (some-injective gs fs (ground arith)) r n)
        | inr e ↦ lbts_from_lower fh fs (lower f gs bound) federates o' (ground arith) r n
      ]

  -- The bound is at most the current time plus the lookahead of any regulating federate where that
  -- is no NaN, if infinity is no NaN and the laws of f64 hold.
  pub lbts_lower :
      (fh : ℕ) (fs : FederateSession f.T) (federates : Federates f)
      → IsOrdered f f.infinity
      → get fh federates ≡ some fs
      → fs.time.is_regulating ≡ true
      → IsOrdered f (time_ahead f fs)
      → f.le (lbts f federates) (time_ahead f fs) ≡ true
  unfolding lbts
  lbts_lower fh fs federates o h r n = lbts_from_lower fh fs f.infinity federates o h r n

  pub lbts-IsOrdered :
      (federates : Federates f) → IsOrdered f f.infinity → IsOrdered f (lbts f federates)
  unfolding lbts
  lbts-IsOrdered federates o =
      (ieee.le_ordered (lbts_from f f.infinity federates) f.infinity
        (lbts_from_le f.infinity federates o)).0
