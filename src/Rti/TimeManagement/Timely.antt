-- ===== src/Rti/TimeManagement/Timely.antt =====
-- crates/hla-rti/src/dispatch/time_mgmt.rs: the handlers keep the federates' times in order.
use mathlib.Core.Path.{subst}
use mathlib.Core.Option.{some-injective}
use hla4_rs.Prelude.{
  ℕ, ◌≡◌, List, [], ◌∷◌, true, some, ◌==◌, arith, Bool-cases, Option-cases, inl, inr,
}
use hla4_rs.Prelude.Eq.{nat_eq}
use hla4_rs.Prelude.Map.{get, insert, KeysDistinct, KeysDistinct-insert}
use hla4_rs.Rti.State.{Federation, FederateSession, Node}
use hla4_rs.Rti.F64.{F64, IsIeee}
use hla4_rs.Rti.Time.{Federates, to_grant, granted, is_pending, lbts, try_grant_pending_advances}
use hla4_rs.Rti.Time.Bound.{IsOrdered}
use hla4_rs.Rti.Time.Waves.{IsTimed, AllTimed}
use hla4_rs.Rti.Time.Grants.{grants_advance, grants_complete, grants-KeysDistinct}
use hla4_rs.Rti.TsoQueue.{
  drain_tso_up_to, drain_each, split_queue, try_grant_pending_advances_with_tso,
}

-- The times of the federates are in order, and no federate comes twice.
pub record IsTimely (f : F64) (federates : Federates f) : Type 0 where
  pub distinct : KeysDistinct federates
  pub timed : AllTimed f federates

module _ (f : F64) where
  AllTimed-insert :
      (k : ℕ) (fs : FederateSession f.T) (federates : Federates f)
      → IsTimed f fs
      → AllTimed f federates
      → AllTimed f (insert k fs federates)
  unfolding insert
  AllTimed-insert k fs [] t all = (t, tt)
  AllTimed-insert k fs ((j, gs) ∷ federates) t all = elim (Bool-cases (j == k)) [
    | inl e ↦ rw (insert, e) ((t, all.1))
    | inr e ↦ rw (insert, e) ((all.0, AllTimed-insert k fs federates t all.1))
  ]

  pub get-IsTimed :
      (k : ℕ) (fs : FederateSession f.T) (federates : Federates f)
      → AllTimed f federates
      → get k federates ≡ some fs
      → IsTimed f fs
  unfolding get
  get-IsTimed k fs [] all h = absurd (ground arith)
  get-IsTimed k fs ((j, gs) ∷ federates) all h = elim (Bool-cases (j == k)) [
    | inl e ↦ subst (IsTimed f) (some-injective gs fs (ground arith)) all.0
    | inr e ↦ get-IsTimed k fs federates all.1 (ground arith)
  ]

  pub insert-IsTimely :
      (k : ℕ) (fs : FederateSession f.T) (federates : Federates f)
      → IsTimed f fs
      → IsTimely f federates
      → IsTimely f (insert k fs federates)
  insert-IsTimely k fs federates t timely = record {
    distinct = KeysDistinct-insert k fs federates timely.distinct;
    timed = AllTimed-insert k fs federates t timely.timed;
  }

  pub drain-IsTimely :
      (node : Node) (federation : Federation f.T) (fh : ℕ) (t : f.T)
      → IsTimely f federation.federates
      → IsTimely f (drain_tso_up_to f node federation fh t).0.federates
  unfolding drain_tso_up_to
  drain-IsTimely node federation fh t timely = elim (Option-cases (get fh federation.federates)) [
    | inl e ↦ rw (drain_tso_up_to, e) timely
    | inr (fs, e) ↦
        let old = get-IsTimed fh fs federation.federates timely.timed e in
        rw (drain_tso_up_to, e)
          (insert-IsTimely fh (record fs { tso_queue = (split_queue f t fs.tso_queue).1 })
            federation.federates
            (record {
              ordered = old.ordered;
              lookahead_finite = old.lookahead_finite;
              forward = old.forward;
            })
            timely)
  ]

  drain_each-IsTimely :
      (node : Node) (federation : Federation f.T) (grants : List (ℕ × f.T))
      → IsTimely f federation.federates
      → IsTimely f (drain_each f node federation grants).0.federates
  unfolding drain_each
  drain_each-IsTimely node federation [] timely = timely
  drain_each-IsTimely node federation ((fh, t) ∷ grants) timely =
      drain_each-IsTimely node (drain_tso_up_to f node federation fh t).0 grants
        (drain-IsTimely node federation fh t timely)

module _ (f : F64) (ieee : IsIeee f) (ordered : IsOrdered f f.infinity) (node : Node) where
  grants-IsTimely :
      (federation : Federation f.T)
      → IsTimely f federation.federates
      → IsTimely f (try_grant_pending_advances f node federation).0.federates
  grants-IsTimely federation timely = record {
    distinct = grants-KeysDistinct f ieee node federation timely.distinct timely.timed;
    timed = (grants_advance f ieee ordered node federation timely.distinct timely.timed).1;
  }

  pub with_tso-IsTimely :
      (federation : Federation f.T)
      → IsTimely f federation.federates
      → IsTimely f (try_grant_pending_advances_with_tso f node federation).0.federates
  unfolding try_grant_pending_advances_with_tso
  with_tso-IsTimely federation timely =
      let grants = to_grant f (lbts f federation.federates) federation.federates in
      grants-IsTimely (drain_each f node federation grants).0
        (drain_each-IsTimely f node federation grants timely)

  -- Nobody is left who can be granted.
  pub with_tso_complete :
      (federation : Federation f.T)
      → IsTimely f federation.federates
      → (let left = (try_grant_pending_advances_with_tso f node federation).0.federates in
          to_grant f (lbts f left) left ≡ [])
  unfolding try_grant_pending_advances_with_tso
  with_tso_complete federation timely =
      let grants = to_grant f (lbts f federation.federates) federation.federates in
      let drained = drain_each-IsTimely f node federation grants timely in
      grants_complete f ieee ordered node (drain_each f node federation grants).0 drained.distinct
        drained.timed

  pub is_pending-le :
      (fs : FederateSession f.T) (t : f.T)
      → IsTimed f fs
      → is_pending f t fs ≡ true
      → IsOrdered f t
      → IsTimed f (granted f t fs)
  unfolding granted
  is_pending-le fs t timed h o = record {
    ordered = o;
    lookahead_finite = timed.lookahead_finite;
    forward = λ u e. cc;
  }
