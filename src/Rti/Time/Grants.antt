-- ===== src/Rti/Time/Grants.antt =====
-- crates/hla-rti/src/time.rs: safety and completeness of the grants.
use mathlib.Core.Path.{subst, sym, ap}
use mathlib.Core.Option.{map, some-injective}
use hla4_rs.Prelude.{
  ℕ, zero, suc, ◌+◌, ◌<◌, ◌≡◌, ◌≢◌, refl, ◌∙◌, List, [], ◌∷◌, true, false, some, arith, length,
  Bool-cases, inl, inr, ◌⊎◌,
}
use hla4_rs.Prelude.Eq.{nat_eq}
use hla4_rs.Prelude.Map.{get, KeysDistinct}
use hla4_rs.Rti.State.{Federation, FederateSession, Node}
use hla4_rs.Rti.F64.{F64, IsIeee}
use hla4_rs.Rti.Time.{
  Federates, to_grant, granted, lbts, grant_waves, try_grant_pending_advances, with_federates,
}
use hla4_rs.Rti.Time.Bound.{IsOrdered, lbts-IsOrdered}
use hla4_rs.Rti.Time.Waves.{after, wave, AllTimed, apply_grants-wave}
use hla4_rs.Rti.Time.Progress.{
  pendings, pendings-le-length, pendings-wave_lt, wave-AllTimed, KeysDistinct-wave, lbts-wave_le,
  to_grant-wave, grantable_cases, get-wave,
}

cons_ne_nil {ℓ} : {A : Type ℓ} {x : A} {xs : List A} → x ∷ xs ≢ []
cons_ne_nil h = cc

List-cases {ℓ} : {A : Type ℓ} (xs : List A) → (xs ≡ []) ⊎ ((y : A) × (ys : List A) × (xs ≡ y ∷ ys))
List-cases [] = inl refl
List-cases (x ∷ xs) = inr (x, xs, refl)

-- What a run of the waves leaves: nothing to do, one wave and no more, or a wave and a further run.
data Run (f : F64) : ℕ → Federates f → Federates f → Type 0 where
  out_of_fuel : {m : Federates f} → Run f zero m m
  idle : {n : ℕ} {m : Federates f} → to_grant f (lbts f m) m ≡ [] → Run f (suc n) m m
  last :
      {n : ℕ} {m : Federates f}
      → to_grant f (lbts f m) m ≢ []
      → f.lt (lbts f m) (lbts f (wave f (lbts f m) m)) ≡ false
      → Run f (suc n) m (wave f (lbts f m) m)
  further :
      {n : ℕ} {m m' : Federates f}
      → to_grant f (lbts f m) m ≢ []
      → Run f n (wave f (lbts f m) m) m'
      → Run f (suc n) m m'

module _ (f : F64) (ieee : IsIeee f) (node : Node) where
  grant_waves-Run :
      (n : ℕ) (federation : Federation f.T)
      → KeysDistinct federation.federates
      → AllTimed f federation.federates
      → Run f n federation.federates (grant_waves f n node federation).0.federates
  unfolding grant_waves
  grant_waves-Run zero federation d timed = out_of_fuel
  grant_waves-Run (suc n) federation d timed =
      let m = federation.federates in
      let b = lbts f m in
      let w = apply_grants-wave f ieee b m d timed in
      elim (List-cases (to_grant f b m)) [
        | inl e ↦ rw (grant_waves, e) (idle e)
        | inr (g, gs, e) ↦ elim (Bool-cases (f.lt b (lbts f (wave f b m)))) [
          | inr l ↦ rw (grant_waves, e, w, l) (last (λ n. cons_ne_nil (sym e ∙ n)) l)
          | inl l ↦
              rw (grant_waves, e, w, l)
                (further (λ n. cons_ne_nil (sym e ∙ n))
                  (grant_waves-Run n (with_federates f federation (wave f b m))
                    (KeysDistinct-wave f b m d) (wave-AllTimed f ieee b m timed)))
        ]
      ]

-- The run does not lower the bound, and keeps the times in order.
module _ (f : F64) (ieee : IsIeee f) (ordered : IsOrdered f f.infinity) where
  Run-AllTimed : {n : ℕ} {m m' : Federates f} → Run f n m m' → AllTimed f m → AllTimed f m'
  Run-AllTimed out_of_fuel t = t
  Run-AllTimed (idle e) t = t
  Run-AllTimed {m = m} (last e l) t = wave-AllTimed f ieee (lbts f m) m t
  Run-AllTimed {m = m} (further e r) t = Run-AllTimed r (wave-AllTimed f ieee (lbts f m) m t)

  Run-lbts_le :
      {n : ℕ} {m m' : Federates f}
      → Run f n m m'
      → AllTimed f m
      → f.le (lbts f m) (lbts f m') ≡ true
  Run-lbts_le {m = m} out_of_fuel t = lbts-IsOrdered f ieee m ordered
  Run-lbts_le {m = m} (idle e) t = lbts-IsOrdered f ieee m ordered
  Run-lbts_le {m = m} (last e l) t = lbts-wave_le f ieee (lbts f m) m ordered t
  Run-lbts_le {m = m} {m' = m'} (further e r) t =
      ieee.le_trans (lbts f m) (lbts f (wave f (lbts f m) m)) (lbts f m')
        (lbts-wave_le f ieee (lbts f m) m ordered t)
        (Run-lbts_le r (wave-AllTimed f ieee (lbts f m) m t))

  -- With more fuel than pending advances the run ends because nobody can be granted any more.
  Run-complete :
      {n : ℕ} {m m' : Federates f}
      → Run f n m m'
      → pendings f m < n
      → to_grant f (lbts f m') m' ≡ []
  Run-complete out_of_fuel h = absurd (omega arith)
  Run-complete (idle e) h = e
  Run-complete {m = m} (last e l) h =
      let b = lbts f m in
      to_grant-wave f ieee b (lbts f (wave f b m)) m (
        ieee.le_of_not_lt b (lbts f (wave f b m)) (lbts-IsOrdered f ieee m ordered)
          (lbts-IsOrdered f ieee (wave f b m) ordered) l)
  Run-complete {m = m} (further e r) h =
      let fewer = pendings-wave_lt f (lbts f m) m e in Run-complete r (omega (arith, fewer, h))

  after_safe :
      (b : f.T) (fs : FederateSession f.T)
      → fs.time.is_constrained ≡ true
      → (after f b fs ≡ fs) ⊎ (f.le (after f b fs).time.current_time b ≡ true)
  unfolding granted
  after_safe b fs c = elim (grantable_cases f b fs) [
    | inl (g, a) ↦ inl a
    | inr (t, g, p, a, safe) ↦ inr (rw a (safe c))
  ]

  constrained-after :
      (b : f.T) (fs : FederateSession f.T)
      → fs.time.is_constrained ≡ true
      → (after f b fs).time.is_constrained ≡ true
  unfolding granted
  constrained-after b fs c = elim (grantable_cases f b fs) [
    | inl (g, a) ↦ rw a c
    | inr (t, g, p, a, safe) ↦ rw a c
  ]

  after_of_get :
      (k : ℕ) (b : f.T) (m : Federates f) (fs fs' : FederateSession f.T)
      → get k m ≡ some fs
      → get k (wave f b m) ≡ some fs'
      → fs' ≡ after f b fs
  after_of_get k b m fs fs' h h' =
      some-injective fs' (after f b fs) (sym h' ∙ (get-wave f k b m ∙ ap (map (after f b)) h))

  -- Whoever a run grants is within the bound that it leaves.
  Run-safe :
      {n : ℕ} {m m' : Federates f}
      → Run f n m m'
      → AllTimed f m
      → (k : ℕ) (fs fs' : FederateSession f.T) → get k m ≡ some fs
      → get k m' ≡ some fs'
      → fs.time.is_constrained ≡ true
      → (fs' ≡ fs) ⊎ (f.le fs'.time.current_time (lbts f m') ≡ true)
  Run-safe out_of_fuel t k fs fs' h h' c = inl (some-injective fs' fs (sym h' ∙ h))
  Run-safe (idle e) t k fs fs' h h' c = inl (some-injective fs' fs (sym h' ∙ h))
  Run-safe {m = m} (last e l) t k fs fs' h h' c =
      let b = lbts f m in
      let there = after_of_get k b m fs fs' h h' in
      elim (after_safe b fs c) [
        | inl a ↦ inl (there ∙ a)
        | inr a ↦ inr (
            subst (λ s. f.le s.time.current_time (lbts f (wave f b m)) ≡ true) (sym there)
              (ieee.le_trans (after f b fs).time.current_time b (lbts f (wave f b m)) a
                (lbts-wave_le f ieee b m ordered t)))
      ]
  Run-safe {m = m} {m' = m'} (further e r) t k fs fs' h h' c =
      let b = lbts f m in
      let t' = wave-AllTimed f ieee b m t in
      elim (Run-safe r t' k (after f b fs) fs' (get-wave f k b m ∙ ap (map (after f b)) h) h'
        (constrained-after b fs c)) [
          | inr later ↦ inr later
          | inl same ↦ elim (after_safe b fs c) [
            | inl a ↦ inl (same ∙ a)
            | inr a ↦ inr (
                subst (λ s. f.le s.time.current_time (lbts f m') ≡ true) (sym same)
                  (ieee.le_trans (after f b fs).time.current_time b (lbts f m') a (
                    ieee.le_trans b (lbts f (wave f b m)) (lbts f m')
                      (lbts-wave_le f ieee b m ordered t) (Run-lbts_le r t'))))
          ]
        ]

Run-KeysDistinct :
    {f : F64} {n : ℕ} {m m' : Federates f} → Run f n m m' → KeysDistinct m → KeysDistinct m'
Run-KeysDistinct out_of_fuel d = d
Run-KeysDistinct (idle e) d = d
Run-KeysDistinct {f = f} {m = m} (last e l) d = KeysDistinct-wave f (lbts f m) m d
Run-KeysDistinct {f = f} {m = m} (further e r) d =
    Run-KeysDistinct r (KeysDistinct-wave f (lbts f m) m d)

pub grants-KeysDistinct :
    (f : F64) (ieee : IsIeee f) (node : Node) (federation : Federation f.T)
    → KeysDistinct federation.federates
    → AllTimed f federation.federates
    → KeysDistinct (try_grant_pending_advances f node federation).0.federates
unfolding try_grant_pending_advances
grants-KeysDistinct f ieee node federation d timed =
    Run-KeysDistinct
      (grant_waves-Run f ieee node (length federation.federates + 1) federation d timed) d

module _ (f : F64) (ieee : IsIeee f) (ordered : IsOrdered f f.infinity) (node : Node)
    (federation : Federation f.T) where
  -- After the grants no pending advance can be granted, neither a constrained federate's within
  -- the bound nor an unconstrained one's, if the federates' times were in order before, no federate
  -- came twice and the laws of f64 hold. The fuel is enough for that.
  pub grants_complete :
      KeysDistinct federation.federates
      → AllTimed f federation.federates
      → (let left = (try_grant_pending_advances f node federation).0.federates in
          to_grant f (lbts f left) left ≡ [])
  unfolding try_grant_pending_advances
  grants_complete d timed =
      Run-complete f ieee ordered
        (grant_waves-Run f ieee node (length federation.federates + 1) federation d timed)
        (omega (arith, pendings-le-length f federation.federates))

  -- A constrained federate is left as it was or granted a time within the bound of the result, if
  -- the federates' times were in order before, no federate came twice and the laws of f64 hold.
  pub grants_safe :
      KeysDistinct federation.federates
      → AllTimed f federation.federates
      → (k : ℕ) (fs fs' : FederateSession f.T) → get k federation.federates ≡ some fs
      → get k (try_grant_pending_advances f node federation).0.federates ≡ some fs'
      → fs.time.is_constrained ≡ true
      → (fs' ≡ fs)
        ⊎ (f.le fs'.time.current_time
              (lbts f (try_grant_pending_advances f node federation).0.federates)
            ≡ true)
  unfolding try_grant_pending_advances
  grants_safe d timed =
      Run-safe f ieee ordered
        (grant_waves-Run f ieee node (length federation.federates + 1) federation d timed) timed

  -- The grants do not lower the bound and keep the federates' times in order, if no federate came
  -- twice and the laws of f64 hold.
  pub grants_advance :
      KeysDistinct federation.federates
      → AllTimed f federation.federates
      → (let left = (try_grant_pending_advances f node federation).0.federates in
          (f.le (lbts f federation.federates) (lbts f left) ≡ true) × AllTimed f left)
  unfolding try_grant_pending_advances
  grants_advance d timed =
      let run = grant_waves-Run f ieee node (length federation.federates + 1) federation d timed in
      (Run-lbts_le f ieee ordered run timed, Run-AllTimed f ieee ordered run timed)
