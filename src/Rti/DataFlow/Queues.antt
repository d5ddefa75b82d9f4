-- ===== src/Rti/DataFlow/Queues.antt =====
-- crates/hla-rti/src/dispatch/data_flow.rs: the queues of time-stamp ordered messages stay sorted.
use Prim.Native.String.{String}
use hla4_rs.Prelude.{
  ℕ, ◌≡◌, ◌⊎◌, refl, sym, ap, ◌∙◌, List, [], ◌∷◌, true, false, not, ◌&&◌, some, ◌==◌, if◌then◌else◌,
  arith, Option-cases, Bool-cases, inl, inr, All,
}
use hla4_rs.Prelude.Eq.{nat_eq}
use hla4_rs.Prelude.Map.{Map, get, insert, modify}
use hla4_rs.Prelude.Sets.{contains, set_insert}
use mathlib.Core.Path.{subst}
use mathlib.Core.Option.{some-injective, none-ne-some}
use hla4_rs.Rti.Callback.{Callback}
use hla4_rs.Rti.State.{Federation, FederateSession, TsoMessage, Node}
use hla4_rs.Rti.F64.{F64, IsIeee}
use hla4_rs.Rti.DataFlow.{
  must_wait, sort_subscribers, enqueue, enqueue_each, route_tso_or_immediate, discover,
  announce_instance, forget, notify_subscribers_of_registration_subset,
}

-- What holds of every federate of a map.
abbrev pub AllFederates :
    {T : Type 0} → (FederateSession T → Type 0) → Map ℕ (FederateSession T) → Type 0
AllFederates P [] = Unit
AllFederates P ((fh, fs) ∷ federates) = P fs × AllFederates P federates

module _ {T : Type 0} (P : FederateSession T → Type 0) where
  pub get-AllFederates :
      (fh : ℕ) (fs : FederateSession T) (federates : Map ℕ (FederateSession T))
      → AllFederates P federates
      → get fh federates ≡ some fs
      → P fs
  unfolding get
  get-AllFederates fh fs [] a h = absurd (none-ne-some fs h)
  get-AllFederates fh fs ((j, gs) ∷ federates) a h = elim (Bool-cases (j == fh)) [
    | inl y ↦
        subst P
          (some-injective gs fs (sym (ap (λ b. if b then some gs else get fh federates) y) ∙ h)) a.0
    | inr y ↦
        get-AllFederates fh fs federates a.1
          (sym (ap (λ b. if b then some gs else get fh federates) y) ∙ h)
  ]

  pub insert-AllFederates :
      (fh : ℕ) (fs : FederateSession T) (federates : Map ℕ (FederateSession T))
      → P fs
      → AllFederates P federates
      → AllFederates P (insert fh fs federates)
  unfolding insert
  insert-AllFederates fh fs [] p a = (p, tt)
  insert-AllFederates fh fs ((j, gs) ∷ federates) p a = elim (Bool-cases (j == fh)) [
    | inl y ↦ rw (y) ((p, a.1))
    | inr y ↦ rw (y) ((a.0, insert-AllFederates fh fs federates p a.1))
  ]

  modify-AllFederates :
      (fh : ℕ) (g : FederateSession T → FederateSession T) (federates : Map ℕ (FederateSession T))
      → ((fs : FederateSession T) → P fs → P (g fs))
      → AllFederates P federates
      → AllFederates P (modify fh g federates)
  unfolding modify
  modify-AllFederates fh g [] k a = tt
  modify-AllFederates fh g ((j, gs) ∷ federates) k a = elim (Bool-cases (j == fh)) [
    | inl y ↦ rw (y) ((k gs a.0, modify-AllFederates fh g federates k a.1))
    | inr y ↦ rw (y) ((a.0, modify-AllFederates fh g federates k a.1))
  ]

module _ (f : F64) where
  -- Every message has an ordered time that no later one precedes.
  abbrev pub QueueSorted : List (TsoMessage f.T) → Type 0
  QueueSorted [] = Unit
  QueueSorted (m ∷ queue) =
      (f.le m.time m.time ≡ true) × (All (λ k. f.le m.time k.time ≡ true) queue × QueueSorted queue)

  abbrev pub SessionSorted : FederateSession f.T → Type 0
  SessionSorted fs = QueueSorted fs.tso_queue

  abbrev pub QueuesSorted : Map ℕ (FederateSession f.T) → Type 0
  QueuesSorted federates = AllFederates SessionSorted federates

module _ (f : F64) (ieee : IsIeee f) (message : TsoMessage f.T)
    (ordered : f.le message.time message.time ≡ true) where
  All-enqueue :
      (t : f.T) (queue : List (TsoMessage f.T))
      → f.le t message.time ≡ true
      → All (λ k. f.le t k.time ≡ true) queue
      → All (λ k. f.le t k.time ≡ true) (enqueue f message queue)
  unfolding enqueue
  All-enqueue t [] h a = (h, tt)
  All-enqueue t (m ∷ queue) h a = elim (Bool-cases (f.le m.time message.time)) [
    | inl y ↦ rw (y) ((a.0, All-enqueue t queue h a.1))
    | inr y ↦ rw (y) ((h, a))
  ]

  -- What is later than the head is later than what precedes the head.
  All-trans :
      (s t : f.T) (queue : List (TsoMessage f.T))
      → f.le s t ≡ true
      → All (λ k. f.le t k.time ≡ true) queue
      → All (λ k. f.le s k.time ≡ true) queue
  All-trans s t [] h a = tt
  All-trans s t (m ∷ queue) h a = (ieee.le_trans s t m.time h a.0, All-trans s t queue h a.1)

  enqueue-QueueSorted :
      (queue : List (TsoMessage f.T))
      → QueueSorted f queue
      → QueueSorted f (enqueue f message queue)
  unfolding enqueue
  enqueue-QueueSorted [] s = (ordered, (tt, tt))
  enqueue-QueueSorted (m ∷ queue) s = elim (Bool-cases (f.le m.time message.time)) [
    | inl y ↦ rw (y) ((s.0, (All-enqueue m.time queue y s.1.0, enqueue-QueueSorted queue s.1.1)))
    | inr y ↦
        let before : f.le message.time m.time ≡ true =
          ieee.le_total m.time message.time s.0 ordered y in
        rw (y) ((ordered, ((before, All-trans message.time m.time queue before s.1.0), s)))
  ]

  enqueue_each-QueuesSorted :
      (queued : List ℕ) (federates : Map ℕ (FederateSession f.T))
      → QueuesSorted f federates
      → QueuesSorted f (enqueue_each f message queued federates)
  unfolding enqueue_each
  enqueue_each-QueuesSorted [] federates s = s
  enqueue_each-QueuesSorted (fh ∷ queued) federates s =
      enqueue_each-QueuesSorted queued
        (modify fh (λ fs. record fs { tso_queue = enqueue f message fs.tso_queue }) federates)
        (modify-AllFederates (SessionSorted f) fh
          (λ fs. record fs { tso_queue = enqueue f message fs.tso_queue }) federates
          (λ fs h. enqueue-QueueSorted fs.tso_queue h) s)

module _ (f : F64) (ieee : IsIeee f) where
  -- A message that waits has an ordered time.
  sort_subscribers-ordered :
      (time : f.T) (federates : Map ℕ (FederateSession f.T)) (subscribers : List ℕ)
      → ((sort_subscribers f time federates subscribers).1 ≡ []) ⊎ (f.le time time ≡ true)
  unfolding sort_subscribers
  sort_subscribers-ordered time federates [] = inl refl
  sort_subscribers-ordered time federates (fh ∷ subscribers) =
      elim (Option-cases (get fh federates)) [
        | inl e ↦ rw (sort_subscribers, e) (sort_subscribers-ordered time federates subscribers)
        | inr (fs, e) ↦ elim (Bool-cases (f.lt fs.time.current_time time)) [
          | inl l ↦ inr (ieee.lt_ordered fs.time.current_time time l).1
          | inr l ↦
              let now : must_wait f time fs ≡ false = ground arith in
              rw (sort_subscribers, e, now) (sort_subscribers-ordered time federates subscribers)
        ]
      ]

  pub route_tso_or_immediate-QueuesSorted :
      (node : Node) (federation : Federation f.T) (subscribers : List ℕ) (time : f.T)
      (callback : Callback)
      → QueuesSorted f federation.federates
      → QueuesSorted f
          (route_tso_or_immediate f node federation subscribers time callback).0.federates
  unfolding route_tso_or_immediate enqueue_each
  route_tso_or_immediate-QueuesSorted node federation subscribers time callback s =
      elim (sort_subscribers-ordered time federation.federates subscribers) [
        | inl e ↦ rw (e) s
        | inr o ↦
            enqueue_each-QueuesSorted f ieee (record { time = time; callback = callback }) o
              (sort_subscribers f time federation.federates subscribers).1 federation.federates s
      ]

module _ (f : F64) where
  discover-QueuesSorted :
      (instance' : ℕ) (candidates : List ℕ) (federates : Map ℕ (FederateSession f.T))
      → QueuesSorted f federates
      → QueuesSorted f (discover instance' candidates federates).0
  unfolding discover
  discover-QueuesSorted instance' [] federates s = s
  discover-QueuesSorted instance' (fh ∷ candidates) federates s =
      elim (Option-cases (get fh federates)) [
        | inl e ↦ rw (discover, e) (discover-QueuesSorted instance' candidates federates s)
        | inr (fs, e) ↦ elim (Bool-cases (contains instance' fs.pub_sub.discovered_instances)) [
          | inl y ↦ rw (discover, e, y) (discover-QueuesSorted instance' candidates federates s)
          | inr y ↦
              let fs' : FederateSession f.T = record fs {
                pub_sub = record fs.pub_sub {
                  discovered_instances = set_insert instance' fs.pub_sub.discovered_instances;
                };
              } in
              rw (discover, e, y)
                (discover-QueuesSorted instance' candidates (insert fh fs' federates) (
                  insert-AllFederates (SessionSorted f) fh fs' federates
                    (get-AllFederates (SessionSorted f) fh fs federates s e) s))
        ]
      ]

  pub forget-QueuesSorted :
      (caller instance' : ℕ) (federates : Map ℕ (FederateSession f.T))
      → QueuesSorted f federates
      → QueuesSorted f (forget caller instance' federates).0
  unfolding forget
  forget-QueuesSorted caller instance' [] s = tt
  forget-QueuesSorted caller instance' ((fh, fs) ∷ federates) s =
      elim (Bool-cases
        ((not (fh == caller)) && contains instance' fs.pub_sub.discovered_instances)) [
          | inl y ↦ rw (y) ((s.0, forget-QueuesSorted caller instance' federates s.1))
          | inr y ↦ rw (y) ((s.0, forget-QueuesSorted caller instance' federates s.1))
        ]

  pub announce_instance-QueuesSorted :
      (node : Node) (federation : Federation f.T) (instance' class : ℕ) (name : String)
      (producer : ℕ) (candidates : List ℕ)
      → QueuesSorted f federation.federates
      → QueuesSorted f
          (announce_instance node federation instance' class name producer candidates).0.federates
  unfolding announce_instance
  announce_instance-QueuesSorted node federation instance' class name producer candidates s =
      discover-QueuesSorted instance' candidates federation.federates s

  pub subset-QueuesSorted :
      (node : Node) (federation : Federation f.T) (instance' class producer : ℕ)
      (candidates : List ℕ)
      → QueuesSorted f federation.federates
      → QueuesSorted f
          (notify_subscribers_of_registration_subset node federation instance' class producer
            candidates).0.federates
  unfolding notify_subscribers_of_registration_subset
  subset-QueuesSorted node federation instance' class producer candidates s =
      elim (Option-cases (get instance' federation.object_instances)) [
        | inl e ↦ rw (notify_subscribers_of_registration_subset, e) s
        | inr (inst, e) ↦
            rw (notify_subscribers_of_registration_subset, e)
              (announce_instance-QueuesSorted node federation instance' class inst.name producer
                candidates s)
      ]
