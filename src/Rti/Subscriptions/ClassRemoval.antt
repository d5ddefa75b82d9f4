-- ===== src/Rti/Subscriptions/ClassRemoval.antt =====
-- crates/hla-rti/src/lib.rs: `SubscriptionMatrix::remove_class`, against both indexes.
use hla4_rs.Prelude.{ℕ, ◌≡◌, [], ◌∷◌, false, none, ◌==◌, ==_iff, if◌then◌else◌, arith}
use hla4_rs.Prelude.Eq.{nat_eq, pair_eq}
use hla4_rs.Prelude.Map.{get, get-remove, KeysDistinct}
use hla4_rs.Prelude.Sets.{contains}
use hla4_rs.Rti.Subscriptions.{SubscriptionMatrix, retain_other, remove_class}
use hla4_rs.Rti.Subscriptions.Tally.{Table, tally}
use hla4_rs.Rti.Subscriptions.Invariant.{subscribed, IsConsistent}

get-retain_other :
    (class c a : ℕ) (t : Table)
    → get (c, a) (retain_other class t) ≡ (if class == c then none else get (c, a) t)
unfolding retain_other get
get-retain_other class c a [] = ground arith
get-retain_other class c a (((c', a'), s) ∷ t) =
    ground (arith, get-retain_other class c a t, ==_iff class c, ==_iff c' class, ==_iff c' c)

retain_other-KeysDistinct :
    (class : ℕ) (t : Table) → KeysDistinct t → KeysDistinct (retain_other class t)
unfolding retain_other
retain_other-KeysDistinct class [] d = tt
retain_other-KeysDistinct class (((c, a), s) ∷ t) d =
    ground (arith, retain_other-KeysDistinct class t d.1, get-retain_other class c a t)

tally-retain_other :
    (class c f : ℕ) (t : Table)
    → tally c f (retain_other class t) ≡ (if class == c then 0 else tally c f t)
unfolding retain_other tally
tally-retain_other class c f [] = ground arith
tally-retain_other class c f (((c', a), s) ∷ t) =
    ground (arith, tally-retain_other class c f t, ==_iff class c, ==_iff c' class, ==_iff c' c)

module _ (m : SubscriptionMatrix) (class : ℕ) where
  -- No federate is subscribed to the class any more, and other classes are as before.
  pub subscribed-remove_class :
      (c a f : ℕ)
      → subscribed (remove_class m class) c a f ≡ (if class == c then false else subscribed m c a f)
  unfolding remove_class contains
  subscribed-remove_class c a f = ground (arith, get-retain_other class c a m.by_attribute)

  -- The removal of a class keeps the two indexes consistent.
  pub remove_class-IsConsistent : IsConsistent m → IsConsistent (remove_class m class)
  unfolding remove_class get
  remove_class-IsConsistent h = record {
    distinct = retain_other-KeysDistinct class m.by_attribute h.distinct;
    counted = λ c f. ground (
      arith,
      h.counted c f,
      tally-retain_other class c f m.by_attribute,
      get-remove class c m.class_subscribers,
    );
    positive = λ c f e. ground (arith, h.positive c f, get-remove class c m.class_subscribers);
    inhabited = λ c e. ground (arith, h.inhabited c, get-remove class c m.class_subscribers);
  }
