-- ===== src/Rti/Subscriptions/Index.antt =====
-- What the reverse index answers, against the subscriptions themselves.
use hla4_rs.Prelude.{
  ℕ, ◌≡◌, ◌≢◌, ◌↔◌, refl, ap, [], ◌∷◌, true, some, none, arith, Option-cases, inl, inr,
}
use hla4_rs.Prelude.Eq.{nat_eq, pair_eq}
use hla4_rs.Prelude.Map.{Map, get, contains_key, contains_key-get, keys}
use hla4_rs.Prelude.Sets.{contains}
use hla4_rs.Rti.Subscriptions.{
  SubscriptionMatrix, empty_matrix, class_map, class_has_subscribers, subscribers_of_class,
}
use hla4_rs.Rti.Subscriptions.Tally.{tally, tally_pos, tally_of_contains}
use hla4_rs.Rti.Subscriptions.Invariant.{count, subscribed, IsConsistent}

contains-keys : (f : ℕ) (m : Map ℕ ℕ) → contains f (keys m) ≡ contains_key f m
unfolding contains contains_key
contains-keys f [] = refl
contains-keys f ((j, n) ∷ m) = ground (arith, contains-keys f m)

-- The empty matrix is consistent.
pub empty_matrix-IsConsistent : IsConsistent empty_matrix
unfolding get tally
empty_matrix-IsConsistent = record {
  distinct = tt;
  counted = λ c f. refl;
  positive = λ c f e. cc;
  inhabited = λ c e. cc;
}

some_key : (m : Map ℕ ℕ) → m ≢ [] → (f : ℕ) × (contains f (keys m) ≡ true)
unfolding contains
some_key [] ne = absurd (ne refl)
some_key ((f, n) ∷ m) ne = (f, ground arith)

module _ (m : SubscriptionMatrix) (h : IsConsistent m) (c : ℕ) where
  -- In a consistent matrix (no key of the table comes twice, each counter is the number of
  -- attributes of its class that the table has its federate under and not zero, and no class is left
  -- with an empty map of counters) the index lists as subscribers of a class exactly the federates
  -- that the table has under some attribute of it.
  pub subscribers_of_class_iff :
      (f : ℕ)
      → (contains f (subscribers_of_class m c) ≡ true) ↔ ((a : ℕ) × (subscribed m c a f ≡ true))
  unfolding subscribers_of_class
  subscribers_of_class_iff f = (
    (λ e. elim (Option-cases (get f (class_map m c))) [
      | inl gone ↦
          absurd
            (ground (arith, contains-keys f (class_map m c), contains_key-get f (class_map m c)))
      | inr (n, held) ↦
          tally_pos c f m.by_attribute h.distinct (ground (arith, h.counted c f, h.positive c f))
    ]),
    (λ (a, p). ground (
      arith,
      tally_of_contains c f a m.by_attribute p,
      h.counted c f,
      contains-keys f (class_map m c),
      contains_key-get f (class_map m c),
    )),
  )

  absent : (f : ℕ) → get c m.class_subscribers ≡ none → count m c f ≡ 0
  unfolding get
  absent f gone = ground arith

  -- In a consistent matrix (no key of the table comes twice, each counter is the number of
  -- attributes of its class that the table has its federate under and not zero, and no class is left
  -- with an empty map of counters) a class has subscribers by the index exactly if the table has some
  -- federate under some attribute of it.
  pub class_has_subscribers_iff :
      (class_has_subscribers m c ≡ true) ↔ ((f : ℕ) × (a : ℕ) × (subscribed m c a f ≡ true))
  unfolding class_has_subscribers
  class_has_subscribers_iff = (
    (λ e. elim (Option-cases (get c m.class_subscribers)) [
      | inl gone ↦ absurd (ground (arith, contains_key-get c m.class_subscribers))
      | inr (counters, held) ↦
          let (f, listed) = some_key counters (λ none'. h.inhabited c (rw held (ap some none'))) in
          let (a, p) =
            (subscribers_of_class_iff f).0 (unfold subscribers_of_class in rw held listed) in
          (f, a, p)
    ]),
    (λ (f, a, p). ground (
      arith,
      tally_of_contains c f a m.by_attribute p,
      h.counted c f,
      absent f,
      contains_key-get c m.class_subscribers,
    )),
  )
