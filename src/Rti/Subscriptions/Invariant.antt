-- ===== src/Rti/Subscriptions/Invariant.antt =====
-- The reverse index `class_subscribers` agrees with `by_attribute`.
use hla4_rs.Prelude.{
  ℕ, ◌+◌, ◌-◌, ◌%◌, ◌^◌, ◌<◌, ◌≡◌, ◌≢◌, ◌↔◌, [], ◌∷◌, Bool, true, false, not, some, ◌&&◌, ◌==◌,
  ==_iff, if◌then◌else◌, arith, length, Bool-cases, inl, inr, ltb,
}
use hla4_rs.Prelude.Eq.{nat_eq, pair_eq}
use hla4_rs.Prelude.Map.{Map, get, insert, get-insert, KeysDistinct, KeysDistinct-insert}
use hla4_rs.Prelude.Sets.{contains, set_insert, contains-set_insert}
use hla4_rs.Rti.Subscriptions.{
  SubscriptionMatrix, or_else, subscribers, class_map, subscribe_attribute,
}
use hla4_rs.Rti.Subscriptions.Tally.{
  tally, tally-insert, tally-le-length, tally_pos, tally_of_contains,
}

-- The counter of a federate at a class.
abbrev pub count : SubscriptionMatrix → ℕ → ℕ → ℕ
count m c f = or_else 0 (get f (class_map m c))

-- Whether a federate is subscribed to an attribute of a class.
abbrev pub subscribed : SubscriptionMatrix → ℕ → ℕ → ℕ → Bool
subscribed m c a f = contains f (subscribers m c a)

-- No key of the table comes twice, the counters count the table's sets, none is zero, and no class
-- is left with an empty map of counters.
pub record IsConsistent (m : SubscriptionMatrix) : Type 0 where
  pub distinct : KeysDistinct m.by_attribute
  pub counted : (c f : ℕ) → count m c f ≡ tally c f m.by_attribute
  pub positive : (c f : ℕ) → get f (class_map m c) ≢ some 0
  pub inhabited : (c : ℕ) → get c m.class_subscribers ≢ some []

pub insert-ne-nil : (f n : ℕ) (m : Map ℕ ℕ) → insert f n m ≢ []
unfolding insert
insert-ne-nil f n [] e = cc
insert-ne-nil f n ((j, w) ∷ m) e = ground arith

module _ (m : SubscriptionMatrix) (class attr federate : ℕ) (h : IsConsistent m)
    (room : length m.by_attribute < 2 ^ 32 - 1) where
  subscribe_counted :
      (c f : ℕ)
      → count (subscribe_attribute m class attr federate).0 c f
        ≡ tally c f (subscribe_attribute m class attr federate).0.by_attribute
  unfolding subscribe_attribute
  subscribe_counted c f =
      let old = class_map m class in
      let n = (or_else 0 (get federate old) + 1) % 2 ^ 32 in
      ground (
        arith,
        tally-insert c f class attr (set_insert federate (subscribers m class attr)) m.by_attribute,
        contains-set_insert federate f (subscribers m class attr),
        get-insert class c (insert federate n old) m.class_subscribers,
        get-insert federate f n old,
        h.counted c f,
        h.counted class federate,
        tally-le-length class federate m.by_attribute,
        ==_iff class c,
        ==_iff federate f,
      )

  subscribe_positive :
      (c f : ℕ) → get f (class_map (subscribe_attribute m class attr federate).0 c) ≢ some 0
  unfolding subscribe_attribute
  subscribe_positive c f e =
      let old = class_map m class in
      let n = (or_else 0 (get federate old) + 1) % 2 ^ 32 in
      ground (
        arith,
        get-insert class c (insert federate n old) m.class_subscribers,
        get-insert federate f n old,
        h.counted class federate,
        h.positive c f,
        h.positive class f,
        tally-le-length class federate m.by_attribute,
        ==_iff class c,
        ==_iff federate f,
      )

  subscribe_inhabited :
      (c : ℕ) → get c (subscribe_attribute m class attr federate).0.class_subscribers ≢ some []
  unfolding subscribe_attribute
  subscribe_inhabited c e =
      let old = class_map m class in
      let n = (or_else 0 (get federate old) + 1) % 2 ^ 32 in
      ground (
        arith,
        get-insert class c (insert federate n old) m.class_subscribers,
        insert-ne-nil federate n old,
        h.inhabited c,
      )

  -- A subscription keeps the two indexes consistent, while the table has fewer than 2^32 - 1 entries.
  pub subscribe_attribute-IsConsistent : IsConsistent (subscribe_attribute m class attr federate).0
  subscribe_attribute-IsConsistent = record {
    distinct =
        unfold subscribe_attribute in
        ground (
          arith,
          KeysDistinct-insert (class, attr) (set_insert federate (subscribers m class attr))
              m.by_attribute h.distinct,
        );
    counted = subscribe_counted;
    positive = subscribe_positive;
    inhabited = subscribe_inhabited;
  }

  -- In a consistent matrix whose table has fewer than 2^32 - 1 entries, the flag that a subscription
  -- answers is set exactly if no attribute of the class had the federate among its subscribers before.
  pub subscribe_attribute_first :
      ((subscribe_attribute m class attr federate).1 ≡ true)
      ↔ ((a : ℕ) → subscribed m class a federate ≡ false)
  unfolding subscribe_attribute
  subscribe_attribute_first = (
    (λ first a. elim (Bool-cases (subscribed m class a federate)) [
      | inl yes' ↦ ground (
        arith,
        h.counted class federate,
        tally_of_contains class federate a m.by_attribute yes',
        tally-le-length class federate m.by_attribute,
        first,
      )
      | inr no' ↦ no'
    ]),
    (λ never. elim (Bool-cases (ltb 0 (tally class federate m.by_attribute))) [
      | inl some' ↦
          let (a, p) = tally_pos class federate m.by_attribute h.distinct (ground arith) in
          cc (never a)
      | inr none' ↦ ground (arith, h.counted class federate, never attr)
    ]),
  )

module _ (m : SubscriptionMatrix) (class attr federate : ℕ) where
  pub contains-subscribe :
      (c a f : ℕ)
      → subscribed (subscribe_attribute m class attr federate).0 c a f
        ≡ (if class == c && (attr == a && federate == f) then true else subscribed m c a f)
  unfolding subscribe_attribute contains
  contains-subscribe c a f = ground (
    arith,
    get-insert (class, attr) (c, a) (set_insert federate (subscribers m class attr)) m.by_attribute,
    contains-set_insert federate f (subscribers m class attr),
    ==_iff class c,
    ==_iff attr a,
    ==_iff federate f,
  )

  counter-subscribe :
      (c f : ℕ)
      → get f (class_map (subscribe_attribute m class attr federate).0 c) ≡ (
          if class == c && (federate == f && not (subscribed m class attr federate))
          then some ((count m class federate + 1) % 2 ^ 32)
          else get f (class_map m c))
  unfolding subscribe_attribute
  counter-subscribe c f =
      let old = class_map m class in
      let n = (or_else 0 (get federate old) + 1) % 2 ^ 32 in
      ground (
        arith,
        get-insert class c (insert federate n old) m.class_subscribers,
        get-insert federate f n old,
        ==_iff class c,
        ==_iff federate f,
      )

  -- What a subscription does to any matrix: the set of the class and attribute gains the federate,
  -- and every other membership of such a set is as before; the federate's counter at the class goes
  -- up by one (modulo 2^32) if the set did not have it, and every other counter is as before; the
  -- interaction subscriptions are unchanged.
  pub subscribed-subscribe :
      (c a f : ℕ)
      → (subscribed (subscribe_attribute m class attr federate).0 c a f
          ≡ (if class == c && (attr == a && federate == f) then true else subscribed m c a f))
        × (get f (class_map (subscribe_attribute m class attr federate).0 c) ≡ (
            if class == c && (federate == f && not (subscribed m class attr federate))
            then some ((count m class federate + 1) % 2 ^ 32)
            else get f (class_map m c)))
        × ((subscribe_attribute m class attr federate).0.by_interaction ≡ m.by_interaction)
  subscribed-subscribe c a f =
      (contains-subscribe c a f, counter-subscribe c f, unfold subscribe_attribute in ground arith)
