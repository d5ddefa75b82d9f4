-- ===== src/Rti/Subscriptions/Removal.antt =====
-- crates/hla-rti/src/lib.rs: `SubscriptionMatrix::unsubscribe_attribute`, against both indexes.
use hla4_rs.Prelude.{
  ℕ, ◌+◌, ◌^◌, ◌<◌, ◌≡◌, ◌↔◌, ◌∙◌, Bool, true, false, none, some, ◌&&◌, ◌==◌, ==_iff, if◌then◌else◌,
  arith, length, Bool-cases, Option-cases, inl, inr,
}
use hla4_rs.Prelude.Eq.{nat_eq, pair_eq}
use hla4_rs.Prelude.Map.{Map, get, KeysDistinct}
use hla4_rs.Prelude.Sets.{contains}
use hla4_rs.Rti.Subscriptions.{
  SubscriptionMatrix, class_map, unsubscribe_attribute, drop_subscriber, drop_count,
}
use hla4_rs.Rti.Subscriptions.Tally.{Table, tally, tally-le-length, tally_pos, tally_of_contains}
use hla4_rs.Rti.Subscriptions.Invariant.{subscribed, IsConsistent}
use hla4_rs.Rti.Subscriptions.Dropping.{
  drop_subscriber-KeysDistinct, tally-drop_subscriber, contains-drop_subscriber, get-drop_count,
  drop_count-ne-nil, drop_count_last, get-drop_count_any, fallen,
}

-- What an unsubscription does, by what the two indexes hold.
data Unsubscribed (m : SubscriptionMatrix) (class attr federate : ℕ) (r : SubscriptionMatrix × Bool)
    : Type 0 where
  absent :
      subscribed m class attr federate ≡ false
      → r.1 ≡ false
      → r.0.class_subscribers ≡ m.class_subscribers
      → Unsubscribed m class attr federate r
  present :
      (counters : Map ℕ ℕ) (n : ℕ)
      → subscribed m class attr federate ≡ true
      → get class m.class_subscribers ≡ some counters
      → get federate counters ≡ some n
      → r.0.class_subscribers ≡ (drop_count m.class_subscribers class federate counters n).0
      → r.1 ≡ (drop_count m.class_subscribers class federate counters n).1
      → Unsubscribed m class attr federate r

module _ (m : SubscriptionMatrix) (class attr federate : ℕ) where
  unsubscribe_table : Table
  unsubscribe_table = (unsubscribe_attribute m class attr federate).0.by_attribute

  unsubscribe_table_lem : unsubscribe_table ≡ elim (get (class, attr) m.by_attribute) [
    | none ↦ m.by_attribute
    | some set ↦ drop_subscriber m.by_attribute (class, attr) federate set
  ]
  unfolding unsubscribe_table unsubscribe_attribute
  unsubscribe_table_lem = ground arith

  pub contains-unsubscribe :
      (c a f : ℕ)
      → subscribed (unsubscribe_attribute m class attr federate).0 c a f
        ≡ (if class == c && (attr == a && federate == f) then false else subscribed m c a f)
  unfolding unsubscribe_table contains
  contains-unsubscribe c a f = elim (Option-cases (get (class, attr) m.by_attribute)) [
    | inl e ↦ rw (unsubscribe_table_lem, e) (ground (arith, e, ==_iff class c, ==_iff attr a))
    | inr (set, e) ↦
        rw (unsubscribe_table_lem, e)
          (contains-drop_subscriber m.by_attribute class attr federate set e c a f)
  ]

  counter-unsubscribe :
      (c f : ℕ)
      → get f (class_map (unsubscribe_attribute m class attr federate).0 c) ≡ (
          if class == c && (federate == f && subscribed m class attr federate)
          then fallen (get federate (class_map m class))
          else get f (class_map m c))
  unfolding unsubscribe_attribute contains get
  counter-unsubscribe c f = elim (Option-cases (get (class, attr) m.by_attribute)) [
    | inl e ↦ ground (arith, e)
    | inr (set, e) ↦ elim (Option-cases (get class m.class_subscribers)) [
      | inl e' ↦ ground (arith, e, e', ==_iff class c, ==_iff federate f)
      | inr (counters, e') ↦ elim (Option-cases (get federate counters)) [
        | inl e'' ↦ ground (arith, e, e', e'', ==_iff class c, ==_iff federate f)
        | inr (n, e'') ↦ ground (
          arith,
          e,
          e',
          e'',
          get-drop_count_any m.class_subscribers class federate n counters e' e'' c f,
        )
      ]
    ]
  ]

  -- What an unsubscription does to any matrix: the set of the class and attribute loses the
  -- federate, and every other membership of such a set is as before; the federate's counter at the
  -- class, if there is one, goes down by one (modulo 2^32) and is dropped at zero if the set had the
  -- federate, and every other counter is as before; the interaction subscriptions are unchanged.
  pub subscribed-unsubscribe :
      (c a f : ℕ)
      → (subscribed (unsubscribe_attribute m class attr federate).0 c a f
          ≡ (if class == c && (attr == a && federate == f) then false else subscribed m c a f))
        × (get f (class_map (unsubscribe_attribute m class attr federate).0 c) ≡ (
            if class == c && (federate == f && subscribed m class attr federate)
            then fallen (get federate (class_map m class))
            else get f (class_map m c)))
        × ((unsubscribe_attribute m class attr federate).0.by_interaction ≡ m.by_interaction)
  subscribed-unsubscribe c a f = (
    contains-unsubscribe c a f,
    counter-unsubscribe c f,
    unfold unsubscribe_attribute in ground arith,
  )

  tally-unsubscribe :
      (c f : ℕ)
      → KeysDistinct m.by_attribute
      → tally c f (unsubscribe_attribute m class attr federate).0.by_attribute
          + (if class == c && (federate == f && subscribed m class attr federate) then 1 else 0)
        ≡ tally c f m.by_attribute
  unfolding unsubscribe_table contains
  tally-unsubscribe c f d = elim (Option-cases (get (class, attr) m.by_attribute)) [
    | inl e ↦ rw (unsubscribe_table_lem, e) (ground (arith, e))
    | inr (set, e) ↦
        rw (unsubscribe_table_lem, e)
          (tally-drop_subscriber m.by_attribute class attr federate set e c f d)
  ]

  unsubscribe-Unsubscribed :
      IsConsistent m
      → Unsubscribed m class attr federate (unsubscribe_attribute m class attr federate)
  unfolding unsubscribe_attribute contains get
  unsubscribe-Unsubscribed h = elim (Bool-cases (subscribed m class attr federate)) [
    | inr gone ↦ absent gone (ground arith) (ground arith)
    | inl held ↦
        let positive = tally_of_contains class federate attr m.by_attribute held in
        elim (Option-cases (get class m.class_subscribers)) [
          | inl e ↦ absurd (ground (arith, h.counted class federate))
          | inr (counters, e) ↦ elim (Option-cases (get federate counters)) [
            | inl e' ↦ absurd (ground (arith, h.counted class federate))
            | inr (n, e') ↦ present counters n held e e' (ground arith) (ground arith)
          ]
        ]
  ]

  own_count :
      IsConsistent m
      → (counters : Map ℕ ℕ) (n : ℕ) → get class m.class_subscribers ≡ some counters
      → get federate counters ≡ some n
      → n ≡ tally class federate m.by_attribute
  own_count h counters n at own = ground (arith, h.counted class federate)

  -- An unsubscription keeps the two indexes consistent, while the table has fewer than 2^32 entries.
  pub unsubscribe_attribute-IsConsistent :
      IsConsistent m
      → length m.by_attribute < 2 ^ 32
      → IsConsistent (unsubscribe_attribute m class attr federate).0
  unsubscribe_attribute-IsConsistent h room = kept (unsubscribe-Unsubscribed h)
    where
      table : KeysDistinct (unsubscribe_attribute m class attr federate).0.by_attribute
      table = elim (Option-cases (get (class, attr) m.by_attribute)) [
        | inl e ↦ unfold unsubscribe_table in rw (unsubscribe_table_lem, e) h.distinct
        | inr (set, e) ↦
            unfold unsubscribe_table in
            rw (unsubscribe_table_lem, e)
              (drop_subscriber-KeysDistinct m.by_attribute class attr federate set e h.distinct)
      ]

      kept :
          Unsubscribed m class attr federate (unsubscribe_attribute m class attr federate)
          → IsConsistent (unsubscribe_attribute m class attr federate).0
      kept (absent gone flag same) = record {
        distinct = table;
        counted = λ c f. rw same (ground (arith, h.counted c f, tally-unsubscribe c f h.distinct));
        positive = λ c f. rw same (h.positive c f);
        inhabited = λ c. rw same (h.inhabited c);
      }
      kept (present counters n held at own same flag) =
          let n_eq = own_count h counters n at own in
          let some_left = tally_of_contains class federate attr m.by_attribute held in
          let pos : 0 < n = omega arith in
          let range : n < 2 ^ 32 = omega (arith, tally-le-length class federate m.by_attribute) in
          let after =
            get-drop_count m.class_subscribers class federate n counters at own pos range in
          record {
            distinct = table;
            counted = λ c f.
                rw (same, after c f)
                  (ground (
                    arith,
                    h.counted c f,
                    tally-unsubscribe c f h.distinct,
                    held,
                    ==_iff class c,
                    ==_iff federate f,
                  ));
            positive = λ c f. rw (same, after c f) (ground (arith, h.positive c f));
            inhabited = λ c. rw same (
                drop_count-ne-nil m.class_subscribers class federate n counters at own pos range c
                  (h.inhabited c));
          }

  -- In a consistent matrix whose table has fewer than 2^32 entries, the flag that an unsubscription
  -- answers is set exactly if the federate was subscribed to the attribute and is subscribed to no
  -- attribute of the class afterwards.
  pub unsubscribe_attribute_last :
      IsConsistent m
      → length m.by_attribute < 2 ^ 32
      → ((unsubscribe_attribute m class attr federate).1 ≡ true) ↔ (
          (subscribed m class attr federate ≡ true)
          × ((a : ℕ)
              → subscribed (unsubscribe_attribute m class attr federate).0 class a federate
                ≡ false))
  unsubscribe_attribute_last h room = by_case (unsubscribe-Unsubscribed h)
    where
      by_case :
          Unsubscribed m class attr federate (unsubscribe_attribute m class attr federate)
          → ((unsubscribe_attribute m class attr federate).1 ≡ true) ↔ (
              (subscribed m class attr federate ≡ true)
              × ((a : ℕ)
                  → subscribed (unsubscribe_attribute m class attr federate).0 class a federate
                    ≡ false))
      by_case (absent gone flag same) = ((λ e. cc), (λ p. cc (p.0)))
      by_case (present counters n held at own same flag) =
          let n_eq = own_count h counters n at own in
          let some_left = tally_of_contains class federate attr m.by_attribute held in
          let range : n < 2 ^ 32 = omega (arith, tally-le-length class federate m.by_attribute) in
          let last =
            flag
            ∙ drop_count_last m.class_subscribers class federate n counters at own (omega arith)
                range in
          let fall = tally-unsubscribe class federate h.distinct in
          let after = (unsubscribe_attribute m class attr federate).0 in
          (
            (λ e. (
              held,
              λ a. elim (Bool-cases (subscribed after class a federate)) [
                | inl still ↦ absurd (
                    ground
                      (arith, held, tally_of_contains class federate a after.by_attribute still))
                | inr gone ↦ gone
              ],
            )),
            (λ p. elim (Bool-cases (n == 1)) [
              | inl one ↦ last ∙ one
              | inr more ↦
                  let (a, q) =
                    tally_pos class federate after.by_attribute
                      (unsubscribe_attribute-IsConsistent h room).distinct (ground (arith, held)) in
                  cc (p.1 a)
            ]),
          )
