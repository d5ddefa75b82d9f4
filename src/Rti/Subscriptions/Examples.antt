-- ===== src/Rti/Subscriptions/Examples.antt =====
-- Inputs at which the theorems on the subscription matrix apply.
use hla4_rs.Prelude.{
  ℕ, ◌+◌, ◌%◌, ◌^◌, ◌≡◌, ◌↔◌, refl, length, [], true, false, not, some, arith, if◌then◌else◌, ◌==◌,
  ◌&&◌,
}
use hla4_rs.Prelude.Eq.{nat_eq}
use hla4_rs.Prelude.Map.{get, insert}
use hla4_rs.Prelude.Sets.{contains, set_insert}
use hla4_rs.Rti.Subscriptions.{
  SubscriptionMatrix, empty_matrix, class_map, subscribe_attribute, unsubscribe_attribute,
  class_has_subscribers, subscribers_of_class,
}
use hla4_rs.Rti.Subscriptions.Invariant.{
  subscribed, count, IsConsistent, subscribe_attribute-IsConsistent, subscribe_attribute_first,
  subscribed-subscribe,
}
use hla4_rs.Rti.Subscriptions.Removal.{
  subscribed-unsubscribe, unsubscribe_attribute-IsConsistent, unsubscribe_attribute_last,
}
use hla4_rs.Rti.Subscriptions.Dropping.{fallen}
use hla4_rs.Rti.Subscriptions.Index.{
  empty_matrix-IsConsistent, subscribers_of_class_iff, class_has_subscribers_iff,
}

-- Federate 7 subscribed to attribute 20 of class 3.
abbrev one : SubscriptionMatrix
one = (subscribe_attribute empty_matrix 3 20 7).0

one_entry : length one.by_attribute ≡ 1
unfolding subscribe_attribute contains set_insert get insert
one_entry = refl

one-IsConsistent : IsConsistent one
one-IsConsistent =
    subscribe_attribute-IsConsistent empty_matrix 3 20 7 empty_matrix-IsConsistent (omega arith)

subscribe_attribute-IsConsistent_example : IsConsistent (subscribe_attribute one 3 21 7).0
subscribe_attribute-IsConsistent_example =
    subscribe_attribute-IsConsistent one 3 21 7 one-IsConsistent (omega (arith, one_entry))

subscribe_attribute_first_example :
    ((subscribe_attribute one 3 21 7).1 ≡ true) ↔ ((a : ℕ) → subscribed one 3 a 7 ≡ false)
subscribe_attribute_first_example =
    subscribe_attribute_first one 3 21 7 one-IsConsistent (omega (arith, one_entry))

subscribed-subscribe_example :
    (subscribed one 3 20 7
      ≡ (if (3 == 3) && ((20 == 20) && (7 == 7)) then true else subscribed empty_matrix 3 20 7))
    × (get 7 (class_map one 3) ≡ (
        if (3 == 3) && ((7 == 7) && not (subscribed empty_matrix 3 20 7))
        then some ((count empty_matrix 3 7 + 1) % 2 ^ 32)
        else get 7 (class_map empty_matrix 3)))
    × (one.by_interaction ≡ [])
subscribed-subscribe_example = subscribed-subscribe empty_matrix 3 20 7 3 20 7

subscribed-unsubscribe_example :
    (subscribed (unsubscribe_attribute one 3 20 7).0 3 20 7
      ≡ (if (3 == 3) && ((20 == 20) && (7 == 7)) then false else subscribed one 3 20 7))
    × (get 7 (class_map (unsubscribe_attribute one 3 20 7).0 3) ≡ (
        if (3 == 3) && ((7 == 7) && subscribed one 3 20 7)
        then fallen (get 7 (class_map one 3))
        else get 7 (class_map one 3)))
    × ((unsubscribe_attribute one 3 20 7).0.by_interaction ≡ one.by_interaction)
subscribed-unsubscribe_example = subscribed-unsubscribe one 3 20 7 3 20 7

unsubscribe_attribute-IsConsistent_example : IsConsistent (unsubscribe_attribute one 3 20 7).0
unsubscribe_attribute-IsConsistent_example =
    unsubscribe_attribute-IsConsistent one 3 20 7 one-IsConsistent (omega (arith, one_entry))

unsubscribe_attribute_last_example : ((unsubscribe_attribute one 3 20 7).1 ≡ true) ↔ (
    (subscribed one 3 20 7 ≡ true)
    × ((a : ℕ) → subscribed (unsubscribe_attribute one 3 20 7).0 3 a 7 ≡ false))
unsubscribe_attribute_last_example =
    unsubscribe_attribute_last one 3 20 7 one-IsConsistent (omega (arith, one_entry))

subscribers_of_class_iff_example :
    (contains 7 (subscribers_of_class one 3) ≡ true) ↔ ((a : ℕ) × (subscribed one 3 a 7 ≡ true))
subscribers_of_class_iff_example = subscribers_of_class_iff one one-IsConsistent 3 7

class_has_subscribers_iff_example :
    (class_has_subscribers one 3 ≡ true) ↔ ((f : ℕ) × (a : ℕ) × (subscribed one 3 a f ≡ true))
class_has_subscribers_iff_example = class_has_subscribers_iff one one-IsConsistent 3
