-- ===== src/Rti/Subscriptions.antt =====
-- crates/hla-rti/src/lib.rs: `SubscriptionMatrix`. Handles are their raw numbers; the counters are
-- u32, with the wrap of the release build.
pub mod Tally
pub mod Invariant
pub mod Dropping
pub mod Removal
pub mod Index
pub mod ClassRemoval
mod Examples
use hla4_rs.Prelude.{
  ℕ, ◌+◌, ◌-◌, ◌%◌, ◌^◌, List, [], ◌∷◌, Bool, true, false, Option, none, some, ◌==◌, if◌then◌else◌,
}
use hla4_rs.Prelude.Eq.{Eq, nat_eq, pair_eq}
use hla4_rs.Prelude.Map.{Map, get, insert, remove, contains_key, keys}
use hla4_rs.Prelude.Sets.{contains, set_insert, set_remove}

pub record SubscriptionMatrix : Type 0 where
  pub by_attribute : Map (ℕ × ℕ) (List ℕ)
  pub by_interaction : Map ℕ (List ℕ)
  pub class_subscribers : Map ℕ (Map ℕ ℕ)

abbrev pub empty_matrix : SubscriptionMatrix
empty_matrix = record { by_attribute = []; by_interaction = []; class_subscribers = [] }

-- `unwrap_or_default()`, or the value that `entry(k).or_default()` finds.
abbrev pub or_else {ℓ} : {A : Type ℓ} → A → Option A → A
or_else d none = d
or_else d (some a) = a

abbrev pub is_empty {ℓ} : {A : Type ℓ} → List A → Bool
is_empty [] = true
is_empty (x ∷ xs) = false

-- The federates subscribed to an attribute of a class.
abbrev pub subscribers : SubscriptionMatrix → ℕ → ℕ → List ℕ
subscribers m class attr = or_else [] (get (class, attr) m.by_attribute)

-- The counters of a class.
abbrev pub class_map : SubscriptionMatrix → ℕ → Map ℕ ℕ
class_map m class = or_else [] (get class m.class_subscribers)

unfoldable pub subscribe_attribute : SubscriptionMatrix → ℕ → ℕ → ℕ → SubscriptionMatrix × Bool
subscribe_attribute m class attr federate =
    let set = subscribers m class attr in
    let m' : SubscriptionMatrix = record m {
      by_attribute = insert (class, attr) (set_insert federate set) m.by_attribute;
    } in
    let count = (or_else 0 (get federate (class_map m class)) + 1) % 2 ^ 32 in
    if contains federate set then (m', false) else (
      record m' {
        class_subscribers =
            insert class (insert federate count (class_map m class)) m.class_subscribers;
      },
      count == 1,
    )

-- The removal from `by_attribute`, with the emptied set dropped.
unfoldable pub drop_subscriber : Map (ℕ × ℕ) (List ℕ) → ℕ × ℕ → ℕ → List ℕ → Map (ℕ × ℕ) (List ℕ)
drop_subscriber by_attribute key federate set =
    let set' = set_remove federate set in
    if is_empty set' then remove key by_attribute else insert key set' by_attribute

-- The counter of `federate`, which was `count`, falls by one; what becomes empty is dropped.
unfoldable pub drop_count : Map ℕ (Map ℕ ℕ) → ℕ → ℕ → Map ℕ ℕ → ℕ → Map ℕ (Map ℕ ℕ) × Bool
drop_count class_subscribers class federate counters count =
    let count' = (count + 2 ^ 32 - 1) % 2 ^ 32 in
    let rest = remove federate counters in
    if count' == 0
    then (
      (if is_empty rest
          then remove class class_subscribers
          else insert class rest class_subscribers),
      true,
    )
    else (insert class (insert federate count' counters) class_subscribers, false)

unfoldable pub unsubscribe_attribute : SubscriptionMatrix → ℕ → ℕ → ℕ → SubscriptionMatrix × Bool
unfolding drop_subscriber drop_count
unsubscribe_attribute m class attr federate = elim (get (class, attr) m.by_attribute) [
  | none ↦ (m, false)
  | some set ↦
      let m' : SubscriptionMatrix = record m {
        by_attribute = drop_subscriber m.by_attribute (class, attr) federate set;
      } in
      if contains federate set
      then (elim (get class m.class_subscribers) [
        | none ↦ (m', false)
        | some counters ↦ elim (get federate counters) [
          | none ↦ (m', false)
          | some count ↦
              let (class_subscribers', last) =
                drop_count m.class_subscribers class federate counters count in
              (record m' { class_subscribers = class_subscribers' }, last)
        ]
      ])
      else (m', false)
]

-- `by_attribute.retain(|(c, _), _| *c != class)`
unfoldable pub retain_other : ℕ → Map (ℕ × ℕ) (List ℕ) → Map (ℕ × ℕ) (List ℕ)
retain_other class [] = []
retain_other class (((c, a), s) ∷ m) =
    let rest = retain_other class m in if c == class then rest else ((c, a), s) ∷ rest

unfoldable pub remove_class : SubscriptionMatrix → ℕ → SubscriptionMatrix
unfolding retain_other
remove_class m class = record m {
  by_attribute = retain_other class m.by_attribute;
  class_subscribers = remove class m.class_subscribers;
}

unfoldable pub class_has_subscribers : SubscriptionMatrix → ℕ → Bool
class_has_subscribers m class = contains_key class m.class_subscribers

unfoldable pub subscribers_of_class : SubscriptionMatrix → ℕ → List ℕ
subscribers_of_class m class = keys (class_map m class)
