-- ===== src/Rti/Subscriptions/Dropping.antt =====
-- What the two halves of an unsubscription do to the tables.
use hla4_rs.Prelude.{
  ℕ, ◌+◌, ◌-◌, ◌%◌, ◌^◌, ◌<◌, ◌≡◌, ◌≢◌, refl, List, [], ◌∷◌, true, false, Option, none, some, ◌&&◌,
  ◌==◌, ==_iff, if◌then◌else◌, arith,
}
use hla4_rs.Prelude.Eq.{nat_eq, pair_eq}
use hla4_rs.Prelude.Map.{
  Map, get, insert, remove, get-insert, get-remove, KeysDistinct, KeysDistinct-insert,
  KeysDistinct-remove,
}
use hla4_rs.Prelude.Sets.{contains, set_remove, contains-set_remove}
use hla4_rs.Rti.Subscriptions.{or_else, is_empty, drop_subscriber, drop_count}
use hla4_rs.Rti.Subscriptions.Tally.{Table, tally, tally-insert, tally-remove}
use hla4_rs.Rti.Subscriptions.Invariant.{insert-ne-nil}

contains_of_is_empty : (f : ℕ) (s : List ℕ) → is_empty s ≡ true → contains f s ≡ false
unfolding contains
contains_of_is_empty f [] h = refl
contains_of_is_empty f (x ∷ s) h = cc

get_of_is_empty : (f : ℕ) (m : Map ℕ ℕ) → is_empty m ≡ true → get f m ≡ none
unfolding get
get_of_is_empty f [] h = refl
get_of_is_empty f (x ∷ m) h = cc

is_empty_nil : (m : Map ℕ ℕ) → m ≡ [] → is_empty m ≡ true
is_empty_nil [] e = refl
is_empty_nil (x ∷ m) e = cc

module _ (t : Table) (class attr federate : ℕ) (set : List ℕ)
    (at : get (class, attr) t ≡ some set) where
  pub drop_subscriber-KeysDistinct :
      KeysDistinct t → KeysDistinct (drop_subscriber t (class, attr) federate set)
  unfolding drop_subscriber
  drop_subscriber-KeysDistinct d = ground (
    arith,
    KeysDistinct-insert (class, attr) (set_remove federate set) t d,
    KeysDistinct-remove (class, attr) t d,
  )

  -- The tally of one federate falls by one if it was in the set; no other changes.
  pub tally-drop_subscriber :
      (c f : ℕ)
      → KeysDistinct t
      → tally c f (drop_subscriber t (class, attr) federate set)
          + (if class == c && (federate == f && contains federate set) then 1 else 0)
        ≡ tally c f t
  unfolding drop_subscriber
  tally-drop_subscriber c f d = ground (
    arith,
    tally-insert c f class attr (set_remove federate set) t,
    tally-remove c f class attr t d,
    contains-set_remove federate f set,
    contains_of_is_empty f (set_remove federate set),
    at,
    ==_iff federate f,
  )

  pub contains-drop_subscriber :
      (c a f : ℕ)
      → contains f (or_else [] (get (c, a) (drop_subscriber t (class, attr) federate set))) ≡ (
          if class == c && (attr == a && federate == f)
          then false
          else contains f (or_else [] (get (c, a) t)))
  unfolding drop_subscriber contains
  contains-drop_subscriber c a f = ground (
    arith,
    get-insert (class, attr) (c, a) (set_remove federate set) t,
    get-remove (class, attr) (c, a) t,
    contains-set_remove federate f set,
    contains_of_is_empty f (set_remove federate set),
    at,
    ==_iff class c,
    ==_iff attr a,
    ==_iff federate f,
  )

-- A counter that goes down by one, with the wrap of u32, and is dropped at zero.
abbrev pub fallen : Option ℕ → Option ℕ
fallen none = none
fallen (some n) = let n' = (n + 2 ^ 32 - 1) % 2 ^ 32 in if n' == 0 then none else some n'

module _ (cs : Map ℕ (Map ℕ ℕ)) (class federate n : ℕ) (counters : Map ℕ ℕ)
    (at : get class cs ≡ some counters) (own : get federate counters ≡ some n) where
  -- Whatever the counter was, only it changes.
  pub get-drop_count_any :
      (c f : ℕ)
      → get f (or_else [] (get c (drop_count cs class federate counters n).0))
        ≡ (if class == c && federate == f then fallen (some n) else get f (or_else [] (get c cs)))
  unfolding drop_count get
  get-drop_count_any c f = ground (
    arith,
    get-remove class c cs,
    get-insert class c (remove federate counters) cs,
    get-insert class c (insert federate ((n + 2 ^ 32 - 1) % 2 ^ 32) counters) cs,
    get-remove federate f counters,
    get-insert federate f ((n + 2 ^ 32 - 1) % 2 ^ 32) counters,
    get_of_is_empty f (remove federate counters),
    at,
    own,
    ==_iff class c,
    ==_iff federate f,
  )

module _ (cs : Map ℕ (Map ℕ ℕ)) (class federate n : ℕ) (counters : Map ℕ ℕ)
    (at : get class cs ≡ some counters) (own : get federate counters ≡ some n) (pos : 0 < n)
    (range : n < 2 ^ 32) where
  -- The counter falls by one and is dropped at zero; no other counter changes.
  pub get-drop_count :
      (c f : ℕ)
      → get f (or_else [] (get c (drop_count cs class federate counters n).0)) ≡ (
          if class == c && federate == f
          then (if n == 1 then none else some (n - 1))
          else get f (or_else [] (get c cs)))
  unfolding drop_count get
  get-drop_count c f = ground (
    arith,
    get-remove class c cs,
    get-insert class c (remove federate counters) cs,
    get-insert class c (insert federate ((n + 2 ^ 32 - 1) % 2 ^ 32) counters) cs,
    get-remove federate f counters,
    get-insert federate f ((n + 2 ^ 32 - 1) % 2 ^ 32) counters,
    get_of_is_empty f (remove federate counters),
    at,
    own,
    ==_iff class c,
    ==_iff federate f,
  )

  pub drop_count-ne-nil :
      (c : ℕ) → get c cs ≢ some [] → get c (drop_count cs class federate counters n).0 ≢ some []
  unfolding drop_count
  drop_count-ne-nil c old e = ground (
    arith,
    get-remove class c cs,
    get-insert class c (remove federate counters) cs,
    get-insert class c (insert federate ((n + 2 ^ 32 - 1) % 2 ^ 32) counters) cs,
    insert-ne-nil federate ((n + 2 ^ 32 - 1) % 2 ^ 32) counters,
    is_empty_nil (remove federate counters),
  )

  pub drop_count_last : (drop_count cs class federate counters n).1 ≡ (n == 1)
  unfolding drop_count
  drop_count_last = ground arith
