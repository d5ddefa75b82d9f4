-- ===== src/Rti/Subscriptions/Tally.antt =====
-- How many attributes of a class a federate is subscribed to, counted on `by_attribute`.
use hla4_rs.Prelude.{
  ℕ, ◌+◌, ◌≤◌, ◌<◌, ◌≡◌, refl, List, [], ◌∷◌, true, none, ◌&&◌, ◌==◌, ==_iff, if◌then◌else◌, arith,
  length, Bool-cases, inl, inr,
}
use hla4_rs.Prelude.Eq.{nat_eq, pair_eq}
use hla4_rs.Prelude.Map.{Map, get, insert, remove, KeysDistinct}
use hla4_rs.Prelude.Sets.{contains}
use hla4_rs.Rti.Subscriptions.{or_else}

abbrev pub Table : Type 0
Table = Map (ℕ × ℕ) (List ℕ)

-- One for a subscription of `f` in the set of an attribute of `c`.
abbrev pub one_if : ℕ → ℕ → ℕ → List ℕ → ℕ
one_if c f c' s = if c' == c && contains f s then 1 else 0

unfoldable pub tally : ℕ → ℕ → Table → ℕ
tally c f [] = 0
tally c f (((c', a), s) ∷ m) = one_if c f c' s + tally c f m

pub tally-le-length : (c f : ℕ) (m : Table) → tally c f m ≤ length m
unfolding tally
tally-le-length c f [] = omega arith
tally-le-length c f (((c', a), s) ∷ m) = ground (arith, tally-le-length c f m)

-- A write trades what the key held for what it holds.
pub tally-insert :
    (c f k a : ℕ) (s : List ℕ) (m : Table)
    → tally c f (insert (k, a) s m) + one_if c f k (or_else [] (get (k, a) m))
      ≡ tally c f m + one_if c f k s
unfolding tally get insert contains
tally-insert c f k a s [] = ground arith
tally-insert c f k a s (((k', a'), t) ∷ m) = ground (arith, tally-insert c f k a s m)

tally_absent :
    (c f k a : ℕ) (m : Table) → get (k, a) m ≡ none → tally c f (remove (k, a) m) ≡ tally c f m
unfolding tally get remove
tally_absent c f k a [] h = refl
tally_absent c f k a (((k', a'), t) ∷ m) h = ground (arith, tally_absent c f k a m)

pub tally-remove :
    (c f k a : ℕ) (m : Table)
    → KeysDistinct m
    → tally c f (remove (k, a) m) + one_if c f k (or_else [] (get (k, a) m)) ≡ tally c f m
unfolding tally get remove contains
tally-remove c f k a [] d = ground arith
tally-remove c f k a (((k', a'), t) ∷ m) d =
    ground (arith, tally-remove c f k a m d.1, tally_absent c f k a m)

-- A federate that is tallied is subscribed to some attribute, and the other way round.
pub tally_pos :
    (c f : ℕ) (m : Table)
    → KeysDistinct m
    → 0 < tally c f m
    → (a : ℕ) × (contains f (or_else [] (get (c, a) m)) ≡ true)
unfolding tally get contains
tally_pos c f [] d h = absurd (omega arith)
tally_pos c f (((c', a), s) ∷ m) d h = elim (Bool-cases (c' == c && contains f s)) [
  | inl here ↦ (a, ground arith)
  | inr there ↦
      let (b, p) = tally_pos c f m d.1 (ground arith) in
      (b, ground (arith, d.0, p, ==_iff c' c, ==_iff a b))
]

pub tally_of_contains :
    (c f a : ℕ) (m : Table) → contains f (or_else [] (get (c, a) m)) ≡ true → 0 < tally c f m
unfolding tally get contains
tally_of_contains c f a [] h = cc
tally_of_contains c f a (((c', a'), s) ∷ m) h = ground (arith, tally_of_contains c f a m)
