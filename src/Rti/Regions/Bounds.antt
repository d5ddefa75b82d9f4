-- ===== src/Rti/Regions/Bounds.antt =====
-- crates/hla-rti/src/dispatch/ddm_lifecycle.rs: ranges whose lower bound does not exceed the upper one.
use hla4_rs.Prelude.{
  ℕ, ◌≤◌, List, [], ◌∷◌, Option, none, some, ◌==◌, arith, Bool-cases, inl, inr, length,
}
use hla4_rs.Prelude.Eq.{nat_eq}
use hla4_rs.Prelude.Map.{Map, get, insert, get-insert}
use hla4_rs.Wire.Bytes.{from_be_bytes}
use hla4_rs.Rti.State.{Region}
use hla4_rs.Rti.Regions.{u32_max, full_ranges, ranges_of}

abbrev pub ValidRange : Option (ℕ × ℕ) → Type 0
ValidRange none = Unit
ValidRange (some (lower, upper)) = lower ≤ upper

abbrev pub IsValid : Map ℕ (ℕ × ℕ) → Type 0
IsValid ranges = (d : ℕ) → ValidRange (get d ranges)

abbrev pub ValidRegion : Option Region → Type 0
ValidRegion none = Unit
ValidRegion (some r) = IsValid r.committed × IsValid r.staged

abbrev pub RegionsValid : Map ℕ Region → Type 0
RegionsValid regions = (i : ℕ) → ValidRegion (get i regions)

pub insert-IsValid :
    (d lower upper : ℕ) (ranges : Map ℕ (ℕ × ℕ))
    → lower ≤ upper
    → IsValid ranges
    → IsValid (insert d (lower, upper) ranges)
insert-IsValid d lower upper ranges l v e = elim (Bool-cases (d == e)) [
  | inl y ↦ rw (get-insert d e (lower, upper) ranges, y) l
  | inr y ↦ rw (get-insert d e (lower, upper) ranges, y) (v e)
]

full_ranges-IsValid :
    (handles : List (List ℕ)) (dims : Map ℕ (ℕ × ℕ))
    → IsValid dims
    → IsValid (full_ranges handles dims)
unfolding full_ranges
full_ranges-IsValid [] dims v = v
full_ranges-IsValid (h ∷ hs) dims v = elim (Bool-cases (length h == 4)) [
  | inl y ↦ rw (y) (
      full_ranges-IsValid hs (insert (from_be_bytes h) (0, u32_max) dims)
        (insert-IsValid (from_be_bytes h) 0 u32_max dims (omega arith) v))
  | inr y ↦ rw (y) (full_ranges-IsValid hs dims v)
]

pub ranges_of-IsValid : (dimensions : Option (List (List ℕ))) → IsValid (ranges_of dimensions)
unfolding get
ranges_of-IsValid none d = tt
ranges_of-IsValid (some handles) d = full_ranges-IsValid handles [] (λ e. tt) d
