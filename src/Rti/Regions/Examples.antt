-- ===== src/Rti/Regions/Examples.antt =====
-- Two regions of federate 1 over one dimension.
use hla4_rs.Prelude.{
  ℕ, ◌≡◌, refl, List, [], ◌∷◌, true, false, some, none, inr, inl, ◌⊎◌, ◌↔◌, arith, ◌==◌, ◌≤◌,
  Bool-cases,
}
use hla4_rs.Prelude.Eq.{nat_eq}
use hla4_rs.Prelude.Map.{Map, get, insert, contains_key}
use hla4_rs.Rti.State.{Federation, Region}
use hla4_rs.Rti.Samples.{session_of, two_federates}
use hla4_rs.Rti.Regions.{
  set_bounds, commit, dispatch_region, regions_overlap_any, overlaps_pair, overlaps_one, shared,
  all_intersect,
}
use hla4_rs.Rti.Regions.Bounds.{ValidRange, RegionsValid}
use hla4_rs.Rti.Regions.Changes.{RegionStep}
use hla4_rs.Rti.Regions.Steps.{dispatch_region-RegionStep, dispatch_region-RegionsValid}
use hla4_rs.Rti.Regions.Overlap.{Overlap, regions_overlap_any-Overlap}

abbrev east : Region
east = record { handle = 1; owner = 1; committed = (4, (10, 20)) ∷ []; staged = (4, (10, 20)) ∷ [] }

abbrev west : Region
west = record { handle = 2; owner = 1; committed = (4, (0, 9)) ∷ []; staged = (4, (0, 12)) ∷ [] }

abbrev regions : Map ℕ Region
regions = (1, east) ∷ (2, west) ∷ []

abbrev federation : Federation ℕ
federation = record two_federates { regions = regions; next_region_id = 3 }

one_range : (lower upper d : ℕ) → lower ≤ upper → ValidRange (get d ((4, (lower, upper)) ∷ []))
unfolding get
one_range lower upper d h = elim (Bool-cases (4 == d)) [ inl y ↦ rw (y) h | inr y ↦ rw (y) tt ]

federation-RegionsValid : RegionsValid federation.regions
unfolding get
federation-RegionsValid i = elim (Bool-cases (1 == i)) [
  | inl y ↦ rw (y) ((λ d. one_range 10 20 d (omega arith)), (λ d. one_range 10 20 d (omega arith)))
  | inr y ↦ elim (Bool-cases (2 == i)) [
    | inl z ↦
        rw (y, z) ((λ d. one_range 0 9 d (omega arith)), (λ d. one_range 0 12 d (omega arith)))
    | inr z ↦ rw (y, z) tt
  ]
]

fresh : get 3 federation.regions ≡ none
unfolding get
fresh = refl

abbrev two : List ℕ
two = 0 ∷ 0 ∷ 0 ∷ 0 ∷ 0 ∷ 0 ∷ 0 ∷ 2 ∷ []

-- The committed ranges are disjoint, and overlap once the staged range is committed.
overlap_test : regions_overlap_any federation (1 ∷ []) (2 ∷ []) ≡ false
unfolding regions_overlap_any overlaps_pair overlaps_one shared all_intersect get contains_key
overlap_test = refl

overlap_committed_test :
    regions_overlap_any
      (dispatch_region (session_of 1) federation (commit (some (two ∷ [])))).federation
      (1 ∷ [])
      (2 ∷ [])
    ≡ true
unfolding regions_overlap_any overlaps_pair overlaps_one shared all_intersect get contains_key
    dispatch_region insert
overlap_committed_test = refl

dispatch_region-RegionStep_example : RegionStep (some 1) (get 2 federation.regions) (
    get 2 (dispatch_region (session_of 1) federation (commit (some (two ∷ [])))).federation.regions)
dispatch_region-RegionStep_example =
    dispatch_region-RegionStep (session_of 1) federation (commit (some (two ∷ []))) fresh 2

dispatch_region-RegionsValid_example :
    RegionsValid
      (dispatch_region
        (session_of 1)
        federation
        (set_bounds (some two) (some (0 ∷ 0 ∷ 0 ∷ 4 ∷ [])) (some (3, 5)))).federation.regions
dispatch_region-RegionsValid_example =
    dispatch_region-RegionsValid (session_of 1) federation
      (set_bounds (some two) (some (0 ∷ 0 ∷ 0 ∷ 4 ∷ [])) (some (3, 5))) fresh
      federation-RegionsValid

abbrev ps : List ℕ
ps = 1 ∷ []

abbrev ss : List ℕ
ss = 2 ∷ []

regions_overlap_any-Overlap_example :
    (regions_overlap_any federation ps ss ≡ true)
    ↔ ((ps ≡ []) ⊎ ((ss ≡ []) ⊎ Overlap federation.regions ps ss))
regions_overlap_any-Overlap_example =
    regions_overlap_any-Overlap federation ps ss federation-RegionsValid
