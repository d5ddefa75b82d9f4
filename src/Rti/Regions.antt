-- ===== src/Rti/Regions.antt =====
-- crates/hla-rti/src/dispatch/ddm_lifecycle.rs and ddm_matching.rs: the regions of data distribution
-- management, their bounds and their overlap.
use hla4_rs.Prelude.{
  ℕ, ◌+◌, ◌%◌, ◌^◌, List, [], ◌∷◌, Bool, true, false, ◌&&◌, ◌||◌, Option, none, some, ◌==◌, leb,
  if◌then◌else◌, length,
}
use hla4_rs.Prelude.Eq.{nat_eq, pair_eq}
use hla4_rs.Prelude.Map.{Map, get, insert, remove, contains_key}
use hla4_rs.Wire.Bytes.{be64, from_be_bytes}
use hla4_rs.Rti.Exception.{
  HlaException, federate_not_execution_member, region_not_created_by_this_federate, invalid_region,
  invalid_dimension, invalid_range_bound,
}
use hla4_rs.Rti.Subscriptions.{or_else, is_empty}
use hla4_rs.Rti.State.{
  Federation, Region, SessionContext, create_region_response, commit_region_modifications_response,
  delete_region_response, get_range_bounds_response, set_range_bounds_response,
}
use hla4_rs.Rti.Handler.{Outcome, exception_variant}
use hla4_rs.Rti.Declaration.Handlers.{done}
pub mod Bounds
pub mod Changes
pub mod Steps
pub mod Points
pub mod Overlap
mod Examples

abbrev pub u32_max : ℕ
u32_max = 0xffffffff

-- `Some(h) if h.data.len() == 8`, and `== 4`
abbrev pub region_handle : Option (List ℕ) → Option ℕ
region_handle none = none
region_handle (some h) = if length h == 8 then some (from_be_bytes h) else none

abbrev pub dimension_handle : Option (List ℕ) → Option ℕ
dimension_handle none = none
dimension_handle (some h) = if length h == 4 then some (from_be_bytes h) else none

-- The full range for each dimension whose handle has four bytes.
unfoldable pub full_ranges : List (List ℕ) → Map ℕ (ℕ × ℕ) → Map ℕ (ℕ × ℕ)
unfolding insert
full_ranges [] dims = dims
full_ranges (h ∷ hs) dims =
    full_ranges hs (if length h == 4 then insert (from_be_bytes h) (0, u32_max) dims else dims)

abbrev pub ranges_of : Option (List (List ℕ)) → Map ℕ (ℕ × ℕ)
ranges_of none = []
ranges_of (some handles) = full_ranges handles []

unfoldable pub region_handles : List (List ℕ) → List ℕ
region_handles [] = []
region_handles (h ∷ hs) =
    let rest = region_handles hs in if length h == 8 then from_be_bytes h ∷ rest else rest

abbrev pub handles_of : Option (List (List ℕ)) → List ℕ
handles_of none = []
handles_of (some handles) = region_handles handles

-- The loop of a commit: the regions that it leaves, and whether it came to its end.
unfoldable pub commit_each : ℕ → List ℕ → Map ℕ Region → Map ℕ Region × Bool
unfolding get insert
commit_each fh [] regions = (regions, true)
commit_each fh (rh ∷ rhs) regions = elim (get rh regions) [
  | none ↦ commit_each fh rhs regions
  | some r ↦ elim (r.owner == fh) [
    | false ↦ (regions, false)
    | true ↦ commit_each fh rhs (insert rh (record r { committed = r.staged }) regions)
  ]
]

-- `Some(b) if b.lower <= b.upper`
abbrev pub checked_bounds : Option (ℕ × ℕ) → Option (ℕ × ℕ)
checked_bounds none = none
checked_bounds (some (lower, upper)) = if leb lower upper then some (lower, upper) else none

module _ {T : Type 0} where
  abbrev pub set_regions : Map ℕ Region → Federation T → Federation T
  set_regions regions federation = record federation { regions = regions }

module _ {T : Type 0} (ctx : SessionContext) (federation : Federation T) where
  unfoldable pub create_region : Option (List (List ℕ)) → Outcome T
  unfolding full_ranges insert
  create_region dimensions = elim ctx.membership [
    | none ↦ exception_variant federation federate_not_execution_member
    | some m ↦
        let dims = ranges_of dimensions in
        let raw_id = federation.next_region_id in
        let region : Region = record {
          handle = raw_id;
          owner = m.federate_handle;
          committed = dims;
          staged = dims;
        } in
        done
          (record federation {
            regions = insert raw_id region federation.regions;
            next_region_id = (raw_id + 1) % 2 ^ 64;
          })
          (create_region_response (be64 raw_id))
  ]

  unfoldable pub commit_region_modifications : Option (List (List ℕ)) → Outcome T
  unfolding region_handles commit_each
  commit_region_modifications regions = elim ctx.membership [
    | none ↦ exception_variant federation federate_not_execution_member
    | some m ↦
        let after = commit_each m.federate_handle (handles_of regions) federation.regions in
        elim after.1 [
          | false ↦
              exception_variant (set_regions after.0 federation) region_not_created_by_this_federate
          | true ↦ done (set_regions after.0 federation) commit_region_modifications_response
        ]
  ]

  unfoldable pub delete_region : Option (List ℕ) → Outcome T
  unfolding get remove
  delete_region region = elim ctx.membership [
    | none ↦ exception_variant federation federate_not_execution_member
    | some m ↦ elim (region_handle region) [
      | none ↦ exception_variant federation invalid_region
      | some rh ↦ elim (get rh federation.regions) [
        | none ↦ exception_variant federation invalid_region
        | some r ↦ elim (r.owner == m.federate_handle) [
          | false ↦ exception_variant federation region_not_created_by_this_federate
          | true ↦
              done (set_regions (remove rh federation.regions) federation) delete_region_response
        ]
      ]
    ]
  ]

  unfoldable pub get_range_bounds : Option (List ℕ) → Option (List ℕ) → Outcome T
  unfolding get
  get_range_bounds region dimension = elim ctx.membership [
    | none ↦ exception_variant federation federate_not_execution_member
    | some m ↦ elim (region_handle region) [
      | none ↦ exception_variant federation invalid_region
      | some rh ↦ elim (dimension_handle dimension) [
        | none ↦ exception_variant federation invalid_dimension
        | some dh ↦ elim (get rh federation.regions) [
          | none ↦ exception_variant federation invalid_region
          | some r ↦
              let bounds = or_else (0, u32_max) (get dh r.committed) in
              done federation (get_range_bounds_response bounds.0 bounds.1)
        ]
      ]
    ]
  ]

  unfoldable pub set_range_bounds : Option (List ℕ) → Option (List ℕ) → Option (ℕ × ℕ) → Outcome T
  unfolding get insert
  set_range_bounds region dimension bounds = elim ctx.membership [
    | none ↦ exception_variant federation federate_not_execution_member
    | some m ↦ elim (region_handle region) [
      | none ↦ exception_variant federation invalid_region
      | some rh ↦ elim (dimension_handle dimension) [
        | none ↦ exception_variant federation invalid_dimension
        | some dh ↦ elim (checked_bounds bounds) [
          | none ↦ exception_variant federation invalid_range_bound
          | some b ↦ elim (get rh federation.regions) [
            | none ↦ exception_variant federation invalid_region
            | some r ↦ elim (r.owner == m.federate_handle) [
              | false ↦ exception_variant federation region_not_created_by_this_federate
              | true ↦
                  done
                    (set_regions
                      (insert rh (record r { staged = insert dh b r.staged }) federation.regions)
                      federation)
                    set_range_bounds_response
            ]
          ]
        ]
      ]
    ]
  ]

-- The calls of the service group.
pub data RegionCall : Type 0 where
  create commit : Option (List (List ℕ)) → RegionCall
  delete : Option (List ℕ) → RegionCall
  get_bounds : Option (List ℕ) → Option (List ℕ) → RegionCall
  set_bounds : Option (List ℕ) → Option (List ℕ) → Option (ℕ × ℕ) → RegionCall

unfoldable pub dispatch_region :
    {T : Type 0} → SessionContext → Federation T → RegionCall → Outcome T
unfolding create_region commit_region_modifications delete_region get_range_bounds set_range_bounds
dispatch_region ctx federation (create dimensions) = create_region ctx federation dimensions
dispatch_region ctx federation (commit regions) = commit_region_modifications ctx federation regions
dispatch_region ctx federation (delete region) = delete_region ctx federation region
dispatch_region ctx federation (get_bounds region dimension) =
    get_range_bounds ctx federation region dimension
dispatch_region ctx federation (set_bounds region dimension bounds) =
    set_range_bounds ctx federation region dimension bounds

-- Whether the ranges of one dimension intersect. The dimension is one of both regions.
abbrev pub ranges_meet : Option (ℕ × ℕ) → Option (ℕ × ℕ) → Bool
ranges_meet (some (lp, up)) (some (ls, us)) = leb lp us && leb ls up
ranges_meet _ _ = false

unfoldable pub shared : Map ℕ (ℕ × ℕ) → Map ℕ (ℕ × ℕ) → List ℕ
unfolding contains_key
shared [] rs = []
shared ((d, b) ∷ rp) rs = let rest = shared rp rs in if contains_key d rs then d ∷ rest else rest

unfoldable pub all_intersect : List ℕ → Map ℕ (ℕ × ℕ) → Map ℕ (ℕ × ℕ) → Bool
unfolding get
all_intersect [] rp rs = true
all_intersect (d ∷ ds) rp rs = ranges_meet (get d rp) (get d rs) && all_intersect ds rp rs

abbrev pub pair_overlaps : Option Region → Option Region → Bool
pair_overlaps (some rp) (some rs) =
    all_intersect (shared rp.committed rs.committed) rp.committed rs.committed
pair_overlaps _ _ = false

-- One region against each of a set.
unfoldable pub overlaps_one : Map ℕ Region → Option Region → List ℕ → Bool
unfolding get all_intersect shared
overlaps_one regions rp [] = false
overlaps_one regions rp (s ∷ ss) = pair_overlaps rp (get s regions) || overlaps_one regions rp ss

unfoldable pub overlaps_pair : Map ℕ Region → List ℕ → List ℕ → Bool
unfolding get overlaps_one
overlaps_pair regions [] ss = false
overlaps_pair regions (p ∷ ps) ss =
    overlaps_one regions (get p regions) ss || overlaps_pair regions ps ss

module _ {T : Type 0} (federation : Federation T) where
  unfoldable pub regions_overlap_any : List ℕ → List ℕ → Bool
  unfolding overlaps_pair
  regions_overlap_any pub_regions sub_regions =
      if is_empty pub_regions || is_empty sub_regions
      then true
      else overlaps_pair federation.regions pub_regions sub_regions

  -- Whether a subscriber stays.
  unfoldable pub keeps_subscriber : List ℕ → ℕ → ℕ → ℕ → Bool
  unfolding get regions_overlap_any
  keeps_subscriber pub_regions class attr fh = elim (get fh federation.federates) [
    | none ↦ false
    | some fs ↦
        regions_overlap_any pub_regions
          (or_else [] (get (class, attr) fs.pub_sub.subscribed_attrs_regions))
  ]

  unfoldable pub keep_overlapping : List ℕ → ℕ → ℕ → List ℕ → List ℕ
  unfolding keeps_subscriber
  keep_overlapping pub_regions class attr [] = []
  keep_overlapping pub_regions class attr (fh ∷ fhs) =
      let rest = keep_overlapping pub_regions class attr fhs in
      if keeps_subscriber pub_regions class attr fh then fh ∷ rest else rest

  unfoldable pub filter_subscribers_by_regions : List ℕ → ℕ → ℕ → ℕ → List ℕ
  unfolding get keep_overlapping
  filter_subscribers_by_regions subscribers instance' class attr =
      elim (get instance' federation.object_instances) [
        | none ↦ []
        | some i ↦
            let pub_regions = or_else [] (get attr i.attribute_regions) in
            if is_empty pub_regions
            then subscribers
            else keep_overlapping pub_regions class attr subscribers
      ]
