-- ===== src/Rti/Regions/Steps.antt =====
-- crates/hla-rti/src/dispatch/ddm_lifecycle.rs: how a call may change a region.
use mathlib.Core.Path.{subst}
use mathlib.Core.Option.{some-injective, none-ne-some}
use hla4_rs.Prelude.{
  ℕ, ◌≡◌, ◌≤◌, refl, sym, ap, ◌∙◌, leb, leb→le, List, Option, none, some, ◌==◌, ==_iff,
  if◌then◌else◌, arith, Option-cases, Bool-cases, inl, inr,
}
use hla4_rs.Prelude.Eq.{nat_eq}
use hla4_rs.Prelude.Map.{get, insert}
use hla4_rs.Rti.Handler.{handle_of}
use hla4_rs.Rti.State.{Federation, Region, SessionContext}
use hla4_rs.Rti.Regions.Bounds.{
  IsValid, ValidRegion, RegionsValid, ranges_of-IsValid, insert-IsValid,
}
use hla4_rs.Rti.Regions.{
  commit_each, ranges_of, handles_of, region_handle, dimension_handle, checked_bounds,
  create_region, commit_region_modifications, delete_region, get_range_bounds, set_range_bounds,
  RegionCall, create, commit, delete, get_bounds, set_bounds, dispatch_region,
}
use hla4_rs.Rti.Regions.Changes.{
  RegionStep, same, created, committed, bounded, deleted, commit_each-RegionStep, insert-RegionStep,
  remove-RegionStep,
}

checked_bounds-le :
    (bounds : Option (ℕ × ℕ)) (b : ℕ × ℕ) → checked_bounds bounds ≡ some b → b.0 ≤ b.1
checked_bounds-le none b h = absurd (ground arith)
checked_bounds-le (some (l, u)) b h = elim (Bool-cases (leb l u)) [
  | inl y ↦
      rw (sym (some-injective (l, u) b (sym (ap (λ x. if x then some (l, u) else none) y) ∙ h)))
        (leb→le l u y)
  | inr y ↦ absurd (none-ne-some b (sym (ap (λ x. if x then some (l, u) else none) y) ∙ h))
]

module _ {T : Type 0} (ctx : SessionContext) (federation : Federation T) where
  abbrev Steps : Federation T → Type 0
  Steps after =
      (i : ℕ)
      → RegionStep (handle_of ctx.membership) (get i federation.regions) (get i after.regions)

  create_region-RegionStep :
      (dimensions : Option (List (List ℕ)))
      → get federation.next_region_id federation.regions ≡ none
      → Steps (create_region ctx federation dimensions).federation
  unfolding create_region
  create_region-RegionStep dimensions fresh i = elim (Option-cases ctx.membership) [
    | inl e ↦ rw (create_region, e) (same (get i federation.regions))
    | inr (m, e) ↦
        rw (create_region, e)
          (insert-RegionStep (some m.federate_handle) federation.next_region_id
            (record {
              handle = federation.next_region_id;
              owner = m.federate_handle;
              committed = ranges_of dimensions;
              staged = ranges_of dimensions;
            })
            federation.regions
            (rw (fresh) (
              created
                (record {
                  handle = federation.next_region_id;
                  owner = m.federate_handle;
                  committed = ranges_of dimensions;
                  staged = ranges_of dimensions;
                })
                refl refl (ranges_of-IsValid dimensions)))
            i)
  ]

  commit_region_modifications-RegionStep :
      (regions : Option (List (List ℕ)))
      → Steps (commit_region_modifications ctx federation regions).federation
  unfolding commit_region_modifications
  commit_region_modifications-RegionStep regions i = elim (Option-cases ctx.membership) [
    | inl e ↦ rw (commit_region_modifications, e) (same (get i federation.regions))
    | inr (m, e) ↦
        let step : RegionStep (some m.federate_handle) (get i federation.regions)
            (get i (commit_each m.federate_handle (handles_of regions) federation.regions).0) =
          commit_each-RegionStep m.federate_handle (handles_of regions) federation.regions i in
        elim (Bool-cases
          (commit_each m.federate_handle (handles_of regions) federation.regions).1) [
            | inl y ↦ rw (commit_region_modifications, e, y) step
            | inr y ↦ rw (commit_region_modifications, e, y) step
          ]
  ]

  delete_region-RegionStep :
      (region : Option (List ℕ)) → Steps (delete_region ctx federation region).federation
  unfolding delete_region
  delete_region-RegionStep region i = elim (Option-cases ctx.membership) [
    | inl e ↦ rw (delete_region, e) (same (get i federation.regions))
    | inr (m, e) ↦ elim (Option-cases (region_handle region)) [
      | inl d ↦ rw (delete_region, e, d) (same (get i federation.regions))
      | inr (rh, d) ↦ elim (Option-cases (get rh federation.regions)) [
        | inl g ↦ rw (delete_region, e, d, g) (same (get i federation.regions))
        | inr (r, g) ↦ elim (Bool-cases (r.owner == m.federate_handle)) [
          | inr y ↦ rw (delete_region, e, d, g, y) (same (get i federation.regions))
          | inl y ↦
              rw (delete_region, e, d, g, y)
                (remove-RegionStep (some m.federate_handle) rh federation.regions
                  (rw (g) (deleted r (ap some (sym ((==_iff r.owner m.federate_handle).0 y))))) i)
        ]
      ]
    ]
  ]

  get_range_bounds-RegionStep :
      (region dimension : Option (List ℕ))
      → Steps (get_range_bounds ctx federation region dimension).federation
  unfolding get_range_bounds
  get_range_bounds-RegionStep region dimension i = elim (Option-cases ctx.membership) [
    | inl e ↦ rw (get_range_bounds, e) (same (get i federation.regions))
    | inr (m, e) ↦ elim (Option-cases (region_handle region)) [
      | inl d ↦ rw (get_range_bounds, e, d) (same (get i federation.regions))
      | inr (rh, d) ↦ elim (Option-cases (dimension_handle dimension)) [
        | inl x ↦ rw (get_range_bounds, e, d, x) (same (get i federation.regions))
        | inr (dh, x) ↦ elim (Option-cases (get rh federation.regions)) [
          | inl g ↦ rw (get_range_bounds, e, d, x, g) (same (get i federation.regions))
          | inr (r, g) ↦ rw (get_range_bounds, e, d, x, g) (same (get i federation.regions))
        ]
      ]
    ]
  ]

  set_range_bounds-RegionStep :
      (region dimension : Option (List ℕ)) (bounds : Option (ℕ × ℕ))
      → Steps (set_range_bounds ctx federation region dimension bounds).federation
  unfolding set_range_bounds
  set_range_bounds-RegionStep region dimension bounds i = elim (Option-cases ctx.membership) [
    | inl e ↦ rw (set_range_bounds, e) (same (get i federation.regions))
    | inr (m, e) ↦ elim (Option-cases (region_handle region)) [
      | inl d ↦ rw (set_range_bounds, e, d) (same (get i federation.regions))
      | inr (rh, d) ↦ elim (Option-cases (dimension_handle dimension)) [
        | inl x ↦ rw (set_range_bounds, e, d, x) (same (get i federation.regions))
        | inr (dh, x) ↦ elim (Option-cases (checked_bounds bounds)) [
          | inl c ↦ rw (set_range_bounds, e, d, x, c) (same (get i federation.regions))
          | inr (b, c) ↦ elim (Option-cases (get rh federation.regions)) [
            | inl g ↦ rw (set_range_bounds, e, d, x, c, g) (same (get i federation.regions))
            | inr (r, g) ↦ elim (Bool-cases (r.owner == m.federate_handle)) [
              | inr y ↦ rw (set_range_bounds, e, d, x, c, g, y) (same (get i federation.regions))
              | inl y ↦
                  rw (set_range_bounds, e, d, x, c, g, y)
                    (insert-RegionStep (some m.federate_handle) rh
                      (record r { staged = insert dh b r.staged }) federation.regions
                      (rw (g) (
                        bounded r dh b.0 b.1
                          (ap some (sym ((==_iff r.owner m.federate_handle).0 y)))
                          (checked_bounds-le bounds b c)))
                      i)
            ]
          ]
        ]
      ]
    ]
  ]

  -- When the next region number is free, every call of region management, whether it succeeds or
  -- not, leaves each region as it was, or makes a new region of the caller, or is the owner's: it
  -- commits the staged ranges, stages a range whose lower bound does not exceed the upper one, or
  -- deletes the region.
  pub dispatch_region-RegionStep :
      (call : RegionCall)
      → get federation.next_region_id federation.regions ≡ none
      → (i : ℕ)
      → RegionStep
          (handle_of ctx.membership)
          (get i federation.regions)
          (get i (dispatch_region ctx federation call).federation.regions)
  unfolding dispatch_region
  dispatch_region-RegionStep (create dimensions) fresh i =
      create_region-RegionStep dimensions fresh i
  dispatch_region-RegionStep (commit regions) fresh i =
      commit_region_modifications-RegionStep regions i
  dispatch_region-RegionStep (delete region) fresh i = delete_region-RegionStep region i
  dispatch_region-RegionStep (get_bounds region dimension) fresh i =
      get_range_bounds-RegionStep region dimension i
  dispatch_region-RegionStep (set_bounds region dimension bounds) fresh i =
      set_range_bounds-RegionStep region dimension bounds i

RegionStep-ValidRegion :
    {caller : Option ℕ} {before after : Option Region}
    → RegionStep caller before after
    → ValidRegion before
    → ValidRegion after
RegionStep-ValidRegion (same r) v = v
RegionStep-ValidRegion (created r o e w) v = (w, subst IsValid e w)
RegionStep-ValidRegion (committed r o) v = (v.1, v.1)
RegionStep-ValidRegion (bounded r d lower upper o l) v =
    (v.0, insert-IsValid d lower upper r.staged l v.1)
RegionStep-ValidRegion (deleted r o) v = tt

module _ {T : Type 0} (ctx : SessionContext) (federation : Federation T) where
  -- When the next region number is free, every call of region management keeps the lower bound of
  -- every committed and every staged range at or below its upper bound.
  pub dispatch_region-RegionsValid :
      (call : RegionCall)
      → get federation.next_region_id federation.regions ≡ none
      → RegionsValid federation.regions
      → RegionsValid (dispatch_region ctx federation call).federation.regions
  dispatch_region-RegionsValid call fresh v i =
      RegionStep-ValidRegion (dispatch_region-RegionStep ctx federation call fresh i) (v i)
