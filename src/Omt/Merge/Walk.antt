-- ===== src/Omt/Merge/Walk.antt =====
-- crates/hla-omt/src/merge.rs: the walks that assign handles keep the tables in order.
use Prim.Native.String.{String}
use mathlib.Core.Path.{subst}
use mathlib.Core.Option.{none-ne-some}
use hla4_rs.Prelude.{
  ℕ, zero, suc, ◌+◌, ◌%◌, ◌^◌, ◌<◌, ◌≤◌, ◌≡◌, refl, sym, ap, ◌∙◌, List, [], ◌∷◌, Option, none, some,
  arith, Option-cases, inl, inr, length,
}
use hla4_rs.Prelude.Eq.{nat_eq, string_eq, parent_eq}
use hla4_rs.Prelude.Map.{
  Map, get, insert, remove, get-insert_cases, get-insert_same, get-insert_new,
}
use hla4_rs.Omt.Merge.{
  Merged, Tables, no_tables, assign_class, assign_handles, assign_all, children_of,
}

module _ {V : Type 0} (k : ℕ) (v : V) where
  length-insert_le : (m : Map ℕ V) → length m ≤ length (insert k v m)
  unfolding insert
  length-insert_le [] = omega arith
  length-insert_le ((j, w) ∷ m) = ground (arith, length-insert_le m)

  length-insert_new : (m : Map ℕ V) → get k m ≡ none → length (insert k v m) ≡ length m + 1
  unfolding insert get
  length-insert_new [] e = refl
  length-insert_new ((j, w) ∷ m) e = ground (arith, length-insert_new m)

module _ {D : Type 0} (name : D → String) where
  -- Each definition stands under its own name.
  abbrev pub NamedDefs : Map String D → Type 0
  NamedDefs defs = (k : String) (d : D) → get k defs ≡ some d → name d ≡ k

  pub insert-NamedDefs :
      (fqn : String) (d : D) (defs : Map String D)
      → name d ≡ fqn
      → NamedDefs defs
      → NamedDefs (insert fqn d defs)
  insert-NamedDefs fqn d defs own n k e h = elim (get-insert_cases fqn k d e defs h) [
    | inl (p, q) ↦ sym (ap name q) ∙ own ∙ p
    | inr g ↦ n k e g
  ]

  -- The tables hold the handles below the next one, and the handle of a name leads to a definition
  -- of that name.
  pub record Good (tables : Tables D) : Type 0 where
    pub next : tables.next_class ≡ length tables.classes + 1
    pub below : (h : ℕ) (d : D) → get h tables.classes ≡ some d → h < tables.next_class
    pub named :
        (k : String) (h : ℕ)
        → get k tables.class_table ≡ some h
        → (d : D) × ((get h tables.classes ≡ some d) × (name d ≡ k))

  -- The handles do not wrap around.
  abbrev pub Fits : Tables D → Type 0
  Fits tables = length tables.classes + 1 < 2 ^ 32

  pub Good-bounded :
      (tables : Tables D)
      → Good tables
      → Fits tables
      → (k : String) (h : ℕ) → get k tables.class_table ≡ some h
      → (h < 2 ^ 32) × ((d : D) × ((get h tables.classes ≡ some d) × (name d ≡ k)))
  Good-bounded tables good fits k h e =
      let found : (d : D) × ((get h tables.classes ≡ some d) × (name d ≡ k)) = good.named k h e in
      (omega (arith, good.below h found.0 found.1.0, good.next), found)

  module _ (members : D → List String) where
    assign_class-Good :
        (fqn : String) (def : D) (tables : Tables D)
        → name def ≡ fqn
        → (Fits tables → Good tables)
        → Fits (assign_class members fqn def tables)
        → Good (assign_class members fqn def tables)
    unfolding assign_class
    assign_class-Good fqn def tables n inv fits =
        let handle : ℕ = tables.next_class in
        let l : length tables.classes ≤ length (insert handle def tables.classes) =
          length-insert_le handle def tables.classes in
        let good : Good tables = inv (omega arith) in
        let new : get handle tables.classes ≡ none =
          elim (Option-cases (get handle tables.classes)) [
            | inl e ↦ e
            | inr (d, e) ↦ absurd (omega (arith, good.below handle d e))
          ] in
        let longer : length (insert handle def tables.classes) ≡ length tables.classes + 1 =
          length-insert_new handle def tables.classes new in
        let step : (tables.next_class + 1) % 2 ^ 32 ≡ tables.next_class + 1 =
          omega (arith, good.next) in
        record {
          next = omega (arith, good.next);
          below = λ h d e. elim (get-insert_cases handle h def d tables.classes e) [
            | inl (p, q) ↦ rw (step, sym p) (omega arith)
            | inr g ↦ rw (step) (omega (arith, good.below h d g))
          ];
          named = λ k h e. elim (get-insert_cases fqn k handle h tables.class_table e) [
            | inl (p, q) ↦ (
              def,
              (
                subst (λ x. get x (insert handle def tables.classes) ≡ some def) q
                    (get-insert_same handle def tables.classes),
                n ∙ p,
              ),
            )
            | inr g ↦
                let found : (d : D) × ((get h tables.classes ≡ some d) × (name d ≡ k)) =
                  good.named k h g in
                (
                  found.0,
                  (get-insert_new handle h def found.0 tables.classes new found.1.0, found.1.1),
                )
          ];
        }

    assign_handles-Good :
        (merged : Map String D) (children : Map (Option String) (List String)) (fuel : ℕ)
        (fqns : List String) (tables : Tables D)
        → NamedDefs merged
        → (Fits tables → Good tables)
        → Fits (assign_handles members merged children fuel fqns tables)
        → Good (assign_handles members merged children fuel fqns tables)
    unfolding assign_handles
    assign_handles-Good merged children zero fqns tables n inv = inv
    assign_handles-Good merged children (suc fuel) [] tables n inv = inv
    assign_handles-Good merged children (suc fuel) (fqn ∷ fqns) tables n inv =
        elim (Option-cases (get fqn merged)) [
          | inl e ↦
              rw (assign_handles, e)
                (assign_handles-Good merged children (suc fuel) fqns tables n inv)
          | inr (def, e) ↦
              let here : Tables D = assign_class members fqn def tables in
              let good : Fits here → Good here =
                assign_class-Good fqn def tables (n fqn def e) inv in
              elim (Option-cases (get (some fqn) children)) [
                | inl c ↦
                    rw (assign_handles, e, c)
                      (assign_handles-Good merged children (suc fuel) fqns here n good)
                | inr (names, c) ↦
                    rw (assign_handles, e, c)
                      (assign_handles-Good merged children (suc fuel) fqns
                        (assign_handles members merged children fuel names here) n
                        (assign_handles-Good merged children fuel names here n good))
              ]
        ]

    no_tables-Good : Good (no_tables D)
    unfolding get
    no_tables-Good = record {
      next = refl;
      below = λ h d e. absurd (none-ne-some d e);
      named = λ k h e. absurd (none-ne-some h e);
    }

    pub assign_all-Good :
        (parent : D → Option String) (merged : Merged D)
        → NamedDefs merged.defs
        → Fits (assign_all parent members merged)
        → Good (assign_all parent members merged)
    unfolding assign_all
    assign_all-Good parent merged n =
        elim (Option-cases (get none (children_of parent merged.defs merged.order []))) [
          | inl e ↦ rw (assign_all, e) (λ fits. no_tables-Good)
          | inr (roots, e) ↦
              rw (assign_all, e)
                (assign_handles-Good merged.defs
                  (remove none (children_of parent merged.defs merged.order []))
                  (length merged.order + 1) roots (no_tables D) n (λ fits. no_tables-Good))
        ]
