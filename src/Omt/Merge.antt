-- ===== src/Omt/Merge.antt =====
-- crates/hla-omt/src/merge.rs: the union of object models and the assignment of handles. The text of
-- an error is left out. The depth-first walk runs on fuel, one more than the classes.
use Prim.Native.String.{String}
use hla4_rs.Prelude.{
  ℕ, zero, suc, ◌+◌, ◌%◌, ◌^◌, List, [], ◌∷◌, ◌++◌, Bool, true, false, ◌&&◌, Option, none, some,
  Result, ok, err, ◌>>=◌, ◌==◌, if◌then◌else◌, length,
}
use hla4_rs.Prelude.Eq.{Eq, nat_eq, string_eq, parent_eq, key_eq}
use hla4_rs.Prelude.Map.{Map, get, insert, remove}
use hla4_rs.Omt.Fom.{
  AttributeDef, ParameterDef, ObjectClassDef, InteractionClassDef, FomModule, MergedFom,
  OrderTypeRef, receive, timestamp_order, Ownership, divest_acquire, no_transfer, Sharing, publish,
  subscribe, publish_subscribe, neither, UpdateType, static, periodic, conditional,
}
pub mod Walk
pub mod Names
mod Examples

pub data FomError : Type 0 where
  merge_conflict : FomError

-- The derived equality of attributes and parameters, field by field.
abbrev pub same_text : String → String → Bool
same_text a b = string_eq.beq a b

abbrev pub same_texts : List String → List String → Bool
same_texts [] [] = true
same_texts (a ∷ as') (b ∷ bs) = same_text a b && same_texts as' bs
same_texts _ _ = false

abbrev pub order_code : OrderTypeRef → ℕ
order_code receive = 0
order_code timestamp_order = 1

abbrev pub ownership_code : Ownership → ℕ
ownership_code divest_acquire = 0
ownership_code no_transfer = 1

abbrev pub sharing_code : Sharing → ℕ
sharing_code publish = 0
sharing_code subscribe = 1
sharing_code publish_subscribe = 2
sharing_code neither = 3

abbrev pub update_code : UpdateType → ℕ
update_code static = 0
update_code periodic = 1
update_code conditional = 2

unfoldable pub same_attribute : AttributeDef → AttributeDef → Bool
same_attribute a b =
    same_text a.name b.name
    && (same_text a.datatype b.datatype
        && ((order_code a.order == order_code b.order)
            && (same_text a.transportation b.transportation
                && ((ownership_code a.ownership == ownership_code b.ownership)
                    && ((sharing_code a.sharing == sharing_code b.sharing)
                        && ((update_code a.update_type == update_code b.update_type)
                            && same_texts a.dimensions b.dimensions))))))

unfoldable pub same_parameter : ParameterDef → ParameterDef → Bool
same_parameter p q = same_text p.name q.name && same_text p.datatype q.datatype

unfoldable pub find_attribute : String → List AttributeDef → Option AttributeDef
find_attribute name [] = none
find_attribute name (a ∷ target) =
    if same_text a.name name then some a else find_attribute name target

unfoldable pub find_parameter : String → List ParameterDef → Option ParameterDef
find_parameter name [] = none
find_parameter name (p ∷ target) =
    if same_text p.name name then some p else find_parameter name target

unfoldable pub merge_attribute :
    AttributeDef → List AttributeDef → Result FomError (List AttributeDef)
unfolding find_attribute same_attribute
merge_attribute attr target = elim (find_attribute attr.name target) [
  | none ↦ ok (target ++ (attr ∷ []))
  | some existing ↦ if same_attribute existing attr then ok target else err merge_conflict
]

unfoldable pub merge_parameter :
    ParameterDef → List ParameterDef → Result FomError (List ParameterDef)
unfolding find_parameter same_parameter
merge_parameter p target = elim (find_parameter p.name target) [
  | none ↦ ok (target ++ (p ∷ []))
  | some existing ↦ if same_parameter existing p then ok target else err merge_conflict
]

unfoldable pub merge_attributes :
    List AttributeDef → List AttributeDef → Result FomError (List AttributeDef)
unfolding merge_attribute
merge_attributes [] target = ok target
merge_attributes (attr ∷ attrs) target =
    merge_attribute attr target >>= (λ target'. merge_attributes attrs target')

unfoldable pub merge_parameters :
    List ParameterDef → List ParameterDef → Result FomError (List ParameterDef)
unfolding merge_parameter
merge_parameters [] target = ok target
merge_parameters (p ∷ ps) target =
    merge_parameter p target >>= (λ target'. merge_parameters ps target')

abbrev pub or_semantics : Option String → Option String → Option String
or_semantics none new = new
or_semantics (some old) new = some old

-- The merged classes by name, and their names in the order of insertion.
pub record Merged (D : Type 0) : Type 0 where
  pub defs : Map String D
  pub order : List String

unfoldable pub merge_object_class :
    ObjectClassDef → Merged ObjectClassDef → Result FomError (Merged ObjectClassDef)
unfolding get insert merge_attributes
merge_object_class cls merged = elim (get cls.name merged.defs) [
  | none ↦
      ok
        (record { defs = insert cls.name cls merged.defs; order = merged.order ++ (cls.name ∷ []) })
  | some existing ↦ elim (parent_eq.beq existing.parent cls.parent) [
    | false ↦ err merge_conflict
    | true ↦ merge_attributes cls.attributes existing.attributes >>= (λ attributes.
        ok (record merged {
          defs =
              insert cls.name
                (record existing {
                  attributes = attributes;
                  semantics = or_semantics existing.semantics cls.semantics;
                })
                merged.defs;
        }))
  ]
]

unfoldable pub merge_interaction_class :
    InteractionClassDef → Merged InteractionClassDef → Result FomError (Merged InteractionClassDef)
unfolding get insert merge_parameters
merge_interaction_class ic merged = elim (get ic.name merged.defs) [
  | none ↦
      ok (record { defs = insert ic.name ic merged.defs; order = merged.order ++ (ic.name ∷ []) })
  | some existing ↦ elim (parent_eq.beq existing.parent ic.parent) [
    | false ↦ err merge_conflict
    | true ↦ merge_parameters ic.parameters existing.parameters >>= (λ parameters.
        ok (record merged {
          defs =
              insert ic.name
                (record existing {
                  parameters = parameters;
                  semantics = or_semantics existing.semantics ic.semantics;
                })
                merged.defs;
        }))
  ]
]

-- One loop over the classes of a module.
unfoldable pub merge_each {ℓ} :
    {C : Type ℓ} {D : Type 0}
    → (C → Merged D → Result FomError (Merged D))
    → List C
    → Merged D
    → Result FomError (Merged D)
merge_each merge [] merged = ok merged
merge_each merge (c ∷ classes) merged =
    merge c merged >>= (λ merged'. merge_each merge classes merged')

-- The loop over the modules, the object classes of each before its interaction classes.
unfoldable pub merge_all :
    List FomModule
    → Merged ObjectClassDef
    → Merged InteractionClassDef
    → Result FomError (Merged ObjectClassDef × Merged InteractionClassDef)
unfolding merge_each merge_object_class merge_interaction_class
merge_all [] objects interactions = ok (objects, interactions)
merge_all (m ∷ modules) objects interactions = do
  objects' ← merge_each merge_object_class m.object_classes objects
  interactions' ← merge_each merge_interaction_class m.interaction_classes interactions
  merge_all modules objects' interactions'

-- The children of each class, those without a parent under `none`.
unfoldable pub children_of :
    {D : Type 0}
    → (D → Option String)
    → Map String D
    → List String
    → Map (Option String) (List String)
    → Map (Option String) (List String)
unfolding get insert
children_of parent defs [] children = children
children_of parent defs (fqn ∷ order) children = elim (get fqn defs) [
  | none ↦ children_of parent defs order children
  | some def ↦ children_of parent defs order (
      insert (parent def)
        (elim (get (parent def) children) [ none ↦ fqn ∷ [] | some fqns ↦ fqns ++ (fqn ∷ []) ])
        children)
]

-- The tables of one kind of class and the next handles. A member is an attribute or a parameter.
pub record Tables (D : Type 0) : Type 0 where
  pub next_class : ℕ
  pub next_member : ℕ
  pub classes : Map ℕ D
  pub class_table : Map String ℕ
  pub member_table : Map (ℕ × String) ℕ

abbrev pub no_tables : (D : Type 0) → Tables D
no_tables D = record {
  next_class = 1;
  next_member = 1;
  classes = [];
  class_table = [];
  member_table = [];
}

-- The handles of the members of a class: the next one, and the table.
unfoldable pub assign_members : ℕ → List String → ℕ → Map (ℕ × String) ℕ → ℕ × Map (ℕ × String) ℕ
unfolding insert
assign_members handle [] next table = (next, table)
assign_members handle (name ∷ names) next table =
    assign_members handle names ((next + 1) % 2 ^ 32) (insert (handle, name) next table)

module _ {D : Type 0} where
  -- The step of the walk at one class.
  unfoldable pub assign_class : (D → List String) → String → D → Tables D → Tables D
  unfolding insert assign_members
  assign_class members fqn def tables =
      let handle = tables.next_class in
      let named = assign_members handle (members def) tables.next_member tables.member_table in
      record {
        next_class = (tables.next_class + 1) % 2 ^ 32;
        next_member = named.0;
        classes = insert handle def tables.classes;
        class_table = insert fqn handle tables.class_table;
        member_table = named.1;
      }

  -- The walk below each of the classes in turn.
  unfoldable pub assign_handles :
      (D → List String)
      → Map String D
      → Map (Option String) (List String)
      → ℕ
      → List String
      → Tables D
      → Tables D
  unfolding get assign_class
  assign_handles members merged children zero fqns tables = tables
  assign_handles members merged children (suc fuel) [] tables = tables
  assign_handles members merged children (suc fuel) (fqn ∷ fqns) tables = elim (get fqn merged) [
    | none ↦ assign_handles members merged children (suc fuel) fqns tables
    | some def ↦
        let here = assign_class members fqn def tables in
        let below : Tables D = elim (get (some fqn) children) [
          | none ↦ here
          | some names ↦ assign_handles members merged children fuel names here
        ] in
        assign_handles members merged children (suc fuel) fqns below
  ]

  unfoldable pub assign_all : (D → Option String) → (D → List String) → Merged D → Tables D
  unfolding children_of remove assign_handles
  assign_all parent members merged =
      let children = children_of parent merged.defs merged.order [] in
      elim (get none children) [
        | none ↦ no_tables D
        | some roots ↦
            assign_handles members merged.defs (remove none children) (length merged.order + 1)
              roots (no_tables D)
      ]

abbrev pub attribute_names : ObjectClassDef → List String
attribute_names def = names def.attributes
  where
    names : List AttributeDef → List String
    names [] = []
    names (a ∷ attributes) = a.name ∷ names attributes

abbrev pub parameter_names : InteractionClassDef → List String
parameter_names def = names def.parameters
  where
    names : List ParameterDef → List String
    names [] = []
    names (p ∷ parameters) = p.name ∷ names parameters

abbrev pub nothing_merged : (D : Type 0) → Merged D
nothing_merged D = record { defs = []; order = [] }

-- The merged FOM of the merged classes.
unfoldable pub fom_of : Merged ObjectClassDef → Merged InteractionClassDef → MergedFom
unfolding assign_all
fom_of objects interactions =
    let o = assign_all (λ d. d.parent) attribute_names objects in
    let i = assign_all (λ d. d.parent) parameter_names interactions in
    record {
      object_classes = o.classes;
      interaction_classes = i.classes;
      object_class_table = o.class_table;
      attribute_table = o.member_table;
      interaction_class_table = i.class_table;
      parameter_table = i.member_table;
      dimension_table = [];
    }

unfoldable pub merge_modules : List FomModule → Result FomError MergedFom
unfolding merge_all fom_of
merge_modules modules =
    merge_all modules (nothing_merged ObjectClassDef) (nothing_merged InteractionClassDef)
    >>= (λ merged. ok (fom_of merged.0 merged.1))
