-- ===== src/Omt/Fom.antt =====
-- crates/hla-omt/src/lib.rs: the merged FOM and its lookups. The source modules that a merged FOM
-- keeps beside its tables are not looked at again and are left out, as are a module's
-- identification, data types and dimensions.
use Prim.Native.String.{String}
use hla4_rs.Prelude.{ℕ, zero, suc, ◌+◌, List, [], ◌∷◌, Option, none, some, length}
use hla4_rs.Prelude.Eq.{nat_eq, string_eq, key_eq}
use hla4_rs.Prelude.Map.{Map, get}

pub data OrderTypeRef : Type 0 where
  receive timestamp_order : OrderTypeRef

pub data Ownership : Type 0 where
  divest_acquire no_transfer : Ownership

pub data Sharing : Type 0 where
  publish subscribe publish_subscribe neither : Sharing

pub data UpdateType : Type 0 where
  static periodic conditional : UpdateType

pub record AttributeDef : Type 0 where
  pub name : String
  pub datatype : String
  pub order : OrderTypeRef
  pub transportation : String
  pub ownership : Ownership
  pub sharing : Sharing
  pub update_type : UpdateType
  pub dimensions : List String

pub record ObjectClassDef : Type 0 where
  pub name : String
  pub parent : Option String
  pub attributes : List AttributeDef
  pub semantics : Option String

pub record ParameterDef : Type 0 where
  pub name : String
  pub datatype : String

pub record InteractionClassDef : Type 0 where
  pub name : String
  pub parent : Option String
  pub order : OrderTypeRef
  pub transportation : String
  pub parameters : List ParameterDef
  pub semantics : Option String

pub record FomModule : Type 0 where
  pub object_classes : List ObjectClassDef
  pub interaction_classes : List InteractionClassDef

pub record MergedFom : Type 0 where
  pub object_classes : Map ℕ ObjectClassDef
  pub interaction_classes : Map ℕ InteractionClassDef
  pub object_class_table : Map String ℕ
  pub interaction_class_table : Map String ℕ
  pub attribute_table : Map (ℕ × String) ℕ
  pub parameter_table : Map (ℕ × String) ℕ
  pub dimension_table : Map String ℕ

unfoldable pub object_class_def : MergedFom → ℕ → Option ObjectClassDef
object_class_def fom handle = get handle fom.object_classes

unfoldable pub object_class_handle : MergedFom → String → Option ℕ
object_class_handle fom name = get name fom.object_class_table

abbrev pub and_then {ℓ κ} : {A : Type ℓ} {B : Type κ} → Option A → (A → Option B) → Option B
and_then none f = none
and_then (some a) f = f a

-- The rounds of `InheritanceIter::next` from its field `next`, `fuel` of them at most.
unfoldable pub chain : ℕ → MergedFom → Option ℕ → List ℕ
unfolding object_class_def object_class_handle
chain zero fom next = []
chain (suc fuel) fom none = []
chain (suc fuel) fom (some current) = elim (object_class_def fom current) [
  | none ↦ []
  | some def ↦ current ∷ chain fuel fom (and_then def.parent (object_class_handle fom))
]

-- A class tree has no longer path than it has classes.
unfoldable pub inheritance_chain : MergedFom → ℕ → List ℕ
unfolding chain
inheritance_chain fom handle = chain (length fom.object_classes + 1) fom (some handle)

unfoldable pub interaction_class_def : MergedFom → ℕ → Option InteractionClassDef
interaction_class_def fom handle = get handle fom.interaction_classes

unfoldable pub interaction_class_handle : MergedFom → String → Option ℕ
interaction_class_handle fom name = get name fom.interaction_class_table

unfoldable pub attribute_handle : MergedFom → ℕ → String → Option ℕ
attribute_handle fom class name = get (class, name) fom.attribute_table

unfoldable pub parameter_handle : MergedFom → ℕ → String → Option ℕ
parameter_handle fom class name = get (class, name) fom.parameter_table

unfoldable pub dimension_handle : MergedFom → String → Option ℕ
dimension_handle fom name = get name fom.dimension_table
