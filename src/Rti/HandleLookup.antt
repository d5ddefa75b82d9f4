-- ===== src/Rti/HandleLookup.antt =====
-- crates/hla-rti/src/dispatch/handle_lookup.rs: names and handles of the object model. No call
-- changes the federation, so each is its response.
use Prim.Native.String.{String}
use hla4_rs.Prelude.{
  ℕ, List, [], ◌∷◌, Bool, Option, none, some, Result, ok, err, ◌==◌, if◌then◌else◌,
}
use hla4_rs.Omt.Fom.{
  MergedFom, AttributeDef, ParameterDef, object_class_handle, object_class_def, attribute_handle,
  interaction_class_handle, interaction_class_def, parameter_handle,
}
use hla4_rs.Rti.Exception.{
  HlaException, federate_not_execution_member, name_not_found, invalid_object_class_handle,
  invalid_interaction_class_handle, attribute_not_defined, interaction_parameter_not_defined,
}
use hla4_rs.Rti.Handles.{
  encode_object_class, encode_attribute, encode_interaction_class, encode_parameter,
  decode_object_class, decode_attribute, decode_interaction_class, decode_parameter,
}
use hla4_rs.Rti.State.{
  Federation, SessionContext, Resp, exception_data, get_object_class_handle_response,
  get_attribute_handle_response, get_interaction_class_handle_response,
  get_parameter_handle_response, get_object_class_name_response, get_attribute_name_response,
  get_interaction_class_name_response, get_parameter_name_response,
}
pub mod RoundTrip
mod Examples

-- The attribute of a class that has the handle.
unfoldable pub find_attribute_name : MergedFom → ℕ → ℕ → List AttributeDef → Option String
unfolding attribute_handle
find_attribute_name fom class attr [] = none
find_attribute_name fom class attr (a ∷ attributes) =
    let rest = find_attribute_name fom class attr attributes in
    elim (attribute_handle fom class a.name) [
      | none ↦ rest
      | some h ↦ if h == attr then some a.name else rest
    ]

unfoldable pub find_parameter_name : MergedFom → ℕ → ℕ → List ParameterDef → Option String
unfolding parameter_handle
find_parameter_name fom class param [] = none
find_parameter_name fom class param (p ∷ parameters) =
    let rest = find_parameter_name fom class param parameters in
    elim (parameter_handle fom class p.name) [
      | none ↦ rest
      | some h ↦ if h == param then some p.name else rest
    ]

module _ {T : Type 0} (ctx : SessionContext) (federation : Federation T) where
  unfoldable pub get_object_class_handle : String → Resp
  unfolding object_class_handle encode_object_class
  get_object_class_handle name = elim ctx.membership [
    | none ↦ exception_data federate_not_execution_member
    | some m ↦ elim (object_class_handle federation.fom name) [
      | none ↦ exception_data name_not_found
      | some h ↦ get_object_class_handle_response (encode_object_class h)
    ]
  ]

  unfoldable pub get_object_class_name : List ℕ → Resp
  unfolding object_class_def decode_object_class
  get_object_class_name h = elim ctx.membership [
    | none ↦ exception_data federate_not_execution_member
    | some m ↦ elim (decode_object_class h) [
      | err n ↦ exception_data n
      | ok handle ↦ elim (object_class_def federation.fom handle) [
        | none ↦ exception_data invalid_object_class_handle
        | some d ↦ get_object_class_name_response d.name
      ]
    ]
  ]

  unfoldable pub get_attribute_handle : List ℕ → String → Resp
  unfolding object_class_def decode_object_class attribute_handle encode_attribute
  get_attribute_handle class attr_name = elim ctx.membership [
    | none ↦ exception_data federate_not_execution_member
    | some m ↦ elim (decode_object_class class) [
      | err n ↦ exception_data n
      | ok c ↦ elim (object_class_def federation.fom c) [
        | none ↦ exception_data invalid_object_class_handle
        | some _ ↦ elim (attribute_handle federation.fom c attr_name) [
          | none ↦ exception_data name_not_found
          | some h ↦ get_attribute_handle_response (encode_attribute h)
        ]
      ]
    ]
  ]

  unfoldable pub get_attribute_name : List ℕ → List ℕ → Resp
  unfolding object_class_def decode_object_class decode_attribute find_attribute_name
  get_attribute_name class attr = elim ctx.membership [
    | none ↦ exception_data federate_not_execution_member
    | some m ↦ elim (decode_object_class class) [
      | err n ↦ exception_data n
      | ok c ↦ elim (decode_attribute attr) [
        | err n ↦ exception_data n
        | ok a ↦ elim (object_class_def federation.fom c) [
          | none ↦ exception_data invalid_object_class_handle
          | some def ↦ elim (find_attribute_name federation.fom c a def.attributes) [
            | none ↦ exception_data attribute_not_defined
            | some name ↦ get_attribute_name_response name
          ]
        ]
      ]
    ]
  ]

  unfoldable pub get_interaction_class_handle : String → Resp
  unfolding interaction_class_handle encode_interaction_class
  get_interaction_class_handle name = elim ctx.membership [
    | none ↦ exception_data federate_not_execution_member
    | some m ↦ elim (interaction_class_handle federation.fom name) [
      | none ↦ exception_data name_not_found
      | some h ↦ get_interaction_class_handle_response (encode_interaction_class h)
    ]
  ]

  unfoldable pub get_interaction_class_name : List ℕ → Resp
  unfolding interaction_class_def decode_interaction_class
  get_interaction_class_name h = elim ctx.membership [
    | none ↦ exception_data federate_not_execution_member
    | some m ↦ elim (decode_interaction_class h) [
      | err n ↦ exception_data n
      | ok handle ↦ elim (interaction_class_def federation.fom handle) [
        | none ↦ exception_data invalid_interaction_class_handle
        | some d ↦ get_interaction_class_name_response d.name
      ]
    ]
  ]

  unfoldable pub get_parameter_handle : List ℕ → String → Resp
  unfolding interaction_class_def decode_interaction_class parameter_handle encode_parameter
  get_parameter_handle class param_name = elim ctx.membership [
    | none ↦ exception_data federate_not_execution_member
    | some m ↦ elim (decode_interaction_class class) [
      | err n ↦ exception_data n
      | ok c ↦ elim (interaction_class_def federation.fom c) [
        | none ↦ exception_data invalid_interaction_class_handle
        | some _ ↦ elim (parameter_handle federation.fom c param_name) [
          | none ↦ exception_data name_not_found
          | some h ↦ get_parameter_handle_response (encode_parameter h)
        ]
      ]
    ]
  ]

  unfoldable pub get_parameter_name : List ℕ → List ℕ → Resp
  unfolding interaction_class_def decode_interaction_class decode_parameter find_parameter_name
  get_parameter_name class param = elim ctx.membership [
    | none ↦ exception_data federate_not_execution_member
    | some m ↦ elim (decode_interaction_class class) [
      | err n ↦ exception_data n
      | ok c ↦ elim (decode_parameter param) [
        | err n ↦ exception_data n
        | ok p ↦ elim (interaction_class_def federation.fom c) [
          | none ↦ exception_data invalid_interaction_class_handle
          | some def ↦ elim (find_parameter_name federation.fom c p def.parameters) [
            | none ↦ exception_data interaction_parameter_not_defined
            | some name ↦ get_parameter_name_response name
          ]
        ]
      ]
    ]
  ]
