-- ===== src/Rti/Declaration/Classes.antt =====
-- crates/hla-rti/src/dispatch/mod.rs: the two calls of declaration management on a whole class.
use hla4_rs.Prelude.{ℕ, List, Option, none, some}
use hla4_rs.Prelude.Eq.{nat_eq}
use hla4_rs.Prelude.Map.{remove}
use hla4_rs.Rti.Exception.{federate_not_execution_member, invalid_object_class_handle}
use hla4_rs.Rti.Handles.{decoded, decode_object_class}
use hla4_rs.Rti.Subscriptions.{remove_class}
use hla4_rs.Rti.State.{
  Federation, SessionContext, unpublish_object_class_response, unsubscribe_object_class_response,
}
use hla4_rs.Rti.Handler.{Outcome, exception_variant}
use hla4_rs.Rti.Declaration.{update_pub_sub}
use hla4_rs.Rti.Declaration.Handlers.{done}

-- What an unsubscription writes; the matrix loses the class for every federate.
unfoldable pub removed_class : {T : Type 0} → Federation T → ℕ → ℕ → Federation T
unfolding update_pub_sub remove remove_class
removed_class federation fh class =
    let noted =
      update_pub_sub fh (λ ps. record ps { subscribed_attrs = remove class ps.subscribed_attrs })
        federation in
    record noted { subscriptions = remove_class noted.subscriptions class }

module _ {T : Type 0} (ctx : SessionContext) (federation : Federation T) where
  unfoldable pub unpublish_object_class : Option (List ℕ) → Outcome T
  unfolding decode_object_class update_pub_sub remove
  unpublish_object_class class = elim ctx.membership [
    | none ↦ exception_variant federation federate_not_execution_member
    | some m ↦ elim (decoded decode_object_class class) [
      | none ↦ exception_variant federation invalid_object_class_handle
      | some class' ↦
          done
            (update_pub_sub m.federate_handle
              (λ ps. record ps { published_attrs = remove class' ps.published_attrs }) federation)
            unpublish_object_class_response
    ]
  ]

  unfoldable pub unsubscribe_object_class : Option (List ℕ) → Outcome T
  unfolding decode_object_class removed_class
  unsubscribe_object_class class = elim ctx.membership [
    | none ↦ exception_variant federation federate_not_execution_member
    | some m ↦ elim (decoded decode_object_class class) [
      | none ↦ exception_variant federation invalid_object_class_handle
      | some class' ↦
          done (removed_class federation m.federate_handle class') unsubscribe_object_class_response
    ]
  ]
