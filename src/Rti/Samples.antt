-- ===== src/Rti/Samples.antt =====
-- A node and a federation with two members, for the examples.
use hla4_rs.Prelude.{ℕ, ◌+◌, List, [], ◌∷◌, none, some}
use hla4_rs.Prelude.Int.{pos}
use hla4_rs.Omt.Fom.{MergedFom}
use hla4_rs.Rti.Defaults.{default_pub_sub, default_switches, default_time}
use hla4_rs.Rti.Subscriptions.{empty_matrix}
use hla4_rs.Rti.State.{Federation, FederateSession, PubSubState, TimeState, Node, SessionContext}

abbrev pub no_pub_sub : PubSubState
no_pub_sub = default_pub_sub

abbrev pub member : {T : Type 0} → ℕ → TimeState T → FederateSession T
member handle time = record {
  handle = handle;
  name = "member";
  federate_type = "test";
  session_id = handle + 100;
  pub_sub = no_pub_sub;
  time = time;
  switches = default_switches;
  tso_queue = [];
}

abbrev pub empty_fom : MergedFom
empty_fom = record {
  object_classes = [];
  interaction_classes = [];
  object_class_table = [];
  interaction_class_table = [];
  attribute_table = [];
  parameter_table = [];
  dimension_table = [];
}

abbrev pub federation_of : {T : Type 0} → List (ℕ × FederateSession T) → Federation T
federation_of federates = record {
  name = "test";
  fom = empty_fom;
  federates = federates;
  object_instances = [];
  subscriptions = empty_matrix;
  sync_points = [];
  regions = [];
  next_region_id = 1;
  current_save = none;
  last_save_label = none;
  next_object_id = 1;
  next_federate_id = 3;
}

abbrev pub at_zero : TimeState ℕ
at_zero = default_time 0

abbrev pub two_federates : Federation ℕ
two_federates = federation_of ((1, member 1 at_zero) ∷ (2, member 2 at_zero) ∷ [])

abbrev pub node : Node
node = record {
  connections =
      (101, record { session_id = 101; next_outbound_seq = pos 0 })
      ∷ (102, record { session_id = 102; next_outbound_seq = pos 0 })
      ∷ [];
}

abbrev pub session_of : ℕ → SessionContext
session_of f = record {
  session_id = f + 100;
  membership = some (record { federate_handle = f; federate_name = "member" });
}
