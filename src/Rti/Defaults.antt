-- ===== src/Rti/Defaults.antt =====
-- crates/hla-rti/src/lib.rs: the values that a federation and a federate start with.
use Prim.Native.String.{String}
use hla4_rs.Prelude.{[], true, false, none}
use hla4_rs.Omt.Fom.{MergedFom}
use hla4_rs.Rti.Subscriptions.{empty_matrix}
use hla4_rs.Rti.State.{Federation, PubSubState, TimeState, Switches, no_action}

-- `PubSubState::default()`
abbrev pub default_pub_sub : PubSubState
default_pub_sub = record {
  published_attrs = [];
  subscribed_attrs = [];
  published_interactions = [];
  subscribed_interactions = [];
  discovered_instances = [];
  subscribed_attrs_regions = [];
  subscribed_directed_interactions = [];
  published_directed_interactions = [];
}

-- `Switches::default()`
abbrev pub default_switches : Switches
default_switches = record {
  object_class_relevance_advisory = true;
  attribute_relevance_advisory = true;
  attribute_scope_advisory = true;
  interaction_relevance_advisory = true;
  convey_region_designator_sets = false;
  service_reporting = false;
  exception_reporting = false;
  send_service_reports_to_file = false;
  auto_provide = false;
  delay_subscription_evaluation = false;
  advisories_use_known_class = false;
  allow_relaxed_ddm = true;
  non_regulated_grant = false;
  automatic_resign_directive = no_action;
}

-- `TimeState::default()`, from the time 0.0
abbrev pub default_time : {T : Type 0} → T → TimeState T
default_time zero = record {
  is_regulating = false;
  is_constrained = false;
  current_time = zero;
  lookahead = zero;
  pending_advance = none;
}

-- `Federation::new`
abbrev pub new_federation : {T : Type 0} → String → MergedFom → Federation T
new_federation name fom = record {
  name = name;
  fom = fom;
  federates = [];
  object_instances = [];
  subscriptions = empty_matrix;
  sync_points = [];
  regions = [];
  next_region_id = 1;
  current_save = none;
  last_save_label = none;
  next_object_id = 1;
  next_federate_id = 1;
}
