-- ===== src/Rti/Handler.antt =====
-- crates/hla-rti/src/dispatch/helpers.rs: what a dispatch handler leaves. A handler takes the node,
-- the session and the federation that the session has joined, and returns the federation, the
-- callbacks that it adds to the queue and its response.
use hla4_rs.Prelude.{ℕ, List, [], ◌∷◌}
use hla4_rs.Rti.Exception.{HlaException}
use mathlib.Core.Option.{Option, none, some}
use hla4_rs.Rti.State.{Membership, Federation, Resp, exception_data}
use hla4_rs.Rti.Routing.{OutboundCallback}

pub record Outcome (T : Type 0) : Type 0 where
  pub federation : Federation T
  pub callbacks : List OutboundCallback
  pub response : Resp

-- The exception is the response, and nothing else happens.
abbrev pub exception_variant : {T : Type 0} → Federation T → HlaException → Outcome T
exception_variant federation kind = record {
  federation = federation;
  callbacks = [];
  response = exception_data kind;
}

abbrev pub single : ℕ → List ℕ
single fh = fh ∷ []

-- The handle under which the session has joined.
abbrev pub handle_of : Option Membership → Option ℕ
handle_of none = none
handle_of (some m) = some m.federate_handle
