-- ===== src/Hooks/Samples.antt =====
-- A snap that enables a gate without what it requires, and the theorems about the hook at it.
use snap_openstack.Prelude.{String, Bool, true, false, List, [], ◌∷◌, Option, Outcome, return}
use snap_openstack.Dict
use snap_openstack.Dict.{Dict}
use snap_openstack.Value.{Value, bool, str, Fields, end}
use snap_openstack.Gates.{GateConfig, gate_states, is_on}
use snap_openstack.Gates.Sync.{GateClient}
use snap_openstack.Hooks.{update_default_config, snap_reader, Host}

abbrev gates : Dict GateConfig
gates =
    ("feature.a", record { generally_available = false; requires = "feature.b" ∷ [] })
    ∷ ("feature.b", record { generally_available = false; requires = [] })
    ∷ []

abbrev silent : GateClient (Dict Bool)
silent = record {
  get_feature_gate = λ k w. return false;
  add_feature_gate = λ k c w. return w;
  update_feature_gate = λ k c w. return w;
}

abbrev as_dict : List String → Dict Value → Outcome Fields
as_dict keys options = return end

abbrev compare : Option Value → Option Value → Bool
compare a b = true

abbrev host : Host (Dict Bool)
host = record {
  options = ("feature.a", bool true) ∷ ("deployment.risk", str "edge") ∷ [];
  config = end;
  cluster = [];
  restarts = 0;
}

program : Unit {0}
unfolding update_default_config snap_reader gate_states is_on Dict.get
program = tt
