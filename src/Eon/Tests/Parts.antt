-- ===== src/Eon/Tests/Parts.antt =====
-- Tests of the names, aliases and ids of an edge node, and of a device that is disabled.
use srad.Prelude.{ℕ, ◌≡◌, ◌≢◌, refl, true, false, none, some, List, [], ◌∷◌, contains, arith, map}
use srad.Types.Text.{Text, text}
use srad.Types.Payload.{Payload, fields}
use srad.Types.Payload
use srad.Eon.Ids.{next_free}
use srad.Eon.Ids.Free.{IsFree, next_free-IsFree}
use srad.Eon.Birth
use srad.Eon.Birth.{
  BirthInitializer, BirthMetricDetails, Registration, metric, node, device, custom, no_alias,
  initialise_birth, generate_alias, two_32, push, identify, into_metric_value,
}
use srad.Eon.Birth.Names.{HasNames, initialise_birth-HasNames}
use srad.Eon.Birth.Aliases.{HasAliases, initialise_birth-HasAliases, generate_alias-other, aliases}
use srad.Eon.State.{Core}
use srad.Eon.Device.{Device, ask_rebirth, device_turn, born, birth}
use srad.Eon.Device.Silent.{IsSilent, device_turn-IsSilent}
use srad.Eon.DeviceMap
use srad.Eon.DeviceMap.{DeviceMap}
use srad.Eon.DeviceMap.Ids.{Identified}
use srad.Eon.DeviceMap.Changes.{adds, removes, changed, changed-Identified}
use srad.Eon.Tests.{temperature, world}

-- Every name has the same hash.
abbrev same_hash : Text → ℕ
same_hash name = 4294967295

-- From 254 on, of the numbers below 256: 254, 255 and 0 are taken.
next_free-IsFree_example :
    IsFree 256 254 (0 ∷ 255 ∷ 254 ∷ []) (next_free 256 3 (0 ∷ 255 ∷ 254 ∷ []) 254)
next_free-IsFree_example = next_free-IsFree 256 254 (0 ∷ 255 ∷ 254 ∷ []) (omega arith) (omega arith)

next_free_test : next_free 256 3 (0 ∷ 255 ∷ 254 ∷ []) 254 ≡ 1
unfolding next_free contains
next_free_test = refl

abbrev pressure : BirthMetricDetails Payload.Value
pressure = record temperature { name = text "pressure" }

-- The second temperature is refused.
abbrev registrations : List Registration
registrations = metric temperature ∷ metric temperature ∷ metric pressure ∷ []

abbrev on_node : BirthInitializer
unfolding Birth.new
on_node = Birth.new node []

initialise_birth-HasNames_example : HasNames (initialise_birth same_hash registrations on_node)
unfolding on_node Birth.new
initialise_birth-HasNames_example =
    initialise_birth-HasNames same_hash registrations on_node (record { names = refl; unique = tt })

initialise_birth-HasAliases_example : HasAliases (initialise_birth same_hash registrations on_node)
unfolding on_node Birth.new
initialise_birth-HasAliases_example =
    initialise_birth-HasAliases same_hash registrations on_node (λ c. c, (λ c. c, (λ c. c, tt)))
      (omega arith) (omega arith) (record { taken = refl; unique = tt })

-- The hashes of the two names are equal: the second alias is the next number.
aliases_test :
    aliases (initialise_birth same_hash registrations on_node).birth_metrics
    ≡ 4294967295 ∷ 4294967296 ∷ []
unfolding on_node Birth.new initialise_birth push identify into_metric_value contains Payload.new
    Payload.set_name Payload.set_datatype Payload.set_alias
aliases_test = refl

-- An alias that is given twice is not refused.
abbrev given : Registration → Registration
given (metric d) = metric (record d { alias = custom 7 })
given r = r

custom_alias_test :
    aliases (initialise_birth same_hash (map given registrations) on_node).birth_metrics
    ≡ 7 ∷ 7 ∷ []
unfolding on_node Birth.new initialise_birth push identify into_metric_value contains Payload.new
    Payload.set_name Payload.set_datatype Payload.set_alias
custom_alias_test = refl

generate_alias-other_example :
    (generate_alias (λ x. 7) (text "a") (Birth.new (device 1) [])).0
    ≢ (generate_alias (λ x. 7) (text "a") (Birth.new (device 2) [])).0
unfolding Birth.new
generate_alias-other_example =
    generate_alias-other (λ x. 7) (text "a") (text "a") (Birth.new (device 1) [])
      (Birth.new (device 2) []) (omega arith) (omega arith) (omega arith) (omega arith)
      (λ e. omega (arith, e))

-- The hash's last number is taken, so the id of the second device is past the node's.
changed-Identified_example : Identified (
    changed same_hash
      (adds (text "a") ∷ adds (text "b") ∷ removes (text "a") ∷ [])
      (DeviceMap.new []))
changed-Identified_example =
    changed-Identified same_hash [] (adds (text "a") ∷ adds (text "b") ∷ removes (text "a") ∷ [])
      (omega arith)

-- A device that is not enabled, with a birth of its node in its channel.
abbrev disabled : Device
disabled = record {
  birthed = false;
  id = 3;
  name = text "pump";
  template_registry = [];
  enabled = false;
  inbox = born birth [] ∷ [];
  running = true;
}

abbrev shared : Core
shared = record {
  state = record {
    running = true;
    bdseq = 0;
    inner = record {
      seq = 4;
      online = true;
      birthed = true;
      primary_host_online = false;
      last_primary_host_timestamp = none;
    };
    group_id = text "plant";
    edge_node_id = text "node";
    primary_host_id = none;
  };
  calls = [];
}

device_turn-IsSilent_example :
    IsSilent world shared (device_turn world (some ask_rebirth) (disabled, shared))
device_turn-IsSilent_example =
    device_turn-IsSilent world (some ask_rebirth) disabled shared refl refl (λ e. ground (arith, e))
