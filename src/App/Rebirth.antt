-- ===== src/App/Rebirth.antt =====
-- srad-app/src/generic_app.rs: the reasons for a rebirth request and the configuration that
-- allows them. A `Duration` is a number of nanoseconds.
use srad.Prelude.{ℕ, ◌*◌, ◌^◌, Bool, true, false, Option, some, is_some}

pub data RebirthReason : Type 0 where
  invalid_payload : RebirthReason
  out_of_sync_bdseq : RebirthReason
  unknown_node : RebirthReason
  unknown_device : RebirthReason
  unknown_metric : RebirthReason
  reorder_timeout : RebirthReason
  reorder_fail : RebirthReason
  recorded_state_stale : RebirthReason

pub record RebirthConfig : Type 0 where
  pub rebirth_cooldown : ℕ
  pub invalid_payload : Bool
  pub out_of_sync_bdseq : Bool
  pub unknown_node : Bool
  pub unknown_device : Bool
  pub unknown_metric : Bool
  pub reorder_failure : Bool
  pub recorded_state_stale : Bool
  pub reorder_timeout : Option ℕ

unfoldable pub evaluate_rebirth_reason : RebirthConfig → RebirthReason → Bool
evaluate_rebirth_reason c RebirthReason.invalid_payload = c.invalid_payload
evaluate_rebirth_reason c RebirthReason.out_of_sync_bdseq = c.out_of_sync_bdseq
evaluate_rebirth_reason c RebirthReason.unknown_node = c.unknown_node
evaluate_rebirth_reason c RebirthReason.unknown_device = c.unknown_device
evaluate_rebirth_reason c RebirthReason.unknown_metric = c.unknown_metric
evaluate_rebirth_reason c RebirthReason.reorder_timeout = is_some c.reorder_timeout
evaluate_rebirth_reason c RebirthReason.reorder_fail = c.reorder_failure
evaluate_rebirth_reason c RebirthReason.recorded_state_stale = c.recorded_state_stale

abbrev pub from_secs : ℕ → ℕ
from_secs s = s * 10 ^ 9

-- `Default for RebirthConfig`
abbrev pub default : RebirthConfig
default = record {
  rebirth_cooldown = from_secs 5;
  invalid_payload = false;
  out_of_sync_bdseq = true;
  unknown_node = true;
  unknown_device = true;
  unknown_metric = true;
  reorder_failure = true;
  recorded_state_stale = true;
  reorder_timeout = some (from_secs 3);
}
