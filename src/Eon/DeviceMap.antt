-- ===== src/Eon/DeviceMap.antt =====
-- `DeviceMap` of srad-eon/src/device.rs: the devices of a node, their ids, and what the node tells
-- their tasks. A task is known by the number of its channel, which a later device does not get.
pub mod Ids
pub mod Changes
use srad.Prelude.{
  ℕ, ◌+◌, ◌%◌, true, false, Option, none, some, List, [], ◌∷◌, ◌++◌, if◌then◌else◌, Result, ok, err,
  list_eq, nat_eq, Assoc, lookup, insert, is_some, remove, length,
}
use srad.Types.Text.{Text}
use srad.Eon.Ids.{next_free}
use srad.Eon.Birth.{two_32}
use srad.Eon.Templates.{TemplateRegistry}
use srad.Eon.Device.{Device, NodeStateMessage, BirthType, born, dead, removed}

pub data DeviceRegistrationError : Type 0 where
  duplicate_device : DeviceRegistrationError
  invalid_name : Text → DeviceRegistrationError

-- `DeviceMapEntry`; `channel` is the number of the device's task.
pub record DeviceMapEntry : Type 0 where
  pub id : ℕ
  pub channel : ℕ

-- With the tasks that were spawned.
pub record DeviceMap : Type 0 where
  pub device_ids : List ℕ
  pub devices : Assoc Text DeviceMapEntry
  pub template_registry : TemplateRegistry
  pub tasks : Assoc ℕ Device
  pub next_task : ℕ

unfoldable pub new : TemplateRegistry → DeviceMap
new template_registry = record {
  device_ids = [];
  devices = [];
  template_registry = template_registry;
  tasks = [];
  next_task = 0;
}

abbrev pub object_id_node : ℕ
object_id_node = 0

-- The id of the node is never taken. The hash is narrowed to 32 bits.
unfoldable pub generate_device_id : ℕ → DeviceMap → ℕ × DeviceMap
unfolding next_free
generate_device_id hash m =
    let taken = object_id_node ∷ m.device_ids in
    let id = next_free two_32 (length taken) taken (hash % two_32) in
    (id, record m { device_ids = id ∷ m.device_ids })

unfoldable pub remove_device_id : ℕ → DeviceMap → DeviceMap
remove_device_id id m = record m { device_ids = remove id m.device_ids }

abbrev pub insert_device : Text → ℕ × DeviceMap → DeviceMap
insert_device name (id, m) = record m {
  devices = insert name (record { id = id; channel = m.next_task }) m.devices;
  tasks =
      insert m.next_task
        (record {
          birthed = false;
          id = id;
          name = name;
          template_registry = m.template_registry;
          enabled = false;
          inbox = [];
          running = true;
        })
        m.tasks;
  next_task = m.next_task + 1;
}

-- The handle is the number of the task.
unfoldable pub add_device :
    (Text → ℕ) → Text → DeviceMap → Result DeviceRegistrationError (ℕ × DeviceMap)
unfolding generate_device_id
add_device hash name m =
    if is_some (lookup name m.devices)
    then err duplicate_device
    else ok (m.next_task, insert_device name (generate_device_id (hash name) m))

-- `node_state_tx.send`
unfoldable pub send : NodeStateMessage → ℕ → Assoc ℕ Device → Assoc ℕ Device
send message channel tasks = elim (lookup channel tasks) [
  | none ↦ tasks
  | some d ↦ insert channel (record d { inbox = d.inbox ++ message ∷ [] }) tasks
]

unfoldable pub send_all :
    NodeStateMessage → Assoc Text DeviceMapEntry → Assoc ℕ Device → Assoc ℕ Device
unfolding send
send_all message [] tasks = tasks
send_all message ((name, entry) ∷ es) tasks = send_all message es (send message entry.channel tasks)

unfoldable pub without : Text → Assoc Text DeviceMapEntry → Assoc Text DeviceMapEntry
without name [] = []
without name ((k, entry) ∷ es) =
    let rest = without name es in if list_eq.beq k name then rest else (k, entry) ∷ rest

unfoldable pub remove_device : Text → DeviceMap → DeviceMap
unfolding remove_device_id send without
remove_device name m = elim (lookup name m.devices) [
  | none ↦ m
  | some entry ↦
      let m' = remove_device_id entry.id (record m { devices = without name m.devices }) in
      record m' { tasks = send removed entry.channel m'.tasks }
]

unfoldable pub birth_devices : BirthType → TemplateRegistry → DeviceMap → DeviceMap
unfolding send_all
birth_devices ty registry m = record m {
  template_registry = registry;
  tasks = send_all (born ty registry) m.devices m.tasks;
}

unfoldable pub on_death : DeviceMap → DeviceMap
unfolding send_all
on_death m = record m { tasks = send_all dead m.devices m.tasks }
