-- ===== src/Types/Topic.antt =====
-- srad-types/src/topic.rs and `validate_name` of srad-types/src/utils.rs: the topics of messages.
use srad.Prelude.{ℕ, Bool, true, false, [], ◌∷◌, ◌++◌, ◌==◌, ◌||◌, if◌then◌else◌, Result, ok, err}
use srad.Types.Text
use srad.Types.Text.{Text, text, spbv01}

pub data DeviceMessage : Type 0 where
  dbirth : DeviceMessage
  ddeath : DeviceMessage
  ddata : DeviceMessage
  dcmd : DeviceMessage

abbrev pub device_as_str : DeviceMessage → Text
device_as_str DeviceMessage.dbirth = Text.dbirth
device_as_str DeviceMessage.ddeath = Text.ddeath
device_as_str DeviceMessage.ddata = Text.ddata
device_as_str DeviceMessage.dcmd = Text.dcmd

pub data NodeMessage : Type 0 where
  nbirth : NodeMessage
  ndeath : NodeMessage
  ndata : NodeMessage
  ncmd : NodeMessage

abbrev pub node_as_str : NodeMessage → Text
node_as_str NodeMessage.nbirth = Text.nbirth
node_as_str NodeMessage.ndeath = Text.ndeath
node_as_str NodeMessage.ndata = Text.ndata
node_as_str NodeMessage.ncmd = Text.ncmd

abbrev pub slash : ℕ
slash = 47

unfoldable pub node_topic_raw : Text → Text → Text → Text
node_topic_raw group_id message_type node_id =
    spbv01 ++ slash ∷ (group_id ++ slash ∷ (message_type ++ slash ∷ node_id))

unfoldable pub node_topic : Text → NodeMessage → Text → Text
unfolding node_topic_raw
node_topic group_id message_type node_id =
    node_topic_raw group_id (node_as_str message_type) node_id

unfoldable pub device_topic : Text → DeviceMessage → Text → Text → Text
device_topic group_id message_type node_id device_id =
    spbv01
    ++ slash
      ∷ (group_id ++ slash ∷ (device_as_str message_type ++ slash ∷ (node_id ++ slash ∷ device_id)))

unfoldable pub state_host_topic : Text → Text
state_host_topic host_id = spbv01 ++ slash ∷ (Text.state ++ slash ∷ host_id)

unfoldable pub state_sub_topic : Text
unfolding state_host_topic
state_sub_topic = state_host_topic (text "#")

pub data QoS : Type 0 where
  at_most_once : QoS
  at_least_once : QoS

pub record NodeTopic : Type 0 where
  pub topic : Text
  pub message_type : NodeMessage

pub record DeviceTopic : Type 0 where
  pub topic : Text
  pub message_type : DeviceMessage

pub record StateTopic : Type 0 where
  pub topic : Text

-- `for_node` and `for_device` are the variants `NodeTopic` and `DeviceTopic`.
pub data Topic : Type 0 where
  for_node : NodeTopic → Topic
  for_device : DeviceTopic → Topic
  state : StateTopic → Topic
  node : Text → Text → Topic
  group : Text → Topic
  full_namespace : Topic

-- `From<Topic> for String`
unfoldable pub topic_string : Topic → Text
topic_string (Topic.for_node t) = t.topic
topic_string (Topic.for_device t) = t.topic
topic_string (Topic.state t) = t.topic
topic_string (Topic.node group_id node_id) =
    spbv01 ++ slash ∷ (group_id ++ (text "/+/" ++ (node_id ++ text "/#")))
topic_string (Topic.group id) = spbv01 ++ slash ∷ (id ++ text "/+/#")
topic_string Topic.full_namespace = spbv01 ++ text "/#"

pub record TopicFilter : Type 0 where
  pub topic : Topic
  pub qos : QoS

-- The characters '+', '/' and '#', which are single bytes that occur in no other character.
abbrev pub is_reserved : ℕ → Bool
is_reserved c = c == 43 || c == slash || c == 35

abbrev pub any_reserved : Text → Bool
any_reserved [] = false
any_reserved (c ∷ cs) = if is_reserved c then true else any_reserved cs

unfoldable pub validate_name : Text → Result Text (Unit {0})
validate_name [] = err (text "name string must not be empty")
validate_name (c ∷ cs) =
    if any_reserved (c ∷ cs)
    then err
        (text "name string " ++ ((c ∷ cs) ++ text " cannot contain '+', '/' or '#' characters"))
    else ok tt
