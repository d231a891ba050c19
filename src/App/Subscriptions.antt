-- ===== src/App/Subscriptions.antt =====
-- srad-app/src/config.rs: the topic filters that an application subscribes to.
pub mod Covers
use srad.Prelude.{List, [], ◌∷◌, map}
use srad.Types.Text.{Text}
use srad.Types.Topic
use srad.Types.Topic.{Topic, TopicFilter, at_most_once}

pub data NamespaceSubConfig : Type 0 where
  group : Text → NamespaceSubConfig
  node : Text → Text → NamespaceSubConfig

unfoldable pub namespace_filter : NamespaceSubConfig → TopicFilter
namespace_filter (NamespaceSubConfig.group group_id) = record {
  topic = Topic.group group_id;
  qos = at_most_once;
}
namespace_filter (NamespaceSubConfig.node group_id node_id) = record {
  topic = Topic.node group_id node_id;
  qos = at_most_once;
}

pub data SubscriptionConfig : Type 0 where
  all_groups : SubscriptionConfig
  single_group : Text → SubscriptionConfig
  custom : List NamespaceSubConfig → SubscriptionConfig

unfoldable pub topic_filters : SubscriptionConfig → List TopicFilter
topic_filters all_groups = record { topic = Topic.full_namespace; qos = at_most_once } ∷ []
topic_filters (single_group group_id) =
    record { topic = Topic.group group_id; qos = at_most_once } ∷ []
topic_filters (custom configs) = map namespace_filter configs
