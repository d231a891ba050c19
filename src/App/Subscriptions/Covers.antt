-- ===== src/App/Subscriptions/Covers.antt =====
-- The messages that an application is subscribed to.
use srad.Prelude.{
  All, ap₂, Bool, true, false, List, [], ◌∷◌, ◌++◌, ◌||◌, ◌&&◌, map, ◌≡◌, refl, ap, ◌∙◌, arith,
  list_eq, nat_eq, split, ok,
}
use srad.Types.Text
use srad.Types.Text.{Text, text}
use srad.Types.Topic
use srad.Types.Topic.{
  slash, any_reserved, Topic, TopicFilter, topic_string, device_topic, device_as_str, node_topic,
  node_as_str, validate_name,
}
use srad.Client.RoundTrip.{split_part, split-device_topic, split-node_topic, valid-reserved}
use srad.App.Subscriptions.{
  NamespaceSubConfig, SubscriptionConfig, all_groups, single_group, custom, namespace_filter,
  topic_filters,
}

-- A topic matches a filter by MQTT's rules: `+` stands for one level and `#` for all that follow.
abbrev pub parts_match : List Text → List Text → Bool
parts_match [] [] = true
parts_match [] (p ∷ ps) = false
parts_match (f ∷ fs) [] = list_eq.beq f (text "#")
parts_match (f ∷ fs) (p ∷ ps) =
    let rest = parts_match fs ps in
    list_eq.beq f (text "#") || ((list_eq.beq f (text "+") || list_eq.beq f p) && rest)

abbrev pub matches : Text → Text → Bool
matches filter topic = parts_match (split slash filter) (split slash topic)

abbrev pub any_matches : List TopicFilter → Text → Bool
any_matches [] topic = false
any_matches (f ∷ fs) topic = matches (topic_string f.topic) topic || any_matches fs topic

-- The configuration names the group, or the group and the node.
abbrev pub names : NamespaceSubConfig → Text → Text → Bool
names (NamespaceSubConfig.group group_id) g n = list_eq.beq group_id g
names (NamespaceSubConfig.node group_id node_id) g n =
    list_eq.beq group_id g && list_eq.beq node_id n

abbrev pub any_names : List NamespaceSubConfig → Text → Text → Bool
any_names [] g n = false
any_names (c ∷ cs) g n = names c g n || any_names cs g n

abbrev pub includes : SubscriptionConfig → Text → Text → Bool
includes all_groups g n = true
includes (single_group group_id) g n = list_eq.beq group_id g
includes (custom configs) g n = any_names configs g n

abbrev pub IsNamed : NamespaceSubConfig → Type 0
IsNamed (NamespaceSubConfig.group group_id) = validate_name group_id ≡ ok tt
IsNamed (NamespaceSubConfig.node group_id node_id) =
    (validate_name group_id ≡ ok tt) × (validate_name node_id ≡ ok tt)

abbrev pub AllNamed : SubscriptionConfig → Type 0
AllNamed all_groups = Unit
AllNamed (single_group group_id) = validate_name group_id ≡ ok tt
AllNamed (custom configs) = All IsNamed configs

split-group :
    (g : Text)
    → any_reserved g ≡ false
    → split slash (topic_string (Topic.group g)) ≡ Text.spbv01 ∷ g ∷ text "+" ∷ text "#" ∷ []
unfolding topic_string
split-group g h =
    split_part Text.spbv01 (g ++ text "/+/#") refl
    ∙ ap (◌∷◌ Text.spbv01) (split_part g (text "+/#") h)

split-node :
    (g n : Text)
    → any_reserved g ≡ false
    → any_reserved n ≡ false
    → split slash (topic_string (Topic.node g n)) ≡ Text.spbv01 ∷ g ∷ text "+" ∷ n ∷ text "#" ∷ []
unfolding topic_string
split-node g n h k =
    let rest : Text = n ++ text "/#" in
    split_part Text.spbv01 (g ++ (text "/+/" ++ rest)) refl
    ∙ ap (◌∷◌ Text.spbv01) (
        split_part g (text "+/" ++ rest) h ∙ ap (λ x. g ∷ text "+" ∷ x) (split_part n (text "#") k))

-- A valid name is not a wildcard.
not_wildcard :
    (g : Text)
    → any_reserved g ≡ false
    → (list_eq.beq g (text "#") ≡ false) × (list_eq.beq g (text "+") ≡ false)
not_wildcard [] h = (refl, refl)
not_wildcard (c ∷ g) h = ground arith

full_parts : split slash (topic_string Topic.full_namespace) ≡ Text.spbv01 ∷ text "#" ∷ []
unfolding topic_string
full_parts = refl

-- A topic with the levels of a node's or device's message.
module _ (g t n : Text) (rest : List Text) (topic : Text)
    (levels : split slash topic ≡ Text.spbv01 ∷ g ∷ t ∷ n ∷ rest) where
  group-matches :
      (x : Text)
      → any_reserved x ≡ false
      → matches (topic_string (Topic.group x)) topic ≡ list_eq.beq x g
  group-matches x h = rw (split-group x h, levels) (ground (arith, not_wildcard x h))

  node-matches :
      (x y : Text)
      → any_reserved x ≡ false
      → any_reserved y ≡ false
      → matches (topic_string (Topic.node x y)) topic ≡ (list_eq.beq x g && list_eq.beq y n)
  node-matches x y h k =
      rw (split-node x y h k, levels) (ground (arith, not_wildcard x h, not_wildcard y k))

  namespace-matches :
      (c : NamespaceSubConfig)
      → IsNamed c
      → matches (topic_string (namespace_filter c).topic) topic ≡ names c g n
  unfolding namespace_filter
  namespace-matches (NamespaceSubConfig.group x) h = group-matches x (valid-reserved x h)
  namespace-matches (NamespaceSubConfig.node x y) h =
      node-matches x y (valid-reserved x h.0) (valid-reserved y h.1)

  custom-matches :
      (cs : List NamespaceSubConfig)
      → All IsNamed cs
      → any_matches (map namespace_filter cs) topic ≡ any_names cs g n
  custom-matches [] h = refl
  custom-matches (c ∷ cs) h = ap₂ ◌||◌ (namespace-matches c h.0) (custom-matches cs h.1)

  filters-match :
      (c : SubscriptionConfig) → AllNamed c → any_matches (topic_filters c) topic ≡ includes c g n
  unfolding topic_filters
  filters-match all_groups h = rw (full_parts, levels) (ground arith)
  filters-match (single_group x) h = rw (group-matches x (valid-reserved x h)) (ground arith)
  filters-match (custom cs) h = custom-matches cs h

-- An application whose subscription names valid groups and nodes is sent exactly the messages of
-- the groups and nodes that it names, those of nodes and those of devices: one of its topic filters
-- matches the topic of a message, by MQTT's rules, just when the configuration includes the node.
pub topic_filters-includes :
    (c : SubscriptionConfig) (g n d : Text) (nty : Topic.NodeMessage) (dty : Topic.DeviceMessage)
    → AllNamed c
    → validate_name g ≡ ok tt
    → validate_name n ≡ ok tt
    → validate_name d ≡ ok tt
    → (any_matches (topic_filters c) (node_topic g nty n) ≡ includes c g n)
      × (any_matches (topic_filters c) (device_topic g dty n d) ≡ includes c g n)
topic_filters-includes c g n d nty dty h hg hn hd =
    let ug = valid-reserved g hg in
    let un = valid-reserved n hn in
    (
      filters-match g (node_as_str nty) n [] (node_topic g nty n) (split-node_topic g n nty ug un) c
          h,
      filters-match g (device_as_str dty) n (d ∷ []) (device_topic g dty n d)
          (split-device_topic g n d dty ug un (valid-reserved d hd)) c h,
    )
