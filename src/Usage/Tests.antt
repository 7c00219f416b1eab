-- ===== src/Usage/Tests.antt =====
-- The usage collector on small inputs, and its theorems at them.
use singbox_operator.Base.{
  ◌↔◌, ◌⊎◌, all, is_empty, none, false, cut_at, ◌%◌, true, false, none, some, List, [], ◌∷◌, ◌==◌,
  ◌≡◌, refl, inl, length, if◌then◌else◌,
}
use singbox_operator.Engine.Types.{virtual_user_name}
use singbox_operator.Usage.Counters.{split_from, cut, after_prefix, parse_user_counter_name}
use singbox_operator.Usage.Poll.{
  UsageRecord, CollectTarget, modulus, Stats, add_entries, add_targets, poll_cycle,
}
use singbox_operator.Usage.Parsed.{counter_name, parse_user_counter_name-virtual_user_name}
use singbox_operator.Usage.Conserved.{total, written, counted_targets, total-poll_cycle}
use singbox_operator.Usage.Sink.{
  Tally, BulkItem, ElasticsearchSink, Send, tally, evaluate_bulk_response, write, close,
  sink_closed, bulk_partial_failure,
}
use singbox_operator.Usage.Written.{is_stored, counts, Answered, write-close}

parse_user_counter_name-virtual_user_name_example :
    parse_user_counter_name (counter_name (virtual_user_name "ann" "exit-a") "uplink")
    ≡ some (record { user = "ann"; node = "exit-a"; direction = "uplink" })
parse_user_counter_name-virtual_user_name_example =
    parse_user_counter_name-virtual_user_name "ann" "exit-a" "uplink" refl refl refl (inl refl)

abbrev targets : List CollectTarget
targets =
    record { node_name = "in-a"; v2ray_api_addr = "10.0.0.1:9090" }
    ∷ record { node_name = "in-b"; v2ray_api_addr = "10.0.0.2:9090" }
    ∷ []

-- The first node answers with both counters of a user, one of them twice; the second one is down.
abbrev stats : Stats
stats addr =
    if addr == "10.0.0.1:9090"
    then some (
        record { name = "user>>>ann#exit-a>>>traffic>>>uplink"; value = 5 }
        ∷ record { name = "inbound>>>in>>>traffic>>>uplink"; value = 100 }
        ∷ record { name = "user>>>ann#exit-a>>>traffic>>>downlink"; value = 7 }
        ∷ record { name = "user>>>ann#exit-a>>>traffic>>>uplink"; value = 4 }
        ∷ [])
    else none

total-poll_cycle_example :
    total true (written (poll_cycle 60 (some targets) stats)) % modulus
    ≡ counted_targets true stats targets % modulus
total-poll_cycle_example = total-poll_cycle true 60 targets stats

abbrev ann : UsageRecord
ann = record {
  timestamp = 60;
  user = "ann";
  inbound_node = "in-a";
  node = "exit-a";
  uplink_bytes = 9;
  downlink_bytes = 7;
  collected_at = 60;
}

abbrev batch_of_two : List UsageRecord
batch_of_two = ann ∷ record ann { user = "bob" } ∷ []

abbrev one_refused : List BulkItem
one_refused = record { id = "a"; status = 201 } ∷ record { id = "b"; status = 400 } ∷ []

abbrev open_sink : ElasticsearchSink
open_sink = record { closed = false }

abbrev send_items : Send
send_items batch = some (record { status_code = 200; items = some one_refused })

write-close_example :
    ((write send_items open_sink batch_of_two ≡ none) ↔ (
      (open_sink.closed ≡ false)
      × ((is_empty batch_of_two ≡ true)
          ⊎ ((items : List BulkItem) × Answered (send_items batch_of_two) items
              × (all is_stored items ≡ true)))))
    × ((t : Tally)
        → write send_items open_sink batch_of_two ≡ some (bulk_partial_failure t)
        → (items : List BulkItem) × Answered (send_items batch_of_two) items × (t ≡ counts items))
    × ((other : List UsageRecord) → write send_items (close open_sink) other ≡ some sink_closed)
    × (close (close open_sink) ≡ close open_sink)
write-close_example = write-close send_items open_sink batch_of_two

merged_uplink : total true (written (poll_cycle 60 (some targets) stats)) ≡ 9
unfolding poll_cycle add_targets add_entries parse_user_counter_name split_from cut cut_at
    after_prefix
merged_uplink = refl

merged_into_one : length (written (poll_cycle 60 (some targets) stats)) ≡ 1
unfolding poll_cycle add_targets add_entries parse_user_counter_name split_from cut cut_at
    after_prefix
merged_into_one = refl

named_failures :
    evaluate_bulk_response one_refused
    ≡ some (bulk_partial_failure (record { succeeded = 1; failed = 1; failed_ids = "b" ∷ [] }))
unfolding evaluate_bulk_response tally
named_failures = refl
