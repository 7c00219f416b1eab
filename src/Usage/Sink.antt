-- ===== src/Usage/Sink.antt =====
-- ElasticsearchSink: internal/usagecollector/elasticsearch.go, and CollectorConfig.Validate:
-- internal/usagecollector/config.go. Encoding and
-- sending the request is a parameter.
use singbox_operator.Base.{
  ℕ, suc, String, Bool, true, not, ◌||◌, Option, none, some, List, [], ◌∷◌, ◌==◌, nat_eq, ltb, ℤ,
  ltb_ℤ, pos, is_empty, if◌then◌else◌,
}
use singbox_operator.Usage.Poll.{UsageRecord}

pub record BulkItem : Type 0 where
  pub id : String
  pub status : ℕ

-- The counts of the items and the ids of those that failed, in the order of the response.
pub record Tally : Type 0 where
  pub succeeded : ℕ
  pub failed : ℕ
  pub failed_ids : List String

pub data WriteError : Type 0 where
  sink_closed request_failed parse_failed : WriteError
  http_status : ℕ → WriteError
  bulk_partial_failure : Tally → WriteError

-- Created, or already there.
abbrev pub is_success : BulkItem → Bool
is_success item = nat_eq item.status 201 || nat_eq item.status 409

abbrev pub count_item : BulkItem → Tally → Tally
count_item item t = if is_success item then record t { succeeded = suc t.succeeded } else record t {
  failed = suc t.failed;
  failed_ids = if item.id == "" then t.failed_ids else item.id ∷ t.failed_ids;
}

unfoldable pub tally : List BulkItem → Tally
tally [] = record { succeeded = 0; failed = 0; failed_ids = [] }
tally (i ∷ is) = count_item i (tally is)

unfoldable pub evaluate_bulk_response : List BulkItem → Option WriteError
evaluate_bulk_response items =
    if nat_eq (tally items).failed 0 then none else some (bulk_partial_failure (tally items))

pub record ElasticsearchSink : Type 0 where
  pub closed : Bool

-- A response whose body was read: the items in it, `none` if it does not parse.
pub record Response : Type 0 where
  pub status_code : ℕ
  pub items : Option (List BulkItem)

-- Sends one bulk request with a document for each record; `none` if encoding or sending it, or
-- reading the answer, fails.
abbrev pub Send : Type 0
Send = List UsageRecord → Option Response

abbrev pub evaluate_items : Option (List BulkItem) → Option WriteError
evaluate_items none = some parse_failed
evaluate_items (some items) = evaluate_bulk_response items

abbrev pub evaluate_answer : Option Response → Option WriteError
evaluate_answer none = some request_failed
evaluate_answer (some r) =
    if not (ltb r.status_code 300) then some (http_status r.status_code) else evaluate_items r.items

unfoldable pub write : Send → ElasticsearchSink → List UsageRecord → Option WriteError
write send sink batch =
    if sink.closed
    then some sink_closed
    else if is_empty batch
    then none
    else evaluate_answer (send batch)

unfoldable pub close : ElasticsearchSink → ElasticsearchSink
close sink = if sink.closed then sink else record { closed = true }

-- CollectorConfig; durations in nanoseconds.
pub record CollectorConfig : Type 0 where
  pub enabled : Bool
  pub poll_interval : ℤ
  pub node_timeout : ℤ
  pub es_endpoint : String
  pub es_data_stream : String
  pub max_buffer_size : ℤ
  pub shutdown_timeout : ℤ

abbrev pub is_positive : ℤ → Bool
is_positive n = ltb_ℤ (pos 0) n

-- The field that the first error is about.
unfoldable pub validate : CollectorConfig → Option String
validate c =
    if not c.enabled
    then none
    else if not (is_positive c.poll_interval)
    then some "PollInterval"
    else if not (is_positive c.node_timeout)
    then some "NodeTimeout"
    else if not (is_positive c.max_buffer_size)
    then some "MaxBufferSize"
    else if not (is_positive c.shutdown_timeout)
    then some "ShutdownTimeout"
    else if c.es_endpoint == ""
    then some "ESEndpoint"
    else if c.es_data_stream == ""
    then some "ESDataStream"
    else none
