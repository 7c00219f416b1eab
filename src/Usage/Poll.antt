-- ===== src/Usage/Poll.antt =====
-- pollCycle: internal/usagecollector/collector.go. An int64 counter is its residue modulo 2^64, and
-- addition wraps around.
use singbox_operator.Base.{
  ℕ, ◌+◌, ◌%◌, String, join, Bool, Option, none, some, List, [], ◌∷◌, StringMap, lookup_or, insert,
  nat_eq, ◌==◌, is_empty, if◌then◌else◌,
}
use singbox_operator.Usage.Counters.{Counter, parse_user_counter_name}

pub record UsageRecord : Type 0 where
  pub timestamp : ℕ
  pub user : String
  pub inbound_node : String
  pub node : String
  pub uplink_bytes : ℕ
  pub downlink_bytes : ℕ
  pub collected_at : ℕ

pub record RawStatEntry : Type 0 where
  pub name : String
  pub value : ℕ

pub record CollectTarget : Type 0 where
  pub node_name : String
  pub v2ray_api_addr : String

-- 2^64
abbrev pub modulus : ℕ
modulus = 18446744073709551616

abbrev pub record_key : String → Counter → String
record_key inbound c = join inbound (join "\0" (join c.user (join "\0" c.node)))

abbrev pub fresh : ℕ → String → Counter → UsageRecord
fresh now inbound c = record {
  timestamp = now;
  user = c.user;
  inbound_node = inbound;
  node = c.node;
  uplink_bytes = 0;
  downlink_bytes = 0;
  collected_at = now;
}

-- `rec.UplinkBytes += value`, or DownlinkBytes.
abbrev pub count_bytes : Bool → ℕ → UsageRecord → UsageRecord
count_bytes uplink value r =
    if uplink
    then record r { uplink_bytes = (r.uplink_bytes + value) % modulus }
    else record r { downlink_bytes = (r.downlink_bytes + value) % modulus }

abbrev pub add_counter :
    ℕ → String → ℕ → Option Counter → StringMap UsageRecord → StringMap UsageRecord
add_counter now inbound value none index = index
add_counter now inbound value (some c) index =
    if nat_eq value 0
    then index
    else insert (record_key inbound c)
        (count_bytes (c.direction == "uplink") value
          (lookup_or (fresh now inbound c) (record_key inbound c) index))
        index

unfoldable pub add_entries :
    ℕ → String → List RawStatEntry → StringMap UsageRecord → StringMap UsageRecord
add_entries now inbound [] index = index
add_entries now inbound (e ∷ es) index =
    add_entries now inbound es
      (add_counter now inbound e.value (parse_user_counter_name e.name) index)

-- What QueryUserStats answers at an address; `none` is an error.
abbrev pub Stats : Type 0
Stats = String → Option (List RawStatEntry)

abbrev pub answered : Option (List RawStatEntry) → List RawStatEntry
answered none = []
answered (some es) = es

-- A node that does not answer is skipped.
unfoldable pub add_targets :
    ℕ → Stats → List CollectTarget → StringMap UsageRecord → StringMap UsageRecord
add_targets now stats [] index = index
add_targets now stats (t ∷ ts) index =
    add_targets now stats ts (add_entries now t.node_name (answered (stats t.v2ray_api_addr)) index)

abbrev pub records : StringMap UsageRecord → List UsageRecord
records [] = []
records ((k, r) ∷ m) = r ∷ records m

-- The batch that is written; `none` if the cycle is skipped or has no record.
unfoldable pub poll_cycle : ℕ → Option (List CollectTarget) → Stats → Option (List UsageRecord)
poll_cycle now none stats = none
poll_cycle now (some targets) stats =
    let batch = records (add_targets now stats targets []) in
    if is_empty batch then none else some batch
