-- ===== src/Usage/Conserved.antt =====
-- The bytes that a cycle reads and writes.
use singbox_operator.Base.{
  ℕ, ◌+◌, ◌%◌, String, Bool, true, false, Option, none, some, List, [], ◌∷◌, StringMap, lookup_or,
  insert, nat_eq, ◌==◌, is_empty, ◌≡◌, refl, ◌∙◌, arith, Bool-cases, inl, inr, if◌then◌else◌,
}
use singbox_operator.Usage.Counters.{Counter, parse_user_counter_name}
use singbox_operator.Usage.Poll.{
  UsageRecord, RawStatEntry, CollectTarget, modulus, record_key, fresh, count_bytes, add_counter,
  add_entries, Stats, answered, add_targets, records, poll_cycle,
}

-- The bytes of a record in one direction.
abbrev pub bytes_in : Bool → UsageRecord → ℕ
bytes_in up r = if up then r.uplink_bytes else r.downlink_bytes

abbrev pub total : Bool → List UsageRecord → ℕ
total up [] = 0
total up (r ∷ rs) = bytes_in up r + total up rs

-- What a counter says about one direction; another name than that of a user's counter says nothing.
abbrev pub counted : Bool → ℕ → Option Counter → ℕ
counted up value none = 0
counted up value (some c) =
    if c.direction == "uplink" then (if up then value else 0) else (if up then 0 else value)

abbrev pub counted_entries : Bool → List RawStatEntry → ℕ
counted_entries up [] = 0
counted_entries up (e ∷ es) =
    counted up e.value (parse_user_counter_name e.name) + counted_entries up es

abbrev pub counted_targets : Bool → Stats → List CollectTarget → ℕ
counted_targets up stats [] = 0
counted_targets up stats (t ∷ ts) =
    counted_entries up (answered (stats t.v2ray_api_addr)) + counted_targets up stats ts

-- Writing a record over the one under its key changes the total by their difference.
total-insert :
    (up : Bool) (k : String) (d r : UsageRecord) (m : StringMap UsageRecord)
    → bytes_in up d ≡ 0
    → total up (records (insert k r m)) + bytes_in up (lookup_or d k m)
      ≡ total up (records m) + bytes_in up r
total-insert up k d r [] h = omega arith
total-insert up k d r ((j, s) ∷ m) h = elim (Bool-cases (j == k)) [
  | inl t ↦
      let hit : lookup_or d k ((j, s) ∷ m) ≡ s = rw (lookup_or, t) in rw hit (rw t (omega arith))
  | inr f ↦
      let miss : lookup_or d k ((j, s) ∷ m) ≡ lookup_or d k m = rw (lookup_or, f) in
      rw miss (rw f (omega (arith, total-insert up k d r m h)))
]

bytes_in-count_bytes :
    (up uplink : Bool) (value : ℕ) (r : UsageRecord)
    → bytes_in up (count_bytes uplink value r) % 18446744073709551616
      ≡ (bytes_in up r + (if uplink then (if up then value else 0) else (if up then 0 else value)))
        % 18446744073709551616
bytes_in-count_bytes true true value r = omega arith
bytes_in-count_bytes true false value r = omega arith
bytes_in-count_bytes false true value r = omega arith
bytes_in-count_bytes false false value r = omega arith

counted_zero :
    (up : Bool) (value : ℕ) (c : Counter) → nat_eq value 0 ≡ true → counted up value (some c) ≡ 0
counted_zero up value c h = ground arith

fresh_zero :
    (up : Bool) (now : ℕ) (inbound : String) (c : Counter) → bytes_in up (fresh now inbound c) ≡ 0
fresh_zero true now inbound c = refl
fresh_zero false now inbound c = refl

total-add_counter :
    (up : Bool) (now : ℕ) (inbound : String) (value : ℕ) (c : Option Counter)
    (index : StringMap UsageRecord)
    → total up (records (add_counter now inbound value c index)) % 18446744073709551616
      ≡ (total up (records index) + counted up value c) % 18446744073709551616
total-add_counter up now inbound value none index = omega arith
total-add_counter up now inbound value (some c) index = elim (Bool-cases (nat_eq value 0)) [
  | inl z ↦ rw (counted_zero up value c z) (rw z (omega arith))
  | inr nz ↦
      let key = record_key inbound c in
      let old = lookup_or (fresh now inbound c) key index in
      rw nz (
        omega (
          arith,
          total-insert up key (fresh now inbound c)
              (count_bytes (c.direction == "uplink") value old) index (fresh_zero up now inbound c),
          bytes_in-count_bytes up (c.direction == "uplink") value old,
        ))
]

total-add_entries :
    (up : Bool) (now : ℕ) (inbound : String) (es : List RawStatEntry)
    (index : StringMap UsageRecord)
    → total up (records (add_entries now inbound es index)) % 18446744073709551616
      ≡ (total up (records index) + counted_entries up es) % 18446744073709551616
unfolding add_entries
total-add_entries up now inbound [] index = omega arith
total-add_entries up now inbound (e ∷ es) index =
    let next = add_counter now inbound e.value (parse_user_counter_name e.name) index in
    omega (
      arith,
      total-add_entries up now inbound es next,
      total-add_counter up now inbound e.value (parse_user_counter_name e.name) index,
    )

total-add_targets :
    (up : Bool) (now : ℕ) (stats : Stats) (ts : List CollectTarget) (index : StringMap UsageRecord)
    → total up (records (add_targets now stats ts index)) % 18446744073709551616
      ≡ (total up (records index) + counted_targets up stats ts) % 18446744073709551616
unfolding add_targets
total-add_targets up now stats [] index = omega arith
total-add_targets up now stats (t ∷ ts) index =
    let es = answered (stats t.v2ray_api_addr) in
    omega (
      arith,
      total-add_targets up now stats ts (add_entries now t.node_name es index),
      total-add_entries up now t.node_name es index,
    )

-- The bytes of the batch that a cycle writes, none if it writes nothing.
abbrev pub written : Option (List UsageRecord) → List UsageRecord
written none = []
written (some batch) = batch

written-total :
    (up : Bool) (batch : List UsageRecord)
    → total up (written (if is_empty batch then none else some batch)) % modulus
      ≡ total up batch % modulus
written-total up [] = refl
written-total up (r ∷ rs) = refl

-- In each direction, the bytes of the records that a cycle writes are those of the users' counters
-- that the nodes answered with, modulo 2^64.
pub total-poll_cycle :
    (up : Bool) (now : ℕ) (targets : List CollectTarget) (stats : Stats)
    → total up (written (poll_cycle now (some targets) stats)) % modulus
      ≡ counted_targets up stats targets % modulus
unfolding poll_cycle
total-poll_cycle up now targets stats =
    let batch = records (add_targets now stats targets []) in
    written-total up batch ∙ (let kept = total-add_targets up now stats targets [] in omega arith)
