-- ===== src/Usage/Written.antt =====
-- What a write reports.
use mathlib.Core.Option.{some-injective}
use singbox_operator.Base.{
  String, ◌++◌, false≢true, ℕ, suc, true, false, not, ◌||◌, Bool, Option, none, some, List, [], ◌∷◌,
  ◌==◌, nat_eq, ltb, length, all, keep, map, is_empty, ◌≡◌, ◌↔◌, ◌⊎◌, ap, sym, ◌∙◌, refl, arith,
  Bool-cases, inl, inr,
}
use singbox_operator.Usage.Poll.{UsageRecord}
use singbox_operator.Usage.Sink.{
  BulkItem, Tally, Response, WriteError, request_failed, evaluate_answer, sink_closed,
  bulk_partial_failure, tally, evaluate_bulk_response, ElasticsearchSink, Send, write, close,
}

-- The status of an item says that its document was created, or is there already.
abbrev pub is_stored : BulkItem → Bool
is_stored i = nat_eq i.status 201 || nat_eq i.status 409

-- The items of either kind, and the ids of those that failed and have one.
abbrev pub counts : List BulkItem → Tally
counts items = record {
  succeeded = length (keep is_stored items);
  failed = length (keep (λ i. not (is_stored i)) items);
  failed_ids = keep (λ id. not (id == "")) (map (λ i. i.id) (keep (λ i. not (is_stored i)) items));
}

abbrev one_stored : Tally → Tally
one_stored t = record t { succeeded = suc t.succeeded }

abbrev one_failed : List String → Tally → Tally
one_failed ids t = record t { failed = suc t.failed; failed_ids = ids ++ t.failed_ids }

tally-counts : (items : List BulkItem) → tally items ≡ counts items
unfolding tally
tally-counts [] = refl
tally-counts (i ∷ is) =
    let rest = tally-counts is in
    elim (Bool-cases (is_stored i)) [
      | inl t ↦ rw t (ap one_stored rest)
      | inr f ↦ rw f (elim (Bool-cases (i.id == "")) [
        | inl e ↦ rw e (ap (one_failed []) rest)
        | inr g ↦ rw g (ap (one_failed (i.id ∷ [])) rest)
      ])
    ]

failed_none : (items : List BulkItem) → nat_eq (counts items).failed 0 ≡ all is_stored items
failed_none [] = refl
failed_none (i ∷ is) = elim (Bool-cases (is_stored i)) [
  | inl t ↦ rw t (failed_none is)
  | inr f ↦ rw f (ground arith)
]

-- The request was answered with a success, and these items.
abbrev pub Answered : Option Response → List BulkItem → Type 0
Answered answer items =
    (r : Response) × (answer ≡ some r) × (ltb r.status_code 300 ≡ true) × (r.items ≡ some items)

-- What a batch that was sent tells.
abbrev pub Told : Option Response → Option WriteError → Type 0
Told answer error =
    ((error ≡ none)
      ↔ ((items : List BulkItem) × Answered answer items × (all is_stored items ≡ true)))
    × ((t : Tally)
        → error ≡ some (bulk_partial_failure t)
        → (items : List BulkItem) × Answered answer items × (t ≡ counts items))

abbrev told_of : Option WriteError → Tally → Tally
told_of (some (bulk_partial_failure t)) u = t
told_of e u = u

abbrev is_partial : Option WriteError → Bool
is_partial (some (bulk_partial_failure t)) = true
is_partial e = false

abbrev items_in : Option Response → Option (List BulkItem)
items_in none = none
items_in (some r) = r.items

abbrev code_below : Option Response → Bool
code_below none = false
code_below (some r) = ltb r.status_code 300

Told-request_failed : Told none (some request_failed)
Told-request_failed = ((λ e. cc, λ (items, (r, answer, ok, rest), h). cc), λ t e. cc)

Told-evaluate_bulk_response :
    (r : Response) (items : List BulkItem)
    → r.items ≡ some items
    → ltb r.status_code 300 ≡ true
    → Told (some r) (evaluate_bulk_response items)
unfolding evaluate_bulk_response
Told-evaluate_bulk_response r items same success =
    let answered : Answered (some r) items = (r, refl, success, same) in
    let none_failed : nat_eq (tally items).failed 0 ≡ all is_stored items =
      ap (λ t. nat_eq t.failed 0) (tally-counts items) ∙ failed_none items in
    elim (Bool-cases (all is_stored items)) [
      | inl t ↦
          let zero_failed : nat_eq (tally items).failed 0 ≡ true = none_failed ∙ t in
          rw zero_failed ((λ e. (items, answered, t), λ x. refl), λ u e. cc)
      | inr f ↦
          let some_failed : nat_eq (tally items).failed 0 ≡ false = none_failed ∙ f in
          rw some_failed (
            (
              λ e. absurd (cc),
              λ (others, (q, is_r, ok, items_of), stored).
                  let q_r : r ≡ q = some-injective r q is_r in
                  let equal : items ≡ others =
                    some-injective items others (sym same ∙ (ap (λ x. x.items) q_r ∙ items_of)) in
                  absurd (false≢true (sym f ∙ (ap (all is_stored) equal ∙ stored))),
            ),
            λ u e. (items, answered, sym (ap (λ o. told_of o u) e) ∙ tally-counts items),
          )
    ]

Told-read :
    (code : ℕ) (read : Option (List BulkItem))
    → Told
        (some (record { status_code = code; items = read }))
        (evaluate_answer (some (record { status_code = code; items = read })))
Told-read code none = elim (Bool-cases (ltb code 300)) [
  | inr f ↦ rw f (
    (
      λ e. absurd (cc),
      λ (items, (q, is_r, ok, items_of), stored).
          let unread : none ≡ some items = ap items_in is_r ∙ items_of in absurd (cc),
    ),
    λ u e. absurd (false≢true (ap is_partial e)),
  )
  | inl ok ↦ rw ok (
    (
      λ e. absurd (cc),
      λ (items, (q, is_r, good, items_of), stored).
          let unread : none ≡ some items = ap items_in is_r ∙ items_of in absurd (cc),
    ),
    λ u e. absurd (false≢true (ap is_partial e)),
  )
]
Told-read code (some items) = elim (Bool-cases (ltb code 300)) [
  | inl ok ↦ rw ok (
      Told-evaluate_bulk_response (record { status_code = code; items = some items }) items refl ok)
  | inr f ↦ rw f (
    (
      λ e. absurd (cc),
      λ (others, (q, is_r, ok, items_of), stored).
          absurd (false≢true (sym f ∙ (ap code_below is_r ∙ ok))),
    ),
    λ u e. absurd (false≢true (ap is_partial e)),
  )
]

Told-evaluate_answer : (answer : Option Response) → Told answer (evaluate_answer answer)
Told-evaluate_answer none = Told-request_failed
Told-evaluate_answer (some r) = Told-read r.status_code r.items

-- A write gives no error exactly when the sink is open and, unless the batch is empty, its request was
-- answered with a status below 300 and with items of which each has the status 201 or 409. A partial
-- failure counts the items of the answer that have these statuses, counts the others, and
-- gives the ids of the others. After the sink is closed, once or twice, every write is refused, of an empty batch too.
pub write-close :
    (send : Send) (sink : ElasticsearchSink) (batch : List UsageRecord)
    → ((write send sink batch ≡ none) ↔ (
        (sink.closed ≡ false)
        × ((is_empty batch ≡ true)
            ⊎ ((items : List BulkItem) × Answered (send batch) items
                × (all is_stored items ≡ true)))))
      × ((t : Tally)
          → write send sink batch ≡ some (bulk_partial_failure t)
          → (items : List BulkItem) × Answered (send batch) items × (t ≡ counts items))
      × ((other : List UsageRecord) → write send (close sink) other ≡ some sink_closed)
      × (close (close sink) ≡ close sink)
unfolding write close
write-close send sink batch =
    let (none_told, partial_told) = Told-evaluate_answer (send batch) in
    elim (Bool-cases sink.closed) [
      | inl shut ↦ rw shut (
        (λ e. absurd (cc), λ (is_open, h). absurd (cc)),
        (λ t e. absurd (false≢true (ap is_partial e))),
        (λ other. refl),
        refl,
      )
      | inr is_open ↦ elim (Bool-cases (is_empty batch)) [
        | inl t ↦
            rw (is_open, t) ((λ e. (refl, inl refl), λ h. refl), (λ t e. cc), (λ other. refl), refl)
        | inr f ↦
            rw (is_open, f)
              (
                (
                  λ e. (refl, inr (none_told.0 e)),
                  λ (o, h). elim h [ inl empty ↦ absurd (cc) | inr told ↦ none_told.1 told ],
                ),
                partial_told,
                (λ other. refl),
                refl,
              )
      ]
    ]
