-- ===== src/ControlApi/Usage/Sums.antt =====
-- The totals of GetUsage in apps/control-api/internal/handler/handler.go.
use openserve.Prelude.{
  ℕ, ◌+◌, ◌&&◌, if◌then◌else◌, bytes_eq, Bytes, select, length, arith, Bool, List, [], ◌∷◌, ◌≡◌,
  refl, ◌∙◌, ap, leb,
}
use openserve.ControlApi.Tables.{InferenceEvent, sort_by, insert_by, order_asc}
use openserve.ControlApi.Usage.{
  DayStat, Totals, add_up, no_totals, add_event, group_by_day, daily, is_recent_of,
}

-- The sum of a number over the elements of a list.
abbrev pub sum_of : {A : Type 0} → (A → ℕ) → List A → ℕ
sum_of f [] = 0
sum_of f (x ∷ xs) = f x + sum_of f xs

module _ {A : Type 0} (f : A → ℕ) (before : A → A → Bool) where
  insert_by-sum : (x : A) (xs : List A) → sum_of f (insert_by before x xs) ≡ f x + sum_of f xs
  unfolding insert_by
  insert_by-sum x [] = refl
  insert_by-sum x (y ∷ ys) = ground (arith, insert_by-sum x ys)

  sort_by-sum : (xs : List A) → sum_of f (sort_by before xs) ≡ sum_of f xs
  unfolding sort_by
  sort_by-sum [] = refl
  sort_by-sum (x ∷ xs) = insert_by-sum x (sort_by before xs) ∙ ap (λ n. f x + n) (sort_by-sum xs)

-- Three sums of a list of days.
abbrev totals_of : List DayStat → Totals
totals_of stats = record {
  requests = sum_of (λ (s : DayStat). s.requests) stats;
  input = sum_of (λ (s : DayStat). s.input_tokens) stats;
  output = sum_of (λ (s : DayStat). s.output_tokens) stats;
}

-- The number of the events, and their tokens.
abbrev pub totals : List InferenceEvent → Totals
totals es = record {
  requests = length es;
  input = sum_of (λ (e : InferenceEvent). e.input_tokens) es;
  output = sum_of (λ (e : InferenceEvent). e.output_tokens) es;
}

abbrev plus : Totals → Totals → Totals
plus t u = record {
  requests = t.requests + u.requests;
  input = t.input + u.input;
  output = t.output + u.output;
}

add_up-sums : (t : Totals) (stats : List DayStat) → add_up t stats ≡ plus t (totals_of stats)
unfolding add_up
add_up-sums t [] = ground arith
add_up-sums t (s ∷ stats) =
    add_up-sums
      (record {
        requests = t.requests + s.requests;
        input = t.input + s.input_tokens;
        output = t.output + s.output_tokens;
      })
      stats
    ∙ ground arith

add_event-sums :
    (e : InferenceEvent) (stats : List DayStat)
    → totals_of (add_event e stats)
      ≡ plus
          (record { requests = 1; input = e.input_tokens; output = e.output_tokens })
          (totals_of stats)
unfolding add_event
add_event-sums e [] = ground arith
add_event-sums e (s ∷ stats) = ground (arith, add_event-sums e stats)

group_by_day-sums : (es : List InferenceEvent) → totals_of (group_by_day es) ≡ totals es
unfolding group_by_day
group_by_day-sums [] = refl
group_by_day-sums (e ∷ es) =
    add_event-sums e (group_by_day es) ∙ ground (arith, group_by_day-sums es)

sorted-sums :
    (before : DayStat → DayStat → Bool) (stats : List DayStat)
    → plus no_totals (totals_of (sort_by before stats)) ≡ totals_of stats
sorted-sums before stats = ground (
  arith,
  sort_by-sum (λ (s : DayStat). s.requests) before stats,
  sort_by-sum (λ (s : DayStat). s.input_tokens) before stats,
  sort_by-sum (λ (s : DayStat). s.output_tokens) before stats,
)

-- The number of an org's events, and their tokens: an event of another org counts nothing, nor does
-- one that is more than thirty days of 86400 seconds old.
abbrev pub org_totals : Bytes → ℕ → List InferenceEvent → Totals
org_totals org_id now [] = record { requests = 0; input = 0; output = 0 }
org_totals org_id now (e ∷ es) =
    let rest = org_totals org_id now es in
    if bytes_eq e.org_id org_id && leb now (e.created_at + 2592000)
    then record {
      requests = 1 + rest.requests;
      input = e.input_tokens + rest.input;
      output = e.output_tokens + rest.output;
    }
    else rest

totals-org_totals :
    (org_id : Bytes) (now : ℕ) (es : List InferenceEvent)
    → totals (select (is_recent_of org_id now) es) ≡ org_totals org_id now es
totals-org_totals org_id now [] = refl
totals-org_totals org_id now (e ∷ es) = ground (arith, totals-org_totals org_id now es)

-- The totals that the handler adds up over the days are the number and the sums of the tokens of
-- the org's own events of the last thirty days, each counted once; other orgs' events and older ones
-- count nothing.
pub add_up-daily :
    (org_id : Bytes) (now : ℕ) (events : List InferenceEvent)
    → add_up no_totals (daily org_id now events) ≡ org_totals org_id now events
unfolding daily order_asc
add_up-daily org_id now events =
    let es = select (is_recent_of org_id now) events in
    let before = λ (x y : DayStat). leb x.day y.day in
    add_up-sums no_totals (sort_by before (group_by_day es))
    ∙ sorted-sums before (group_by_day es)
    ∙ group_by_day-sums es
    ∙ totals-org_totals org_id now events
