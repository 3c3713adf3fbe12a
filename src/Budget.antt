-- ===== src/Budget.antt =====
-- src/lib/ai/budget.ts with the table usage_ledger of src/lib/db/schema.ts: reservations of model
-- spend. Amounts are whole millionths of a dollar; the limits, which the source multiplies by a
-- million, are given in that unit. One call is one transaction under its lock.
pub mod Limits
mod Tests
use ticketguy.Prelude.{
  ℕ, ◌+◌, ◌-◌, ◌*◌, ◌%◌, Bool, true, false, ◌&&◌, String, Option, none, some, List, [], ◌∷◌, ◌++◌,
  keep, str_eq, ◌==◌, ltb, leb, if◌then◌else◌,
}
use ticketguy.Prelude.Int.{ℤ, pos, sub_ℕ, ◌+ℤ◌, ltb_ℤ}
use ticketguy.Prelude.Tables.{update_where}

pub data Kind : Type 0 where
  reservation settled released : Kind

pub record LedgerRow : Type 0 where
  pub id : String
  pub request_id : String
  pub revision : ℕ
  pub run_id : Option String
  pub job_name : String
  pub model : String
  pub input_tokens : ℕ
  pub output_tokens : ℕ
  pub tool_calls : ℕ
  pub estimated_usd_micros : ℕ
  pub actual_usd_micros : Option ℕ
  pub kind : Kind
  pub created_at : ℕ

abbrev pub Ledger : Type 0
Ledger = List LedgerRow

-- what a row adds in `SPEND_SQL`: a settled call its actual cost, another one its estimate
abbrev pub charged : LedgerRow → ℕ
charged r = by_kind r.kind r.actual_usd_micros
  where
    by_kind : Kind → Option ℕ → ℕ
    by_kind released actual = 0
    by_kind settled (some actual) = actual
    by_kind _ actual = r.estimated_usd_micros

-- what a row takes off again
abbrev pub returned : LedgerRow → ℕ
returned r = by_kind r.kind
  where
    by_kind : Kind → ℕ
    by_kind released = r.estimated_usd_micros
    by_kind _ = 0

abbrev pub made : LedgerRow → ℕ
made r = by_kind r.kind
  where
    by_kind : Kind → ℕ
    by_kind released = 0
    by_kind _ = 1

abbrev pub unmade : LedgerRow → ℕ
unmade r = by_kind r.kind
  where
    by_kind : Kind → ℕ
    by_kind released = 1
    by_kind _ = 0

unfoldable pub sum_of : (LedgerRow → ℕ) → Ledger → ℕ
sum_of f [] = 0
sum_of f (r ∷ rs) = f r + sum_of f rs

-- `coalesce(sum(…), 0)`: a released row counts negatively
unfoldable pub spend : Ledger → ℤ
spend rows = sub_ℕ (sum_of charged rows) (sum_of returned rows)

unfoldable pub calls_made : Ledger → ℤ
calls_made rows = sub_ℕ (sum_of made rows) (sum_of unmade rows)

abbrev pub of_revision : String → ℕ → LedgerRow → Bool
of_revision request revision r = str_eq r.request_id request && (r.revision == revision)

-- the rows since the start of the day in UTC
abbrev pub since_midnight : ℕ → LedgerRow → Bool
since_midnight now r = leb (now - now % 86400000) r.created_at

pub record BudgetLimits : Type 0 where
  pub request_soft : ℕ
  pub request_hard : ℕ
  pub global_daily : ℕ
  pub max_calls_per_revision : ℕ

pub record ReserveArgs : Type 0 where
  pub request_id : String
  pub revision : ℕ
  pub run_id : Option String
  pub job_name : String
  pub model : String
  pub estimated_usd_micros : ℕ
  pub limits : BudgetLimits
  pub now : ℕ

pub data BudgetScope : Type 0 where
  request_hard_scope global_daily_scope call_count_scope : BudgetScope

pub data Reserved : Type 0 where
  granted : String → Bool → ℤ → Reserved
  budget_exceeded : BudgetScope → Reserved

abbrev pub new_row : ReserveArgs → String → ℕ → LedgerRow
new_row args id created_at = record {
  id = id;
  request_id = args.request_id;
  revision = args.revision;
  run_id = args.run_id;
  job_name = args.job_name;
  model = args.model;
  input_tokens = 0;
  output_tokens = 0;
  tool_calls = 0;
  estimated_usd_micros = args.estimated_usd_micros;
  actual_usd_micros = none;
  kind = reservation;
  created_at = created_at;
}

unfoldable pub reserve_budget : ReserveArgs → String → ℕ → Ledger → Ledger × Reserved
reserve_budget args id created_at rows =
    let mine = keep (of_revision args.request_id args.revision) rows in
    let request_total = spend mine +ℤ pos args.estimated_usd_micros in
    let calls = calls_made mine +ℤ pos 1 in
    let day_total = spend (keep (since_midnight args.now) rows) +ℤ pos args.estimated_usd_micros in
    if ltb_ℤ (pos args.limits.max_calls_per_revision) calls
    then (rows, budget_exceeded call_count_scope)
    else if ltb_ℤ (pos args.limits.request_hard) request_total
    then (rows, budget_exceeded request_hard_scope)
    else if ltb_ℤ (pos args.limits.global_daily) day_total
    then (rows, budget_exceeded global_daily_scope)
    else (
      rows ++ new_row args id created_at ∷ [],
      granted id (ltb_ℤ (pos args.limits.request_soft) request_total) request_total,
    )

pub record Usage : Type 0 where
  pub input_tokens : ℕ
  pub output_tokens : ℕ
  pub tool_calls : ℕ
  pub actual_usd_micros : ℕ

unfoldable pub settle_budget : String → Usage → Ledger → Ledger
settle_budget id usage rows =
    update_where (λ r. str_eq r.id id)
      (λ r. record r {
        input_tokens = usage.input_tokens;
        output_tokens = usage.output_tokens;
        tool_calls = usage.tool_calls;
        actual_usd_micros = some usage.actual_usd_micros;
        kind = settled;
      })
      rows

unfoldable pub release_budget : ReserveArgs → String → ℕ → Ledger → Ledger
release_budget args id created_at rows =
    rows ++ (record (new_row args id created_at) { run_id = none; kind = released }) ∷ []

-- a call outside a reservation: estimate and actual cost are both what its tokens cost
unfoldable pub record_usage : ReserveArgs → Usage → String → ℕ → Ledger → Ledger
record_usage args usage id created_at rows =
    rows
    ++ (record (new_row args id created_at) {
      run_id = none;
      input_tokens = usage.input_tokens;
      output_tokens = usage.output_tokens;
      estimated_usd_micros = usage.actual_usd_micros;
      actual_usd_micros = some usage.actual_usd_micros;
      kind = settled;
    })
      ∷ []
