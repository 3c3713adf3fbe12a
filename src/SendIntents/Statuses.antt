-- ===== src/SendIntents/Statuses.antt =====
-- src/lib/email/send-intents.ts: reports of the provider, in whatever order they arrive.
use mathlib.Core.List.{Memᴰ}
use ticketguy.Prelude.{
  ℕ, ◌≤◌, ◌≡◌, refl, ◌∙◌, String, Bool, false, Option, none, some, List, [], ◌∷◌, map, arith, find,
  if◌then◌else◌, All, Bool-cases, inl, inr, eq_iff,
}
use text.Mathlib.TextPositions.{eq_refl}
use ticketguy.Prelude.Tables.{mem-update_where, map-update_where, Distinct, Distinct-row}
use ticketguy.SendIntents.{
  SendIntent, SendIntents, ProviderStatus, is_failed, failed, is_failure, is_regression,
  terminal_rank, has_message_id, has_id, report_row, apply_to, apply_provider_status, applied,
}

abbrev pub ids_of : SendIntents → List String
ids_of = map (λ (r : SendIntent). r.id)

-- A webhook's report: the provider's message id, the status, the RFC id and the wall clock.
pub record Report : Type 0 where
  pub message_id : String
  pub status : ProviderStatus
  pub rfc_id : Option String
  pub wall : ℕ

pub apply_reports : List Report → SendIntents → SendIntents
apply_reports [] rows = rows
apply_reports (p ∷ ps) rows =
    apply_reports ps (apply_provider_status p.message_id p.status p.rfc_id p.wall rows).0

mem-find :
    {r : SendIntent} (p : SendIntent → Bool) (rows : SendIntents)
    → find p rows ≡ some r
    → Memᴰ r rows
mem-find p [] e = absurd (cc)
mem-find {r} p (x ∷ xs) e = elim (Bool-cases (p x)) [
  | inl t ↦ Memᴰ.head (ground arith)
  | inr f ↦ Memᴰ.tail (mem-find p xs (rw f at e))
]

-- The row `u` is the row `r` with a status at least as final.
abbrev pub Advances : SendIntent → SendIntent → Type 0
Advances r u = (u.id ≡ r.id) × (terminal_rank r.state ≤ terminal_rank u.state)

module _ (status : ProviderStatus) (rfc_id : Option String) (wall : ℕ) (rows : SendIntents) where
  -- the update takes the row that was read, and no other
  report_row-Advances :
      Distinct (ids_of rows)
      → is_failure status ≡ false
      → (q : SendIntent) → Memᴰ q rows
      → is_regression status q ≡ false
      → {r : SendIntent} → Memᴰ r rows
      → Advances r (if has_id q.id r then report_row status rfc_id wall r else r)
  report_row-Advances d ok q mq on {r} m = elim (Bool-cases (has_id q.id r)) [
    | inl e ↦
        let same = Distinct-row (λ (x : SendIntent). x.id) rows d m mq ((eq_iff _ _).0 e) in
        let ranked = rw (← same) at on in rw e (refl, ground arith)
    | inr e ↦ rw e (refl, omega arith)
  ]

  apply_to-Advances :
      Distinct (ids_of rows)
      → is_failure status ≡ false
      → (o : Option SendIntent) → ((q : SendIntent) → o ≡ some q → Memᴰ q rows)
      → {r : SendIntent} → Memᴰ r rows
      → (u : SendIntent) × Memᴰ u (apply_to status rfc_id wall rows o).0 × Advances r u
  unfolding apply_to
  apply_to-Advances d ok none among {r} m = (r, m, (refl, omega arith))
  apply_to-Advances d ok (some q) among {r} m = elim (Bool-cases (is_regression status q)) [
    | inl back ↦ rw back (r, m, (refl, omega arith))
    | inr on ↦ rw on (
      _,
      mem-update_where (has_id q.id) (report_row status rfc_id wall) rows m,
      report_row-Advances d ok q (among q refl) on m,
    )
  ]

pub apply_provider_status-Advances :
    (message_id : String) (status : ProviderStatus) (rfc_id : Option String) (wall : ℕ)
    (rows : SendIntents) {r : SendIntent}
    → is_failure status ≡ false
    → Distinct (ids_of rows)
    → Memᴰ r rows
    → (u : SendIntent) × Memᴰ u (apply_provider_status message_id status rfc_id wall rows).0
      × Advances r u
unfolding apply_provider_status
apply_provider_status-Advances message_id status rfc_id wall rows ok d m =
    apply_to-Advances status rfc_id wall rows d ok (find (has_message_id message_id) rows)
      (λ q e. mem-find (has_message_id message_id) rows e) m

ids-apply_provider_status :
    (message_id : String) (status : ProviderStatus) (rfc_id : Option String) (wall : ℕ)
    (rows : SendIntents)
    → ids_of (apply_provider_status message_id status rfc_id wall rows).0 ≡ ids_of rows
unfolding apply_provider_status
ids-apply_provider_status message_id status rfc_id wall rows =
    same (find (has_message_id message_id) rows)
  where
    same : (o : Option SendIntent) → ids_of (apply_to status rfc_id wall rows o).0 ≡ ids_of rows
    same none = refl
    same (some q) = elim (Bool-cases (is_regression status q)) [
      | inl back ↦ rw back
      | inr on ↦ rw on (
          map-update_where (λ (r : SendIntent). r.id) (has_id q.id) (report_row status rfc_id wall)
            (λ r. refl) rows)
    ]

-- Provider reports that are not failures, in any number and order: no intent's status ever becomes
-- less final than it was, so a bounce or a complaint is never erased by a late delivery.
pub apply_reports-Advances :
    (reports : List Report) (rows : SendIntents) (r : SendIntent)
    → All (λ p. is_failure p.status ≡ false) reports
    → Distinct (ids_of rows)
    → Memᴰ r rows
    → (u : SendIntent) × Memᴰ u (apply_reports reports rows) × Advances r u
unfolding apply_reports
apply_reports-Advances [] rows r ok d m = (r, m, (refl, omega arith))
apply_reports-Advances (p ∷ ps) rows r ok d m =
    let (q, mq, step) =
      apply_provider_status-Advances p.message_id p.status p.rfc_id p.wall rows ok.0 d m in
    let (u, mu, rest) =
      apply_reports-Advances ps _ q ok.1
        (rw (ids-apply_provider_status p.message_id p.status p.rfc_id p.wall rows) d) mq in
    (u, mu, (rest.0 ∙ step.0, omega arith))

-- A failure report is never ignored: whatever state the intent with that message id is in, a
-- complaint or a bounce included, it becomes failed.
pub failure_report_overwrites :
    (message_id : String) (rfc_id : Option String) (wall : ℕ) (rows : SendIntents) (r : SendIntent)
    → find (has_message_id message_id) rows ≡ some r
    → (u : SendIntent) × Memᴰ u (apply_provider_status message_id is_failed rfc_id wall rows).0
      × (u.id ≡ r.id)
      × (u.state ≡ failed)
      × ((apply_provider_status message_id is_failed rfc_id wall rows).1 ≡ applied)
unfolding apply_provider_status apply_to
failure_report_overwrites message_id rfc_id wall rows r e = rw e (
  report_row is_failed rfc_id wall r,
  rw (eq_refl r.id) at
      (mem-update_where (has_id r.id) (report_row is_failed rfc_id wall) rows (mem-find _ rows e)),
  refl,
  refl,
  refl,
)
