-- ===== src/Benchmark/Groups.antt =====
-- src/lib/advice/benchmark.ts: the map of snapshots by event, and the representative of each.
use mathlib.Core.List.{Memᴰ}
use ticketguy.Prelude.{
  ℕ, ◌≤◌, ◌≡◌, ◌≢◌, refl, sym, ap, ◌∙◌, ◌⊎◌, inl, inr, Ordering, String, arith, List, [], ◌∷◌, ◌++◌,
  map, length, All, All-imp, All-append, str_eq, eq_iff, Bool-cases, if◌then◌else◌, contains,
  length-append,
}
use ticketguy.Prelude.Sorting.{sort_by, IsSorted, IsConsistent, sort_by-IsSorted, sort_by-All}
use ticketguy.Prelude.Tables.{Distinct, Distinct-append_fresh, sort_by-mem, length-sort_by, All-mem}
use ticketguy.Benchmark.{HistoricalSnapshot, distance}
use ticketguy.Benchmark.Compute.{add_to_group, nearer, heads, representatives_of}

abbrev Groups : Type 0
Groups = List (String × List HistoricalSnapshot)

abbrev pub keys : List (String × List HistoricalSnapshot) → List String
keys = map (λ g. g.0)

-- A group has a member, and all its members are of its event and have P.
abbrev pub IsGroup : (HistoricalSnapshot → Type 0) → String × List HistoricalSnapshot → Type 0
IsGroup P (id, l) = (1 ≤ length l) × All (λ s. (s.event_id ≡ id) × P s) l

-- the snapshot stands in the group of its event
abbrev pub Holds : HistoricalSnapshot → List (String × List HistoricalSnapshot) → Type 0
Holds r [] = ⊥
Holds r ((id, l) ∷ groups) = ((id ≡ r.event_id) × Memᴰ r l) ⊎ Holds r groups

keys-add_to_group :
    (s : HistoricalSnapshot) (g : Groups)
    → keys (add_to_group s g)
      ≡ (if contains s.event_id (keys g) then keys g else keys g ++ s.event_id ∷ [])
unfolding add_to_group
keys-add_to_group s [] = refl
keys-add_to_group s ((id, l) ∷ g) = elim (Bool-cases (str_eq id s.event_id)) [
  | inl e ↦ rw e refl
  | inr e ↦ rw e (elim (Bool-cases (contains s.event_id (keys g))) [
    | inl c ↦ rw c (ap (λ ks. id ∷ ks) (rw c at (keys-add_to_group s g)))
    | inr c ↦ rw c (ap (λ ks. id ∷ ks) (rw c at (keys-add_to_group s g)))
  ])
]

pub add_to_group-Distinct :
    (s : HistoricalSnapshot) (g : Groups) → Distinct (keys g) → Distinct (keys (add_to_group s g))
add_to_group-Distinct s g d =
    rw (keys-add_to_group s g) (elim (Bool-cases (contains s.event_id (keys g))) [
      | inl c ↦ rw c d
      | inr c ↦ rw c (Distinct-append_fresh (keys g) s.event_id d c)
    ])

mem_last : {A : Type 0} {r : A} (l : List A) → Memᴰ r (l ++ r ∷ [])
mem_last [] = Memᴰ.head refl
mem_last (x ∷ l) = Memᴰ.tail (mem_last l)

mem_before : {A : Type 0} {r : A} (s : A) (l : List A) → Memᴰ r l → Memᴰ r (l ++ s ∷ [])
mem_before s [] m = elim m [ ]
mem_before s (x ∷ l) (Memᴰ.head e) = Memᴰ.head e
mem_before s (x ∷ l) (Memᴰ.tail m) = Memᴰ.tail (mem_before s l m)

pub add_to_group-IsGroup :
    (P : HistoricalSnapshot → Type 0) (s : HistoricalSnapshot) (g : Groups)
    → P s
    → All (IsGroup P) g
    → All (IsGroup P) (add_to_group s g)
unfolding add_to_group
add_to_group-IsGroup P s [] p h = ((omega arith, ((refl, p), tt)), tt)
add_to_group-IsGroup P s ((id, l) ∷ g) p h = elim (Bool-cases (str_eq id s.event_id)) [
  | inl e ↦ rw e (
    (
      omega (arith, length-append l (s ∷ [])),
      All-append _ l (s ∷ []) h.0.1 ((sym ((eq_iff id s.event_id).0 e), p), tt),
    ),
    h.1,
  )
  | inr e ↦ rw e (h.0, add_to_group-IsGroup P s g p h.1)
]

pub add_to_group-Holds : (s : HistoricalSnapshot) (g : Groups) → Holds s (add_to_group s g)
unfolding add_to_group
add_to_group-Holds s [] = inl (refl, Memᴰ.head refl)
add_to_group-Holds s ((id, l) ∷ g) = elim (Bool-cases (str_eq id s.event_id)) [
  | inl e ↦ rw e (inl ((eq_iff id s.event_id).0 e, mem_last l))
  | inr e ↦ rw e (inr (add_to_group-Holds s g))
]

pub Holds-add_to_group :
    (s r : HistoricalSnapshot) (g : Groups) → Holds r g → Holds r (add_to_group s g)
unfolding add_to_group
Holds-add_to_group s r [] h = absurd h
Holds-add_to_group s r ((id, l) ∷ g) h = elim (Bool-cases (str_eq id s.event_id)) [
  | inl e ↦ rw e (elim h [ inl (q, m) ↦ inl (q, mem_before s l m) | inr later ↦ inr later ])
  | inr e ↦ rw e (elim h [ inl here ↦ inl here | inr later ↦ inr (Holds-add_to_group s r g later) ])
]

module _ (collate : String → String → Ordering) (lead : ℕ) where
  abbrev cmp : HistoricalSnapshot → HistoricalSnapshot → Ordering
  cmp = nearer collate lead

  heads-All :
      (P : HistoricalSnapshot → Type 0) (l rest : List HistoricalSnapshot)
      → All P l
      → All P rest
      → All P (heads l rest)
  heads-All P [] rest h k = k
  heads-All P (s ∷ l) rest h k = (h.0, k)

  -- What every member of every group has, every representative has.
  pub representatives_of-All :
      (P : HistoricalSnapshot → Type 0) (g : Groups)
      → All (IsGroup P) g
      → All P (representatives_of collate lead g)
  unfolding representatives_of
  representatives_of-All P [] h = tt
  representatives_of-All P ((id, l) ∷ g) h =
      heads-All P _ _ (sort_by-All P cmp l (All-imp (λ s p. p.1) l h.0.1))
        (representatives_of-All P g h.1)

  heads-keys :
      (id : String) (l rest : List HistoricalSnapshot)
      → 1 ≤ length l
      → All (λ (s : HistoricalSnapshot). s.event_id ≡ id) l
      → map (λ (s : HistoricalSnapshot). s.event_id) (heads l rest)
        ≡ id ∷ map (λ (s : HistoricalSnapshot). s.event_id) rest
  heads-keys id [] rest full h = absurd (omega arith)
  heads-keys id (s ∷ l) rest full h = rw h.0 refl

  -- One representative per group, of the group's event.
  pub representatives_of-keys :
      (P : HistoricalSnapshot → Type 0) (g : Groups)
      → All (IsGroup P) g
      → map (λ (s : HistoricalSnapshot). s.event_id) (representatives_of collate lead g) ≡ keys g
  unfolding representatives_of
  representatives_of-keys P [] h = refl
  representatives_of-keys P ((id, l) ∷ g) h =
      heads-keys id (sort_by cmp l) _ (rw (length-sort_by cmp l) h.0.0)
        (sort_by-All _ cmp l (All-imp (λ s p. p.0) l h.0.1))
      ∙ ap (λ ks. id ∷ ks) (representatives_of-keys P g h.1)

  -- a representative of r's event that is at least as near
  abbrev pub StandsFor : HistoricalSnapshot → List HistoricalSnapshot → Type 0
  StandsFor r reps =
      (q : HistoricalSnapshot) × Memᴰ q reps
      × (q.event_id ≡ r.event_id)
      × (distance q.lead_time_minutes lead ≤ distance r.lead_time_minutes lead)

  nearer_distance :
      (a b : HistoricalSnapshot)
      → cmp a b ≢ Ordering.gt
      → distance a.lead_time_minutes lead ≤ distance b.lead_time_minutes lead
  nearer_distance a b h = ground arith

  heads_nearest :
      (r : HistoricalSnapshot) (l rest : List HistoricalSnapshot)
      → IsSorted cmp l
      → All (λ (s : HistoricalSnapshot). s.event_id ≡ r.event_id) l
      → Memᴰ r l
      → StandsFor r (heads l rest)
  heads_nearest r [] rest sorted same m = elim m [ ]
  heads_nearest r (s ∷ l) rest sorted same (Memᴰ.head e) =
      (s, Memᴰ.head refl, same.0, rw e (omega arith))
  heads_nearest r (s ∷ l) rest sorted same (Memᴰ.tail m) =
      (s, Memᴰ.head refl, same.0, nearer_distance s r (All-mem _ l sorted.0 m))

  heads_later :
      (r : HistoricalSnapshot) (l rest : List HistoricalSnapshot)
      → StandsFor r rest
      → StandsFor r (heads l rest)
  heads_later r [] rest h = h
  heads_later r (s ∷ l) rest (q, m, e, near) = (q, Memᴰ.tail m, e, near)

  module _ (consistent : IsConsistent collate) where
    nearer-IsConsistent : IsConsistent (nearer collate lead)
    nearer-IsConsistent = record {
      total = λ a b g. ground (arith, consistent.total a.id b.id);
      trans = λ a b c p q. ground (arith, consistent.trans a.id b.id c.id);
    }

    pub representatives_of_nearest :
        (P : HistoricalSnapshot → Type 0) (r : HistoricalSnapshot) (g : Groups)
        → All (IsGroup P) g
        → Holds r g
        → StandsFor r (representatives_of collate lead g)
    unfolding representatives_of
    representatives_of_nearest P r [] h held = absurd held
    representatives_of_nearest P r ((id, l) ∷ g) h (inl (e, m)) =
        heads_nearest r (sort_by cmp l) _ (sort_by-IsSorted nearer-IsConsistent l)
          (sort_by-All _ cmp l (All-imp (λ s p. p.0 ∙ e) l h.0.1)) (sort_by-mem cmp l m)
    representatives_of_nearest P r ((id, l) ∷ g) h (inr later) =
        heads_later r _ _ (representatives_of_nearest P r g h.1 later)
