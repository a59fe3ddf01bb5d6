-- ===== src/Tui/Analytics/Groups.antt =====
-- tui/analytics.go, buildAnalyticsRows: each method's group is the sum of that method's events.
use grpc_tap.Prelude.{
  ℕ, ◌+◌, ◌≡◌, refl, ap, ◌∙◌, Option, none, some, List, [], ◌∷◌, map, Bytes, true, false,
  if◌then◌else◌, is_empty, eq_bytes, eq_bytes_sound, Bool-cases, inl, inr, arith,
}
use mathlib.Core.List.{Perm, Permᴰ}
use mathlib.Core.Logic.{∥∥₁_elim}
use native.Mathlib.Nat.{ℕ_set}
use grpc_tap.Tui.TapEvent.{TapEvent}
use grpc_tap.Tui.Analytics.{
  AnalyticsRow, Agg, empty_agg, count_event, add_to_group, group_events, row_of,
  build_analytics_rows,
}

-- The group of a method.
unfoldable pub find_group : Bytes → List (Bytes × Agg) → Option Agg
find_group method [] = none
find_group method ((name, g) ∷ gs) = if eq_bytes name method then some g else find_group method gs

-- A method's group after one more event of its own.
unfoldable pub one_more : TapEvent → Option Agg → Option Agg
one_more ev none = some (count_event ev empty_agg)
one_more ev (some g) = some (count_event ev g)

-- The group that the events of one method make, on top of what is there, read without any map.
unfoldable pub sum_of : Bytes → Option Agg → List TapEvent → Option Agg
sum_of method g [] = g
sum_of method g (ev ∷ evs) =
    sum_of method (if eq_bytes ev.method method then one_more ev g else g) evs

find_group-add_to_group :
    (method : Bytes) (ev : TapEvent) (gs : List (Bytes × Agg))
    → find_group method (add_to_group ev gs) ≡ (
        if eq_bytes ev.method method
        then one_more ev (find_group method gs)
        else find_group method gs)
unfolding find_group add_to_group one_more
find_group-add_to_group method ev [] = elim (Bool-cases (eq_bytes ev.method method)) [
  | inl e ↦ rw e
  | inr e ↦ rw e
]
find_group-add_to_group method ev ((name, g) ∷ gs) = elim (Bool-cases (eq_bytes name ev.method)) [
  | inl same ↦
      let e : eq_bytes name method ≡ eq_bytes ev.method method =
        ap (λ n. eq_bytes n method) (eq_bytes_sound name ev.method same) in
      rw same (elim (Bool-cases (eq_bytes ev.method method)) [
        | inl own ↦ rw (e, own)
        | inr own ↦ rw (e, own)
      ])
  | inr other ↦ rw other (elim (Bool-cases (eq_bytes name method)) [
    | inl here ↦ rw (here, not_both other here)
    | inr here ↦ rw here (find_group-add_to_group method ev gs)
  ])
]
  where
    not_both :
        eq_bytes name ev.method ≡ false
        → eq_bytes name method ≡ true
        → eq_bytes ev.method method ≡ false
    not_both other here = elim (Bool-cases (eq_bytes ev.method method)) [
      | inl own ↦
          let e : eq_bytes name ev.method ≡ true =
            ap (eq_bytes name) (eq_bytes_sound ev.method method own) ∙ here in
          absurd cc
      | inr own ↦ own
    ]

find_group-group_events :
    (method : Bytes) (gs : List (Bytes × Agg)) (evs : List TapEvent)
    → is_empty method ≡ false
    → find_group method (group_events gs evs) ≡ sum_of method (find_group method gs) evs
unfolding group_events sum_of
find_group-group_events method gs [] h = refl
find_group-group_events method gs (ev ∷ evs) h = elim (Bool-cases (is_empty ev.method)) [
  | inl e ↦
      rw (e, nameless (eq_bytes_sound ev.method method) e) (find_group-group_events method gs evs h)
  | inr e ↦ rw e (
      find_group-group_events method (add_to_group ev gs) evs h
      ∙ ap (λ g. sum_of method g evs) (find_group-add_to_group method ev gs))
]
  where
    nameless :
        (eq_bytes ev.method method ≡ true → ev.method ≡ method)
        → is_empty ev.method ≡ true
        → eq_bytes ev.method method ≡ false
    nameless sound e = elim (Bool-cases (eq_bytes ev.method method)) [
      | inl own ↦
          let z : is_empty ev.method ≡ is_empty method = ap is_empty (sound own) in absurd cc
      | inr own ↦ own
    ]

-- The group of a method that has a name is the sum over that method's events: the map of groups
-- mixes no two methods, and it has no group where there is no event.
pub group_events-sum_of :
    (method : Bytes) (evs : List TapEvent)
    → is_empty method ≡ false
    → find_group method (group_events [] evs) ≡ sum_of method none evs
unfolding find_group
group_events-sum_of method evs h = find_group-group_events method [] evs h

-- How many events the groups count together.
abbrev group_total : List (Bytes × Agg) → ℕ
group_total [] = 0
group_total ((name, g) ∷ gs) = g.count + group_total gs

-- How many events the rows count together.
abbrev pub row_total : List AnalyticsRow → ℕ
row_total [] = 0
row_total (r ∷ rs) = r.count + row_total rs

-- How many events name a method.
abbrev pub named : List TapEvent → ℕ
named [] = 0
named (ev ∷ evs) = (if is_empty ev.method then 0 else 1) + named evs

group_total-add_to_group :
    (ev : TapEvent) (gs : List (Bytes × Agg))
    → group_total (add_to_group ev gs) ≡ 1 + group_total gs
unfolding add_to_group count_event
group_total-add_to_group ev [] = omega arith
group_total-add_to_group ev ((name, g) ∷ gs) = ground (arith, group_total-add_to_group ev gs)

group_total-group_events :
    (gs : List (Bytes × Agg)) (evs : List TapEvent)
    → group_total (group_events gs evs) ≡ group_total gs + named evs
unfolding group_events
group_total-group_events gs [] = omega arith
group_total-group_events gs (ev ∷ evs) = elim (Bool-cases (is_empty ev.method)) [
  | inl e ↦ rw e (omega (arith, group_total-group_events gs evs))
  | inr e ↦ rw e (
      omega
        (arith, group_total-group_events (add_to_group ev gs) evs, group_total-add_to_group ev gs))
]

row_total-map : (gs : List (Bytes × Agg)) → row_total (map row_of gs) ≡ group_total gs
unfolding row_of
row_total-map [] = refl
row_total-map ((name, g) ∷ gs) = ap (◌+◌ g.count) (row_total-map gs)

group_total-permᴰ : {xs ys : List (Bytes × Agg)} → Permᴰ xs ys → group_total xs ≡ group_total ys
group_total-permᴰ Permᴰ.nil = refl
group_total-permᴰ (Permᴰ.cons e p) = omega (arith, ap (λ g. g.1.count) e, group_total-permᴰ p)
group_total-permᴰ (Permᴰ.swap e f) = omega (arith, ap (λ g. g.1.count) e, ap (λ g. g.1.count) f)
group_total-permᴰ (Permᴰ.trans p q) = group_total-permᴰ p ∙ group_total-permᴰ q

-- Whatever permutation of the groups the range loop visits, the rows of the analytics together
-- count every captured event that names a method, once.
pub build_analytics_rows-total :
    (range_order : List (Bytes × Agg) → List (Bytes × Agg)) (evs : List TapEvent)
    → ((gs : List (Bytes × Agg)) → Perm (range_order gs) gs)
    → row_total (build_analytics_rows range_order evs) ≡ named evs
unfolding build_analytics_rows
build_analytics_rows-total range_order evs law =
    row_total-map (range_order (group_events [] evs))
    ∙ ∥∥₁_elim (law (group_events [] evs)) (ℕ_set _ _) group_total-permᴰ
    ∙ group_total-group_events [] evs
    ∙ omega arith
