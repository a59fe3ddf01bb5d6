-- ===== src/Pipeline.antt =====
-- cmd/grpc-tapd and the TUI together: broker/broker.go, Watch of server/server.go, and Update of
-- tui/model.go.
mod Runs
pub mod Captured
pub mod Calls
pub mod Browser
pub mod Replay
pub mod Resend
use mathlib.Core.List.{Sublist}
use grpc_tap.Prelude.{
  ℕ, ◌≡◌, refl, ap, ◌∙◌, sym, subst, if◌then◌else◌, none, some, List, [], ◌∷◌, ◌++◌, map,
  append_assoc, append-nil, Bytes, true, false, get_elem?, is_empty,
}
use grpc_tap.Proxy.Types.{Event}
use grpc_tap.Broker.World.{Action, World, start, run}
use grpc_tap.Server.{event_to_proto}
use grpc_tap.Server.Watch.{watch, watching, received, watch-delivers}
use grpc_tap.Tui.TapEvent.{TapEvent}
use grpc_tap.Tui.Rows.{
  sort_chronological, rows_from, exports, filtered_events, filtered_export_events,
  rebuild_display_rows,
}
use grpc_tap.Tui.Rows.Laws.{rebuild_display_rows-export}
use grpc_tap.Tui.Model.{Model, new, Machine, Msg, event_msg, view_list, rebuild, last_row}
use grpc_tap.Tui.Model.ListKeys.{LastRune}
use grpc_tap.Tui.Model.Update.{on_event, list_event, update}
use grpc_tap.Tui.Model.Safety.{update_all}

-- The list is on the screen, without filters, in the order of arrival, and up to date.
record Listening (k : Machine) (m : Model) : Type 0 where
  listed : m.view ≡ view_list
  unawaited : m.replay_event_id ≡ []
  chronological : m.sort_mode ≡ sort_chronological
  unsearched : m.search_query ≡ []
  unfiltered : m.filter_errors ≡ false
  fresh : m.display_rows ≡ rebuild k m

module _ (k : Machine) (lower_empty : k.to_lower [] ≡ []) where
  all_kept : (evs : List TapEvent) → filtered_export_events k.to_lower evs [] false ≡ evs
  unfolding filtered_export_events filtered_events exports
  all_kept evs = rw lower_empty (kept evs)
    where
      kept : (evs : List TapEvent) → filtered_events k.to_lower [] false evs ≡ evs
      kept [] = refl
      kept (ev ∷ evs) = ap (◌∷◌ ev) (kept evs)

  Listening-rows :
      (m : Model) → Listening k m → map (get_elem? m.events) m.display_rows ≡ map some m.events
  unfolding rebuild
  Listening-rows m l =
      ap (map (get_elem? m.events))
        (l.fresh ∙ rw (l.chronological, l.unsearched, l.unfiltered) refl)
      ∙ rebuild_display_rows-export k.to_lower k.sort_rows m.events [] false
      ∙ ap (map some) (all_kept m.events)

  on_event-Listening :
      (ev : TapEvent) (m : Model)
      → Listening k m
      → Listening k (on_event k ev m) × ((on_event k ev m).events ≡ m.events ++ (ev ∷ []))
  unfolding on_event list_event rebuild
  on_event-Listening ev m l =
      let m1 : Model = record m { events = m.events ++ (ev ∷ []) } in
      let m' : Model = record m1 {
        display_rows = rebuild k m1;
        cursor = if m.follow then last_row (rebuild k m1) else m.cursor;
      } in
      let shown : on_event k ev m ≡ m' = simp (on_event, list_event, l.unawaited, l.listed) in
      let l' : Listening k m' = record {
        listed = l.listed;
        unawaited = l.unawaited;
        chronological = l.chronological;
        unsearched = l.unsearched;
        unfiltered = l.unfiltered;
        fresh = refl;
      } in
      subst (λ x. Listening k x × (x.events ≡ m.events ++ (ev ∷ []))) (sym shown) (l', refl)

  update_all-Listening :
      (last_rune : LastRune) (lines : TapEvent → List Bytes) (evs : List TapEvent) (m : Model)
      → Listening k m
      → (m' : Model) × (update_all k last_rune lines (map event_msg evs) m ≡ some m')
        × Listening k m'
        × (m'.events ≡ m.events ++ evs)
  unfolding update_all update
  update_all-Listening last_rune lines [] m l = (m, refl, l, sym (append-nil m.events))
  update_all-Listening last_rune lines (ev ∷ evs) m l =
      let (l', e) = on_event-Listening ev m l in
      let (m', r, l'', e') = update_all-Listening last_rune lines evs (on_event k ev m) l' in
      (m', r, l'', e' ∙ ap (λ xs. xs ++ evs) e ∙ append_assoc m.events (ev ∷ []) evs)

  new-Listening : (target : Bytes) → Listening k (new target)
  unfolding new rebuild rebuild_display_rows rows_from
  new-Listening target = record {
    listed = refl;
    unawaited = refl;
    chronological = refl;
    unsearched = refl;
    unfiltered = refl;
    fresh = refl;
  }

  -- A TUI that is started and gets these events over the Watch stream holds them, converted, and its
  -- list shows each of them, in their order.
  abbrev pub Shows : LastRune → (TapEvent → List Bytes) → Bytes → List Event → Model → Type 0
  Shows last_rune lines target evs m =
      (update_all k last_rune lines (map event_msg (map event_to_proto evs)) (new target) ≡ some m)
      × (m.events ≡ map event_to_proto evs)
      × (map (get_elem? m.events) m.display_rows ≡ map some m.events)

  pub update_all-Shows :
      (last_rune : LastRune) (lines : TapEvent → List Bytes) (target : Bytes) (evs : List Event)
      → (m : Model) × Shows last_rune lines target evs m
  update_all-Shows last_rune lines target evs =
      let (m, u, l, e) =
        update_all-Listening last_rune lines (map event_to_proto evs) (new target)
          (new-Listening target) in
      (m, (u, unfold new in e, Listening-rows m l))

  -- From the broker to the screen: under any interleaving of calls and receives, a TUI that is
  -- started and reads the Watch stream of a subscriber, whose sends succeed, holds the events that
  -- the subscriber has received, converted, in their order, its list shows each of them, and they
  -- are a subsequence of those that were published while it was subscribed. It is assumed that the
  -- empty text is its own lower case.
  pub update_all-watch :
      (last_rune : LastRune) (lines : TapEvent → List Bytes) (target : Bytes) (n : ℕ)
      (acts : List (Action Event)) (i : ℕ)
      → (w : World Event) × (m : Model) × (run acts (start n) ≡ some w)
        × (watch (map (λ ev. received ev none) (w.got i))
            ≡ (map event_to_proto (w.got i), watching))
        × (update_all k last_rune lines (map event_msg (map event_to_proto (w.got i))) (new target)
            ≡ some m)
        × (m.events ≡ map event_to_proto (w.got i))
        × (map (get_elem? m.events) m.display_rows ≡ map some m.events)
        × Sublist (w.got i) (w.offered i)
  update_all-watch last_rune lines target n acts i =
      let (w, r, sent, order) = watch-delivers n acts i in
      let (m, (u, e, rows)) = update_all-Shows last_rune lines target (w.got i) in
      (w, m, r, sent, u, e, rows, order)
