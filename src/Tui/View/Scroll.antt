-- ===== src/Tui/View/Scroll.antt =====
-- tui/model.go, updateInspect and renderInspector: the lines that scrolling brings on the screen.
use grpc_tap.Prelude.{
  ℕ, zero, suc, ◌+◌, ◌-◌, ◌≤◌, ◌<◌, ◌≡◌, refl, ap, ◌∙◌, inl, inr, min, some, List, [], ◌∷◌, Bytes,
  codes, true, length, take, drop, replicate, get_elem?, ltb, arith, Bool-cases, leb, ◌&&◌,
}
use grpc_tap.Tui.TapEvent.{TapEvent}
use grpc_tap.Tui.Model.{
  Model, Machine, Msg, Cmd, no_cmd, KeyMsg, key_msg, view_inspect, cursor_event, found,
}
use grpc_tap.Tui.Model.Keys.{inspect_key}
use grpc_tap.Tui.Model.ListKeys.{LastRune}
use grpc_tap.Tui.Model.Update.{at_cursor, scroll_down, on_inspect_key, on_key, update}
use grpc_tap.Tui.Model.Safety.{update_all}
use grpc_tap.Tui.View.Inspector.{slice, visible_lines, inspect_rows}

module _ {ℓ} {A : Type ℓ} where
  get_elem?-take : (n i : ℕ) (xs : List A) → i < n → get_elem? (take n xs) i ≡ get_elem? xs i
  get_elem?-take zero i xs h = absurd (omega arith)
  get_elem?-take (suc n) i [] h = refl
  get_elem?-take (suc n) zero (x ∷ xs) h = refl
  get_elem?-take (suc n) (suc i) (x ∷ xs) h = get_elem?-take n i xs (omega arith)

  get_elem?-drop : (n i : ℕ) (xs : List A) → get_elem? (drop n xs) i ≡ get_elem? xs (n + i)
  get_elem?-drop zero i xs = let p : 0 + i ≡ i = omega arith in rw p
  get_elem?-drop (suc n) i [] = refl
  get_elem?-drop (suc n) i (x ∷ xs) =
      let p : suc n + i ≡ suc (n + i) = omega arith in rw p (get_elem?-drop n i xs)

-- The key "j".
abbrev pub j_key : Msg
j_key = key_msg (record { name = codes "j"; runes = codes "j" })

-- The last offset that the key goes to.
abbrev pub scroll_end : Model → List Bytes → ℕ
scroll_end m ls = length ls + 2 - m.height

-- The model with another offset, as a key leaves it.
abbrev scrolled : Model → ℕ → Model
scrolled m s = record m { alert_message = []; inspect_scroll = s }

slice-get :
    (start end l : ℕ) (ls : List Bytes)
    → start ≤ l
    → l < end
    → end ≤ length ls
    → (vs : List Bytes) × (slice start end ls ≡ some vs)
      × (get_elem? vs (l - start) ≡ get_elem? ls l)
unfolding slice
slice-get start end l ls a b c =
    let ok : (leb start end && leb end (length ls)) ≡ true = ground arith in
    let p : start + (l - start) ≡ l = omega arith in
    (
      take (end - start) (drop start ls),
      rw ok refl,
      get_elem?-take (end - start) (l - start) (drop start ls) (omega arith)
          ∙ get_elem?-drop start (l - start) ls
          ∙ ap (get_elem? ls) p,
    )

-- Where the offset is on the line, or at its end, the line is on the screen.
visible_lines-get :
    (m : Model) (scroll l : ℕ) (ls : List Bytes)
    → l < length ls
    → scroll ≡ min l (scroll_end m ls)
    → (vs : List Bytes) × (i : ℕ) × (visible_lines scroll (inspect_rows m) ls ≡ some vs)
      × (get_elem? vs i ≡ get_elem? ls l)
unfolding visible_lines
visible_lines-get m scroll l ls h e = elim (Bool-cases (ltb (length ls - inspect_rows m) scroll)) [
  | inl over ↦
      let (vs, s, g) =
        slice-get (length ls - inspect_rows m)
          (min (length ls - inspect_rows m + inspect_rows m) (length ls)) l ls
          (ground (arith, e, over)) (ground (arith, e, over)) (omega arith) in
      rw over (vs, _, s, g)
  | inr under ↦
      let (vs, s, g) =
        slice-get scroll (min (scroll + inspect_rows m) (length ls)) l ls (ground (arith, e, under))
          (ground (arith, e, under)) (omega arith) in
      rw under (vs, _, s, g)
]

at_cursor-found :
    (f : TapEvent → Model → Model × Cmd) (m : Model) (ev : TapEvent)
    → cursor_event m ≡ found ev
    → at_cursor f m ≡ some (f ev m)
at_cursor-found f m ev c = rw (at_cursor, c) refl

module _ (k : Machine) (last_rune : LastRune) (lines : TapEvent → List Bytes) where
  update-j :
      (m : Model) (ev : TapEvent)
      → m.view ≡ view_inspect
      → cursor_event m ≡ found ev
      → m.inspect_scroll ≤ scroll_end m (lines ev)
      → update k last_rune lines j_key m
        ≡ some (scrolled m (min (m.inspect_scroll + 1) (scroll_end m (lines ev))), no_cmd)
  unfolding update on_key on_inspect_key scroll_down inspect_key
  update-j m ev v c h =
      let m1 : Model = record m { alert_message = [] } in
      let at : cursor_event m1 ≡ found ev = unfold cursor_event in c in
      let key : KeyMsg = record { name = codes "j"; runes = codes "j" } in
      ap (λ view. on_key k last_rune lines view key m1) v
      ∙ at_cursor-found (scroll_down lines) m1 ev at
      ∙ ap (λ m'. some (m', no_cmd)) scrolls
    where
      scrolls :
          (scroll_down lines ev (record m { alert_message = [] })).0
          ≡ scrolled m (min (m.inspect_scroll + 1) (scroll_end m (lines ev)))
      scrolls = elim (Bool-cases (ltb m.inspect_scroll (length (lines ev) + 2 - m.height))) [
        | inl e ↦
            let p : min (m.inspect_scroll + 1) (scroll_end m (lines ev)) ≡ m.inspect_scroll + 1 =
              ground (arith, e) in
            rw (e, p) refl
        | inr e ↦
            let p : min (m.inspect_scroll + 1) (scroll_end m (lines ev)) ≡ m.inspect_scroll =
              ground (arith, e) in
            rw (e, p) refl
      ]

  update_all-replicate :
      (n : ℕ) (m : Model) (ev : TapEvent)
      → m.view ≡ view_inspect
      → cursor_event m ≡ found ev
      → m.inspect_scroll ≤ scroll_end m (lines ev)
      → (m' : Model) × (update_all k last_rune lines (replicate n j_key) m ≡ some m')
        × (m'.height ≡ m.height)
        × (m'.inspect_scroll ≡ min (m.inspect_scroll + n) (scroll_end m (lines ev)))
  unfolding update_all
  update_all-replicate zero m ev v c h = (m, refl, refl, omega arith)
  update_all-replicate (suc n) m ev v c h =
      let s = min (m.inspect_scroll + 1) (scroll_end m (lines ev)) in
      let (m', r, height, at) =
        update_all-replicate n (scrolled m s) ev v (unfold cursor_event in c) (omega arith) in
      (m', rw (update_all, update-j m ev v c h) r, height, at ∙ omega arith)

  -- Every line of an event can be brought on the screen: from the top of the inspector, pressing "j"
  -- as often as lines stand above a line leaves a screen that shows it, whatever the height of the
  -- window. The lines are those that the handler of the key counts.
  pub visible_lines-update_all :
      (m : Model) (ev : TapEvent) (l : ℕ)
      → m.view ≡ view_inspect
      → cursor_event m ≡ found ev
      → m.inspect_scroll ≡ 0
      → l < length (lines ev)
      → (m' : Model) × (vs : List Bytes) × (i : ℕ) × (update_all k last_rune lines
            (replicate l j_key)
            m
          ≡ some m')
        × (visible_lines m'.inspect_scroll (inspect_rows m') (lines ev) ≡ some vs)
        × (get_elem? vs i ≡ get_elem? (lines ev) l)
  visible_lines-update_all m ev l v c top h =
      let (m', r, height, at) = update_all-replicate l m ev v c (omega (arith, top)) in
      let (vs, i, s, g) =
        visible_lines-get m' m'.inspect_scroll l (lines ev) h (omega (arith, at, top, height)) in
      (m', vs, i, r, s, g)
