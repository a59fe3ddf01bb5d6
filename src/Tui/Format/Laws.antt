-- ===== src/Tui/Format/Laws.antt =====
-- tui/format.go: the loop of overlayAlert.
use grpc_tap.Prelude.{
  ℕ, suc, ◌+◌, ◌≤◌, ◌<◌, ◌≡◌, ◌≢◌, refl, ◌∙◌, ◌⊎◌, inl, inr, List, [], ◌∷◌, Bytes, length,
  get_elem?, set, length-set, get_elem?-set_ne, arith, Option-cases,
}
use grpc_tap.Tui.Format.{Terminal, overlay_line, overlay_lines}

module _ (t : Terminal) where
  -- Drawing the lines of an alert over the lines of a view, from line y on, keeps the number of the
  -- lines, and every line above y or below the alert.
  pub overlay_lines-outside :
      (width y : ℕ) (fg bg : List Bytes) (i : ℕ)
      → (i < y) ⊎ (y + length fg ≤ i)
      → (length (overlay_lines t width y fg bg) ≡ length bg)
        × (get_elem? (overlay_lines t width y fg bg) i ≡ get_elem? bg i)
  unfolding overlay_lines
  overlay_lines-outside width y [] bg i h = (refl, refl)
  overlay_lines-outside width y (fl ∷ fls) bg i h = elim (Option-cases (get_elem? bg y)) [
    | inl e ↦ rw (overlay_lines, e) (refl, refl)
    | inr (bl, e) ↦
        let bg' = set bg y (overlay_line t width fl bl) in
        let h' : (i < suc y) ⊎ (suc y + length fls ≤ i) = elim h [
          | inl l ↦ inl (omega arith)
          | inr l ↦ inr (omega arith)
        ] in
        let ne : y ≢ i = λ p. elim h [ inl l ↦ omega arith | inr l ↦ omega arith ] in
        let (el, ei) = overlay_lines-outside width (suc y) fls bg' i h' in
        rw (overlay_lines, e) (el ∙ length-set bg y _, ei ∙ get_elem?-set_ne bg y i _ ne)
  ]
