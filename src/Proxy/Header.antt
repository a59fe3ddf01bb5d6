-- ===== src/Proxy/Header.antt =====
-- `http.Header` of net/http as an association list of canonical keys, and copyHeaders of
-- proxy/reverse_proxy.go.
use grpc_tap.Prelude.{
  ◌≡◌, refl, sym, ◌∙◌, List, [], ◌∷◌, ◌++◌, Bytes, eq_bytes, eq_bytes_iff, false, if◌then◌else◌,
  arith, append_assoc, append-nil, All, subst, Bool-cases, inl, inr,
}
use grpc_tap.Proxy.Types.{Header}

-- The values of a key; none if the key is absent.
unfoldable pub values : Bytes → Header → List Bytes
values k [] = []
values k ((j, vs) ∷ h) = if eq_bytes j k then vs else values k h

abbrev pub first : List Bytes → Bytes
first [] = []
first (v ∷ vs) = v

-- `Header.Get` at a canonical key.
unfoldable pub get : Bytes → Header → Bytes
unfolding values
get k h = first (values k h)

-- `Header.Add`.
unfoldable pub add : Bytes → Bytes → Header → Header
add k v [] = (k, v ∷ []) ∷ []
add k v ((j, vs) ∷ h) = if eq_bytes j k then (j, vs ++ (v ∷ [])) ∷ h else (j, vs) ∷ add k v h

unfoldable pub add_all : Bytes → List Bytes → Header → Header
add_all k [] h = h
add_all k (v ∷ vs) h = add_all k vs (add k v h)

-- `copyHeaders`, over the keys of `src` in the order of the range loop.
unfoldable pub copy_headers : Header → Header → Header
copy_headers dst [] = dst
copy_headers dst ((k, vs) ∷ src) = copy_headers (add_all k vs dst) src

pub values-add :
    (k j v : Bytes) (h : Header)
    → values j (add k v h) ≡ (if eq_bytes k j then values j h ++ (v ∷ []) else values j h)
unfolding values add
values-add k j v [] = ground arith
values-add k j v ((i, vs) ∷ h) =
    ground (arith, values-add k j v h, eq_bytes_iff i k, eq_bytes_iff i j, eq_bytes_iff k j)

values-add_all :
    (k j : Bytes) (vs : List Bytes) (h : Header)
    → values j (add_all k vs h) ≡ (if eq_bytes k j then values j h ++ vs else values j h)
unfolding add_all
values-add_all k j [] h = ground (arith, append-nil (values j h))
values-add_all k j (v ∷ vs) h =
    values-add_all k j vs (add k v h)
    ∙ ground (arith, values-add k j v h, append_assoc (values j h) (v ∷ []) vs)

-- A map has one entry for a key.
abbrev pub Absent : Bytes → Header → Type 0
Absent k = All (λ e. eq_bytes e.0 k ≡ false)

abbrev pub IsMap : Header → Type 0
IsMap [] = Unit {0}
IsMap ((k, vs) ∷ h) = Absent k h × IsMap h

values-Absent : (k : Bytes) (h : Header) → Absent k h → values k h ≡ []
unfolding values
values-Absent k [] a = refl
values-Absent k ((j, vs) ∷ h) a = ground (arith, values-Absent k h a.1)

-- When `src` has each key once, each key ends up with the values it had in `dst` followed by those
-- in `src`, whatever order the range loop takes the keys in.
pub values-copy_headers :
    (j : Bytes) (src dst : Header)
    → IsMap src
    → values j (copy_headers dst src) ≡ values j dst ++ values j src
unfolding copy_headers values
values-copy_headers j [] dst m = sym (append-nil (values j dst))
values-copy_headers j ((k, vs) ∷ src) dst m =
    values-copy_headers j src (add_all k vs dst) m.1 ∙ elim (Bool-cases (eq_bytes k j)) [
      | inl e ↦
          let gone : values j src ≡ [] =
            values-Absent j src (subst (λ x. Absent x src) ((eq_bytes_iff k j).0 e) m.0) in
          rw (values-add_all k j vs dst, e, gone) (append-nil (values j dst ++ vs))
      | inr e ↦ rw (values-add_all k j vs dst, e)
    ]
