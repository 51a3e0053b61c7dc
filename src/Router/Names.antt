-- ===== src/Router/Names.antt =====
-- matchNames of internal/router/router.go.
use dns_automatic_traffic_sp.Base.{
  ◌≡◌, refl, Bool, true, false, ◌||◌, List, [], ◌∷◌, ◌++◌, arith, if◌then◌else◌, any, All,
  Bool-cases, inl, inr,
}
use dns_automatic_traffic_sp.Base.Text.{
  Text, codes, text_eq, text_eq_iff, to_lower, trim_suffix, has_prefix, join, is_empty,
}

-- `qName` with its case folded and one final dot taken off.
abbrev pub normal_name : Text → Text
normal_name name = to_lower (trim_suffix name b'.')

abbrev pub mem_text : Text → List Text → Bool
mem_text t ts = any (λ u. text_eq u t) ts

-- One candidate: the map `seen` holds the same texts as `names`.
abbrev pub add_candidate : List Text → Text → List Text
add_candidate names candidate =
    if is_empty candidate
    then names
    else if mem_text candidate names
    then names
    else names ++ candidate ∷ []

-- The loop over the labels; it stops at the last label and at one without an underscore.
unfoldable pub strip_labels : List Text → List Text → List Text
strip_labels [] names = names
strip_labels (label ∷ []) names = names
strip_labels (label ∷ next ∷ labels) names =
    let rest =
      strip_labels (next ∷ labels) (add_candidate names (join (codes ".") (next ∷ labels))) in
    if has_prefix label (codes "_") then rest else names

-- The split into labels is dns.SplitDomainName.
unfoldable pub match_names : (Text → List Text) → Text → List Text
match_names split name =
    let q = normal_name name in if is_empty q then [] else strip_labels (split q) (q ∷ [])

-- `c` is left of the labels when some leading labels, all with an underscore, are taken off.
pub data Stripped : List Text → Text → Type 0 where
  here : {labels : List Text} {c : Text} → join (codes ".") labels ≡ c → Stripped labels c
  under :
      {label : Text} {labels : List Text} {c : Text}
      → has_prefix label (codes "_") ≡ true
      → Stripped labels c
      → Stripped (label ∷ labels) c

All-snoc :
    (P : Text → Type 0) (names : List Text) (c : Text) → All P names → P c → All P (names ++ c ∷ [])
All-snoc P [] c h p = (p, tt)
All-snoc P (n ∷ names) c h p = (h.0, All-snoc P names c h.1 p)

add_candidate-All :
    (P : Text → Type 0) (names : List Text) (c : Text)
    → All P names
    → P c
    → All P (add_candidate names c)
add_candidate-All P names c h p = elim (Bool-cases (is_empty c)) [
  | inl blank ↦ rw blank h
  | inr solid ↦ elim (Bool-cases (mem_text c names)) [
    | inl seen ↦ rw (solid, seen) h
    | inr new ↦ rw (solid, new) (All-snoc P names c h p)
  ]
]

-- No two of the names are equal.
abbrev pub Distinct : List Text → Type 0
Distinct [] = Unit
Distinct (n ∷ names) = (mem_text n names ≡ false) × Distinct names

mem_text-snoc :
    (t : Text) (names : List Text) (c : Text)
    → mem_text t (names ++ c ∷ []) ≡ mem_text t names || text_eq c t
mem_text-snoc t [] c = ground arith
mem_text-snoc t (n ∷ names) c = ground (arith, mem_text-snoc t names c)

Distinct-snoc :
    (names : List Text) (c : Text)
    → Distinct names
    → mem_text c names ≡ false
    → Distinct (names ++ c ∷ [])
Distinct-snoc [] c d h = (refl, tt)
Distinct-snoc (n ∷ names) c d h =
    ground
      (arith, mem_text-snoc n names c, text_eq_iff c n, text_eq_iff n c, Distinct-snoc names c d.1)

add_candidate-Distinct :
    (names : List Text) (c : Text) → Distinct names → Distinct (add_candidate names c)
add_candidate-Distinct names c d = elim (Bool-cases (is_empty c)) [
  | inl blank ↦ rw blank d
  | inr solid ↦ elim (Bool-cases (mem_text c names)) [
    | inl seen ↦ rw (solid, seen) d
    | inr new ↦ rw (solid, new) (Distinct-snoc names c d new)
  ]
]

-- What every candidate has, and what adding a candidate keeps, the loop's result has.
strip_labels_induction :
    (Q : List Text → Type 0) (labels names : List Text)
    → ((ns : List Text) (c : Text) → Stripped labels c → Q ns → Q (add_candidate ns c))
    → Q names
    → Q (strip_labels labels names)
unfolding strip_labels
strip_labels_induction Q [] names h k = k
strip_labels_induction Q (label ∷ []) names h k = k
strip_labels_induction Q (label ∷ next ∷ labels) names h k =
    by_label (has_prefix label (codes "_")) λ e.
      strip_labels_induction Q (next ∷ labels) candidate_added (λ ns c s. h ns c (under e s))
        (h names (join (codes ".") (next ∷ labels)) (under e (here refl)) k)
  where
    candidate_added : List Text
    candidate_added = add_candidate names (join (codes ".") (next ∷ labels))

    by_label :
        (b : Bool)
        → (b ≡ true → Q (strip_labels (next ∷ labels) candidate_added))
        → Q (if b then strip_labels (next ∷ labels) candidate_added else names)
    by_label true more = more refl
    by_label false more = k

-- If the labels that dns.SplitDomainName gives join back to the name, then every name that
-- matchNames returns is the queried name (in lower case, without a final dot) or what is left of it
-- when leading labels that begin with an underscore are taken off; and no name is returned twice.
pub match_names-Stripped :
    (split : Text → List Text) (name : Text)
    → join (codes ".") (split (normal_name name)) ≡ normal_name name
    → All (Stripped (split (normal_name name))) (match_names split name)
      × Distinct (match_names split name)
unfolding match_names
match_names-Stripped split name joins = elim (Bool-cases (is_empty (normal_name name))) [
  | inl blank ↦ rw blank (tt, tt)
  | inr solid ↦ rw solid (
    strip_labels_induction (All (Stripped labels)) labels (normal_name name ∷ [])
        (λ ns c s h. add_candidate-All (Stripped labels) ns c h s) (here joins, tt),
    strip_labels_induction Distinct labels (normal_name name ∷ [])
        (λ ns c s h. add_candidate-Distinct ns c h) (refl, tt),
  )
]
  where
    labels : List Text
    labels = split (normal_name name)
