-- ===== src/QueryLog/File/Lines.antt =====
-- The lines of a file, and that they come out in reverse from its reversed bytes.
use dns_automatic_traffic_sp.Base.{
  ℕ, ◌≡◌, refl, sym, ap, ◌∙◌, Bool, false, ◌||◌, Bool-cases, inl, inr, List, [], ◌∷◌, ◌++◌, map,
  reverse, reverse-cons, append-nil, append_assoc, ◌==◌, ==_iff, ap₂, if◌then◌else◌, any, arith,
}
use mathlib.Core.List.{reverse-append, map-append}
use dns_automatic_traffic_sp.Base.Text.{Text}
use dns_automatic_traffic_sp.QueryLog.File.{newline}

-- A line with nothing in it is none.
abbrev pub keep : Text → List Text → List Text
keep [] ls = ls
keep (c ∷ s) ls = (c ∷ s) ∷ ls

-- The lines behind a piece of a line.
abbrev pub lines_from : Text → Text → List Text
lines_from cur [] = keep cur []
lines_from cur (b ∷ s) =
    if b == newline then keep cur (lines_from [] s) else lines_from (cur ++ b ∷ []) s

abbrev pub has_newline : Text → Bool
has_newline s = any (λ b. b == newline) s

pub keep-append : (cur : Text) (ls ms : List Text) → keep cur (ls ++ ms) ≡ keep cur ls ++ ms
keep-append [] ls ms = refl
keep-append (c ∷ s) ls ms = refl

pub any-append : (s t : Text) → has_newline (s ++ t) ≡ (has_newline s || has_newline t)
any-append [] t = refl
any-append (b ∷ s) t = ground (arith, any-append s t)

pub any-reverse : (s : Text) → has_newline (reverse s) ≡ has_newline s
any-reverse [] = refl
any-reverse (b ∷ s) =
    ap has_newline (reverse-cons b s)
    ∙ any-append (reverse s) (b ∷ [])
    ∙ ground (arith, any-reverse s)

-- A newline ends a line wherever it stands.
pub lines_from-newline :
    (cur s t : Text) → lines_from cur (s ++ newline ∷ t) ≡ lines_from cur s ++ lines_from [] t
lines_from-newline cur [] t = keep-append cur [] (lines_from [] t)
lines_from-newline cur (b ∷ s) t = elim (Bool-cases (b == newline)) [
  | inl e ↦ rw e (
      ap (keep cur) (lines_from-newline [] s t)
      ∙ keep-append cur (lines_from [] s) (lines_from [] t))
  | inr e ↦ rw e (lines_from-newline (cur ++ b ∷ []) s t)
]

pub lines_from-one : (cur s : Text) → has_newline s ≡ false → lines_from cur s ≡ keep (cur ++ s) []
lines_from-one cur [] h = ap (λ t. keep t []) (sym (append-nil cur))
lines_from-one cur (b ∷ s) h = elim (Bool-cases (b == newline)) [
  | inl e ↦ ground (arith, e, h)
  | inr e ↦ rw e (
      lines_from-one (cur ++ b ∷ []) s (ground (arith, e, h))
      ∙ ap (λ t. keep t []) (append_assoc cur (b ∷ []) s))
]

keep-snoc : (s : Text) (c : ℕ) → keep (s ++ c ∷ []) [] ≡ (s ++ c ∷ []) ∷ []
keep-snoc [] c = refl
keep-snoc (b ∷ s) c = refl

keep-reverse : (cur : Text) → keep (reverse cur) [] ≡ reverse (map reverse (keep cur []))
keep-reverse [] = refl
keep-reverse (c ∷ s) =
    ap (λ t. keep t []) (reverse-cons c s)
    ∙ keep-snoc (reverse s) c
    ∙ ap (λ (t : Text). t ∷ []) (sym (reverse-cons c s))

reverse-keep :
    (cur : Text) (ls : List Text)
    → reverse (map reverse (keep cur ls))
      ≡ reverse (map reverse ls) ++ reverse (map reverse (keep cur []))
reverse-keep cur ls =
    ap (λ (x : List Text). reverse (map reverse x)) (keep-append cur [] ls)
    ∙ ap (λ (x : List Text). reverse x) (map-append reverse (keep cur []) ls)
    ∙ reverse-append (map reverse (keep cur [])) (map reverse ls)

reverse-middle : (cur s : Text) (b : ℕ) → reverse (cur ++ b ∷ s) ≡ reverse s ++ b ∷ reverse cur
reverse-middle cur s b =
    reverse-append cur (b ∷ s)
    ∙ ap (λ t. t ++ reverse cur) (reverse-cons b s)
    ∙ append_assoc (reverse s) (b ∷ []) (reverse cur)

lines_from-reverse :
    (cur s : Text)
    → has_newline cur ≡ false
    → lines_from [] (reverse (cur ++ s)) ≡ reverse (map reverse (lines_from cur s))
lines_from-reverse cur [] h =
    ap (λ (t : Text). lines_from [] (reverse t)) (append-nil cur)
    ∙ lines_from-one [] (reverse cur) (any-reverse cur ∙ h)
    ∙ keep-reverse cur
lines_from-reverse cur (b ∷ s) h = elim (Bool-cases (b == newline)) [
  | inl e ↦ rw e (
      ap (lines_from []) (reverse-middle cur s b)
      ∙ ap (λ c. lines_from [] (reverse s ++ c ∷ reverse cur)) ((==_iff b newline).0 e)
      ∙ lines_from-newline [] (reverse s) (reverse cur)
      ∙ ap₂ (λ (x y : List Text). x ++ y) (lines_from-reverse [] s refl)
          (lines_from-one [] (reverse cur) (any-reverse cur ∙ h) ∙ keep-reverse cur)
      ∙ sym (reverse-keep cur (lines_from [] s)))
  | inr e ↦ rw e (
      ap (λ (t : Text). lines_from [] (reverse t)) (sym (append_assoc cur (b ∷ []) s))
      ∙ lines_from-reverse (cur ++ b ∷ []) s (ground (arith, any-append cur (b ∷ []), h, e)))
]

-- The lines of a file from the end, each from its last byte.
pub lines-reverse : (s : Text) → lines_from [] (reverse s) ≡ reverse (map reverse (lines_from [] s))
lines-reverse s = lines_from-reverse [] s refl
