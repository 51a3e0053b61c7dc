-- ===== src/Config/Lines.antt =====
-- A line of two words, read back.
use dns_automatic_traffic_sp.Base.{
  ℕ, ◌≡◌, refl, ap, sym, ◌∙◌, false, List, [], ◌∷◌, ◌++◌, arith, All, reverse, ◌==◌, append_assoc,
  append-nil, reverse-cons, ltb, length, true,
}
use mathlib.Core.List.{reverse-append, reverse-reverse}
use dns_automatic_traffic_sp.Base.Text.{
  Text, is_empty, is_space, trim_left, trim_space, trim_suffix,
}
use dns_automatic_traffic_sp.Config.{split_word, fields}
use dns_automatic_traffic_sp.Base.Scanner.{
  segments, drop_last_empty, drop_cr, bounded_lines, max_token, scan_lines,
}

-- A word: at least one byte, and no white space.
abbrev pub IsWord : Text → Type 0
IsWord w = (is_empty w ≡ false) × All (λ c. is_space c ≡ false) w

split_word-append :
    (w s : Text)
    → All (λ c. is_space c ≡ false) w
    → split_word (w ++ s) ≡ (w ++ (split_word s).0, (split_word s).1)
unfolding split_word
split_word-append [] s h = refl
split_word-append (c ∷ w) s h = rw (split_word-append w s h.1, h.0) refl

pub fields-two : (u v : Text) → IsWord u → IsWord v → fields (u ++ b' ' ∷ v) ≡ u ∷ v ∷ []
unfolding fields split_word
fields-two (a ∷ u) (b ∷ v) hu hv =
    let last : split_word (b ∷ v) ≡ (b ∷ v, []) =
      sym (ap split_word (append-nil (b ∷ v)))
      ∙ split_word-append (b ∷ v) [] hv.1
      ∙ ap (λ (w : Text). (w, [])) (append-nil (b ∷ v)) in
    rw (split_word-append (a ∷ u) (b' ' ∷ b ∷ v) hu.1, last)
      (ap (λ (t : Text). (a ∷ t) ∷ (b ∷ v) ∷ []) (append-nil u))
fields-two [] v hu hv = ground (arith, hu.0)
fields-two (a ∷ u) [] hu hv = ground (arith, hv.0)

pub trim_left-word : (w s : Text) → IsWord w → trim_left (w ++ s) ≡ w ++ s
unfolding trim_left
trim_left-word [] s h = ground (arith, h.0)
trim_left-word (c ∷ w) s h = rw (h.1.0) refl

pub All-append : (P : ℕ → Type 0) (u v : Text) → All P u → All P v → All P (u ++ v)
All-append P [] v hu hv = hv
All-append P (c ∷ u) v hu hv = (hu.0, All-append P u v hu.1 hv)

reverse-All : (P : ℕ → Type 0) (u : Text) → All P u → All P (reverse u)
reverse-All P [] h = tt
reverse-All P (c ∷ u) h =
    rw (reverse-cons c u) (All-append P (reverse u) (c ∷ []) (reverse-All P u h.1) (h.0, tt))

snoc-solid : (u : Text) (c : ℕ) → is_empty (u ++ c ∷ []) ≡ false
snoc-solid [] c = refl
snoc-solid (d ∷ u) c = refl

pub reverse-IsWord : (w : Text) → IsWord w → IsWord (reverse w)
reverse-IsWord [] h = ground (arith, h.0)
reverse-IsWord (c ∷ w) h = (
  rw (reverse-cons c w) (snoc-solid (reverse w) c),
  reverse-All (λ d. is_space d ≡ false) (c ∷ w) h.1,
)

-- A text that begins and ends with a word has no white space around it.
pub trim_space-two : (u v : Text) → IsWord u → IsWord v → trim_space (u ++ b' ' ∷ v) ≡ u ++ b' ' ∷ v
unfolding trim_space
trim_space-two u v hu hv =
    let line = u ++ b' ' ∷ v in
    let back : reverse line ≡ reverse v ++ reverse (u ++ b' ' ∷ []) =
      ap reverse (sym (append_assoc u (b' ' ∷ []) v)) ∙ reverse-append (u ++ b' ' ∷ []) v in
    ap (λ t. reverse (trim_left (reverse t))) (trim_left-word u (b' ' ∷ v) hu)
    ∙ ap (λ t. reverse (trim_left t)) back
    ∙ ap reverse (trim_left-word (reverse v) (reverse (u ++ b' ' ∷ [])) (reverse-IsWord v hv))
    ∙ ap reverse (sym back)
    ∙ reverse-reverse line

-- A line that keeps no line feed inside and no carriage return at its end, and fits into the buffer.
abbrev pub IsLine : Text → Type 0
IsLine line =
    All (λ c. (c == 10) ≡ false) line × (drop_cr line ≡ line) × (ltb (length line) max_token ≡ true)

segments-line :
    (line s : Text)
    → All (λ c. (c == 10) ≡ false) line
    → segments (line ++ 10 ∷ s) ≡ (line, (segments s).0 ∷ (segments s).1)
unfolding segments
segments-line [] s h = refl
segments-line (c ∷ line) s h = rw (segments-line line s h.1, h.0) refl

-- A line feed ends a line, also an empty one.
pub scan_lines-line :
    (line s : Text)
    → IsLine line
    → scan_lines (line ++ 10 ∷ s) ≡ (line ∷ (scan_lines s).0, (scan_lines s).1)
unfolding scan_lines trim_suffix
scan_lines-line line s (solid, plain, fits) =
    rw (segments-line line s solid) (drop_last-cons line (segments s).0 (segments s).1 plain fits)
  where
    drop_last-cons :
        (line w : Text) (ws : List Text)
        → drop_cr line ≡ line
        → ltb (length line) max_token ≡ true
        → bounded_lines (drop_last_empty line (w ∷ ws)) ≡ (
          line ∷ (bounded_lines (drop_last_empty w ws)).0,
          (bounded_lines (drop_last_empty w ws)).1,
        )
    drop_last-cons [] w ws e f = refl
    drop_last-cons (c ∷ l) w ws e f =
        let r = bounded_lines (drop_last_empty w ws) in rw f (ap (λ t. (t ∷ r.0, r.1)) e)
