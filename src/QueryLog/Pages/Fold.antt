-- ===== src/QueryLog/Pages/Fold.antt =====
-- The loops of GetLogs as folds, and pages of lists.
use dns_automatic_traffic_sp.Base.{
  ℕ, suc, ◌+◌, ◌-◌, ◌^◌, ◌≤◌, ◌<◌, ◌≡◌, refl, sym, ap, ap₂, ◌∙◌, inl, inr, true, false, ◌&&◌, List,
  [], ◌∷◌, ◌++◌, append-nil, append_assoc, arith, ltb, leb, if◌then◌else◌, length, take, drop,
  select, Bool-cases, length-append, length-take, take-append_left, drop-append_left, drop-length,
  take-length,
}
use native.Mathlib.Decide.{dec_lt, dec_le}
use dns_automatic_traffic_sp.Base.Text.{Text}
use dns_automatic_traffic_sp.QueryLog.{LogEntry}
use dns_automatic_traffic_sp.QueryLog.Pages.{Found, matches, visit, page, visit_all}

pub page-snoc {ℓ} :
    {A : Type ℓ} (offset limit : ℕ) (xs : List A) (x : A)
    → page offset limit (xs ++ x ∷ []) ≡ (
        if leb offset (length xs) && ltb (length (page offset limit xs)) limit
        then page offset limit xs ++ x ∷ []
        else page offset limit xs)
page-snoc offset limit xs x = elim (dec_le offset (length xs)) [
  | yes p ↦ elim (dec_lt (length (drop offset xs)) limit) [
    | yes q ↦
        ap (take limit) (drop-append_left offset xs (x ∷ []) p)
        ∙ take-length (drop offset xs ++ x ∷ []) limit
            (omega (arith, length-append (drop offset xs) (x ∷ [])))
        ∙ ap (λ t. t ++ x ∷ []) (sym (take-length (drop offset xs) limit (omega arith)))
        ∙ ground (arith, length-take limit (drop offset xs))
    | no q ↦
        ap (take limit) (drop-append_left offset xs (x ∷ []) p)
        ∙ take-append_left limit (drop offset xs) (x ∷ []) (omega arith)
        ∙ ground (arith, length-take limit (drop offset xs))
  ]
  | no p ↦
      ap (take limit) (drop-length (xs ++ x ∷ []) offset (omega (arith, length-append xs (x ∷ []))))
      ∙ ap (take limit) (sym (drop-length xs offset (omega arith)))
      ∙ ground arith
]

pub visit-match :
    (offset limit : ℕ) (s : Text) (e : LogEntry) (done : List LogEntry)
    → matches e s ≡ true
    → length done + 1 < 2 ^ 64
    → visit offset limit s e (page offset limit done, length done)
      ≡ (page offset limit (done ++ e ∷ []), length (done ++ e ∷ []))
unfolding visit
visit-match offset limit s e done m h =
    rw (m, page-snoc offset limit done e, length-append)
      (ap₂ (λ (a : List LogEntry) (b : ℕ). (a, b)) refl (omega arith))

pub visit-miss :
    (offset limit : ℕ) (s : Text) (e : LogEntry) (acc : Found)
    → matches e s ≡ false
    → visit offset limit s e acc ≡ acc
unfolding visit
visit-miss offset limit s e acc m = rw m

-- Visiting entries in order collects the page of those that match, and counts them.
pub visit_all-page :
    (offset limit : ℕ) (s : Text) (q done : List LogEntry)
    → length done + length q < 2 ^ 64
    → visit_all offset limit s q (page offset limit done, length done) ≡ (
      page offset limit (done ++ select (λ e. matches e s) q),
      length (done ++ select (λ e. matches e s) q),
    )
visit_all-page offset limit s [] done h = rw append-nil
visit_all-page offset limit s (e ∷ q) done h = elim (Bool-cases (matches e s)) [
  | inl m ↦
      ap (visit_all offset limit s q) (visit-match offset limit s e done m (omega arith))
      ∙ visit_all-page offset limit s q (done ++ e ∷ [])
          (omega (arith, length-append done (e ∷ [])))
      ∙ rw (m, append_assoc)
  | inr m ↦
      ap (visit_all offset limit s q)
        (visit-miss offset limit s e (page offset limit done, length done) m)
      ∙ visit_all-page offset limit s q done (omega arith)
      ∙ rw m
]

pub page-nil {ℓ} : {A : Type ℓ} (offset limit : ℕ) → page {A = A} offset limit [] ≡ []
page-nil offset limit =
    ap (take limit) (drop-length [] offset (omega arith)) ∙ take-length [] limit (omega arith)

-- One more entry in a result with room, and none in a full one.
pub append-take_room :
    (limit : ℕ) (result r : List LogEntry) (e : LogEntry)
    → length result < limit
    → (result ++ e ∷ []) ++ take (limit - length (result ++ e ∷ [])) r
      ≡ result ++ take (limit - length result) (e ∷ r)
append-take_room limit result r e h =
    append_assoc result (e ∷ []) (take (limit - length (result ++ e ∷ [])) r)
    ∙ ap (λ k. result ++ e ∷ take k r) {y = limit - length result - 1}
        (omega (arith, length-append result (e ∷ [])))
    ∙ ap (λ k. result ++ take k (e ∷ r)) {x = suc (limit - length result - 1)} (omega arith)

pub append-take_full :
    (limit : ℕ) (result r : List LogEntry)
    → limit ≤ length result
    → result ≡ result ++ take (limit - length result) r
append-take_full limit result r h =
    sym (append-nil result) ∙ ap (λ k. result ++ take k r) {x = 0} (omega arith)
