-- ===== src/QueryLog/Ring.antt =====
-- The ring buffer of querylog.go as a bounded queue, oldest entry first.
use dns_automatic_traffic_sp.Base.{
  ℕ, suc, ◌+◌, ◌-◌, ◌%◌, ◌≤◌, ◌<◌, ◌≡◌, sym, ap, ◌∙◌, ◌⊎◌, List, [], ◌∷◌, ◌++◌, arith, ltb,
  if◌then◌else◌, length, get_elem?, set, take, drop, append-nil, append_assoc, length-append,
  length-set, length-take, length-drop, drop-length, take-suc-set, drop-suc-set, drop-eq-cons,
  get_elem?-append_left, get_elem?-append_right, get_elem?-drop, get_elem?-take, take-length,
}
use native.Mathlib.Decide.{dec_lt}
use native.Mathlib.Nat.{mod-eq_of_lt, mod_self, mod-eq-sub-mod}
use dns_automatic_traffic_sp.QueryLog.{LogEntry, QueryLogger, log_at, add_to_memory}

module _ {ℓ} {A : Type ℓ} where
  abbrev pub rotate : ℕ → List A → List A
  rotate s xs = drop s xs ++ take s xs

  -- A rotation goes by the index modulo the length.
  rotate-mod :
      (k : ℕ) (xs : List A) → k ≤ length xs → 0 < k → rotate (k % length xs) xs ≡ rotate k xs
  rotate-mod k xs h p = elim (dec_lt k (length xs)) [
    | yes q ↦ ap (λ j. rotate j xs) (mod-eq_of_lt q)
    | no q ↦
        ap (λ j. rotate j xs) {y = 0} (wraps (omega arith))
        ∙ append-nil xs
        ∙ sym (rw (drop-length xs k (omega arith), take-length xs k (omega arith)))
  ]
    where
      wraps : k ≡ length xs → k % length xs ≡ 0
      wraps e = rw e (mod_self (length xs))

  rotate-get_elem? :
      (s i : ℕ) (xs : List A)
      → (s ≡ 0) ⊎ (s < length xs)
      → i < length xs
      → get_elem? (rotate s xs) i ≡ get_elem? xs ((s + i) % length xs)
  rotate-get_elem? s i xs v h = elim (dec_lt (s + i) (length xs)) [
    | yes q ↦
        get_elem?-append_left (drop s xs) (take s xs) i (omega (arith, length-drop s xs))
        ∙ get_elem?-drop s xs i
        ∙ ap (get_elem? xs) (sym (mod-eq_of_lt q))
    | no q ↦
        ap (get_elem? (rotate s xs)) (omega (arith, length-drop s xs))
        ∙ get_elem?-append_right (drop s xs) (take s xs) (s + i - length xs)
        ∙ get_elem?-take s xs (s + i - length xs) (omega arith)
        ∙ ap (get_elem? xs) (sym (wrapped (omega arith) (omega arith)))
  ]
    where
      wrapped :
          length xs ≤ s + i
          → s + i - length xs < length xs
          → (s + i) % length xs ≡ s + i - length xs
      wrapped le lt = mod-eq-sub-mod le ∙ mod-eq_of_lt lt

-- The entries that the buffer holds, oldest first.
abbrev pub contents : QueryLogger → List LogEntry
contents l = rotate l.logs_start l.logs

-- A queue of at most `cap` entries that forgets the oldest.
abbrev pub push_bounded : ℕ → List LogEntry → LogEntry → List LogEntry
push_bounded cap q e = if ltb (length q) cap then q ++ e ∷ [] else drop 1 q ++ e ∷ []

pub record IsRing (l : QueryLogger) : Type 0 where
  pub positive : 0 < l.max_history
  pub bounded : length l.logs ≤ l.max_history
  pub start_in : (l.logs_start ≡ 0) ⊎ (l.logs_start < length l.logs)
  pub start_zero : length l.logs < l.max_history → l.logs_start ≡ 0

pub length-contents : (l : QueryLogger) → length (contents l) ≡ length l.logs
length-contents l = omega (
  arith,
  length-append (drop l.logs_start l.logs) (take l.logs_start l.logs),
  length-drop l.logs_start l.logs,
  length-take l.logs_start l.logs,
)

-- A rotation by one place, with the slot that it passes overwritten.
rotate-set :
    (xs : List LogEntry) (s : ℕ) (e : LogEntry)
    → s < length xs
    → rotate ((s + 1) % length xs) (set xs s e) ≡ drop 1 (rotate s xs) ++ e ∷ []
rotate-set xs s e h =
    let (x, _, cut) = drop-eq-cons xs s h in
    ap (λ n. rotate ((s + 1) % n) (set xs s e)) (sym (length-set xs s e))
    ∙ rotate-mod (s + 1) (set xs s e) (omega (arith, length-set xs s e)) (omega arith)
    ∙ ap (λ k. rotate k (set xs s e)) {y = suc s} (omega arith)
    ∙ rw (drop-suc-set, take-suc-set xs s e h, cut)
        (sym (append_assoc (drop (suc s) xs) (take s xs) (e ∷ [])))

pub add_to_memory-IsRing : (l : QueryLogger) (e : LogEntry) → IsRing l → IsRing (add_to_memory l e)
unfolding add_to_memory
add_to_memory-IsRing l e v =
    ground (arith, length-append l.logs (e ∷ []), length-set l.logs l.logs_start e)

-- Adding an entry appends it to the buffer's contents, and drops the oldest where it is full.
pub contents-add_to_memory :
    (l : QueryLogger) (e : LogEntry)
    → IsRing l
    → contents (add_to_memory l e) ≡ push_bounded l.max_history (contents l) e
unfolding add_to_memory
contents-add_to_memory l e v = ground (
  arith,
  length-contents l,
  rotate-set l.logs l.logs_start e,
  append-nil l.logs,
  append-nil (l.logs ++ e ∷ []),
)

-- The index arithmetic of logAt reads the buffer's contents in order.
pub log_at-get_elem? :
    (l : QueryLogger) (i : ℕ) → IsRing l → i < length l.logs → log_at l i ≡ get_elem? (contents l) i
unfolding log_at
log_at-get_elem? l i v h = sym (rotate-get_elem? l.logs_start i l.logs v.start_in h)

-- The slot that a full buffer overwrites holds its oldest entry.
pub evicted-head :
    (l : QueryLogger)
    → IsRing l
    → 0 < length l.logs
    → get_elem? l.logs l.logs_start ≡ get_elem? (contents l) 0
evicted-head l v h =
    ap (get_elem? l.logs) (sym (at_start v.start_in))
    ∙ sym (rotate-get_elem? l.logs_start 0 l.logs v.start_in h)
  where
    at_start :
        (l.logs_start ≡ 0) ⊎ (l.logs_start < length l.logs)
        → (l.logs_start + 0) % length l.logs ≡ l.logs_start
    at_start c = ap (λ k. k % length l.logs) (omega arith) ∙ mod-eq_of_lt (omega arith)
