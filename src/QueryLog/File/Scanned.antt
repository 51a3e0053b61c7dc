-- ===== src/QueryLog/File/Scanned.antt =====
-- What readLogsFromFileBackwards does with chunks and bytes, in terms of whole lines.
use dns_automatic_traffic_sp.Base.{
  ℕ, zero, suc, ◌+◌, ◌-◌, ◌≤◌, ◌<◌, ◌≡◌, refl, sym, ap, ◌∙◌, Bool, true, false, Bool-cases, inl,
  inr, Option, some, List, [], ◌∷◌, ◌++◌, reverse, ◌==◌, take, take-length, drop, arith,
}
use mathlib.Core.List.{reverse-append}
use dns_automatic_traffic_sp.Base.Text.{Text}
use dns_automatic_traffic_sp.QueryLog.File.{Json}
use dns_automatic_traffic_sp.QueryLog.File.Backwards.{
  Search, Reader, Scan, going, finished, on_byte, and_then, scan_bytes, read_size, chunk_at,
  next_chunk, scan_chunks,
}

take-add {ℓ} :
    {A : Type ℓ} (m n : ℕ) (xs : List A) → take (m + n) xs ≡ take m xs ++ take n (drop m xs)
take-add zero n xs = ap (λ k. take k xs) (omega arith)
take-add (suc m) n [] =
    take-length [] (suc m + n) (omega arith) ∙ sym (take-length [] n (omega arith))
take-add (suc m) n (x ∷ xs) =
    ap (λ k. take k (x ∷ xs)) {x = suc m + n} {y = suc (m + n)} (omega arith)
    ∙ ap (λ t. x ∷ t) (take-add m n xs)

pub and_then_assoc :
    (s : Scan) (k m : Reader → Scan)
    → and_then (and_then s k) m ≡ and_then s (λ r. and_then (k r) m)
and_then_assoc (going r) k m = refl
and_then_assoc (finished found) k m = refl

pub and_then_cong :
    (s : Scan) (k m : Reader → Scan) → ((r : Reader) → k r ≡ m r) → and_then s k ≡ and_then s m
and_then_cong (going r) k m h = h r
and_then_cong (finished found) k m h = refl

next_chunk-and_then :
    (s : Scan) (k : Reader → Option Scan) (m : Reader → Scan)
    → ((r : Reader) → k r ≡ some (m r))
    → next_chunk s k ≡ some (and_then s m)
next_chunk-and_then (going r) k m h = h r
next_chunk-and_then (finished found) k m h = refl

next_chunk-some :
    (s : Scan) (k : Reader → Option Scan)
    → ((r : Reader) → (t : Scan) × (k r ≡ some t))
    → (t : Scan) × (next_chunk s k ≡ some t)
next_chunk-some (going r) k h = h r
next_chunk-some (finished found) k h = (finished found, refl)

-- A chunk, from its last byte, and what is in front of it.
reverse-chunk :
    (size pos : ℕ) (file : Text)
    → let n = read_size size pos in
      reverse (take pos file) ≡ reverse (chunk_at file (pos - n) n) ++ reverse (take (pos - n) file)
reverse-chunk size pos file =
    let n = read_size size pos in
    ap (λ k. reverse (take k file)) {x = pos} {y = pos - n + n} (ground arith)
    ∙ ap (λ (t : Text). reverse t) (take-add (pos - n) n file)
    ∙ reverse-append (take (pos - n) file) (chunk_at file (pos - n) n)

read_size-less :
    (size pos fuel : ℕ)
    → 0 < size
    → (pos == 0) ≡ false
    → pos ≤ suc fuel
    → pos - read_size size pos ≤ fuel
read_size-less size pos fuel p e h = ground (arith, e)

module _ (j : Json) (q : Search) where
  scan_bytes-append :
      (s t : Text) (r : Reader)
      → scan_bytes j q (s ++ t) r ≡ and_then (scan_bytes j q s r) (scan_bytes j q t)
  unfolding scan_bytes
  scan_bytes-append [] t r = refl
  scan_bytes-append (b ∷ s) t r =
      and_then_cong (on_byte j q b r) _ _ (scan_bytes-append s t)
      ∙ sym (and_then_assoc (on_byte j q b r) (scan_bytes j q s) (scan_bytes j q t))

  module _ (size : ℕ) (file : Text) (positive : 0 < size) where
    -- Reading in chunks of any size is reading backwards byte by byte.
    pub scan_chunks-scan_bytes :
        (readable : ℕ → Bool) (fuel pos : ℕ) (r : Reader)
        → ((p : ℕ) → readable p ≡ true)
        → pos ≤ fuel
        → scan_chunks j q size readable file fuel pos r
          ≡ some (scan_bytes j q (reverse (take pos file)) r)
    unfolding scan_chunks scan_bytes
    scan_chunks-scan_bytes readable zero zero r ok h = refl
    scan_chunks-scan_bytes readable zero (suc p) r ok h = elim h [ ]
    scan_chunks-scan_bytes readable (suc fuel) pos r ok h = elim (Bool-cases (pos == 0)) [
      | inl e ↦
          rw e
            (ap (λ k. some (scan_bytes j q (reverse (take k file)) r)) {x = 0} (ground (arith, e)))
      | inr e ↦
          let n = read_size size pos in
          let chunk = reverse (chunk_at file (pos - n) n) in
          rw (e, ok (pos - n))
            (next_chunk-and_then (scan_bytes j q chunk r) _ _ (λ r'.
                scan_chunks-scan_bytes readable fuel (pos - n) r' ok
                  (read_size-less size pos fuel positive e h))
              ∙ ap some (sym (scan_bytes-append chunk (reverse (take (pos - n) file)) r))
              ∙ ap (λ t. some (scan_bytes j q t r)) (sym (reverse-chunk size pos file)))
    ]

    -- Whatever cannot be read, the loop ends.
    pub scan_chunks-some :
        (readable : ℕ → Bool) (fuel pos : ℕ) (r : Reader)
        → pos ≤ fuel
        → (s : Scan) × (scan_chunks j q size readable file fuel pos r ≡ some s)
    unfolding scan_chunks
    scan_chunks-some readable zero zero r h = (going r, refl)
    scan_chunks-some readable zero (suc p) r h = elim h [ ]
    scan_chunks-some readable (suc fuel) pos r h = elim (Bool-cases (pos == 0)) [
      | inl e ↦ (going r, rw e)
      | inr e ↦ elim (Bool-cases (readable (pos - read_size size pos))) [
        | inr broken ↦ (going r, rw (e, broken))
        | inl good ↦
            let n = read_size size pos in
            let (t, eq) =
              next_chunk-some (scan_bytes j q (reverse (chunk_at file (pos - n) n)) r)
                (scan_chunks j q size readable file fuel (pos - n))
                (λ r'.
                  scan_chunks-some readable fuel (pos - n) r'
                    (read_size-less size pos fuel positive e h)) in
            (t, rw (e, good) eq)
      ]
    ]
