-- ===== src/QueryLog/File/Appended.antt =====
-- What an append leaves in the log file, and what GetLogs then returns.
use dns_automatic_traffic_sp.Base.{
  ℕ, zero, suc, ◌+◌, ◌-◌, ◌≤◌, ◌<◌, ◌≡◌, ◌⊎◌, refl, sym, ap, ◌∙◌, false, Bool-cases, inl, inr, none,
  some, [], ◌∷◌, ◌++◌, append_assoc, leb, ltb, ◌==◌, length, drop, arith, length-drop, drop-drop,
  drop-append_length, inc64, max_int64,
}
use dns_automatic_traffic_sp.Base.Text.{Text}
use dns_automatic_traffic_sp.QueryLog.{LogEntry}
use dns_automatic_traffic_sp.QueryLog.File.{
  Json, Disk, Faults, newline, limit_bytes, target_size, count_newlines, behind_newline,
  prune_log_file, make_room, append_data, append_to_file,
}

abbrev pub no_faults : Faults
no_faults = record {
  stat_fails = false;
  prune_fails = false;
  open_fails = false;
  write_stops = none;
}

pub count_newlines-append :
    (s t : Text) → count_newlines (s ++ t) ≡ count_newlines s + count_newlines t
unfolding count_newlines
count_newlines-append [] t = omega arith
count_newlines-append (b ∷ s) t = ground (arith, count_newlines-append s t)

pub count_newlines-drop : (n : ℕ) (s : Text) → count_newlines (drop n s) ≤ count_newlines s
unfolding count_newlines
count_newlines-drop zero s = omega arith
count_newlines-drop (suc n) [] = omega arith
count_newlines-drop (suc n) (b ∷ s) = ground (arith, count_newlines-drop n s)

-- What is behind the newline is an end of the file.
behind_newline-drop :
    (n : ℕ) (whole p s : Text)
    → whole ≡ p ++ s
    → (k : ℕ) × (behind_newline n whole s ≡ drop k whole)
unfolding behind_newline
behind_newline-drop zero whole p s e = (0, refl)
behind_newline-drop (suc n) whole p [] e = (0, refl)
behind_newline-drop (suc n) whole p (b ∷ s) e =
    let shifted = e ∙ sym (append_assoc p (b ∷ []) s) in
    elim (Bool-cases (b == newline)) [
      | inl y ↦ (
        length (p ++ b ∷ []),
        rw y (
            sym (
              ap (drop (length (p ++ b ∷ []))) shifted
              ∙ drop-append_length (length (p ++ b ∷ [])) (p ++ b ∷ []) s refl)),
      )
      | inr y ↦ let (k, h) = behind_newline-drop n whole (p ++ b ∷ []) s shifted in (k, rw y h)
    ]

-- Pruning leaves an end of the file, and counts its lines.
prune-kept :
    (limit : ℕ) (file : Text)
    → (n : ℕ) × (prune_log_file limit file (count_newlines file)
        ≡ (drop n file, count_newlines (drop n file)))
      × (length (drop n file) ≤ target_size limit)
unfolding prune_log_file
prune-kept limit file = elim (Bool-cases (leb (length file) (target_size limit))) [
  | inl small ↦ (0, rw small refl, ground (arith, small))
  | inr big ↦
      let m = length file - target_size limit in
      let (k, h) = behind_newline-drop 1024 (drop m file) [] (drop m file) refl in
      let e = h ∙ drop-drop k m file in
      (
        m + k,
        rw big (ap (λ t. (t, count_newlines t)) e),
        ground (arith, length-drop (m + k) file, big),
      )
]

-- The end of the file that stays before a line of some length is written.
abbrev pub Room : ℕ → Text → ℕ → ℕ → Type 0
Room limit file size n =
    (length (drop n file) + size ≤ limit) ⊎ (length (drop n file) ≤ target_size limit)

abbrev pub Unpruned : ℕ → Text → ℕ → ℕ → Type 0
Unpruned limit file size n = (n ≡ 0) ⊎ (limit < length file + size)

make_room-drop :
    (limit : ℕ) (file line : Text)
    → (n : ℕ) × (make_room no_faults limit file line (count_newlines file)
        ≡ (drop n file, count_newlines (drop n file)))
      × Room limit file (length line) n
      × Unpruned limit file (length line) n
make_room-drop limit file line = elim (Bool-cases (ltb limit (length file + length line))) [
  | inl full ↦
      let (n, e, small) = prune-kept limit file in
      (n, rw full e, inr small, inr (ground (arith, full)))
  | inr room ↦ (0, rw room refl, inl (ground (arith, room)), inl refl)
]

pub count_newlines-line :
    (json : Text) → count_newlines json ≡ 0 → count_newlines (json ++ newline ∷ []) ≡ 1
unfolding count_newlines
count_newlines-line json h = count_newlines-append json (newline ∷ []) ∙ ap (λ k. k + 1) h

-- A file whose lines are counted.
abbrev pub counted : Text → Disk
counted file = record { file = some file; count = count_newlines file }

-- An append to a log file whose count of persisted entries is the number of its newlines, where no
-- call of the file system fails, the entry has an encoding without a newline, and the file has
-- fewer than 2^63 - 1 newlines: it leaves an end of the file with the line behind it, and the count is
-- again the number of newlines. Nothing is cut off unless the file would have become larger than the
-- limit; the new file is within the limit, or what was left of the old one is within four fifths of it.
pub append_to_file-bounded :
    (j : Json) (max_size_mb : ℕ) (entry : LogEntry) (file json : Text)
    → j.marshal entry ≡ some json
    → count_newlines json ≡ 0
    → count_newlines file < max_int64
    → let limit = limit_bytes max_size_mb in
      let line = json ++ newline ∷ [] in
      (n : ℕ) × (append_to_file j no_faults max_size_mb entry (counted file)
        ≡ counted (drop n file ++ line))
      × Room limit file (length line) n
      × Unpruned limit file (length line) n
unfolding append_to_file
append_to_file-bounded j max_size_mb entry file json m one_line few =
    let limit = limit_bytes max_size_mb in
    let line = json ++ newline ∷ [] in
    let (n, e, room, unpruned) = make_room-drop limit file line in
    (
      n,
      ap (λ o. append_data no_faults limit o (counted file)) m
          ∙ ap (λ (t : Text × ℕ). record { file = some (t.0 ++ line); count = inc64 t.1 }) e
          ∙ ap (λ k. record { file = some (drop n file ++ line); count = k })
              (omega (
                arith,
                few,
                count_newlines-drop n file,
                count_newlines-append (drop n file) line,
                count_newlines-line json one_line,
              )),
      room,
      unpruned,
    )
