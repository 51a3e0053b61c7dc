-- ===== src/Download/Replaced.antt =====
-- internal/util/download.go: a download replaces the file or leaves it alone.
use dns_automatic_traffic_sp.Base.{
  ℕ, zero, suc, subst, ◌≤◌, ◌<◌, ◌≡◌, ◌≢◌, refl, sym, ap, ◌∙◌, Bool, true, false, Bool-cases, inl,
  inr, ◌⊎◌, Option, none, some, [], ◌∷◌, ◌++◌, ltb, if◌then◌else◌, length, length-append, take,
  arith,
}
use dns_automatic_traffic_sp.Base.Text.{Text, codes, is_empty, text_eq, text_eq_iff, text_eq_refl}
use dns_automatic_traffic_sp.Base.Maps.{Map, lookup, insert, delete, lookup-insert, lookup-delete}
use dns_automatic_traffic_sp.Download.{
  max_download_size, DownloadError, not_created, request_failed, bad_status, not_written, too_large,
  empty_body, not_synced, not_closed, not_valid, not_renamed, Transfer, temp_file, received, check,
  settle, download_file,
}

-- Without an error: the file is the whole body, which is not empty, within the limit and accepted,
-- and the temporary file is gone. With one: the file is what it was.
abbrev pub Replaced : Text → Transfer → Map Text → Option DownloadError → Map Text → Type 0
Replaced path t files none files' =
    (lookup path files' ≡ some t.body)
    × (0 < length t.body)
    × (length t.body ≤ max_download_size)
    × (t.accepts t.body ≡ true)
    × (lookup (temp_file path) files' ≡ none)
Replaced path t files (some e) files' = lookup path files' ≡ lookup path files

temp_file-path : (path : Text) → text_eq (temp_file path) path ≡ false
temp_file-path path = elim (Bool-cases (text_eq (temp_file path) path)) [
  | inr differ ↦ differ
  | inl same ↦
      absurd
        (longer path (ap (λ (s : Text). length s) ((text_eq_iff (temp_file path) path).0 same)))
]
  where
    longer : (path : Text) → length (path ++ codes ".tmp") ≢ length path
    longer path h = omega (arith, h, length-append path (codes ".tmp"))

-- The tests, in the order of the source.
tests_lem :
    (responds ok copies big empty syncs closes valid renames : Bool)
    → (if responds
        then if ok
          then if copies
            then if big
              then some too_large
              else if empty
              then some empty_body
              else if syncs
              then if closes
                then if valid then if renames then none else some not_renamed else some not_valid
                else some not_closed
              else some not_synced
            else some not_written
          else some bad_status
        else some request_failed)
      ≡ none
    → (big ≡ false) × (empty ≡ false) × (valid ≡ true)
tests_lem responds ok copies big empty syncs closes valid renames h = ground (arith, h)

check-none :
    (t : Transfer)
    → check t ≡ none
    → (ltb max_download_size (length (received t)) ≡ false)
      × (is_empty (received t) ≡ false)
      × (t.accepts (received t) ≡ true)
unfolding check
check-none t h =
    tests_lem t.responds t.status_ok t.copies (ltb max_download_size (length (received t)))
      (is_empty (received t)) t.syncs t.closes (t.accepts (received t)) t.renames h

-- What is read with one byte to spare and needs none of it is all there is.
take-all : (n : ℕ) (s : Text) → length (take (suc n) s) ≤ n → take (suc n) s ≡ s
take-all n [] h = refl
take-all zero (c ∷ s) h = absurd (omega (arith, h))
take-all (suc n) (c ∷ s) h = ap (λ (r : Text). c ∷ r) (take-all n s (omega (arith, h)))

within : (m n : ℕ) → ltb m n ≡ false → n ≤ m
within m n h = ground (arith, h)

solid : (s : Text) → is_empty s ≡ false → 0 < length s
solid [] h = cc h
solid (c ∷ s) h = omega arith

-- A file beside the temporary one, which has come and gone.
lookup_gone :
    (path tmp r : Text) (files : Map Text)
    → text_eq tmp path ≡ false
    → lookup path (delete tmp (insert tmp r files)) ≡ lookup path files
lookup_gone path tmp r files h =
    lookup-delete tmp path (insert tmp r files)
    ∙ ap (λ c. if c then none else lookup path (insert tmp r files)) h
    ∙ lookup-insert tmp path r files
    ∙ ap (λ c. if c then some r else lookup path files) h

lookup_new : (path r : Text) (files : Map Text) → lookup path (insert path r files) ≡ some r
lookup_new path r files =
    lookup-insert path path r files
    ∙ ap (λ c. if c then some r else lookup path files) (text_eq_refl path)

lookup_temp :
    (path tmp r s : Text) (files : Map Text)
    → text_eq tmp path ≡ false
    → lookup tmp (insert path r (delete tmp (insert tmp s files))) ≡ none
lookup_temp path tmp r s files h =
    let before = insert tmp s files in
    lookup-insert path tmp r (delete tmp before)
    ∙ ap (λ c. if c then some r else lookup tmp (delete tmp before)) (flipped (Bool-cases _))
    ∙ lookup-delete tmp tmp before
    ∙ ap (λ c. if c then none else lookup tmp before) (text_eq_refl tmp)
  where
    flipped : (text_eq path tmp ≡ true) ⊎ (text_eq path tmp ≡ false) → text_eq path tmp ≡ false
    flipped (inr differ) = differ
    flipped (inl same) = cc ((text_eq_iff tmp path).1 (sym ((text_eq_iff path tmp).0 same)), h)

settled :
    (path : Text) (t : Transfer) (files : Map Text) (verdict : Option DownloadError)
    → check t ≡ verdict
    → Replaced path t files verdict
        (settle path t verdict (insert (temp_file path) (received t) files))
settled path t files (some e) h =
    lookup_gone path (temp_file path) (received t) files (temp_file-path path)
settled path t files none h =
    let (fits, full, good) = check-none t h in
    let small = within max_download_size (length (received t)) fits in
    let whole : received t ≡ t.body = take-all max_download_size t.body small in
    (
      lookup_new path (received t)
            (delete (temp_file path) (insert (temp_file path) (received t) files))
          ∙ ap (λ (r : Text). some r) whole,
      subst (λ (s : Text). 0 < length s) whole (solid (received t) full),
      subst (λ (s : Text). length s ≤ max_download_size) whole small,
      subst (λ (s : Text). t.accepts s ≡ true) whole good,
      lookup_temp path (temp_file path) (received t) (received t) files (temp_file-path path),
    )

-- DownloadFile: without an error the file is the whole body that the server sent, which is not
-- empty, has at most 512 MiB and was accepted by the validator, and no temporary file is left. With
-- an error of any step the file is what it was.
pub download_file-Replaced :
    (path : Text) (t : Transfer) (files : Map Text)
    → let (err, files') = download_file path t files in Replaced path t files err files'
unfolding download_file
download_file-Replaced path t files = by_created t.creates
  where
    Ends : Option DownloadError × Map Text → Type 0
    Ends (err, files') = Replaced path t files err files'

    by_created :
        (created : Bool)
        → Ends (
            if created
            then (check t, settle path t (check t) (insert (temp_file path) (received t) files))
            else (some not_created, files))
    by_created false = refl
    by_created true = settled path t files (check t) refl
