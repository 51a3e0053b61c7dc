-- ===== src/Download.antt =====
-- internal/util/download.go: DownloadFile on a directory of files. What the file system, the server
-- and the validator do to one download is a `Transfer`; syncing has no effect but its error.
pub mod Replaced
use dns_automatic_traffic_sp.Base.{
  ℕ, ◌+◌, Bool, true, false, Option, none, some, ◌++◌, ltb, if◌then◌else◌, length, take,
}
use dns_automatic_traffic_sp.Base.Text.{Text, codes, is_empty}
use dns_automatic_traffic_sp.Base.Maps.{Map, insert, delete}

abbrev pub max_download_size : ℕ
max_download_size = 536870912

-- The errors of DownloadFile, one constructor for each place that makes one.
pub data DownloadError : Type 0 where
  not_created request_failed bad_status not_written too_large empty_body : DownloadError
  not_synced not_closed not_valid not_renamed : DownloadError

-- Whether each step succeeds, the body that is sent, and whether the validator accepts a content.
pub record Transfer : Type 0 where
  pub creates : Bool
  pub responds : Bool
  pub status_ok : Bool
  pub body : Text
  pub copies : Bool
  pub syncs : Bool
  pub closes : Bool
  pub accepts : Text → Bool
  pub renames : Bool

abbrev pub temp_file : Text → Text
temp_file path = path ++ codes ".tmp"

-- io.LimitReader lets one byte more through than is allowed.
abbrev pub received : Transfer → Text
received t = take (max_download_size + 1) t.body

-- The checks behind the creation of the temporary file, in their order.
unfoldable pub check : Transfer → Option DownloadError
check t =
    if t.responds
    then if t.status_ok
      then if t.copies
        then if ltb max_download_size (length (received t))
          then some too_large
          else if is_empty (received t)
          then some empty_body
          else if t.syncs
          then if t.closes
            then if t.accepts (received t)
              then if t.renames then none else some not_renamed
              else some not_valid
            else some not_closed
          else some not_synced
        else some not_written
      else some bad_status
    else some request_failed

-- The temporary file becomes the file, or the deferred function removes it.
abbrev pub settle : Text → Transfer → Option DownloadError → Map Text → Map Text
settle path t none files = insert path (received t) (delete (temp_file path) files)
settle path t (some e) files = delete (temp_file path) files

unfoldable pub download_file : Text → Transfer → Map Text → Option DownloadError × Map Text
unfolding check
download_file path t files =
    if t.creates
    then (check t, settle path t (check t) (insert (temp_file path) (received t) files))
    else (some not_created, files)
