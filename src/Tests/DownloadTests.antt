-- ===== src/Tests/DownloadTests.antt =====
-- internal/util/download.go with a body of two bytes.
use dns_automatic_traffic_sp.Base.{true, [], ◌∷◌}
use dns_automatic_traffic_sp.Base.Text.{Text, codes}
use dns_automatic_traffic_sp.Base.Maps.{Map}
use dns_automatic_traffic_sp.Download.{Transfer, download_file}
use dns_automatic_traffic_sp.Download.Replaced.{Replaced, download_file-Replaced}

abbrev good_transfer : Transfer
good_transfer = record {
  creates = true;
  responds = true;
  status_ok = true;
  body = 7 ∷ 8 ∷ [];
  copies = true;
  syncs = true;
  closes = true;
  accepts = λ content. true;
  renames = true;
}

abbrev old_files : Map Text
old_files = (codes "geoip.dat", 1 ∷ []) ∷ []

download_file-Replaced_example :
    let (err, files) = download_file (codes "geoip.dat") good_transfer old_files in
    Replaced (codes "geoip.dat") good_transfer old_files err files
download_file-Replaced_example = download_file-Replaced (codes "geoip.dat") good_transfer old_files
