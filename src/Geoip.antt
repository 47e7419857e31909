-- ===== src/Geoip.antt =====
-- internal/geoip/downloader.go. `http` is http.Get: an error, or what the server replies.
pub mod Whole
use metricz_exporter.Base.{
  ℕ, pos, ltb_ℤ, eqb, Bool, not, ◌&&◌, if◌then◌else◌, String, Option, none, some, ◌⊎◌, inl, inr,
}
use metricz_exporter.Storage.{Bytes}
use metricz_exporter.Storage.Collector.{time_sub}
use metricz_exporter.Config.{GeoIpConfig}
use metricz_exporter.FileSystem.{
  File, Disk, OsError, not_exist, invalid, refused, close, Os, Changed, stat_file, rename_file,
  create_file, write_open, tmp_of,
}

-- A response: the body's bytes up to the end, or up to an error.
pub record Reply : Type 0 where
  pub status : ℕ
  pub content : Bytes
  pub broken : Option String

abbrev pub Http : Type 0
Http = String → String ⊎ Reply

pub data DownloadError : Type 0 where
  os_error : OsError → DownloadError
  get_failed copy_failed : String → DownloadError

abbrev pub Downloaded : Type 0
Downloaded = Disk × Option DownloadError

abbrev pub finished : Changed → Downloaded
finished (disk, none) = (disk, none)
finished (disk, some cause) = (disk, some (os_error cause))

-- out.Close and os.Rename
unfoldable pub install : Os → String → Disk → Downloaded
unfolding rename_file
install os path disk = elim (Os.fails os (close (tmp_of path))) [
  | some cause ↦ (disk, some (os_error (refused cause)))
  | none ↦ finished (rename_file os (tmp_of path) path disk)
]

-- After io.Copy, with what the writing left.
unfoldable pub copied : Os → String → Reply → Changed → Downloaded
unfolding install
copied os path reply (disk, some cause) = (disk, some (os_error cause))
copied os path reply (disk, none) = elim reply.broken [
  | some cause ↦ (disk, some (copy_failed cause))
  | none ↦ install os path disk
]

abbrev pub replied : Os → String → String ⊎ Reply → Disk → Downloaded
replied os path (inl cause) disk = (disk, some (get_failed cause))
replied os path (inr reply) disk =
    if not (eqb reply.status 200)
    then (disk, some (os_error invalid))
    else copied os path reply (write_open os (tmp_of path) reply.content disk)

abbrev pub created : Os → Http → String → String → Changed → Downloaded
created os http path url (disk, some cause) = (disk, some (os_error cause))
created os http path url (disk, none) = replied os path (http url) disk

unfoldable pub download_file : Os → Http → String → String → Disk → Downloaded
unfolding copied write_open create_file
download_file os http path url disk = created os http path url (create_file os (tmp_of path) disk)

-- cfg.MaxAge > 0 && time.Since(info.ModTime()) < cfg.MaxAge
abbrev pub is_recent : Os → GeoIpConfig → File → Bool
is_recent os cfg f = ltb_ℤ (pos 0) cfg.max_age && ltb_ℤ (time_sub os.now f.mod_time) cfg.max_age

abbrev pub checked : Os → Http → GeoIpConfig → Disk → OsError ⊎ File → Downloaded
checked os http cfg disk (inr f) =
    if is_recent os cfg f then (disk, none) else download_file os http cfg.path cfg.url disk
checked os http cfg disk (inl not_exist) = download_file os http cfg.path cfg.url disk
checked os http cfg disk (inl invalid) = (disk, some (os_error invalid))
checked os http cfg disk (inl (refused cause)) = (disk, some (os_error (refused cause)))

unfoldable pub ensure_db : Os → Http → GeoIpConfig → Disk → Downloaded
unfolding stat_file download_file time_sub
ensure_db os http cfg disk = checked os http cfg disk (stat_file os cfg.path disk)
