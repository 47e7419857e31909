-- ===== src/Geoip/Whole.antt =====
-- What the update of the database leaves on the disk: downloader.go.
use metricz_exporter.Base.{
  ◌≡◌, refl, sym, ap, ◌∙◌, eqb, eqb_iff, Bool-cases, true, String, string_key, Option-cases, none,
  some, ◌⊎◌, inl, inr,
}
use metricz_exporter.Base.Map
use metricz_exporter.Base.Map.{get-set_self}
use metricz_exporter.Config.{GeoIpConfig}
use metricz_exporter.FileSystem.{
  File, Disk, OsError, not_exist, invalid, refused, close, Os, Changed, file_at, stat_file,
  rename_file, create_file, write_open, tmp_of, tmp_of-ne, Same,
}
use metricz_exporter.FileSystem.Changes.{
  create_file-Same, write_open-Same, write_open-done, rename_file-done, rename_file-failed,
  stat_file-found,
}
use metricz_exporter.Geoip.{
  Reply, Http, Downloaded, finished, install, copied, replied, created, download_file, is_recent,
  checked, ensure_db,
}

-- The file at the path is the whole body of a reply with status 200.
pub record IsComplete (http : Http) (path url : String) (disk : Disk) : Type 0 where
  pub reply : Reply
  pub file : File
  pub answered : http url ≡ inr reply
  pub accepted : reply.status ≡ 200
  pub ended : reply.broken ≡ none
  pub present : Map.get path disk ≡ some file
  pub whole : file.content ≡ reply.content

-- Without an error the whole database is there; with one, what was there before.
abbrev pub IsWhole : Http → String → String → Disk → Downloaded → Type 0
IsWhole http path url before (disk, none) = IsComplete http path url disk
IsWhole http path url before (disk, some e) = Same path before disk

module _ (os : Os) (http : Http) (path url : String) (before : Disk) where
  finished-IsWhole :
      (p : Changed)
      → (p.1 ≡ none → IsComplete http path url p.0)
      → ((cause : OsError) → p.1 ≡ some cause → Same path before p.0)
      → IsWhole http path url before (finished p)
  finished-IsWhole (disk, none) complete failed = complete refl
  finished-IsWhole (disk, some cause) complete failed = failed cause refl

  module _ (reply : Reply) (answered : http url ≡ inr reply) (accepted : reply.status ≡ 200) where
    rename-IsWhole :
        (disk : Disk)
        → reply.broken ≡ none
        → Same path before disk
        → Map.get (tmp_of path) disk ≡ some (file_at os reply.content)
        → IsWhole http path url before (finished (rename_file os (tmp_of path) path disk))
    rename-IsWhole disk ended same staged =
        finished-IsWhole (rename_file os (tmp_of path) path disk)
          (λ done.
            let (f, found, e) = rename_file-done os (tmp_of path) disk path done in
            record {
              reply = reply;
              file = f;
              answered = answered;
              accepted = accepted;
              ended = ended;
              present = rw e (get-set_self path f (Map.delete (tmp_of path) disk));
              whole =
                  let same_file : file_at os reply.content ≡ f = cc in
                  sym (ap (λ file. file.content) same_file);
            })
          λ cause failed. rw (rename_file-failed os (tmp_of path) disk path cause failed) same

    install-IsWhole :
        (disk : Disk)
        → reply.broken ≡ none
        → Same path before disk
        → Map.get (tmp_of path) disk ≡ some (file_at os reply.content)
        → IsWhole http path url before (install os path disk)
    unfolding install
    install-IsWhole disk ended same staged =
        elim (Option-cases (Os.fails os (close (tmp_of path)))) [
          | inl e ↦ rw (e, install) (rename-IsWhole disk ended same staged)
          | inr (cause, e) ↦ rw (e, install) same
        ]

    copied-IsWhole :
        (p : Changed)
        → Same path before p.0
        → (p.1 ≡ none → Map.get (tmp_of path) p.0 ≡ some (file_at os reply.content))
        → IsWhole http path url before (copied os path reply p)
    unfolding copied
    copied-IsWhole (disk, some cause) same staged = same
    copied-IsWhole (disk, none) same staged = elim (Option-cases reply.broken) [
      | inl e ↦ rw (e, copied) (install-IsWhole disk e same (staged refl))
      | inr (cause, e) ↦ rw (e, copied) same
    ]

  replied-IsWhole :
      (answer : String ⊎ Reply) (disk : Disk)
      → http url ≡ answer
      → Same path before disk
      → IsWhole http path url before (replied os path answer disk)
  replied-IsWhole (inl cause) disk answered same = same
  replied-IsWhole (inr reply) disk answered same = elim (Bool-cases (eqb reply.status 200)) [
    | inr other ↦ rw other same
    | inl accepted ↦ rw accepted (
        copied-IsWhole reply answered ((eqb_iff reply.status 200).0 accepted)
          (write_open os (tmp_of path) reply.content disk)
          (write_open-Same os (tmp_of path) path disk (tmp_of-ne path) reply.content ∙ same)
          λ done.
            rw (write_open-done os (tmp_of path) disk reply.content done)
              (get-set_self (tmp_of path) (file_at os reply.content) disk))
  ]

  created-IsWhole :
      (p : Changed)
      → Same path before p.0
      → IsWhole http path url before (created os http path url p)
  created-IsWhole (disk, some cause) same = same
  created-IsWhole (disk, none) same = replied-IsWhole (http url) disk refl same

-- What downloadFile leaves at the path: the whole body, or what was there.
pub download_file-IsWhole :
    (os : Os) (http : Http) (path url : String) (disk : Disk)
    → IsWhole http path url disk (download_file os http path url disk)
unfolding download_file
download_file-IsWhole os http path url disk =
    created-IsWhole os http path url disk (create_file os (tmp_of path) disk)
      (create_file-Same os (tmp_of path) path disk (tmp_of-ne path))

-- The file that is not too old, of a disk that is not changed.
pub record IsUpToDate (os : Os) (cfg : GeoIpConfig) (before disk : Disk) : Type 0 where
  pub file : File
  pub present : Map.get cfg.path before ≡ some file
  pub recent : is_recent os cfg file ≡ true
  pub kept : disk ≡ before

abbrev pub IsEnsured : Os → Http → GeoIpConfig → Disk → Downloaded → Type 0
IsEnsured os http cfg before (disk, none) =
    IsUpToDate os cfg before disk ⊎ IsComplete http cfg.path cfg.url disk
IsEnsured os http cfg before (disk, some e) = Same cfg.path before disk

IsWhole-IsEnsured :
    (os : Os) (http : Http) (cfg : GeoIpConfig) (before : Disk) (r : Downloaded)
    → IsWhole http cfg.path cfg.url before r
    → IsEnsured os http cfg before r
IsWhole-IsEnsured os http cfg before (disk, none) whole = inr whole
IsWhole-IsEnsured os http cfg before (disk, some e) same = same

checked-IsEnsured :
    (os : Os) (http : Http) (cfg : GeoIpConfig) (disk : Disk) (found : OsError ⊎ File)
    → stat_file os cfg.path disk ≡ found
    → IsEnsured os http cfg disk (checked os http cfg disk found)
checked-IsEnsured os http cfg disk (inr f) h = elim (Bool-cases (is_recent os cfg f)) [
  | inl recent ↦ rw recent (
      inl (record {
        file = f;
        present = stat_file-found os cfg.path disk f h;
        recent = recent;
        kept = refl;
      }))
  | inr old ↦ rw old (
      IsWhole-IsEnsured os http cfg disk (download_file os http cfg.path cfg.url disk)
        (download_file-IsWhole os http cfg.path cfg.url disk))
]
checked-IsEnsured os http cfg disk (inl not_exist) h =
    IsWhole-IsEnsured os http cfg disk (download_file os http cfg.path cfg.url disk)
      (download_file-IsWhole os http cfg.path cfg.url disk)
checked-IsEnsured os http cfg disk (inl invalid) h = refl
checked-IsEnsured os http cfg disk (inl (refused cause)) h = refl

-- After EnsureDB without an error, the database at the path is the one that was there, which is
-- not too old, with no file changed, or the whole body of a reply with status 200; after an error,
-- whichever call of the operating system or of the network failed, the database is the one that
-- was there before.
pub ensure_db-IsEnsured :
    (os : Os) (http : Http) (cfg : GeoIpConfig) (disk : Disk)
    → IsEnsured os http cfg disk (ensure_db os http cfg disk)
unfolding ensure_db
ensure_db-IsEnsured os http cfg disk =
    checked-IsEnsured os http cfg disk (stat_file os cfg.path disk) refl
