-- ===== src/Vars.antt =====
-- internal/vars/vars.go: what a build says of itself. `revision` and `build_time` are the texts that
-- the linker sets.
use metricz_exporter.Base.{◌<>◌, ℤ, pos, ltb, if◌then◌else◌, str_eq, String, Option, none, some}
use metricz_exporter.Storage.{Time}
use metricz_exporter.Strconv.{parse_int, format_int}
use Prim.Native.String.{len, slice}

-- The package's variables. A commit is in ASCII.
pub record Vars : Type 0 where
  pub name : String
  pub version : String
  pub commit : String
  pub revision : ℤ
  pub build_time : Time
  pub url : String
  pub license : String

pub record BuildInfo : Type 0 where
  pub name : String
  pub version : String
  pub commit : String
  pub commit_short : String
  pub revision : ℤ
  pub build_time : Time
  pub url : String
  pub license : String

-- init; `parse_time` is time.Parse with RFC3339, in UTC.
unfoldable pub init : (String → Option Time) → String → String → Vars → Vars
unfolding parse_int
init parse_time revision build_time v = record v {
  revision = elim (parse_int revision) [ none ↦ v.revision | some n ↦ n ];
  build_time =
      if str_eq build_time ""
      then v.build_time
      else elim (parse_time build_time) [ none ↦ v.build_time | some t ↦ t ];
}

unfoldable pub commit_short : Vars → String
commit_short v = if ltb 7 (len v.commit) then slice v.commit 0 7 else v.commit

unfoldable pub info : Vars → BuildInfo
unfolding commit_short
info v = record {
  name = v.name;
  version = v.version;
  commit = v.commit;
  commit_short = commit_short v;
  revision = v.revision;
  build_time = v.build_time;
  url = v.url;
  license = v.license;
}

-- Ver: the fields that it leaves out are Go's zero values.
unfoldable pub ver : Vars → BuildInfo
ver v = record {
  name = v.name;
  version = v.version;
  commit = v.commit;
  commit_short = "";
  revision = v.revision;
  build_time = pos 0;
  url = "";
  license = "";
}

abbrev line : String → String → String
line key value = key <> (value <> "\n")

-- Print; `file` is os.Args[0], and `text_of` is Time.String.
unfoldable pub printed : (Time → String) → String → Vars → String
unfolding format_int
printed text_of file v =
    line "name:     " v.name
    <> (line "url:      " v.url
        <> (line "file:     " file
            <> (line "version:  " v.version
                <> (line "commit:   " v.commit
                    <> (line "revision: " (format_int v.revision)
                        <> (line "built:    " (text_of v.build_time)
                            <> line "license:  " v.license))))))
