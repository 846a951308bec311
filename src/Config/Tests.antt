-- ===== src/Config/Tests.antt =====
-- An environment where only the public URL is set.
use bug_han.Prelude.{◌≡◌, false, Option, none, Bytes, codes, eqb, is_empty, if◌then◌else◌, []}
use bug_han.Prelude.Int.{ℤ}
use bug_han.Config.{load}
use bug_han.Config.Defaults.{EndsClear, load_lem}

abbrev env : Bytes → Bytes
env key = if eqb key (codes "BUGHAN_URL") then codes "https://bugs.example.com//" else []

abbrev atoi : Bytes → Option ℤ
atoi v = none

load_lem_example :
    (is_empty (load env atoi).secret_key ≡ false)
    × (is_empty (load env atoi).database_url ≡ false)
    × EndsClear (load env atoi).public_url
load_lem_example = load_lem env atoi
