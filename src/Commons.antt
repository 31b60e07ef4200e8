-- ===== src/Commons.antt =====
-- src/commons.h: what the programs share.
use util_ironclad.Base.{List, [], ◌∷◌, ◌++◌, pos}
use util_ironclad.Libc.Text.{Bytes, codes}
use util_ironclad.Run.{Run, puts, stop, ◌>>◌}

-- `VERSION_STR`; `package_version` is the `PACKAGE_VERSION` that the build sets.
unfoldable pub version_str : Bytes → Bytes
unfolding codes
version_str package_version =
    codes " provided by util-ironclad "
    ++ (package_version
        ++ codes
            "\nCopyright (C) 2023 streaksu.\nLicense under the GNU GPL <https://gnu.org/licenses/gpl.html>.\nThis is free software: you are free to change and redistribute it.\nThere is NO WARRANTY, to the extent permitted by law.")

-- `case 'h'`: the usage, and the end of the program.
abbrev pub help : {C A : Type 0} → List Bytes → Run C A
help usage = do puts usage; stop (pos 0)

-- `case 'v'`
abbrev pub version : {C A : Type 0} → Bytes → Bytes → Run C A
version name package_version = do puts ((name ++ version_str package_version) ∷ []); stop (pos 0)
