-- ===== src/Version.antt =====
-- stf-inc/stf.hpp: the version of the library, and the check of a trace's version.
use stf_lib.Common.{ℕ, ◌≡◌, arith, Bool, ◌&&◌, ◌||◌, leb, ltb, ◌==◌}

abbrev pub stf_cur_version_major : ℕ
stf_cur_version_major = 1

abbrev pub stf_cur_version_minor : ℕ
stf_cur_version_minor = 6

abbrev pub stf_oldest_supported_version_major : ℕ
stf_oldest_supported_version_major = 1

abbrev pub stf_oldest_supported_version_minor : ℕ
stf_oldest_supported_version_minor = 2

-- The condition that `checkVersion` asserts.
unfoldable pub check_version : ℕ → ℕ → Bool
check_version major minor =
    (leb major stf_cur_version_major
      || (major == stf_cur_version_major && leb minor stf_cur_version_minor))
    && (ltb stf_oldest_supported_version_major major
        || leb stf_oldest_supported_version_minor minor)

-- The check accepts exactly the versions with a major number of at most 1 and a minor number
-- of at least 2: no minor number is too new, and of the versions 0.x it accepts those from 0.2
-- on.
pub check_version_lem : (major minor : ℕ) → check_version major minor ≡ leb major 1 && leb 2 minor
unfolding check_version
check_version_lem major minor = ground arith
