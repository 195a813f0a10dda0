-- ===== src/Version.antt =====
-- include/fastqueue/version.h and src/utils/version.c.
use Prim.Native.String.{String}
use fast_queue.Prelude.{ℕ, ◌*◌, ◌^◌, bit_or}

-- FQ_VERSION_MAJOR, FQ_VERSION_MINOR and FQ_VERSION_PATCH
abbrev pub version_major : ℕ
version_major = 0

abbrev pub version_minor : ℕ
version_minor = 1

abbrev pub version_patch : ℕ
version_patch = 0

-- FQ_VERSION_STRING, by `fq_version_string`
unfoldable pub version_string : String
version_string = "0.1.0"

-- FQ_VERSION_HEX, by `fq_version_hex`
unfoldable pub version_hex : ℕ
version_hex = bit_or (bit_or (version_major * 2 ^ 16) (version_minor * 2 ^ 8)) version_patch
