-- ===== src/Network/Constants.antt =====
-- The time of runtime/common/src/constants.rs, in blocks, in a build without the feature `fast-runtime`.
use xxchain.Common.{ℕ, ◌+◌, ◌*◌, ◌/◌}

abbrev pub millisecs_per_block : ℕ
millisecs_per_block = 6000

abbrev pub secs_per_block : ℕ
secs_per_block = millisecs_per_block / 1000

abbrev pub minutes : ℕ
minutes = 60 / secs_per_block

abbrev pub hours : ℕ
hours = minutes * 60

abbrev pub days : ℕ
days = hours * 24

abbrev pub weeks : ℕ
weeks = 7 * days

abbrev pub years : ℕ
years = 365 * days + 6 * hours
