-- ===== src/Bookmark.antt =====
-- Bookmarks, rust-core/src/runtime_utils.rs: `sdb1-` and the commit sequence number in 20 digits.
pub mod RoundTrip
use serverless_db.Base.{ℕ, Option, none, some, ◌++◌, Text, codes}
use serverless_db.Error.{Result, ok, err, new, invalid_bookmark}
use serverless_db.Text.{trim, strip_prefix}
use serverless_db.Text.Decimal.{zero_padded, parse_u64}

unfoldable pub bookmark_for_seq : ℕ → Text
bookmark_for_seq seq = codes "sdb1-" ++ zero_padded 20 seq

abbrev or_invalid : Text → Option ℕ → Result ℕ
or_invalid bookmark none = err (new 400 (invalid_bookmark bookmark))
or_invalid bookmark (some seq) = ok seq

abbrev parse_behind : Option Text → Option ℕ
parse_behind none = none
parse_behind (some seq) = parse_u64 seq

unfoldable pub bookmark_to_seq : Text → Result ℕ
bookmark_to_seq bookmark =
    or_invalid bookmark (parse_behind (strip_prefix (codes "sdb1-") (trim bookmark)))
