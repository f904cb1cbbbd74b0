-- ===== src/Wt/Codes.antt =====
-- src/aiopquic/_binding/c/h3wt_callback.h, the codes of stream resets: a 32-bit application code travels
-- as an HTTP/3 code in a range that skips the reserved codepoints.
pub mod Roundtrip
use aiopquic.Base.{ℕ, ◌+◌, ◌/◌, ◌%◌, Bool, ◌||◌, u64, sub64, ltb, ◌==◌, if◌then◌else◌}

abbrev pub wt_session_gone : ℕ
wt_session_gone = 0x170d7b68

abbrev pub wt_app_error_first : ℕ
wt_app_error_first = 0x52e4a40fa8db

abbrev pub wt_app_error_last : ℕ
wt_app_error_last = 0x52e5ac983162

unfoldable pub wt_code_to_h3 : ℕ → ℕ
wt_code_to_h3 code =
    if ltb 0xffffffff code then code else u64 (u64 (wt_app_error_first + code) + code / 0x1e)

abbrev pub carries_no_code : ℕ → Bool
carries_no_code h =
    ltb h wt_app_error_first || ltb wt_app_error_last h || (sub64 h 0x21 % 0x1f == 0)

unfoldable pub wt_code_from_h3 : ℕ → ℕ
wt_code_from_h3 h =
    if carries_no_code h
    then h
    else let shifted = sub64 h wt_app_error_first in sub64 shifted (shifted / 0x1f)
