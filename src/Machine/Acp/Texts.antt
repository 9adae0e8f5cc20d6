-- ===== src/Machine/Acp/Texts.antt =====
-- crates/machine/src/acp.rs, `capped`: the longest beginning of a text that ends between characters
-- and has at most so many bytes. A text is its characters, and its length is in bytes.
use Prim.Native.Char.{code}
use Prim.Native.String.{[], ◌∷◌}
use webmux.Base.{
  ℕ, zero, suc, ◌-◌, ◌+◌, ◌*◌, String, Bool, true, false, ◌&&◌, ltb, ◌==◌, if◌then◌else◌,
}
use webmux.Base.Utf8.{len_utf8}

-- `str::len`.
unfoldable pub str_len : String → ℕ
str_len [] = 0
str_len (c ∷ s) = len_utf8 (code c) + str_len s

-- `str::is_char_boundary`.
unfoldable pub is_char_boundary : String → ℕ → Bool
is_char_boundary s zero = true
is_char_boundary [] (suc n) = false
is_char_boundary (c ∷ s) (suc n) =
    let rest = is_char_boundary s (suc n - len_utf8 (code c)) in
    if ltb (suc n) (len_utf8 (code c)) then false else rest

-- `String::truncate`, at a boundary.
unfoldable pub truncate : String → ℕ → String
truncate [] n = []
truncate (c ∷ s) n =
    let rest = truncate s (n - len_utf8 (code c)) in if n == 0 then [] else (c ∷ rest)

-- The loop that looks for the last boundary.
unfoldable pub last_boundary : String → ℕ → ℕ
last_boundary s zero = 0
last_boundary s (suc n) =
    let rest = last_boundary s n in if is_char_boundary s (suc n) then suc n else rest

-- `str::starts_with`.
unfoldable pub starts_with : String → String → Bool
starts_with s [] = true
starts_with [] (c ∷ t) = false
starts_with (d ∷ s) (c ∷ t) = code d == code c && starts_with s t

abbrev pub tool_call_content_cap : ℕ
tool_call_content_cap = 8 * 1024

unfoldable pub capped_text : String → ℕ → String
unfolding last_boundary truncate str_len
capped_text text cap =
    if ltb cap (str_len text) then truncate text (last_boundary text cap) else text
