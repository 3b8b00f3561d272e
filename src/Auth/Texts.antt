-- ===== src/Auth/Texts.antt =====
-- What auth.service.ts and user.repository.ts use of JavaScript strings.
use Prim.Native.String.{[], ◌∷◌}
use Prim.Native.Char.{code}
use solsight_api.Prelude.{
  ℕ, String, Bool, true, false, ◌&&◌, ◌||◌, List, leb, nat_beq, if◌then◌else◌,
}
use solsight_api.Prelude.Text.{split, ◌⊕◌}

-- White space, as `trim` and `\s` have it
abbrev pub is_space : ℕ → Bool
is_space n =
    (leb 9 n && leb n 13)
    || nat_beq n 32
    || nat_beq n 160
    || nat_beq n 5760
    || (leb 8192 n && leb n 8202)
    || nat_beq n 8232
    || nat_beq n 8233
    || nat_beq n 8239
    || nat_beq n 8287
    || nat_beq n 12288
    || nat_beq n 65279

-- `s.trim() === ""`
unfoldable pub is_space_only : String → Bool
is_space_only [] = true
is_space_only (c ∷ s) = is_space (code c) && is_space_only s

-- `s.replace(/\s+/g, "_")`, where `after` says that the character before was a space
unfoldable pub replace_run : (after : Bool) → String → String
replace_run after [] = ""
replace_run after (c ∷ s) =
    let rest = replace_run (is_space (code c)) s in
    if is_space (code c) then (if after then rest else "_" ⊕ rest) else c ∷ rest

unfoldable pub replace_spaces : String → String
unfolding replace_run
replace_spaces s = replace_run false s

-- `s.split(sep)[0]`
abbrev head_of : List String → String
head_of List.[] = ""
head_of (List.◌∷◌ w ws) = w

unfoldable pub first_part : ℕ → String → String
first_part sep s = head_of (split sep s)
