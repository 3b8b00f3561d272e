-- ===== src/Prelude/Text.antt =====
-- What the program uses of JavaScript strings: `split` by one character, `startsWith` with `slice`,
-- and template literals, over the code points of the native `String`.
use Prim.Native.Nat.{ℕ}
use Prim.Native.Char.{Char, code}
use Prim.Native.String.{String, [], ◌∷◌}
use Prim.Native.String
use mathlib.Core.Path.{◌≡◌, refl}
use mathlib.Core.Bool.{Bool, true, false, ◌||◌}
use mathlib.Core.Option.{Option, none, some}
use mathlib.Core.List.{List}
use native.Mathlib.Omega.{arith}
use text.Mathlib.TextLemmas.{nil-append, cons-append}
use solsight_api.Prelude.Tests.{if◌then◌else◌, is_some, nat_beq}
use solsight_api.Prelude.Keys.{nat_beq_iff}

infixr 66 ◌⊕◌
-- `${s}${t}`
abbrev pub ◌⊕◌ : String → String → String
s ⊕ t = String.◌++◌ s t

-- `!s`, for a string
abbrev pub is_blank : String → Bool
is_blank [] = true
is_blank (c ∷ s) = false

-- `s.startsWith(p) ? s.slice(p.length) : null`
unfoldable pub strip_prefix : String → String → Option String
strip_prefix [] s = some s
strip_prefix (c ∷ p) [] = none
strip_prefix (c ∷ p) (d ∷ s) =
    let rest = strip_prefix p s in if nat_beq (code c) (code d) then rest else none

pub strip_prefix-append : (p s : String) → strip_prefix p (p ⊕ s) ≡ some s
unfolding strip_prefix
strip_prefix-append [] s = rw nil-append
strip_prefix-append (c ∷ p) s =
    rw (cons-append, (nat_beq_iff (code c) (code c)).1 refl) (strip_prefix-append p s)

abbrev pub onto_first : Char → List String → List String
onto_first c List.[] = List.◌∷◌ (c ∷ []) List.[]
onto_first c (List.◌∷◌ w ws) = List.◌∷◌ (c ∷ w) ws

-- `s.split(sep)`, for a separator of one character
unfoldable pub split : ℕ → String → List String
split sep [] = List.◌∷◌ "" List.[]
split sep (c ∷ s) =
    let rest = split sep s in if nat_beq (code c) sep then List.◌∷◌ "" rest else onto_first c rest

abbrev pub Lacks : ℕ → String → Type 0
Lacks sep [] = Unit
Lacks sep (c ∷ s) = (nat_beq (code c) sep ≡ false) × Lacks sep s

-- `s.includes(sep)`
unfoldable pub includes : ℕ → String → Bool
includes sep [] = false
includes sep (c ∷ s) = nat_beq (code c) sep || includes sep s

pub includes-Lacks : (sep : ℕ) (s : String) → includes sep s ≡ false → Lacks sep s
unfolding includes
includes-Lacks sep [] h = tt
includes-Lacks sep (c ∷ s) h = (ground arith, includes-Lacks sep s (ground arith))

pub split-Lacks : (sep : ℕ) (w : String) → Lacks sep w → split sep w ≡ List.◌∷◌ w List.[]
unfolding split
split-Lacks sep [] h = refl
split-Lacks sep (c ∷ w) h = rw (h.0, split-Lacks sep w h.1)

pub split-append :
    (sep : ℕ) (w : String) (c : Char) (r : String)
    → Lacks sep w
    → nat_beq (code c) sep ≡ true
    → split sep (w ⊕ (c ∷ r)) ≡ List.◌∷◌ w (split sep r)
unfolding split
split-append sep [] c r h e = rw (nil-append, e)
split-append sep (d ∷ w) c r h e = rw (cons-append, h.0, split-append sep w c r h.1 e)

pub split_colon :
    (w r : String) → Lacks b':' w → split b':' (w ⊕ ":" ⊕ r) ≡ List.◌∷◌ w (split b':' r)
split_colon w r lacks = rw cons-append (rw nil-append (split-append b':' w _ r lacks refl))

-- `xs.pop()` and `xs[xs.length - 1]`
abbrev pub last : String → List String → String
last d List.[] = d
last d (List.◌∷◌ w ws) = last w ws

-- `s.includes(t)`
unfoldable pub includes_text : String → String → Bool
unfolding strip_prefix
includes_text t [] = is_some (strip_prefix t [])
includes_text t (c ∷ s) =
    let rest = includes_text t s in if is_some (strip_prefix t (c ∷ s)) then true else rest
