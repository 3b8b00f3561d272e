-- ===== src/Events/Grouping.antt =====
-- event-stream-dispatcher.service.ts: the handlers of each channel, and the list of them that a reader
-- of the handlers' own channels would make.
use solsight_api.Prelude.{
  String, false, none, List, [], ◌∷◌, ◌++◌, ◌≡◌, refl, sym, ◌∙◌, ap, ◌==◌, string_eq, lookup,
  insert, lookup-insert, Bool-cases, inl, inr, or_else, if◌then◌else◌, eq→≡, eq_self, subst, arith,
}
use solsight_api.Events.{EventHandler, ByChannel, add_channels, group_handlers}

-- A handler once for each time that it names the channel
unfoldable pub named : String → EventHandler → List String → List EventHandler
named j h [] = []
named j h (channel ∷ channels) =
    let rest = named j h channels in if channel == j then h ∷ rest else rest

-- The handlers that name a channel, in the order in which they were found
unfoldable pub wanted : String → List EventHandler → List EventHandler
unfolding named
wanted j [] = []
wanted j (h ∷ hs) = named j h h.channels ++ wanted j hs

append_assoc : (xs ys zs : List EventHandler) → (xs ++ ys) ++ zs ≡ xs ++ (ys ++ zs)
append_assoc [] ys zs = refl
append_assoc (x ∷ xs) ys zs = ap (λ (l : List EventHandler). x ∷ l) (append_assoc xs ys zs)

append_nil : (xs : List EventHandler) → xs ++ [] ≡ xs
append_nil [] = refl
append_nil (x ∷ xs) = ap (λ (l : List EventHandler). x ∷ l) (append_nil xs)

-- A key occurs once.
abbrev pub IsUnique : ByChannel → Type 0
IsUnique [] = Unit {0}
IsUnique ((channel, hs) ∷ rest) = (lookup channel rest ≡ none) × IsUnique rest

flipped : (a b : String) → (a == b) ≡ false → (b == a) ≡ false
flipped a b other = grind (arith, eq→≡ b a, eq_self a)

insert-IsUnique :
    (key : String) (hs : List EventHandler) (m : ByChannel)
    → IsUnique m
    → IsUnique (insert key hs m)
unfolding insert lookup
insert-IsUnique key hs [] _ = (refl, tt)
insert-IsUnique key hs ((k, old) ∷ rest) (once, unique) = elim (Bool-cases (k == key)) [
  | inl same ↦ rw same (subst (λ (c : String). lookup c rest ≡ none) (eq→≡ k key same) once, unique)
  | inr other ↦
      rw other (rw (lookup-insert, flipped k key other) once, insert-IsUnique key hs rest unique)
]

add_channels-IsUnique :
    (h : EventHandler) (cs : List String) (m : ByChannel)
    → IsUnique m
    → IsUnique (add_channels h cs m)
unfolding add_channels
add_channels-IsUnique h [] m unique = unique
add_channels-IsUnique h (c ∷ cs) m unique =
    add_channels-IsUnique h cs _ (insert-IsUnique c (or_else (lookup c m) [] ++ h ∷ []) m unique)

pub group_handlers-IsUnique :
    (hs : List EventHandler) (m : ByChannel) → IsUnique m → IsUnique (group_handlers hs m)
unfolding group_handlers
group_handlers-IsUnique [] m unique = unique
group_handlers-IsUnique (h ∷ hs) m unique =
    group_handlers-IsUnique hs _ (add_channels-IsUnique h h.channels m unique)

add_one :
    (j c : String) (h : EventHandler) (m : ByChannel)
    → or_else (lookup j (insert c (or_else (lookup c m) [] ++ h ∷ []) m)) []
      ≡ (if c == j then or_else (lookup j m) [] ++ h ∷ [] else or_else (lookup j m) [])
add_one j c h m = elim (Bool-cases (c == j)) [
  | inl same ↦ rw (← eq→≡ c j same) (rw (lookup-insert, eq_self c))
  | inr other ↦ rw (lookup-insert, other)
]

add_channels_lem :
    (j : String) (h : EventHandler) (cs : List String) (m : ByChannel)
    → or_else (lookup j (add_channels h cs m)) [] ≡ or_else (lookup j m) [] ++ named j h cs
unfolding add_channels named
add_channels_lem j h [] m = sym (append_nil (or_else (lookup j m) []))
add_channels_lem j h (c ∷ cs) m =
    add_channels_lem j h cs (insert c (or_else (lookup c m) [] ++ h ∷ []) m)
    ∙ rw (add_one j c h m) (elim (Bool-cases (c == j)) [
      | inl same ↦ rw same (append_assoc (or_else (lookup j m) []) (h ∷ []) (named j h cs))
      | inr other ↦ rw other
    ])

pub group_handlers_lem :
    (j : String) (hs : List EventHandler) (m : ByChannel)
    → or_else (lookup j (group_handlers hs m)) [] ≡ or_else (lookup j m) [] ++ wanted j hs
unfolding group_handlers wanted
group_handlers_lem j [] m = sym (append_nil (or_else (lookup j m) []))
group_handlers_lem j (h ∷ hs) m =
    group_handlers_lem j hs (add_channels h h.channels m)
    ∙ rw (add_channels_lem j h h.channels m)
        (append_assoc (or_else (lookup j m) []) (named j h h.channels) (wanted j hs))
