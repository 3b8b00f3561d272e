-- ===== src/Tokens/Holders/Buffer.antt =====
-- holder-aggregation.service.ts: the buffer names each row by its unique columns.
use text.Mathlib.TextEquality.{eq_iff}
use solsight_api.Prelude.{
  String, Option, none, some, List, [], ◌∷◌, ◌≡◌, refl, sym, ap, subst, arith, string_eq, ◌==◌,
  eq_self, eq→≡, lookup, insert, delete, lookup-insert, lookup-delete, if◌then◌else◌, Bool-cases,
  inl, inr, Table, ◌∙◌,
}
use solsight_api.Prelude.Text.{◌⊕◌, split, Lacks, split-Lacks, split_colon}
use solsight_api.Tokens.Holders.{
  Arithmetic, HolderCommands, HolderUpsertRow, HolderKey, holder_key, holder_buffer_key, rows_of,
  save_all, put_back,
}

pub split-holder_buffer_key :
    (network mint wallet : String)
    → Lacks b':' network
    → Lacks b':' mint
    → Lacks b':' wallet
    → split b':' (holder_buffer_key network mint wallet) ≡ network ∷ mint ∷ wallet ∷ []
unfolding holder_buffer_key
split-holder_buffer_key network mint wallet n m w =
    split_colon network (mint ⊕ ":" ⊕ wallet) n
    ∙ ap (λ (ws : List String). network ∷ ws)
        (split_colon mint wallet m
          ∙ ap (λ (ws : List String). mint ∷ ws) (split-Lacks b':' wallet w))

-- The row in the buffer, or else the one in the table
abbrev pub over {ℓ} : {A : Type ℓ} → Option A → Option A → Option A
over (some r) below = some r
over none below = below

module _ (num : Arithmetic) where
  abbrev pub Row : Type 0
  Row = HolderUpsertRow num

  abbrev pub Entries : Type 0
  Entries = List (String × Row)

  -- The entry's key is made of the row's columns, and they are read back from it.
  pub record Named (k : String) (r : Row) : Type 0 where
    pub made : k ≡ holder_buffer_key r.network r.token_mint r.wallet
    pub parts : split b':' k ≡ r.network ∷ r.token_mint ∷ r.wallet ∷ []

  abbrev pub IsBuffer : Entries → Type 0
  IsBuffer [] = Unit
  IsBuffer ((k, r) ∷ rest) = Named k r × (lookup k rest ≡ none) × IsBuffer rest

  pub Named-key :
      (k : String) (r q : Row) → Named k r → Named k q → holder_key num r ≡ holder_key num q
  Named-key k r q a b = let e = sym a.parts ∙ b.parts in cc

  pub Named-key_back :
      (j k : String) (r q : Row)
      → Named j r
      → Named k q
      → holder_key num r ≡ holder_key num q
      → j ≡ k
  Named-key_back j k r q a b e =
      a.made ∙ ap (λ (h : HolderKey num). holder_buffer_key h.0.1 h.0.0 h.1) e ∙ sym b.made

  pub insert-IsBuffer :
      (k : String) (r : Row) (es : Entries) → Named k r → IsBuffer es → IsBuffer (insert k r es)
  unfolding insert lookup
  insert-IsBuffer k r [] n h = (n, refl, tt)
  insert-IsBuffer k r ((j, q) ∷ es) n (m, fresh, h) = elim (Bool-cases (j == k)) [
    | inl same ↦ rw same (n, rw (← eq→≡ j k same) fresh, h)
    | inr other ↦ rw other (
      m,
      ground (arith, fresh, other, lookup-insert k j r es, eq_iff k j, eq_iff j k),
      insert-IsBuffer k r es n h,
    )
  ]

  pub delete-IsBuffer : (k : String) (es : Entries) → IsBuffer es → IsBuffer (delete k es)
  unfolding delete
  delete-IsBuffer k [] h = tt
  delete-IsBuffer k ((j, q) ∷ es) (m, fresh, h) = elim (Bool-cases (j == k)) [
    | inl same ↦ rw same (delete-IsBuffer k es h)
    | inr other ↦ rw other (
      m,
      ground (arith, fresh, other, lookup-delete k j es, eq_iff k j, eq_iff j k),
      delete-IsBuffer k es h,
    )
  ]

  module _ (c : HolderCommands) (t : Table (holder_key num)) (kb : String) (target : Row)
      (named : Named kb target) where
    abbrev pub kd : HolderKey num
    kd = holder_key num target

    pub find-save_all :
        (es : Entries) (holders : t.State)
        → IsBuffer es
        → t.find kd (save_all num c t (rows_of num c t es) holders)
          ≡ over (lookup kb es) (t.find kd holders)
    unfolding lookup
    find-save_all [] holders h = refl
    find-save_all ((j, r) ∷ es) holders (m, fresh, h) = elim (Bool-cases (j == kb)) [
      | inl same ↦
          let own = eq→≡ j kb same in
          let at_kb = rw own at fresh in
          rw same (
            find-save_all es (t.save r holders) h
            ∙ rw at_kb (t.find-save_self kd r holders (Named-key kb r target (rw own at m) named)))
      | inr other ↦ rw other (
          find-save_all es (t.save r holders) h
          ∙ ap (over (lookup kb es)) (
              t.find-save_ne kd r holders
                (λ q. cc (rw (Named-key_back j kb r target m named q, eq_self kb) at other))))
    ]

    pub lookup-put_back :
        (es before : Entries)
        → IsBuffer es
        → lookup kb (put_back num c t (rows_of num c t es) before)
          ≡ over (lookup kb es) (lookup kb before)
    unfolding lookup
    lookup-put_back [] before h = refl
    lookup-put_back ((j, r) ∷ es) before (m, fresh, h) =
        subst
          (λ (k : String).
            lookup kb (put_back num c t (rows_of num c t es) (insert k r before))
            ≡ over (if j == kb then some r else lookup kb es) (lookup kb before))
          m.made
          (lookup-put_back es (insert j r before) h ∙ elim (Bool-cases (j == kb)) [
            | inl same ↦
                let own = eq→≡ j kb same in
                let at_kb = rw own at fresh in rw (lookup-insert j kb r before, same) (rw at_kb)
            | inr other ↦ rw (lookup-insert j kb r before, other)
          ])

  module _ (c : HolderCommands) (t : Table (holder_key num)) where
    pub put_back-IsBuffer :
        (es before : Entries)
        → IsBuffer es
        → IsBuffer before
        → IsBuffer (put_back num c t (rows_of num c t es) before)
    put_back-IsBuffer [] before h k = k
    put_back-IsBuffer ((j, r) ∷ es) before (m, fresh, h) k =
        subst (λ (k : String). IsBuffer (put_back num c t (rows_of num c t es) (insert k r before)))
          m.made (put_back-IsBuffer es (insert j r before) h (insert-IsBuffer j r before m k))
