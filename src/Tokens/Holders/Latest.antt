-- ===== src/Tokens/Holders/Latest.antt =====
-- holder-aggregation.service.ts: the buffer over the table is the latest state of each holder, where
-- every update and every removal is over before the next call begins.
use solsight_api.Prelude.{
  ℕ, String, Bool, true, false, Option, none, some, List, [], ◌∷◌, ◌≡◌, refl, sym, ap, string_eq,
  pair_eq, ◌==◌, eq→≡, ≡→eq, eq_of_iff, or_else, lookup, lookup-insert, lookup-delete,
  if◌then◌else◌, Bool-cases, inl, inr, Table, ◌∙◌, All,
}
use solsight_api.Prelude.Text.{Lacks, includes, includes-Lacks}
use solsight_api.Cluster.{Cluster, mainnet, devnet, cluster_name}
use solsight_api.Tokens.Holders.{
  Arithmetic, HolderCommands, HolderUpdateEvent, HolderUpsertRow, HolderKey, holder_key,
  holder_buffer_key, HolderState, rows_of, put_back, upsert_row, queue_holder_upsert, remove_holder,
  delete_holder_state, store_holder, unstore_holder, unqueue_holder, to_number, to_int,
  on_holder_update, flush_begin, flush_end, flush_holder_upserts,
}
use solsight_api.Tokens.Holders.Buffer.{
  Named, IsBuffer, Named-key, Named-key_back, insert-IsBuffer, delete-IsBuffer, over, find-save_all,
  lookup-put_back, put_back-IsBuffer, split-holder_buffer_key,
}

cluster_name-Lacks : (k : Cluster) → Lacks b':' (cluster_name k)
unfolding includes
cluster_name-Lacks mainnet = includes-Lacks b':' "mainnet" refl
cluster_name-Lacks devnet = includes-Lacks b':' "devnet" refl

over-over {ℓ} : {A : Type ℓ} (o d : Option A) → over (over o none) d ≡ over o d
over-over none d = refl
over-over (some a) d = refl

module _ (num : Arithmetic) (c : HolderCommands) (t : Table (holder_key num)) where
  abbrev Row : Type 0
  Row = HolderUpsertRow num

  abbrev State : Type 0
  State = HolderState num c t

  abbrev pub Event : Type 0
  Event = HolderUpdateEvent num

  -- What happens to the buffer: an update, whose removal the database answers, and a flush
  pub data HolderCall : Type 0 where
    updates : (now : ℕ) → Event → HolderCall
    flushes : (stores : Bool) → HolderCall

  unfoldable pub call : HolderCall → State → State
  call (updates now e) s = on_holder_update num c t true now e s
  call (flushes stores) s = flush_holder_upserts num c t stores s

  abbrev pub calls : List HolderCall → State → State
  calls [] s = s
  calls (k ∷ ks) s = calls ks (call k s)

  -- The mint and the wallet of an update have no colon, as addresses have none.
  abbrev pub IsPlain : HolderCall → Type 0
  IsPlain (updates now e) = Lacks b':' e.mint × Lacks b':' e.wallet
  IsPlain (flushes stores) = Unit

  abbrev event_key : Event → HolderKey num
  event_key e = ((e.mint, cluster_name e.network), e.wallet)

  abbrev buffer_key : Event → String
  buffer_key e = holder_buffer_key (cluster_name e.network) e.mint e.wallet

  event-Named :
      (now : ℕ) (e : Event)
      → Lacks b':' e.mint
      → Lacks b':' e.wallet
      → Named num (buffer_key e) (upsert_row num e now)
  unfolding upsert_row
  event-Named now e m w = record {
    made = refl;
    parts =
        split-holder_buffer_key (cluster_name e.network) e.mint e.wallet
          (cluster_name-Lacks e.network) m w;
  }

  call-IsBuffer :
      (k : HolderCall) (s : State)
      → IsPlain k
      → IsBuffer num s.buffer
      → IsBuffer num (call k s).buffer
  unfolding call on_holder_update queue_holder_upsert store_holder remove_holder unstore_holder
      unqueue_holder delete_holder_state flush_holder_upserts flush_begin flush_end
  call-IsBuffer (updates now e) s (m, w) h = elim (Bool-cases e.is_removed) [
    | inl gone ↦ rw gone (delete-IsBuffer num (buffer_key e) s.buffer h)
    | inr kept ↦ rw kept (
        insert-IsBuffer num (buffer_key e) (upsert_row num e now) s.buffer (event-Named now e m w)
          h)
  ]
  call-IsBuffer (flushes true) s p h = tt
  call-IsBuffer (flushes false) s p h = put_back-IsBuffer num c t s.buffer [] h tt

  abbrev finite : Option num.Number → num.Number
  finite none = num.zero
  finite (some x) = if num.is_finite x then x else num.zero

  module _ (cluster : Cluster) (mint wallet : String) where
    abbrev pub kd : HolderKey num
    kd = ((mint, cluster_name cluster), wallet)

    abbrev kb : String
    kb = holder_buffer_key (cluster_name cluster) mint wallet

    -- The row that an update reports, column by column; a total that is missing or no finite number is 0
    abbrev pub reported : ℕ → Event → Row
    reported now e = record {
      token_mint = e.mint;
      network = cluster_name e.network;
      wallet = e.wallet;
      balance = num.text e.balance;
      last_active_slot = e.last_active_slot;
      last_active_ts = e.last_active_ts;
      total_bought_raw = num.text (or_else e.total_bought_raw num.zero);
      total_sold_raw = num.text (or_else e.total_sold_raw num.zero);
      total_bought_usd = finite e.total_bought_usd;
      total_sold_usd = finite e.total_sold_usd;
      buy_tx_count = num.whole (or_else e.buy_tx_count num.zero);
      sell_tx_count = num.whole (or_else e.sell_tx_count num.zero);
      updated_at = now;
    }

    finite_lem : (x : Option num.Number) → to_number num x ≡ finite x
    finite_lem none = refl
    finite_lem (some x) = refl

    whole_lem : (x : Option num.Number) → to_int num x ≡ num.whole (or_else x num.zero)
    whole_lem none = refl
    whole_lem (some x) = refl

    reported_lem : (now : ℕ) (e : Event) → upsert_row num e now ≡ reported now e
    unfolding upsert_row
    reported_lem now e = rw (
      finite_lem e.total_bought_usd,
      finite_lem e.total_sold_usd,
      whole_lem e.buy_tx_count,
      whole_lem e.sell_tx_count,
    )

    -- What a holder's row should be after the calls: that of its last update
    abbrev pub wanted : List HolderCall → Option Row → Option Row
    wanted [] before = before
    wanted (updates now e ∷ ks) before = wanted ks (
        if event_key e == kd
        then (if e.is_removed then none else some (reported now e))
        else before)
    wanted (flushes stores ∷ ks) before = wanted ks before

    abbrev pub view : State → Option Row
    view s = over (lookup kb s.buffer) (t.find kd s.holders)

    -- A row with these columns, to name the entry by
    named_row : Row
    named_row = record {
      token_mint = mint;
      network = cluster_name cluster;
      wallet = wallet;
      balance = "0";
      last_active_slot = num.zero;
      last_active_ts = num.zero;
      total_bought_raw = "0";
      total_sold_raw = "0";
      total_bought_usd = num.zero;
      total_sold_usd = num.zero;
      buy_tx_count = num.zero;
      sell_tx_count = num.zero;
      updated_at = 0;
    }

    module _ (plain_mint : Lacks b':' mint) (plain_wallet : Lacks b':' wallet) where
      row_Named : Named num kb named_row
      unfolding named_row
      row_Named = record {
        made = refl;
        parts =
            split-holder_buffer_key (cluster_name cluster) mint wallet (cluster_name-Lacks cluster)
              plain_mint plain_wallet;
      }

      -- The names in the buffer tell holders apart.
      same_holder :
          (e : Event)
          → Lacks b':' e.mint
          → Lacks b':' e.wallet
          → (buffer_key e == kb) ≡ (event_key e == kd)
      unfolding named_row upsert_row
      same_holder e m w =
          let own = event-Named 0 e m w in
          eq_of_iff (buffer_key e == kb) (event_key e == kd)
            (λ same. ≡→eq (event_key e) kd (
              Named-key num kb (upsert_row num e 0) named_row
                (rw (eq→≡ (buffer_key e) kb same) at own) row_Named))
            (λ same. ≡→eq (buffer_key e) kb (
              Named-key_back num (buffer_key e) kb (upsert_row num e 0) named_row own row_Named
                (eq→≡ (event_key e) kd same)))

      view-update :
          (now : ℕ) (e : Event) (s : State)
          → Lacks b':' e.mint
          → Lacks b':' e.wallet
          → view (call (updates now e) s) ≡ (
              if event_key e == kd
              then (if e.is_removed then none else some (upsert_row num e now))
              else view s)
      unfolding call on_holder_update queue_holder_upsert store_holder remove_holder unstore_holder
          unqueue_holder delete_holder_state
      view-update now e s m w = rw (← same_holder e m w) (elim (Bool-cases e.is_removed) [
        | inr kept ↦
            rw (kept, lookup-insert)
              (elim (Bool-cases (buffer_key e == kb)) [ inl same ↦ rw same | inr other ↦ rw other ])
        | inl gone ↦
            rw (gone, lookup-delete)
              (elim (Bool-cases (buffer_key e == kb)) [
                | inl same ↦ rw same (
                    ap (λ (k : HolderKey num). t.find kd (t.remove k s.holders))
                      (eq→≡ (event_key e) kd (sym (same_holder e m w) ∙ same))
                    ∙ t.find-remove_self kd s.holders)
                | inr other ↦ rw other (
                    ap (over (lookup kb s.buffer)) (
                      t.find-remove_ne (event_key e) kd s.holders
                        (λ q. cc (≡→eq (event_key e) kd q, same_holder e m w, other))))
              ])
      ])

      view-flush :
          (stores : Bool) (s : State)
          → IsBuffer num s.buffer
          → view (call (flushes stores) s) ≡ view s
      unfolding call flush_holder_upserts flush_begin flush_end lookup named_row
      view-flush true s h = find-save_all num c t kb named_row row_Named s.buffer s.holders h
      view-flush false s h =
          rw (lookup-put_back num c t kb named_row row_Named s.buffer [] h)
            (over-over (lookup kb s.buffer) (t.find kd s.holders))

      calls-view :
          (ks : List HolderCall) (s : State)
          → All IsPlain ks
          → IsBuffer num s.buffer
          → (view (calls ks s) ≡ wanted ks (view s)) × IsBuffer num (calls ks s).buffer
      calls-view [] s _ h = (refl, h)
      calls-view (updates now e ∷ ks) s ((m, w), ps) h =
          let (later, kept) =
            calls-view ks (call (updates now e) s) ps (call-IsBuffer (updates now e) s (m, w) h) in
          (later ∙ ap (wanted ks) (view-update now e s m w ∙ rw (reported_lem now e)), kept)
      calls-view (flushes stores ∷ ks) s (_, ps) h =
          let (later, kept) =
            calls-view ks (call (flushes stores) s) ps (call-IsBuffer (flushes stores) s tt h) in
          (later ∙ ap (wanted ks) (view-flush stores s h), kept)

      -- Where every update, removal and flush is over before the next call begins, no mint and no wallet
      -- has a colon, the database answers each removal and the buffer is empty at the start: whatever is
      -- reported and however many flushes fail, the next flush that the database answers leaves each
      -- holder's row with the columns of its last report, or no row after a removal.
      pub flush-last_report :
          (ks : List HolderCall) (s : State)
          → All IsPlain ks
          → s.buffer ≡ []
          → t.find kd (call (flushes true) (calls ks s)).holders ≡ wanted ks (t.find kd s.holders)
      unfolding call flush_holder_upserts flush_begin flush_end named_row lookup
      flush-last_report ks s plain empty =
          let (seen, kept) = calls-view ks s plain (rw empty tt) in
          find-save_all num c t kb named_row row_Named (calls ks s).buffer (calls ks s).holders kept
          ∙ seen
          ∙ ap (wanted ks) (rw empty refl)

      -- Where the buffer is empty at the start and no mint and no wallet has a colon, a flush that takes
      -- the row of a holder and fails puts it back over whatever other calls, each of them whole, were
      -- made during its wait: however the holder was updated or removed in the meantime, its old row is
      -- in the buffer again and, after a next flush that the database answers, in the table.
      pub flush_end-overtakes :
          (before during : List HolderCall) (s : State) (r : Row)
          → All IsPlain before
          → All IsPlain during
          → s.buffer ≡ []
          → lookup kb (calls before s).buffer ≡ some r
          → let failed =
              flush_end num c t false
                (flush_begin num c t (calls before s)).0
                (calls during (flush_begin num c t (calls before s)).1) in
            (lookup kb failed.buffer ≡ some r)
            × (t.find kd (call (flushes true) failed).holders ≡ some r)
      unfolding call flush_holder_upserts flush_begin flush_end named_row
      flush_end-overtakes before during s r plain plain_during empty queued =
          let (_, kept) = calls-view before s plain (rw empty tt) in
          let taken : State = (flush_begin num c t (calls before s)).1 in
          let es = (calls before s).buffer in
          let (_, still) = calls-view during taken plain_during tt in
          let between = (calls during taken).buffer in
          let back = lookup-put_back num c t kb named_row row_Named es between kept in
          (
            rw (back, queued) refl,
            find-save_all num c t kb named_row row_Named
                  (put_back num c t (rows_of num c t es) between) (calls during taken).holders
                  (put_back-IsBuffer num c t es between kept still)
                ∙ rw (back, queued) refl,
          )
