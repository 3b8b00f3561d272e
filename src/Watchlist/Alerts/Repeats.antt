-- ===== src/Watchlist/Alerts/Repeats.antt =====
-- wallet-alert-checker.service.ts: an event that arrives again notifies nobody.
use solsight_api.Prelude.{
  ℕ, String, Bool, true, false, ◌&&◌, not, List, [], ◌∷◌, keep, ◌≡◌, ◌⊎◌, inl, inr, refl, sym, ap,
  subst, arith, All, Bool-cases, string_eq, ◌==◌, ≡→eq, eq_self, ◌∙◌,
}
use solsight_api.Watchlist.Alerts.{
  WalletAlert, Notice, is_seen, seen_at, update_last_checked, get_all_active_alerts_for_wallet,
  check_alerts, check_wallet, handle_payment_transfer_event, is_large_transfer,
}

module _ (fires : WalletAlert → Bool) (signature : String) where
  abbrev due : WalletAlert → Bool
  due a = fires a && not (is_seen signature a)

  abbrev is_of : String → WalletAlert → Bool
  is_of address a = a.is_active && (a.wallet_address == address)

  -- An alert of the wallet is not due.
  abbrev IsQuiet : String → WalletAlert → Type 0
  IsQuiet address a = is_of address a ≡ true → due a ≡ false

  seen-IsQuiet : (address : String) (a : WalletAlert) → IsQuiet address (seen_at signature a)
  seen-IsQuiet address a own = rw (eq_self signature) (ground arith)

  abbrev IsIn : WalletAlert → List WalletAlert → Type 0
  IsIn r [] = ⊥
  IsIn r (a ∷ alerts) = (r ≡ a) ⊎ IsIn r alerts

  -- An alert is quiet, or still to come in the loop.
  abbrev Waits : String → List WalletAlert → WalletAlert → Type 0
  Waits address alerts r = IsQuiet address r ⊎ IsIn r alerts

  All-weaken :
      {P Q : WalletAlert → Type 0} (rows : List WalletAlert)
      → ((r : WalletAlert) → P r → Q r)
      → All P rows
      → All Q rows
  All-weaken [] f h = tt
  All-weaken (r ∷ rows) f (p, h) = (f r p, All-weaken rows f h)

  one_more :
      (address : String) (a : WalletAlert) (alerts : List WalletAlert) (r : WalletAlert)
      → Waits address alerts r
      → Waits address (a ∷ alerts) r
  one_more address a alerts r (inl quiet) = inl quiet
  one_more address a alerts r (inr coming) = inr (inr coming)

  start-Waits :
      (address : String) (rows : List WalletAlert)
      → All (Waits address (keep (is_of address) rows)) rows
  start-Waits address [] = tt
  start-Waits address (r ∷ rows) =
      let later = keep (is_of address) rows in
      elim (Bool-cases (is_of address r)) [
        | inl own ↦
            let e : keep (is_of address) (r ∷ rows) ≡ r ∷ later = rw own in
            subst (λ (alerts : List WalletAlert). All (Waits address alerts) (r ∷ rows)) (sym e)
              (
                inr (inl refl),
                All-weaken rows (one_more address r later) (start-Waits address rows),
              )
        | inr other ↦
            let e : keep (is_of address) (r ∷ rows) ≡ later = rw other in
            subst (λ (alerts : List WalletAlert). All (Waits address alerts) (r ∷ rows)) (sym e)
              (inl (λ own. cc), start-Waits address rows)
      ]

  -- The loop passes an alert that is not due.
  passed :
      (address : String) (a : WalletAlert) (alerts : List WalletAlert) (r : WalletAlert)
      → due a ≡ false
      → Waits address (a ∷ alerts) r
      → Waits address alerts r
  passed address a alerts r quiet (inl done) = inl done
  passed address a alerts r quiet (inr (inl same)) = inl (λ own. ap due same ∙ quiet)
  passed address a alerts r quiet (inr (inr coming)) = inr coming

  -- The loop marks the rows of one that is due.
  marked :
      (address : String) (a : WalletAlert) (alerts rows : List WalletAlert)
      → All (Waits address (a ∷ alerts)) rows
      → All (Waits address alerts) (update_last_checked a.id signature rows)
  unfolding update_last_checked
  marked address a alerts [] h = tt
  marked address a alerts (r ∷ rows) (w, h) = elim (Bool-cases (r.id == a.id)) [
    | inl same ↦ rw same (inl (seen-IsQuiet address r), marked address a alerts rows h)
    | inr other ↦ rw other (still w other, marked address a alerts rows h)
  ]
    where
      still :
          {r : WalletAlert}
          → Waits address (a ∷ alerts) r
          → (r.id == a.id) ≡ false
          → Waits address alerts r
      still (inl done) other = inl done
      still (inr (inl e)) other = cc (≡→eq _ _ (ap (λ (x : WalletAlert). x.id) e), other)
      still (inr (inr coming)) other = inr coming

  checked :
      (address : String) (text : WalletAlert → String) (alerts rows : List WalletAlert)
      (out : List Notice)
      → All (Waits address alerts) rows
      → All (IsQuiet address) (check_alerts fires signature text alerts (rows, out)).0
  unfolding check_alerts
  checked address text [] rows out h = All-weaken rows settled h
    where
      settled : (r : WalletAlert) → Waits address [] r → IsQuiet address r
      settled r (inl quiet) = quiet
      settled r (inr coming) = absurd coming
  checked address text (a ∷ alerts) rows out h = elim (Bool-cases (due a)) [
    | inl now ↦ rw now (
        checked address text alerts (update_last_checked a.id signature rows) _
          (marked address a alerts rows h))
    | inr quiet ↦ rw quiet (
        checked address text alerts rows out
          (All-weaken rows (λ r. passed address a alerts r quiet) h))
  ]

  -- The other way round: marks leave a quiet wallet quiet.
  update-IsQuiet :
      (address id : String) (rows : List WalletAlert)
      → All (IsQuiet address) rows
      → All (IsQuiet address) (update_last_checked id signature rows)
  unfolding update_last_checked
  update-IsQuiet address id [] h = tt
  update-IsQuiet address id (r ∷ rows) (q, h) = elim (Bool-cases (r.id == id)) [
    | inl same ↦ rw same (seen-IsQuiet address r, update-IsQuiet address id rows h)
    | inr other ↦ rw other (q, update-IsQuiet address id rows h)
  ]

  check-IsQuiet :
      (address : String) (text : WalletAlert → String) (alerts rows : List WalletAlert)
      (out : List Notice)
      → All (IsQuiet address) rows
      → All (IsQuiet address) (check_alerts fires signature text alerts (rows, out)).0
  unfolding check_alerts
  check-IsQuiet address text [] rows out h = h
  check-IsQuiet address text (a ∷ alerts) rows out h = elim (Bool-cases (due a)) [
    | inl now ↦ rw now (
        check-IsQuiet address text alerts (update_last_checked a.id signature rows) _
          (update-IsQuiet address a.id rows h))
    | inr quiet ↦ rw quiet (check-IsQuiet address text alerts rows out h)
  ]

  -- A loop over alerts that are not due does nothing.
  idle :
      (text : WalletAlert → String) (alerts rows : List WalletAlert) (out : List Notice)
      → All (λ a. due a ≡ false) alerts
      → check_alerts fires signature text alerts (rows, out) ≡ (rows, out)
  unfolding check_alerts
  idle text [] rows out h = refl
  idle text (a ∷ alerts) rows out (q, h) = rw q (idle text alerts rows out h)

  own_quiet :
      (address : String) (rows : List WalletAlert)
      → All (IsQuiet address) rows
      → All (λ a. due a ≡ false) (keep (is_of address) rows)
  own_quiet address [] h = tt
  own_quiet address (r ∷ rows) (q, h) = elim (Bool-cases (is_of address r)) [
    | inl own ↦ rw own (q own, own_quiet address rows h)
    | inr other ↦ rw other (own_quiet address rows h)
  ]

  wallet_idle :
      (text : WalletAlert → String) (address : String) (rows : List WalletAlert) (out : List Notice)
      → All (IsQuiet address) rows
      → check_wallet fires signature text address (rows, out) ≡ (rows, out)
  unfolding check_wallet get_all_active_alerts_for_wallet
  wallet_idle text address rows out h =
      idle text (keep (is_of address) rows) rows out (own_quiet address rows h)

  wallet-IsQuiet :
      (text : WalletAlert → String) (address : String) (rows : List WalletAlert) (out : List Notice)
      → All (IsQuiet address) (check_wallet fires signature text address (rows, out)).0
  unfolding check_wallet get_all_active_alerts_for_wallet
  wallet-IsQuiet text address rows out =
      checked address text (keep (is_of address) rows) rows out (start-Waits address rows)

  wallet_keeps :
      (text : WalletAlert → String) (address other : String) (rows : List WalletAlert)
      (out : List Notice)
      → All (IsQuiet other) rows
      → All (IsQuiet other) (check_wallet fires signature text address (rows, out)).0
  unfolding check_wallet get_all_active_alerts_for_wallet
  wallet_keeps text address other rows out h =
      check-IsQuiet other text (keep (is_of address) rows) rows out h

  -- Two wallets, and both again
  twice :
      (f g : WalletAlert → String) (from to : String) (s : List WalletAlert × List Notice)
      → check_wallet fires signature g to (
          check_wallet fires signature f from
            (check_wallet fires signature g to (check_wallet fires signature f from s)))
        ≡ check_wallet fires signature g to (check_wallet fires signature f from s)
  twice f g from to (rows, out) =
      let one = check_wallet fires signature f from (rows, out) in
      let both = check_wallet fires signature g to one in
      let from_quiet : All (IsQuiet from) both.0 =
        wallet_keeps g to from one.0 one.1 (wallet-IsQuiet f from rows out) in
      let to_quiet : All (IsQuiet to) both.0 = wallet-IsQuiet g to one.0 one.1 in
      ap (check_wallet fires signature g to) (wallet_idle f from both.0 both.1 from_quiet)
      ∙ wallet_idle g to both.0 both.1 to_quiet

-- A transfer that is reported a second time, with no other report in between, changes no alert and
-- tells nobody, also where a wallet sends to itself or both wallets are watched.
pub handle_payment_transfer_event_twice :
    (from to signature : String) (lamports : ℕ) (text : String → WalletAlert → String)
    (s : List WalletAlert × List Notice)
    → handle_payment_transfer_event from to signature lamports text
        (handle_payment_transfer_event from to signature lamports text s)
      ≡ handle_payment_transfer_event from to signature lamports text s
unfolding handle_payment_transfer_event
handle_payment_transfer_event_twice from to signature lamports text s =
    twice (is_large_transfer lamports) signature (text from) (text to) from to s
