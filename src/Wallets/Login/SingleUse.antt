-- ===== src/Wallets/Login/SingleUse.antt =====
-- auth.service.ts: a signed nonce opens one session only.
use mathlib.Core.Option
use solsight_api.Prelude.{Option}
